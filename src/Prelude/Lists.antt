-- ===== src/Prelude/Lists.antt =====
-- Lists measured by native numbers, Boolean searches of a list, and two predicates by recursion.
use Prim.Native.Nat.{ℕ, zero, suc, ◌+◌, ◌≤◌, ◌<◌}
use mathlib.Core.Path.{◌≡◌, refl, ap}
use mathlib.Core.Logic.{◌↔◌, ◌⊎◌, inl, inr}
use mathlib.Core.Bool.{Bool, true, false, ◌&&◌, ◌||◌}
use mathlib.Core.List.{List, [], ◌∷◌, ◌++◌, map}
use mathlib.Core.Option.{Option, none, some}
use native.Mathlib.Omega.{arith}
use tx3_lift.Prelude.Tests.{if◌then◌else◌, Bool-cases}

module _ {ℓ} {A : Type ℓ} where
  abbrev pub length : List A → ℕ
  length [] = 0
  length (x ∷ xs) = suc (length xs)

  abbrev pub get_elem? : List A → ℕ → Option A
  get_elem? [] i = none
  get_elem? (x ∷ xs) zero = some x
  get_elem? (x ∷ xs) (suc i) = get_elem? xs i

  abbrev pub is_empty : List A → Bool
  is_empty [] = true
  is_empty (x ∷ xs) = false

  abbrev pub all : (A → Bool) → List A → Bool
  all p [] = true
  all p (x ∷ xs) = p x && all p xs

  abbrev pub any : (A → Bool) → List A → Bool
  any p [] = false
  any p (x ∷ xs) = p x || any p xs

  -- `iter.filter(p).count()`
  abbrev pub count_if : (A → Bool) → List A → ℕ
  count_if p [] = 0
  count_if p (x ∷ xs) = if p x then suc (count_if p xs) else count_if p xs

  -- `retain`, `filter`
  abbrev pub retain : (A → Bool) → List A → List A
  retain p [] = []
  retain p (x ∷ xs) = let rest = retain p xs in if p x then x ∷ rest else rest

  -- every element satisfies `P`
  abbrev pub All {κ} : (A → Type κ) → List A → Type κ
  All Q [] = Unit
  All Q (a ∷ rest) = Q a × All Q rest

  -- `R` holds of every earlier element and every later one
  abbrev pub Pairwise {κ} : (A → A → Type κ) → List A → Type κ
  Pairwise R [] = Unit
  Pairwise R (x ∷ xs) = All (R x) xs × Pairwise R xs

-- `a` is an element of the list.
abbrev pub In : {A : Type 0} → A → List A → Type 0
In a [] = ⊥
In a (x ∷ xs) = (a ≡ x) ⊎ In a xs

module _ {A : Type 0} where
  pub In-append : (a : A) (xs ys : List A) → In a (xs ++ ys) ↔ (In a xs ⊎ In a ys)
  In-append a [] ys = (λ h. inr h, elim [ inl h ↦ absurd h | inr h ↦ h ])
  In-append a (x ∷ xs) ys = (
    elim [
      | inl e ↦ inl (inl e)
      | inr h ↦ elim ((In-append a xs ys).0 h) [ inl l ↦ inl (inr l) | inr r ↦ inr r ]
    ],
    elim [
      | inl h ↦ elim h [ inl e ↦ inl e | inr l ↦ inr ((In-append a xs ys).1 (inl l)) ]
      | inr r ↦ inr ((In-append a xs ys).1 (inr r))
    ],
  )

  pub In-All {κ} : (P : A → Type κ) (xs : List A) (a : A) → All P xs → In a xs → P a
  In-All P [] a h m = absurd m
  In-All P (x ∷ xs) a h m = elim m [ inl e ↦ rw e h.0 | inr r ↦ In-All P xs a h.1 r ]

  pub All-of_In {κ} : (P : A → Type κ) (xs : List A) → ((a : A) → In a xs → P a) → All P xs
  All-of_In P [] h = tt
  All-of_In P (x ∷ xs) h = (h x (inl refl), All-of_In P xs (λ a m. h a (inr m)))

module _ {ℓ} {A : Type ℓ} where
  pub length-append : (xs ys : List A) → length (xs ++ ys) ≡ length xs + length ys
  length-append [] ys = omega arith
  length-append (x ∷ xs) ys = omega (arith, length-append xs ys)

  pub All-append {κ} :
      (Q : A → Type κ) (front back : List A) → All Q front → All Q back → All Q (front ++ back)
  All-append Q [] back f b = b
  All-append Q (a ∷ front) back (fa, f) b = (fa, All-append Q front back f b)

  pub All-imp {κ μ} :
      {P : A → Type κ} {Q : A → Type μ}
      → ((a : A) → P a → Q a)
      → (xs : List A) → All P xs
      → All Q xs
  All-imp f [] h = tt
  All-imp f (x ∷ xs) h = (f x h.0, All-imp f xs h.1)

  pub count_if-le : (p : A → Bool) (xs : List A) → count_if p xs ≤ length xs
  count_if-le p [] = omega arith
  count_if-le p (x ∷ xs) = ground (arith, count_if-le p xs)

  pub count_if_mono :
      (p q : A → Bool) (xs : List A)
      → ((a : A) → p a ≡ true → q a ≡ true)
      → count_if p xs ≤ count_if q xs
  count_if_mono p q [] h = omega arith
  count_if_mono p q (x ∷ xs) h = ground (arith, h x, count_if_mono p q xs h)

  pub count_if_pos : (p : A → Bool) (xs : List A) → (0 < count_if p xs) ↔ (any p xs ≡ true)
  count_if_pos p [] = ground arith
  count_if_pos p (x ∷ xs) = ground (arith, (count_if_pos p xs).0, (count_if_pos p xs).1)

any-In : {A : Type 0} (p : A → Bool) (xs : List A) (a : A) → In a xs → p a ≡ true → any p xs ≡ true
any-In p [] a m h = absurd m
any-In p (x ∷ xs) a m h = elim m [
  | inl e ↦ ground arith
  | inr r ↦ ground (arith, any-In p xs a r h)
]

In-any :
    {A : Type 0} (p : A → Bool) (xs : List A) → any p xs ≡ true → (a : A) × In a xs × (p a ≡ true)
In-any p [] h = cc
In-any p (x ∷ xs) h = elim (Bool-cases (p x)) [
  | inl e ↦ (x, inl refl, e)
  | inr e ↦ let (a, m, q) = In-any p xs (rw (e, ◌||◌) at h) in (a, inr m, q)
]

pub any_iff :
    {A : Type 0} (p : A → Bool) (xs : List A)
    → (any p xs ≡ true) ↔ ((a : A) × In a xs × (p a ≡ true))
any_iff p xs = (In-any p xs, λ h. any-In p xs h.0 h.1 h.2)

module _ {A : Type 0} where
  all-In : (p : A → Bool) (xs : List A) → all p xs ≡ true → (a : A) → In a xs → p a ≡ true
  all-In p [] h a m = absurd m
  all-In p (x ∷ xs) h a m = elim m [
    | inl e ↦ ground arith
    | inr r ↦ ground (arith, all-In p xs (ground arith) a r)
  ]

  all-of_In : (p : A → Bool) (xs : List A) → ((a : A) → In a xs → p a ≡ true) → all p xs ≡ true
  all-of_In p [] h = refl
  all-of_In p (x ∷ xs) h = ground (arith, h x (inl refl), all-of_In p xs (λ a m. h a (inr m)))

  pub all_iff : (p : A → Bool) (xs : List A) → (all p xs ≡ true) ↔ ((a : A) → In a xs → p a ≡ true)
  all_iff p xs = (all-In p xs, all-of_In p xs)

  pub In-retain : (p : A → Bool) (xs : List A) (a : A) → In a (retain p xs) → In a xs × (p a ≡ true)
  In-retain p [] a m = absurd m
  In-retain p (x ∷ xs) a m = elim (Bool-cases (p x)) [
    | inl e ↦ elim (rw e at m) [
      | inl h ↦ (inl h, rw h e)
      | inr r ↦ let (i, q) = In-retain p xs a r in (inr i, q)
    ]
    | inr e ↦ let (i, q) = In-retain p xs a (rw e at m) in (inr i, q)
  ]

  pub retain-In : (p : A → Bool) (xs : List A) (a : A) → In a xs → p a ≡ true → In a (retain p xs)
  retain-In p [] a m h = absurd m
  retain-In p (x ∷ xs) a m h = elim m [
    | inl e ↦ rw (rw e at h) (inl e)
    | inr r ↦ elim (Bool-cases (p x)) [
      | inl y ↦ rw y (inr (retain-In p xs a r h))
      | inr y ↦ rw y (retain-In p xs a r h)
    ]
  ]

module _ {A B : Type 0} (f : A → B) where
  pub In-map : (xs : List A) (a : A) → In a xs → In (f a) (map f xs)
  In-map [] a m = absurd m
  In-map (x ∷ xs) a m = elim m [ inl e ↦ inl (ap f e) | inr r ↦ inr (In-map xs a r) ]

  pub In-map_inv : (xs : List A) (b : B) → In b (map f xs) → (a : A) × In a xs × (b ≡ f a)
  In-map_inv [] b m = absurd m
  In-map_inv (x ∷ xs) b m = elim m [
    | inl e ↦ (x, inl refl, e)
    | inr r ↦ let (a, i, q) = In-map_inv xs b r in (a, inr i, q)
  ]

module _ {ℓ κ} {A : Type ℓ} {B : Type κ} where
  pub length-map : (xs : List A) (f : A → B) → length (map f xs) ≡ length xs
  length-map [] f = refl
  length-map (x ∷ xs) f = ap suc (length-map xs f)

module _ {ℓ} {A : Type ℓ} where
  pub any-append : (p : A → Bool) (xs ys : List A) → any p (xs ++ ys) ≡ (any p xs || any p ys)
  any-append p [] ys = refl
  any-append p (x ∷ xs) ys = ground (arith, any-append p xs ys)

  pub retain-append :
      (p : A → Bool) (xs ys : List A) → retain p (xs ++ ys) ≡ retain p xs ++ retain p ys
  retain-append p [] ys = refl
  retain-append p (x ∷ xs) ys = ground (arith, retain-append p xs ys)

  pub retain-All : (p : A → Bool) (xs : List A) → All (λ x. p x ≡ true) xs → retain p xs ≡ xs
  retain-All p [] h = refl
  retain-All p (x ∷ xs) h = rw h.0 (ap (◌∷◌ x) (retain-All p xs h.1))

  pub length-retain-le : (p : A → Bool) (xs : List A) → length (retain p xs) ≤ length xs
  length-retain-le p [] = omega arith
  length-retain-le p (x ∷ xs) = ground (arith, length-retain-le p xs)
