-- ===== src/Collections/Sort.antt =====
-- `slice::sort_by`: a stable sort, here by insertion. What the program relies on is stated for every
-- comparison whose "not greater" is transitive.
use Prim.Native.Nat.{Ordering}
use Prim.Native.Nat.Ordering.{lt, eq, gt}
use tx3_lift.Prelude.{
  ◌≡◌, refl, suc, ◌+◌, length, ◌≢◌, ◌⊎◌, inl, inr, ◌↔◌, List, [], ◌∷◌, All, All-imp, Pairwise, In,
  arith,
}
use tx3_lift.Prelude.Order.{opposite}

Ordering-cases : (c : Ordering) → (c ≡ gt) ⊎ (c ≢ gt)
Ordering-cases lt = inr (λ q. cc)
Ordering-cases eq = inr (λ q. cc)
Ordering-cases gt = inl refl

module _ {A : Type 0} (cmp : A → A → Ordering) where
  -- before the first element that is greater, so after its equals
  place : A → List A → List A
  place x [] = x ∷ []
  place x (y ∷ ys) = let rest = place x ys in elim (cmp y x) [ gt ↦ x ∷ y ∷ ys | _ ↦ y ∷ rest ]

  unfoldable pub sort_onto : List A → List A → List A
  unfolding place
  sort_onto [] done = done
  sort_onto (x ∷ xs) done = sort_onto xs (place x done)

  unfoldable pub sort_by : List A → List A
  unfolding sort_onto
  sort_by xs = sort_onto xs []

  In-place : (x a : A) (ys : List A) → In a (place x ys) → (a ≡ x) ⊎ In a ys
  unfolding place
  In-place x a [] m = m
  In-place x a (y ∷ ys) m = ground (arith, In-place x a ys)

  place-In : (x a : A) (ys : List A) → (a ≡ x) ⊎ In a ys → In a (place x ys)
  unfolding place
  place-In x a [] m = m
  place-In x a (y ∷ ys) m = ground (arith, place-In x a ys)

  All-place {κ} : (P : A → Type κ) (x : A) (ys : List A) → P x → All P ys → All P (place x ys)
  unfolding place
  All-place P x [] p h = (p, tt)
  All-place P x (y ∷ ys) p h = ground (arith, All-place P x ys p h.1)

  In-sort_onto : (xs done : List A) (a : A) → In a (sort_onto xs done) ↔ (In a xs ⊎ In a done)
  unfolding sort_onto
  In-sort_onto [] done a = (λ h. inr h, elim [ inl h ↦ absurd h | inr h ↦ h ])
  In-sort_onto (x ∷ xs) done a = (
    λ h. elim ((In-sort_onto xs (place x done) a).0 h) [
      | inl l ↦ inl (inr l)
      | inr r ↦ elim (In-place x a done r) [ inl e ↦ inl (inl e) | inr q ↦ inr q ]
    ],
    elim [
      | inl h ↦ elim h [
        | inl e ↦ (In-sort_onto xs (place x done) a).1 (inr (place-In x a done (inl e)))
        | inr l ↦ (In-sort_onto xs (place x done) a).1 (inl l)
      ]
      | inr h ↦ (In-sort_onto xs (place x done) a).1 (inr (place-In x a done (inr h)))
    ],
  )

  -- sorting keeps the elements
  pub In-sort_by : (xs : List A) (a : A) → In a (sort_by xs) ↔ In a xs
  unfolding sort_by
  In-sort_by xs a = (
    λ h. elim ((In-sort_onto xs [] a).0 h) [ inl l ↦ l | inr r ↦ absurd r ],
    λ h. (In-sort_onto xs [] a).1 (inl h),
  )

  -- a symmetric relation between all elements survives sorting
  module _ {κ} (R : A → A → Type κ) (symm : (a b : A) → R a b → R b a) where
    place-Pairwise : (x : A) (ys : List A) → All (R x) ys → Pairwise R ys → Pairwise R (place x ys)
    unfolding place
    place-Pairwise x [] h p = (tt, tt)
    place-Pairwise x (y ∷ ys) h p =
        ground (arith, place-Pairwise x ys h.1 p.1, All-place (R y) x ys (symm x y h.0) p.0)

    sort_onto-Pairwise :
        (xs done : List A)
        → Pairwise R xs
        → All (λ d. All (R d) xs) done
        → Pairwise R done
        → Pairwise R (sort_onto xs done)
    unfolding sort_onto
    sort_onto-Pairwise [] done p c q = q
    sort_onto-Pairwise (x ∷ xs) done p c q =
        sort_onto-Pairwise xs (place x done) p.1
          (All-place (λ d. All (R d) xs) x done p.0 (All-imp (λ d h. h.1) done c))
          (place-Pairwise x done (All-imp (λ d h. symm d x h.0) done c) q)

    pub sort_by-Pairwise : (xs : List A) → Pairwise R xs → Pairwise R (sort_by xs)
    unfolding sort_by
    sort_by-Pairwise xs p = sort_onto-Pairwise xs [] p tt tt

  module _ (swap : (a b : A) → cmp b a ≡ opposite (cmp a b))
      (trans : (a b c : A) → cmp a b ≢ gt → cmp b c ≢ gt → cmp a c ≢ gt) where
    place-sorted :
        (x : A) (ys : List A)
        → Pairwise (λ a b. cmp a b ≢ gt) ys
        → Pairwise (λ a b. cmp a b ≢ gt) (place x ys)
    unfolding place
    place-sorted x [] p = (tt, tt)
    place-sorted x (y ∷ ys) p = elim (Ordering-cases (cmp y x)) [
      | inl e ↦
          let below : cmp x y ≢ gt = λ q. ground (arith, swap y x) in
          rw (e, place, Pairwise, All) (((below, All-imp (λ a q. trans x y a below q) ys p.0), p))
      | inr n ↦ ground (arith, place-sorted x ys p.1, All-place (λ b. cmp y b ≢ gt) x ys n p.0, n)
    ]

    sort_onto-sorted :
        (xs done : List A)
        → Pairwise (λ a b. cmp a b ≢ gt) done
        → Pairwise (λ a b. cmp a b ≢ gt) (sort_onto xs done)
    unfolding sort_onto
    sort_onto-sorted [] done p = p
    sort_onto-sorted (x ∷ xs) done p = sort_onto-sorted xs (place x done) (place-sorted x done p)

    -- no element is greater than a later one
    pub sort_by-sorted : (xs : List A) → Pairwise (λ a b. cmp a b ≢ gt) (sort_by xs)
    unfolding sort_by
    sort_by-sorted xs = sort_onto-sorted xs [] tt

  length-place : (x : A) (ys : List A) → length (place x ys) ≡ suc (length ys)
  unfolding place
  length-place x [] = refl
  length-place x (y ∷ ys) = ground (arith, length-place x ys)

  length-sort_onto : (xs done : List A) → length (sort_onto xs done) ≡ length xs + length done
  unfolding sort_onto
  length-sort_onto [] done = omega arith
  length-sort_onto (x ∷ xs) done =
      omega (arith, length-sort_onto xs (place x done), length-place x done)

  pub length-sort_by : (xs : List A) → length (sort_by xs) ≡ length xs
  unfolding sort_by
  length-sort_by xs = omega (arith, length-sort_onto xs [])
