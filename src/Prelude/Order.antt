-- ===== src/Prelude/Order.antt =====
-- Rust's `Ord`: a total order given by `cmp`, with the laws that the trait documents (`==` is `≡`).
-- Byte strings and texts are lists of bytes, compared as Rust compares `[u8]` and `str`.
use native.Mathlib.Omega.{arith}
use mathlib.Core.List.{List, ◌∷◌, []}
use mathlib.Core.Bool.{Bool, false, true}
use mathlib.Core.Logic.{◌↔◌}
use mathlib.Core.Path.{refl, ◌≡◌}
use Prim.Native.Nat.{Ordering, compare, ℕ}
use Prim.Native.Nat.Ordering.{eq, gt, lt}

-- `Ordering::reverse`
abbrev pub opposite : Ordering → Ordering
opposite lt = gt
opposite eq = eq
opposite gt = lt

-- `Ordering::then`
abbrev pub then_with : Ordering → Ordering → Ordering
then_with lt next = lt
then_with eq next = next
then_with gt next = gt

pub record IsTotal {ℓ} {X : Type ℓ} (order : X → X → Ordering) : Type ℓ where
  pub lt_trans : (x y z : X) → order x y ≡ lt → order y z ≡ lt → order x z ≡ lt
  pub cmp_swap : (x y : X) → order y x ≡ opposite (order x y)
  pub cmp_self : (x : X) → order x x ≡ eq
  pub eq_of_cmp : (x y : X) → order x y ≡ eq → x ≡ y

pub record Ord {ℓ} (X : Type ℓ) : Type ℓ where
  pub cmp : X → X → Ordering
  pub total : IsTotal cmp
  pub open total use *

abbrev is_eq : Ordering → Bool
is_eq eq = true
is_eq _ = false

abbrev is_lt : Ordering → Bool
is_lt lt = true
is_lt _ = false

module _ {ℓ} {K : Type ℓ} ⦃o : Ord K⦄ where
  infix 50 ◌==◌ ◌<?◌
  abbrev pub ◌==◌ : K → K → Bool
  a == b = is_eq (o.cmp a b)

  abbrev pub ◌<?◌ : K → K → Bool
  a <? b = is_lt (o.cmp a b)

  pub ==_iff : (a b : K) → ((a == b) ≡ true) ↔ (a ≡ b)
  ==_iff a b = (λ h. o.eq_of_cmp a b (ground arith), λ h. rw (h, o.cmp_self))

  pub ==_comm : (a b : K) → (a == b) ≡ (b == a)
  ==_comm a b = ground (arith, o.cmp_swap a b)

pub compare-IsTotal : IsTotal compare
compare-IsTotal = record {
  cmp_self = λ a. ground arith;
  eq_of_cmp = λ a b h. ground arith;
  cmp_swap = λ a b. ground arith;
  lt_trans = λ a b c h k. ground arith;
}

instance abbrev pub nat_ord : Ord ℕ
nat_ord = record { cmp = compare; total = compare-IsTotal }

module _ {ℓ} {K : Type ℓ} ⦃o : Ord K⦄ where
  -- a proper prefix is smaller
  abbrev pub list_cmp : List K → List K → Ordering
  list_cmp [] [] = eq
  list_cmp [] (b ∷ bs) = lt
  list_cmp (a ∷ as') [] = gt
  list_cmp (a ∷ as') (b ∷ bs) = then_with (o.cmp a b) (list_cmp as' bs)

  list_cmp_self : (a : List K) → list_cmp a a ≡ eq
  list_cmp_self [] = refl
  list_cmp_self (x ∷ xs) = rw (o.cmp_self x) (list_cmp_self xs)

  list_eq_of_cmp : (a b : List K) → list_cmp a b ≡ eq → a ≡ b
  list_eq_of_cmp [] [] h = refl
  list_eq_of_cmp [] (y ∷ ys) h = cc
  list_eq_of_cmp (x ∷ xs) [] h = cc
  list_eq_of_cmp (x ∷ xs) (y ∷ ys) h = ground (arith, o.eq_of_cmp x y, list_eq_of_cmp xs ys)

  list_cmp_swap : (a b : List K) → list_cmp b a ≡ opposite (list_cmp a b)
  list_cmp_swap [] [] = refl
  list_cmp_swap [] (y ∷ ys) = refl
  list_cmp_swap (x ∷ xs) [] = refl
  list_cmp_swap (x ∷ xs) (y ∷ ys) = ground (arith, o.cmp_swap x y, list_cmp_swap xs ys)

  list_lt_trans : (a b c : List K) → list_cmp a b ≡ lt → list_cmp b c ≡ lt → list_cmp a c ≡ lt
  list_lt_trans [] [] c h k = cc
  list_lt_trans [] (y ∷ ys) [] h k = cc
  list_lt_trans [] (y ∷ ys) (z ∷ zs) h k = refl
  list_lt_trans (x ∷ xs) [] c h k = cc
  list_lt_trans (x ∷ xs) (y ∷ ys) [] h k = cc
  list_lt_trans (x ∷ xs) (y ∷ ys) (z ∷ zs) h k =
      ground (arith, o.eq_of_cmp x y, o.eq_of_cmp y z, o.lt_trans x y z, list_lt_trans xs ys zs)

  pub list_cmp-IsTotal : IsTotal list_cmp
  list_cmp-IsTotal = record {
    cmp_self = list_cmp_self;
    eq_of_cmp = list_eq_of_cmp;
    cmp_swap = list_cmp_swap;
    lt_trans = list_lt_trans;
  }

  instance abbrev pub list_ord : Ord (List K)
  list_ord = record { cmp = list_cmp; total = list_cmp-IsTotal }

module _ {ℓ κ} {L : Type ℓ} {R : Type κ} ⦃ol : Ord L⦄ ⦃or : Ord R⦄ where
  abbrev pub pair_cmp : L × R → L × R → Ordering
  pair_cmp x y = then_with (ol.cmp x.0 y.0) (or.cmp x.1 y.1)

  pub pair_cmp-IsTotal : IsTotal {X = L × R} pair_cmp
  pair_cmp-IsTotal = record {
    cmp_self = λ x. simp (ol.cmp_self, or.cmp_self);
    eq_of_cmp = λ x y h. ground (arith, ol.eq_of_cmp x.0 y.0, or.eq_of_cmp x.1 y.1);
    cmp_swap = λ x y. ground (arith, ol.cmp_swap x.0 y.0, or.cmp_swap x.1 y.1);
    lt_trans = λ x y z h k. ground (
      arith,
      ol.eq_of_cmp x.0 y.0,
      ol.eq_of_cmp y.0 z.0,
      ol.lt_trans x.0 y.0 z.0,
      or.lt_trans x.1 y.1 z.1,
    );
  }

  instance abbrev pub pair_ord : Ord (L × R)
  pair_ord = record { cmp = pair_cmp; total = pair_cmp-IsTotal }

-- The order of byte strings and texts, with its laws at hand.
abbrev pub text_ord : Ord (List ℕ)
text_ord = list_ord
