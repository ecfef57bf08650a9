-- ===== src/Cardano/Signs.antt =====
-- What the sign tests of crates/tx3-lift-cardano/src/matching.rs and summarize.rs mean of a policy of the
-- mint field.
use tx3_lift.Prelude.{
  ℕ, zero, suc, ℤ, pos, negsuc, ◌≡◌, refl, ◌↔◌, Bool, true, is_positive, is_negative, Bytes, In,
  any, any_iff,
}
use tx3_lift.Cardano.Ledger.{PolicyAssets}

-- a number above zero, and one below
abbrev pub IsPositive : ℤ → Type 0
IsPositive z = (n : ℕ) × (z ≡ pos (suc n))

abbrev pub IsNegative : ℤ → Type 0
IsNegative z = (n : ℕ) × (z ≡ negsuc n)

-- an asset whose amount has the sign
abbrev pub HasAmount : (ℤ → Type 0) → PolicyAssets → Type 0
HasAmount P p = (a : Bytes × ℤ) × In a p.assets × P a.1

is_positive-IsPositive : (z : ℤ) → (is_positive z ≡ true) ↔ IsPositive z
is_positive-IsPositive (pos zero) = (λ h. cc, λ h. let e = h.1 in cc)
is_positive-IsPositive (pos (suc n)) = (λ h. (n, refl), λ h. refl)
is_positive-IsPositive (negsuc n) = (λ h. cc, λ h. let e = h.1 in cc)

is_negative-IsNegative : (z : ℤ) → (is_negative z ≡ true) ↔ IsNegative z
is_negative-IsNegative (pos n) = (λ h. cc, λ h. let e = h.1 in cc)
is_negative-IsNegative (negsuc n) = (λ h. (n, refl), λ h. refl)

has_sign_iff :
    (test : ℤ → Bool) (P : ℤ → Type 0) (p : PolicyAssets)
    → ((z : ℤ) → (test z ≡ true) ↔ P z)
    → (any (λ a. test a.1) p.assets ≡ true) ↔ HasAmount P p
has_sign_iff test P p means = (
  λ h. let (a, i, t) = (any_iff (λ a. test a.1) p.assets).0 h in (a, i, (means a.1).0 t),
  λ h. (any_iff (λ a. test a.1) p.assets).1 (h.0, h.1, (means h.0.1).1 h.2),
)

pub any-IsPositive_iff :
    (p : PolicyAssets) → (any (λ a. is_positive a.1) p.assets ≡ true) ↔ HasAmount IsPositive p
any-IsPositive_iff p = has_sign_iff is_positive IsPositive p is_positive-IsPositive

pub any-IsNegative_iff :
    (p : PolicyAssets) → (any (λ a. is_negative a.1) p.assets ≡ true) ↔ HasAmount IsNegative p
any-IsNegative_iff p = has_sign_iff is_negative IsNegative p is_negative-IsNegative
