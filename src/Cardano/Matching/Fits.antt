-- ===== src/Cardano/Matching/Fits.antt =====
-- crates/tx3-lift-cardano/src/matching.rs: what the tests of an output's address and of a policy mean.
use mathlib.Core.Path.{subst}
use tx3_lift.Prelude.{
  ◌≡◌, refl, ap, inl, inr, ◌⊎◌, true, Option, none, some, List, [], ◌∷◌, Bytes, In, any_iff,
}
use tx3_lift.Prelude.Order.{nat_ord, list_ord, ◌==◌, ==_iff}
use tx3_lift.Cardano.Ledger.{LedgerOutput, PolicyAssets}
use tx3_lift.Cardano.Matching.{address_is, output_fits, policy_fits}

-- the output is at the address that is asked for, if one is
abbrev pub IsPaidTo : Option Bytes → LedgerOutput → Type 0
IsPaidTo none output = Unit
IsPaidTo (some req) output = output.address ≡ some req

address_is-some : (o : Option Bytes) (req : Bytes) → address_is o req ≡ true → o ≡ some req
address_is-some none req h = cc
address_is-some (some a) req h = ap some ((==_iff a req).0 h)

pub output_fits-IsPaidTo :
    (req : Option Bytes) (x : LedgerOutput) → output_fits req x ≡ true → IsPaidTo req x
output_fits-IsPaidTo none x h = tt
output_fits-IsPaidTo (some req) x h = address_is-some x.address req h

-- the policy is one of the list, if that names any
abbrev pub IsAllowed : List Bytes → Bytes → Type 0
IsAllowed policies policy = (policies ≡ []) ⊎ In policy policies

pub policy_fits-IsAllowed :
    (policies : List Bytes) (p : PolicyAssets)
    → policy_fits policies p ≡ true
    → IsAllowed policies p.policy
policy_fits-IsAllowed [] p h = inl refl
policy_fits-IsAllowed (q ∷ policies) p h =
    let (req, i, e) = (any_iff (λ req. req == p.policy) (q ∷ policies)).0 h in
    inr (subst (λ a. In a (q ∷ policies)) ((==_iff req p.policy).0 e) i)
