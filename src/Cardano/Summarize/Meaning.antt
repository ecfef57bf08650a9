-- ===== src/Cardano/Summarize/Meaning.antt =====
-- crates/tx3-lift-cardano/src/summarize.rs: what the tests on an output and on a policy mean.
use tx3_lift.Prelude.{
  ◌≡◌, refl, sym, ap, ◌∙◌, Bool, true, false, ◌&&◌, Option, none, some, List, Bytes, any, any_iff,
  ◌↔◌, In, some_inj, is_some,
}
use tx3_lift.Prelude.Order.{nat_ord, list_ord, ◌==◌, ==_iff}
use tx3_lift.Cardano.Ledger.{DatumOption, LedgerOutput, PolicyAssets}

-- an output at the address, and one that has a datum besides
abbrev pub pays : Bytes → LedgerOutput → Bool
pays a output = elim output.address [ none ↦ false | some b ↦ b == a ]

abbrev pub locks : Bytes → LedgerOutput → Bool
locks a output = pays a output && is_some output.datum

abbrev pub moves : (PolicyAssets → Bool) → Bytes → PolicyAssets → Bool
moves signed policy p = signed p && (p.policy == policy)

-- a member exactly if an item has what the test means
pub exact_iff :
    {A : Type 0} {b : Bool} (test : A → Bool) (P : A → Type 0) (xs : List A)
    → b ≡ any test xs
    → ((x : A) → (test x ≡ true) ↔ P x)
    → (b ≡ true) ↔ ((x : A) × In x xs × P x)
exact_iff test P xs same means = (
  λ h. let (x, i, t) = (any_iff test xs).0 (sym same ∙ h) in (x, i, (means x).0 t),
  λ h. same ∙ (any_iff test xs).1 (h.0, h.1, (means h.0).1 h.2),
)

both_iff :
    {P Q : Type 0} (b c : Bool) → (b ≡ true) ↔ P → (c ≡ true) ↔ Q → ((b && c) ≡ true) ↔ (P × Q)
both_iff true c p q = (λ h. (p.0 refl, q.0 h), λ h. q.1 h.1)
both_iff false c p q = (λ h. cc, λ h. p.1 h.0)

is_some_iff : {A : Type 0} (o : Option A) → (is_some o ≡ true) ↔ ((d : A) × (o ≡ some d))
is_some_iff none = (λ h. cc, λ h. let e = h.1 in cc)
is_some_iff (some d) = (λ h. (d, refl), λ h. refl)

module _ (a : Bytes) where
  at_iff : (o : Option Bytes) → (elim o [ none ↦ false | some b ↦ b == a ] ≡ true) ↔ (o ≡ some a)
  at_iff none = (λ h. cc, λ h. cc)
  at_iff (some b) = (λ h. ap some ((==_iff b a).0 h), λ h. (==_iff b a).1 (some_inj h))

  pub pays_iff : (x : LedgerOutput) → (pays a x ≡ true) ↔ (x.address ≡ some a)
  pays_iff x = at_iff x.address

  pub locks_iff :
      (x : LedgerOutput)
      → (locks a x ≡ true) ↔ ((x.address ≡ some a) × ((d : DatumOption) × (x.datum ≡ some d)))
  locks_iff x = both_iff (pays a x) (is_some x.datum) (pays_iff x) (is_some_iff x.datum)

  pub moves_iff :
      (signed : PolicyAssets → Bool) (P : PolicyAssets → Type 0)
      → ((p : PolicyAssets) → (signed p ≡ true) ↔ P p)
      → (p : PolicyAssets) → (moves signed a p ≡ true) ↔ (P p × (p.policy ≡ a))
  moves_iff signed P means p = both_iff (signed p) (p.policy == a) (means p) (==_iff p.policy a)
