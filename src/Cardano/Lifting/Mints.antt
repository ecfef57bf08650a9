-- ===== src/Cardano/Lifting/Mints.antt =====
-- crates/tx3-lift-cardano/src/lifting.rs after matching.rs: the annotations of mints and burns are about
-- the policies that the match assigned.
use mathlib.Core.Path.{subst}
use tx3_lift.Prelude.{
  &&_iff, ℕ, zero, suc, ◌+◌, ◌≡◌, refl, sym, ap, ◌∙◌, inl, inr, some, List, [], ◌∷◌, Text, In,
  In-append, In-All, get_elem?, Option-cases, some_inj, ok, arith,
}
use tx3_lift.Lift.Tir.{Tx, TiiFile, Mint}
use tx3_lift.Lift.Expr.{const_policies_in}
use tx3_lift.Lift.Library.{Library}
use tx3_lift.Lift.Lifted.{MintAnnotation, Lifted}
use tx3_lift.Cardano.Ledger.{LedgerTx, PolicyAssets, Pallas, CardanoPayload}
use tx3_lift.Cardano.Matching.{MatchAssignment, match_tx, policy_fits, any_positive, any_negative}
use tx3_lift.Cardano.Signs.{
  IsPositive, IsNegative, HasAmount, any-IsPositive_iff, any-IsNegative_iff,
}
use tx3_lift.Cardano.Matching.Fits.{IsAllowed, policy_fits-IsAllowed}
use tx3_lift.Cardano.Matching.Assigned.{match_tx-mint_slots, match_tx-burn_slots}
use tx3_lift.Cardano.Lifting.{AssetLibrary, lift_mint_slots, lift_mints, lift}
use tx3_lift.Cardano.Lifting.Parts.{lift-Parts}

-- the policy and the assets that an annotation shows
abbrev pub shown : MintAnnotation → PolicyAssets
shown x = record { policy = x.policy; assets = x.assets }

-- the annotation of the policy in a slot
abbrev OfSlot : LedgerTx → ℕ → List ℕ → MintAnnotation → Type 0
OfSlot tx n slots x =
    (s : ℕ) × In s slots × (get_elem? tx.mints s ≡ some (shown x)) × (x.tir_mint_index ≡ n)

lift_mint_slots-OfSlot :
    (tx : LedgerTx) (n : ℕ) (slots : List ℕ) (x : MintAnnotation)
    → In x (lift_mint_slots n tx slots)
    → OfSlot tx n slots x
lift_mint_slots-OfSlot tx n [] x m = absurd m
lift_mint_slots-OfSlot tx n (s ∷ slots) x m = elim (Option-cases (get_elem? tx.mints s)) [
  | inl e ↦
      let (t, i, g, h) = lift_mint_slots-OfSlot tx n slots x (rw (e, lift_mint_slots) at m) in
      (t, inr i, g, h)
  | inr (p, e) ↦ elim (rw (e, lift_mint_slots) at m) [
    | inl q ↦ (
      s,
      inl refl,
      e ∙ ap (λ (a : MintAnnotation). some (shown a)) (sym q),
      ap (λ (a : MintAnnotation). a.tir_mint_index) q,
    )
    | inr j ↦ let (t, i, g, h) = lift_mint_slots-OfSlot tx n slots x j in (t, inr i, g, h)
  ]
]

lift_mints-OfSlot :
    (tx : LedgerTx) (n : ℕ) (map' : List (List ℕ)) (x : MintAnnotation)
    → In x (lift_mints n tx map')
    → (k : ℕ) × (slots : List ℕ) × (get_elem? map' k ≡ some slots) × OfSlot tx (n + k) slots x
unfolding lift_mints
lift_mints-OfSlot tx n [] x m = absurd m
lift_mints-OfSlot tx n (slots ∷ map') x m =
    elim ((In-append x (lift_mint_slots n tx slots) (lift_mints (suc n) tx map')).0 m) [
      | inl i ↦
          let (t, j, g, h) = lift_mint_slots-OfSlot tx n slots x i in
          (zero, slots, refl, (t, j, g, h ∙ omega arith))
      | inr i ↦
          let (k, found, e, (t, j, g, h)) = lift_mints-OfSlot tx (suc n) map' x i in
          (suc k, found, e, (t, j, g, h ∙ omega arith))
    ]

module _ {A : Type 0} (lib : Library) (pallas : Pallas) (assets : AssetLibrary A) (tii : TiiFile)
    (tx_name profile_name : Text) (specialized : Tx) (payload : CardanoPayload)
    (name profile : Text) (assignment : MatchAssignment) (lifted : Lifted A)
    (matched : match_tx pallas specialized payload profile name ≡ ok (some assignment))
    (annotated : lift lib pallas assets tii tx_name profile_name specialized payload assignment
      ≡ ok lifted) where
  -- When the match returns an assignment and its lift succeeds, an annotated mint whose index is that
  -- of a mint of the TIR shows one of the constant policies of that mint, if it has any, and an asset
  -- with a positive amount.
  pub lift-mint_policy :
      (x : MintAnnotation) (m : Mint)
      → In x lifted.mints
      → get_elem? specialized.mints x.tir_mint_index ≡ some m
      → IsAllowed (const_policies_in m.amount) x.policy × HasAmount IsPositive (shown x)
  lift-mint_policy x m i h =
      let parts =
        lift-Parts lib pallas assets tii tx_name profile_name specialized payload assignment lifted
          annotated in
      let (k, slots, e, (s, j, g, n)) =
        lift_mints-OfSlot parts.tx 0 assignment.mint_map x (subst (In x) parts.mints_field i) in
      let (needed, fit) =
        match_tx-mint_slots pallas specialized payload profile name parts.tx assignment k m slots
          (parts.decodes, matched)
          (subst (λ z. get_elem? specialized.mints z ≡ some m) (n ∙ omega arith) h) e in
      let (y, gy, fy) = In-All _ slots s fit j in
      let (allowed, signed) =
        (&&_iff (policy_fits (const_policies_in m.amount) y) (any_positive y)).0 fy in
      subst
        (λ (p : PolicyAssets).
          IsAllowed (const_policies_in m.amount) p.policy × HasAmount IsPositive p)
        (some_inj (sym gy ∙ g))
        (
          policy_fits-IsAllowed (const_policies_in m.amount) y allowed,
          (any-IsPositive_iff y).0 signed,
        )

  -- The same of burns, with a negative amount.
  pub lift-burn_policy :
      (x : MintAnnotation) (m : Mint)
      → In x lifted.burns
      → get_elem? specialized.burns x.tir_mint_index ≡ some m
      → IsAllowed (const_policies_in m.amount) x.policy × HasAmount IsNegative (shown x)
  lift-burn_policy x m i h =
      let parts =
        lift-Parts lib pallas assets tii tx_name profile_name specialized payload assignment lifted
          annotated in
      let (k, slots, e, (s, j, g, n)) =
        lift_mints-OfSlot parts.tx 0 assignment.burn_map x (subst (In x) parts.burns_field i) in
      let (needed, fit) =
        match_tx-burn_slots pallas specialized payload profile name parts.tx assignment k m slots
          (parts.decodes, matched)
          (subst (λ z. get_elem? specialized.burns z ≡ some m) (n ∙ omega arith) h) e in
      let (y, gy, fy) = In-All _ slots s fit j in
      let (allowed, signed) =
        (&&_iff (policy_fits (const_policies_in m.amount) y) (any_negative y)).0 fy in
      subst
        (λ (p : PolicyAssets).
          IsAllowed (const_policies_in m.amount) p.policy × HasAmount IsNegative p)
        (some_inj (sym gy ∙ g))
        (
          policy_fits-IsAllowed (const_policies_in m.amount) y allowed,
          (any-IsNegative_iff y).0 signed,
        )
