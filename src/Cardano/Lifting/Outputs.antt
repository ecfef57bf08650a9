-- ===== src/Cardano/Lifting/Outputs.antt =====
-- crates/tx3-lift-cardano/src/lifting.rs after matching.rs: the annotation of an output of a matched
-- transaction is about the output that the match assigned.
use mathlib.Core.Path.{subst}
use tx3_lift.Prelude.{
  ℕ, zero, suc, ◌+◌, ◌≡◌, refl, sym, ap, ◌∙◌, inl, inr, some, List, [], ◌∷◌, Bytes, Text, In,
  In-append, In-All, get_elem?, Option-cases, some_inj, ok, arith,
}
use tx3_lift.Prelude.Order.{nat_ord, list_ord}
use tx3_lift.Lift.Tir.{Tx, TiiFile, Output}
use tx3_lift.Lift.Expr.{const_address}
use tx3_lift.Lift.Library.{Library}
use tx3_lift.Lift.Lifted.{OutputAnnotation, Lifted, as_output}
use tx3_lift.Cardano.Ledger.{LedgerTx, LedgerOutput, Pallas, CardanoPayload}
use tx3_lift.Cardano.Matching.{MatchAssignment, match_tx}
use tx3_lift.Cardano.Matching.Fits.{IsPaidTo}
use tx3_lift.Cardano.Matching.Assigned.{match_tx-output_slots}
use tx3_lift.Cardano.Lifting.{AssetLibrary, lift_output_slots, lift_outputs, lift}
use tx3_lift.Cardano.Party.{Parties, or_empty, match_party}
use tx3_lift.Cardano.Lifting.Parts.{lift-Parts}

module _ {A : Type 0} (lib : Library) (pallas : Pallas) (assets : AssetLibrary A)
    (tx : LedgerTx) where
  -- the annotation of the output in a slot
  abbrev pub OfSlot : ℕ → List ℕ → OutputAnnotation A → Type 0
  OfSlot n slots x =
      (s : ℕ) × (out : LedgerOutput) × In s slots
      × (get_elem? tx.outputs s ≡ some out)
      × (x.tir_output_index ≡ n)
      × (x.address ≡ or_empty out.address)

  lift_output_slots-OfSlot :
      (n : ℕ) (slots : List ℕ) (parties : Parties) (x : OutputAnnotation A)
      → In x (lift_output_slots lib pallas assets tx n slots parties).0
      → OfSlot n slots x
  unfolding lift_output_slots
  lift_output_slots-OfSlot n [] parties x m = absurd m
  lift_output_slots-OfSlot n (s ∷ slots) parties x m =
      elim (Option-cases (get_elem? tx.outputs s)) [
        | inl e ↦
            let (t, out, i, g, n', a) =
              lift_output_slots-OfSlot n slots parties x (rw (e, lift_output_slots) at m) in
            (t, out, inr i, g, n', a)
        | inr (o, e) ↦ elim (rw (e, lift_output_slots) at m) [
          | inl q ↦ (
            s,
            o,
            inl refl,
            e,
            ap (λ (a : OutputAnnotation A). a.tir_output_index) q,
            ap (λ (a : OutputAnnotation A). a.address) q,
          )
          | inr r ↦
              let (t, out, i, g, n', a) =
                lift_output_slots-OfSlot n slots
                  (match_party (or_empty o.address) parties as_output).1 x r in
              (t, out, inr i, g, n', a)
        ]
      ]

  -- an annotation of the loop from index `n` on, of the item `n + k`
  lift_outputs-OfSlot :
      (n : ℕ) (map' : List (List ℕ)) (parties : Parties) (x : OutputAnnotation A)
      → In x (lift_outputs lib pallas assets tx n map' parties).0
      → (k : ℕ) × (slots : List ℕ) × (get_elem? map' k ≡ some slots) × OfSlot (n + k) slots x
  unfolding lift_outputs
  lift_outputs-OfSlot n [] parties x m = absurd m
  lift_outputs-OfSlot n (slots ∷ map') parties x m =
      let first = lift_output_slots lib pallas assets tx n slots parties in
      elim ((In-append x first.0 (lift_outputs lib pallas assets tx (suc n) map' first.1).0).0 m) [
        | inl i ↦
            let (t, out, j, g, n', a) = lift_output_slots-OfSlot n slots parties x i in
            (zero, slots, refl, (t, out, j, g, n' ∙ omega arith, a))
        | inr i ↦
            let (k, found, e, (t, out, j, g, n', a)) =
              lift_outputs-OfSlot (suc n) map' first.1 x i in
            (suc k, found, e, (t, out, j, g, n' ∙ omega arith, a))
      ]

module _ {A : Type 0} (lib : Library) (pallas : Pallas) (assets : AssetLibrary A) (tii : TiiFile)
    (tx_name profile_name : Text) (specialized : Tx) (payload : CardanoPayload) where
  -- When the match returns an assignment and its lift succeeds, an annotated output whose index is
  -- that of an output of the TIR with a constant address has that address.
  pub lift-output_address :
      (name profile : Text) (assignment : MatchAssignment) (lifted : Lifted A)
      → match_tx pallas specialized payload profile name ≡ ok (some assignment)
      → lift lib pallas assets tii tx_name profile_name specialized payload assignment ≡ ok lifted
      → (x : OutputAnnotation A) (o : Output) (req : Bytes) → In x lifted.outputs
      → get_elem? specialized.outputs x.tir_output_index ≡ some o
      → const_address o.address ≡ some req
      → x.address ≡ req
  lift-output_address name profile assignment lifted m h x o req i ho hc =
      let parts =
        lift-Parts lib pallas assets tii tx_name profile_name specialized payload assignment lifted
          h in
      let (k, slots, e, (s, out, j, g, n, a)) =
        lift_outputs-OfSlot lib pallas assets parts.tx 0 assignment.output_map parts.parties1 x
          (subst (In x) parts.outputs_field i) in
      let (needed, fit) =
        match_tx-output_slots pallas specialized payload profile name parts.tx assignment k o slots
          (parts.decodes, m)
          (subst (λ z. get_elem? specialized.outputs z ≡ some o) (n ∙ omega arith) ho) e in
      let (y, gy, fy) = In-All _ slots s fit j in
      let same : y ≡ out = some_inj (sym gy ∙ g) in
      let paid : out.address ≡ some req = subst (IsPaidTo (some req)) same (rw hc at fy) in
      a ∙ ap or_empty paid
