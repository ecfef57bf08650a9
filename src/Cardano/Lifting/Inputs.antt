-- ===== src/Cardano/Lifting/Inputs.antt =====
-- crates/tx3-lift-cardano/src/lifting.rs after matching.rs: the annotation of an input of a matched
-- transaction is about an input that the match assigned.
use mathlib.Core.Path.{subst}
use tx3_lift.Prelude.{
  ℕ, zero, suc, ◌+◌, ◌≡◌, refl, sym, ap, ◌∙◌, inl, inr, Option, none, some, List, [], ◌∷◌, Bytes,
  Text, In, In-append, get_elem?, Option-cases, some_inj, ok, ok_inj, >>=-ok, true, false, arith,
}
use tx3_lift.Prelude.Order.{nat_ord, list_ord, pair_ord, ==_iff}
use tx3_lift.Collections.Map
use tx3_lift.Lift.Tir.{Tx, TiiFile, Input, InputQuery, TirUtxoRef, query_address}
use tx3_lift.Lift.Expr.{const_address, const_utxo_refs, expect_input_query}
use tx3_lift.Lift.Library.{Library}
use tx3_lift.Lift.Lifted.{InputAnnotation, Lifted, as_input, TypedDatum}
use tx3_lift.Lift.Payload.{UtxoRef}
use tx3_lift.Cardano.Ledger.{
  LedgerTx, LedgerOutput, OutputRef, Pallas, CardanoPayload, ref_key, resolved_output,
}
use tx3_lift.Cardano.Matching.{MatchAssignment, match_tx, input_fits, address_is, unused}
use tx3_lift.Cardano.Matching.Assigned.{match_tx-parts}
use tx3_lift.Cardano.Matching.Inputs.{is_ref-key, SlotFits, assign_inputs-fits}
use tx3_lift.Cardano.Lifting.{AssetLibrary, resolved_parts, lift_input_slots, lift_inputs, lift}
use tx3_lift.Cardano.Lifting.Parts.{lift-Parts}
use tx3_lift.Cardano.Party.{Parties, or_empty, match_party}

get_elem?-In : {B : Type 0} (xs : List B) (k : ℕ) (x : B) → get_elem? xs k ≡ some x → In x xs
get_elem?-In [] k x h = cc
get_elem?-In (y ∷ ys) zero x h = inl (sym (some_inj h))
get_elem?-In (y ∷ ys) (suc k) x h = inr (get_elem?-In ys k x h)

module _ {A : Type 0} (lib : Library) (pallas : Pallas) (assets : AssetLibrary A)
    (payload : CardanoPayload) where
  -- the annotation of the input in a slot, at the address of its resolved output
  abbrev OfSlot : LedgerTx → Text → List ℕ → InputAnnotation A → Type 0
  OfSlot tx name slots x =
      (s : ℕ) × (oref : OutputRef) × In s slots
      × (get_elem? tx.inputs s ≡ some oref)
      × (x.tir_input_name ≡ name)
      × (x.utxo_ref ≡ ref_key oref)
      × ((output : LedgerOutput)
          → resolved_output pallas payload (ref_key oref) ≡ some output
          → x.address ≡ or_empty output.address)

  resolved_parts-address :
      (key : UtxoRef) (output : LedgerOutput) (parts : Bytes × A × Option TypedDatum)
      → resolved_output pallas payload key ≡ some output
      → resolved_parts lib pallas assets payload key ≡ ok parts
      → parts.0 ≡ or_empty output.address
  unfolding resolved_parts
  resolved_parts-address key output parts h e =
      elim (Option-cases (Map.get payload.resolved_inputs key)) [
        | inl n ↦ let bad : none ≡ some output = rw (n, resolved_output) at h in cc
        | inr (r, g) ↦
            let decoded : pallas.decode_output r.era r.cbor ≡ some output =
              rw (g, resolved_output) at h in
            ap (λ (t : Bytes × A × Option TypedDatum). t.0)
              (sym (ok_inj (rw (g, resolved_parts, decoded) at e)))
      ]

  lift_input_slots-OfSlot :
      (tx : LedgerTx) (name : Text) (slots : List ℕ) (ps ps' : Parties)
      (xs : List (InputAnnotation A)) (x : InputAnnotation A)
      → lift_input_slots lib pallas assets payload tx name slots ps ≡ ok (xs, ps')
      → In x xs
      → OfSlot tx name slots x
  unfolding lift_input_slots
  lift_input_slots-OfSlot tx name [] ps ps' xs x e m =
      absurd
        (subst (In x) (ap (λ (t : List (InputAnnotation A) × Parties). t.0) (sym (ok_inj e))) m)
  lift_input_slots-OfSlot tx name (s ∷ slots) ps ps' xs x e m =
      elim (Option-cases (get_elem? tx.inputs s)) [
        | inl q ↦
            let (t, o, i, g, n, key, address) =
              lift_input_slots-OfSlot tx name slots ps ps' xs x (rw (q, lift_input_slots) at e) m in
            (t, o, inr i, g, n, key, address)
        | inr (o, q) ↦
            let (parts, a, e1) =
              >>=-ok (resolved_parts lib pallas assets payload (ref_key o)) _ (xs, ps')
                (rw (q, lift_input_slots) at e) in
            let party = match_party parts.0 ps as_input in
            let (rest, b, e2) =
              >>=-ok (lift_input_slots lib pallas assets payload tx name slots party.1) _ (xs, ps')
                e1 in
            elim (subst (In x)
              (ap (λ (t : List (InputAnnotation A) × Parties). t.0) (sym (ok_inj e2))) m) [
                | inl same ↦ (
                  s,
                  o,
                  inl refl,
                  q,
                  ap (λ (y : InputAnnotation A). y.tir_input_name) same,
                  ap (λ (y : InputAnnotation A). y.utxo_ref) same,
                  λ output r.
                      ap (λ (y : InputAnnotation A). y.address) same
                      ∙ resolved_parts-address (ref_key o) output parts r a,
                )
                | inr j ↦
                    let (t, p, i, g, n, key, address) =
                      lift_input_slots-OfSlot tx name slots party.1 rest.1 rest.0 x b j in
                    (t, p, inr i, g, n, key, address)
              ]
      ]

  lift_inputs-OfSlot :
      (tx : LedgerTx) (specialized : Tx) (n : ℕ) (map' : List (List ℕ)) (ps ps' : Parties)
      (xs : List (InputAnnotation A)) (x : InputAnnotation A)
      → lift_inputs lib pallas assets payload tx specialized n map' ps ≡ ok (xs, ps')
      → In x xs
      → (k : ℕ) × (i : Input) × (slots : List ℕ) × (get_elem? specialized.inputs (n + k) ≡ some i)
        × (get_elem? map' k ≡ some slots)
        × OfSlot tx i.name slots x
  unfolding lift_inputs
  lift_inputs-OfSlot tx specialized n [] ps ps' xs x e m =
      absurd
        (subst (In x) (ap (λ (t : List (InputAnnotation A) × Parties). t.0) (sym (ok_inj e))) m)
  lift_inputs-OfSlot tx specialized n (slots ∷ map') ps ps' xs x e m =
      elim (Option-cases (get_elem? specialized.inputs n)) [
        | inl q ↦ deeper (
            lift_inputs-OfSlot tx specialized (suc n) map' ps ps' xs x (rw (q, lift_inputs) at e) m)
        | inr (i, q) ↦
            let (found, a, e1) =
              >>=-ok (lift_input_slots lib pallas assets payload tx i.name slots ps) _ (xs, ps')
                (rw (q, lift_inputs) at e) in
            let (rest, b, e2) =
              >>=-ok (lift_inputs lib pallas assets payload tx specialized (suc n) map' found.1) _
                (xs, ps') e1 in
            elim ((In-append x found.0 rest.0).0 (
              subst (In x) (ap (λ (t : List (InputAnnotation A) × Parties). t.0) (sym (ok_inj e2)))
                m)) [
                  | inl j ↦ (
                    zero,
                    i,
                    slots,
                    subst (λ z. get_elem? specialized.inputs z ≡ some i) (omega arith) q,
                    refl,
                    lift_input_slots-OfSlot tx i.name slots ps found.1 found.0 x a j,
                  )
                  | inr j ↦
                      deeper
                        (lift_inputs-OfSlot tx specialized (suc n) map' found.1 rest.1 rest.0 x b j)
                ]
      ]
    where
      deeper :
          ((k : ℕ) × (i : Input) × (found : List ℕ) × (get_elem? specialized.inputs (suc n + k)
              ≡ some i)
            × (get_elem? map' k ≡ some found)
            × OfSlot tx i.name found x)
          → (k : ℕ) × (i : Input) × (found : List ℕ) × (get_elem? specialized.inputs (n + k)
              ≡ some i)
            × (get_elem? (slots ∷ map') k ≡ some found)
            × OfSlot tx i.name found x
      deeper (k, i, found, a, b, c) = (
        suc k,
        i,
        found,
        subst (λ z. get_elem? specialized.inputs z ≡ some i) (omega arith) a,
        b,
        c,
      )

  -- an input at the constant address, if there is one
  abbrev pub IsAt : Option Bytes → InputAnnotation A → Type 0
  IsAt none x = Unit {0}
  IsAt (some req) x = x.address ≡ req

  -- what an input of the TIR says of its annotation: the reference is one of the constant ones, or the
  -- address is the constant one of the query
  abbrev pub InputFits : Option (List TirUtxoRef) → Option InputQuery → InputAnnotation A → Type 0
  InputFits (some refs) query x = (r : TirUtxoRef) × In r refs × (x.utxo_ref ≡ (r.txid, r.index))
  InputFits none (some query) x = IsAt (const_address (query_address query)) x
  InputFits none none x = ⊥

  input_fits-IsAt :
      (req : Option Bytes) (oref : OutputRef) (x : InputAnnotation A)
      → input_fits pallas payload req oref ≡ true
      → ((output : LedgerOutput)
          → resolved_output pallas payload (ref_key oref) ≡ some output
          → x.address ≡ or_empty output.address)
      → IsAt req x
  input_fits-IsAt none oref x h a = tt
  input_fits-IsAt (some req) oref x h a =
      elim (Option-cases (resolved_output pallas payload (ref_key oref))) [
        | inl n ↦ let bad : false ≡ true = rw (n, input_fits) at h in cc
        | inr (output, e) ↦
            let fit : address_is output.address req ≡ true = rw (e, input_fits) at h in
            a output e ∙ elim (Option-cases output.address) [
              | inl n ↦ let bad : false ≡ true = rw n at fit in cc
              | inr (b, q) ↦ rw q ((==_iff b req).0 (rw q at fit))
            ]
      ]

  slot-InputFits :
      (refs : Option (List TirUtxoRef)) (query : Option InputQuery) (oref : OutputRef)
      (x : InputAnnotation A)
      → SlotFits pallas payload refs query oref
      → x.utxo_ref ≡ ref_key oref
      → ((output : LedgerOutput)
          → resolved_output pallas payload (ref_key oref) ≡ some output
          → x.address ≡ or_empty output.address)
      → InputFits refs query x
  slot-InputFits (some refs) query oref x (r, i, h) e a = (r, i, e ∙ is_ref-key r oref h)
  slot-InputFits none (some query) oref x h e a =
      input_fits-IsAt (const_address (query_address query)) oref x h a
  slot-InputFits none none oref x h e a = h

module _ {A : Type 0} (lib : Library) (pallas : Pallas) (assets : AssetLibrary A) (tii : TiiFile)
    (tx_name profile_name : Text) (specialized : Tx) (payload : CardanoPayload) where
  -- When the match returns an assignment and its lift succeeds, every annotated input has the name of
  -- an input of the TIR; where that names constant references, the annotation's reference is one of
  -- them, and else it has a query, and the annotation is at the query's constant address if there is
  -- one.
  pub lift-InputFits :
      (name profile : Text) (assignment : MatchAssignment) (lifted : Lifted A)
      → match_tx pallas specialized payload profile name ≡ ok (some assignment)
      → lift lib pallas assets tii tx_name profile_name specialized payload assignment ≡ ok lifted
      → (x : InputAnnotation A) → In x lifted.inputs
      → (i : Input) × In i specialized.inputs
        × (x.tir_input_name ≡ i.name)
        × InputFits lib pallas assets payload
            (const_utxo_refs i.utxos)
            (expect_input_query i.utxos)
            x
  lift-InputFits name profile assignment lifted m h x j =
      let parts =
        lift-Parts lib pallas assets tii tx_name profile_name specialized payload assignment lifted
          h in
      let (k, i, slots, g, e, (s, oref, l, found, n, key, address)) =
        lift_inputs-OfSlot lib pallas assets payload parts.tx specialized 0 assignment.input_map
          parts.parties parts.parties1 parts.inputs x parts.inputs_lifted
          (subst (In x) parts.inputs_field j) in
      let there : get_elem? specialized.inputs k ≡ some i =
        subst (λ z. get_elem? specialized.inputs z ≡ some i) (omega arith) g in
      let assigned =
        (match_tx-parts pallas specialized payload profile name parts.tx assignment
          (parts.decodes, m)).0 in
      let (o, same, fit) =
        assign_inputs-fits pallas payload specialized.inputs parts.tx.inputs
          (unused parts.tx.inputs) assignment.input_map k s i slots assigned there e l in
      let one : o ≡ oref = some_inj (sym same ∙ found) in
      (
        i,
        get_elem?-In specialized.inputs k i there,
        n,
        slot-InputFits lib pallas assets payload (const_utxo_refs i.utxos)
            (expect_input_query i.utxos) oref x
            (subst (SlotFits pallas payload (const_utxo_refs i.utxos) (expect_input_query i.utxos))
              one fit)
            key address,
      )
