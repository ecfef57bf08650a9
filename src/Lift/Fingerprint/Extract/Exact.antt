-- ===== src/Lift/Fingerprint/Extract/Exact.antt =====
-- Where each condition of an extracted fingerprint comes from.
use tx3_lift.Prelude.{
  ℕ, ◌+◌, ◌≤◌, ◌≡◌, refl, inl, inr, Bool, true, false, not, ◌||◌, none, some, List, [], ◌∷◌, map,
  Bytes, Text, any, count_if, length, min, u16_max, clamp_u16, arith, ◌∙◌, In, any_iff,
  Option-cases, Bool-cases, ap,
}
use tx3_lift.Prelude.Order.{nat_ord, list_ord, pair_ord, ◌==◌, ==_iff}
use tx3_lift.Collections.Set.{Set, contains, insert_all, contains-insert, contains-insert_all}
use tx3_lift.Lift.Tir.{Tx, TiiFile, Input, Output, Mint, Expression, ArgMap}
use tx3_lift.Lift.Expr.{const_address, const_utxo_refs, const_policies_in, expect_input_query}
use tx3_lift.Lift.Library.{Library}
use tx3_lift.Lift.Payload.{PayloadSummary, UtxoRef}
use tx3_lift.Lift.Fingerprint.{Fingerprint, matches}
use tx3_lift.Lift.Fingerprint.Matches.{matches_iff}
use tx3_lift.Lift.Fingerprint.Extract.{
  blank, extract, extract_input, extract_inputs, extract_output, extract_outputs, extract_mints,
  extract_reference, extract_references, with_mints, with_rest, to_ref, insert_option,
}

-- what an expression contributes
abbrev names_address : Expression → Bytes → Bool
names_address e a = elim (const_address e) [ none ↦ false | some b ↦ b == a ]

abbrev pub names_ref : Expression → UtxoRef → Bool
names_ref e r = elim (const_utxo_refs e) [ none ↦ false | some refs ↦ contains (map to_ref refs) r ]

contains-insert_option :
    (e : Expression) (s : Set Bytes) (a : Bytes)
    → contains (insert_option (const_address e) s) a ≡ (names_address e a || contains s a)
contains-insert_option e s a = elim (Option-cases (const_address e)) [
  | inl n ↦ rw (n, names_address)
  | inr (b, q) ↦ rw (q, names_address) (contains-insert b a s)
]

or-false : (a : Bool) → (a || false) ≡ a
or-false a = ground arith

-- regrouping a disjunction
or_first : (x y z w v : Bool) → v ≡ (y || w) → w ≡ (x || z) → v ≡ ((x || y) || z)
or_first x y z w v h k = ground arith

-- inputs
abbrev pub input_names_ref : UtxoRef → Input → Bool
input_names_ref r input = names_ref input.utxos r

contains-extract_input :
    (i : Input) (fp : Fingerprint) (r : UtxoRef)
    → contains (extract_input i fp).required_input_refs r
      ≡ (input_names_ref r i || contains fp.required_input_refs r)
contains-extract_input i fp r = elim (Option-cases (const_utxo_refs i.utxos)) [
  | inl n ↦ elim (Option-cases (expect_input_query i.utxos)) [
    | inl m ↦ rw (n, m, names_ref, extract_input)
    | inr (q, m) ↦ rw (n, m, names_ref, extract_input)
  ]
  | inr (refs, q) ↦
      rw (q, names_ref, extract_input)
        (contains-insert_all (map to_ref refs) fp.required_input_refs r)
]

contains-extract_inputs :
    (inputs : List Input) (fp : Fingerprint) (r : UtxoRef)
    → contains (extract_inputs inputs fp).required_input_refs r
      ≡ (any (input_names_ref r) inputs || contains fp.required_input_refs r)
unfolding extract_inputs
contains-extract_inputs [] fp r = refl
contains-extract_inputs (i ∷ inputs) fp r =
    or_first (input_names_ref r i) (any (input_names_ref r) inputs) _ _ _
      (contains-extract_inputs inputs (extract_input i fp) r) (contains-extract_input i fp r)

-- references
contains-extract_reference :
    (e : Expression) (fp : Fingerprint) (r : UtxoRef)
    → contains (extract_reference e fp).required_reference_refs r
      ≡ (names_ref e r || contains fp.required_reference_refs r)
contains-extract_reference e fp r = elim (Option-cases (const_utxo_refs e)) [
  | inl n ↦ rw (n, names_ref, extract_reference)
  | inr (refs, q) ↦
      rw (q, names_ref, extract_reference)
        (contains-insert_all (map to_ref refs) fp.required_reference_refs r)
]

contains-extract_references :
    (es : List Expression) (fp : Fingerprint) (r : UtxoRef)
    → contains (extract_references es fp).required_reference_refs r
      ≡ (any (λ e. names_ref e r) es || contains fp.required_reference_refs r)
unfolding extract_references
contains-extract_references [] fp r = refl
contains-extract_references (e ∷ es) fp r =
    or_first (names_ref e r) (any (λ e. names_ref e r) es) _ _ _
      (contains-extract_references es (extract_reference e fp) r)
      (contains-extract_reference e fp r)

-- outputs
abbrev pub output_names_address : Bytes → Output → Bool
output_names_address a output = names_address output.address a

contains-extract_outputs :
    (outputs : List Output) (fp : Fingerprint) (a : Bytes)
    → contains (extract_outputs outputs fp).required_output_addresses a
      ≡ (any (output_names_address a) outputs || contains fp.required_output_addresses a)
unfolding extract_outputs
contains-extract_outputs [] fp a = refl
contains-extract_outputs (o ∷ outputs) fp a =
    or_first (output_names_address a o) (any (output_names_address a) outputs) _ _ _
      (contains-extract_outputs outputs (extract_output o fp) a)
      (contains-insert_option o.address fp.required_output_addresses a)

min_outputs-extract_outputs :
    (outputs : List Output) (fp : Fingerprint)
    → fp.min_outputs ≤ u16_max
    → (extract_outputs outputs fp).min_outputs
      ≡ min (fp.min_outputs + count_if (λ o. not o.optional) outputs) u16_max
unfolding extract_outputs
min_outputs-extract_outputs [] fp h = omega arith
min_outputs-extract_outputs (o ∷ outputs) fp h =
    ground (arith, min_outputs-extract_outputs outputs (extract_output o fp))

-- what each stage leaves alone
extract_inputs_keeps :
    (inputs : List Input) (fp : Fingerprint)
    → ((extract_inputs inputs fp).required_output_addresses ≡ fp.required_output_addresses)
      × ((extract_inputs inputs fp).required_reference_refs ≡ fp.required_reference_refs)
      × ((extract_inputs inputs fp).min_outputs ≡ fp.min_outputs)
      × ((extract_inputs inputs fp).min_mints ≡ fp.min_mints)
      × ((extract_inputs inputs fp).min_burns ≡ fp.min_burns)
unfolding extract_inputs
extract_inputs_keeps [] fp = (refl, refl, refl, refl, refl)
extract_inputs_keeps (i ∷ inputs) fp =
    ground (arith, extract_inputs_keeps inputs (extract_input i fp))

extract_outputs_keeps :
    (outputs : List Output) (fp : Fingerprint)
    → ((extract_outputs outputs fp).required_input_refs ≡ fp.required_input_refs)
      × ((extract_outputs outputs fp).required_reference_refs ≡ fp.required_reference_refs)
      × ((extract_outputs outputs fp).min_mints ≡ fp.min_mints)
      × ((extract_outputs outputs fp).min_burns ≡ fp.min_burns)
unfolding extract_outputs
extract_outputs_keeps [] fp = (refl, refl, refl, refl)
extract_outputs_keeps (o ∷ outputs) fp =
    ground (arith, extract_outputs_keeps outputs (extract_output o fp))

extract_references_keeps :
    (es : List Expression) (fp : Fingerprint)
    → ((extract_references es fp).required_input_refs ≡ fp.required_input_refs)
      × ((extract_references es fp).required_output_addresses ≡ fp.required_output_addresses)
      × ((extract_references es fp).min_outputs ≡ fp.min_outputs)
      × ((extract_references es fp).min_mints ≡ fp.min_mints)
      × ((extract_references es fp).min_burns ≡ fp.min_burns)
unfolding extract_references
extract_references_keeps [] fp = (refl, refl, refl, refl, refl)
extract_references_keeps (e ∷ es) fp =
    ground (arith, extract_references_keeps es (extract_reference e fp))

length-extract_mints :
    (mints : List Mint) (policies : Set Bytes) (counter : ℕ)
    → counter ≤ u16_max
    → (extract_mints mints (policies, counter)).1 ≡ min (counter + length mints) u16_max
unfolding extract_mints
length-extract_mints [] policies counter h = omega arith
length-extract_mints (m ∷ mints) policies counter h = ground (
  arith,
  length-extract_mints mints (insert_all (const_policies_in m.amount) policies)
      (min (counter + 1) u16_max),
)

module _ (lib : Library) (tii : TiiFile) (tx_name profile_name : Text) (specialized : Tx)
    (args : ArgMap) where
  abbrev pub fingerprint_of : Fingerprint
  fingerprint_of = extract lib tii tx_name profile_name specialized args

  required_input_refs-extract :
      (r : UtxoRef)
      → contains fingerprint_of.required_input_refs r ≡ any (input_names_ref r) specialized.inputs
  unfolding extract with_mints with_rest
  required_input_refs-extract r =
      let fp = blank lib tii tx_name profile_name specialized args in
      let fp1 = extract_inputs specialized.inputs fp in
      let fp2 = extract_outputs specialized.outputs fp1 in
      let fp3 = with_mints lib specialized fp2 in
      ap (λ s. contains s r)
        ((extract_references_keeps specialized.references fp3).0
          ∙ (extract_outputs_keeps specialized.outputs fp1).0)
      ∙ ground (arith, contains-extract_inputs specialized.inputs fp r)

  required_reference_refs-extract :
      (r : UtxoRef)
      → contains fingerprint_of.required_reference_refs r
        ≡ any (λ e. names_ref e r) specialized.references
  unfolding extract with_mints with_rest
  required_reference_refs-extract r =
      let fp = blank lib tii tx_name profile_name specialized args in
      let fp1 = extract_inputs specialized.inputs fp in
      let fp2 = extract_outputs specialized.outputs fp1 in
      let fp3 = with_mints lib specialized fp2 in
      let start : fp3.required_reference_refs ≡ [] =
        (extract_outputs_keeps specialized.outputs fp1).1
        ∙ (extract_inputs_keeps specialized.inputs fp).1 in
      contains-extract_references specialized.references fp3 r ∙ rw start (or-false _)

  required_output_addresses-extract :
      (a : Bytes)
      → contains fingerprint_of.required_output_addresses a
        ≡ any (output_names_address a) specialized.outputs
  unfolding extract with_mints with_rest
  required_output_addresses-extract a =
      let fp = blank lib tii tx_name profile_name specialized args in
      let fp1 = extract_inputs specialized.inputs fp in
      let fp2 = extract_outputs specialized.outputs fp1 in
      let fp3 = with_mints lib specialized fp2 in
      let start : fp1.required_output_addresses ≡ [] =
        (extract_inputs_keeps specialized.inputs fp).0 in
      ap (λ s. contains s a) ((extract_references_keeps specialized.references fp3).1)
      ∙ contains-extract_outputs specialized.outputs fp1 a
      ∙ rw start (or-false _)

  -- The references and output addresses that a fingerprint requires are exactly those that the
  -- inputs, the references and the outputs of the specialized transaction name as constants.
  pub extract_exact :
      ((r : UtxoRef)
        → contains fingerprint_of.required_input_refs r
          ≡ any (input_names_ref r) specialized.inputs)
      × ((r : UtxoRef)
          → contains fingerprint_of.required_reference_refs r
            ≡ any (λ e. names_ref e r) specialized.references)
      × ((a : Bytes)
          → contains fingerprint_of.required_output_addresses a
            ≡ any (output_names_address a) specialized.outputs)
  extract_exact = (
    required_input_refs-extract, required_reference_refs-extract, required_output_addresses-extract,
  )

  -- The minimum of outputs is the number of outputs that are not optional, and those of mints and
  -- burns are the numbers of mints and burns, all capped at `u16::MAX`.
  pub extract_counts :
      (fingerprint_of.min_outputs ≡ clamp_u16 (count_if (λ o. not o.optional) specialized.outputs))
      × (fingerprint_of.min_mints ≡ clamp_u16 (length specialized.mints))
      × (fingerprint_of.min_burns ≡ clamp_u16 (length specialized.burns))
  unfolding extract with_mints with_rest
  extract_counts =
      let fp = blank lib tii tx_name profile_name specialized args in
      let fp1 = extract_inputs specialized.inputs fp in
      let fp2 = extract_outputs specialized.outputs fp1 in
      let fp3 = with_mints lib specialized fp2 in
      omega (
        arith,
        (extract_references_keeps specialized.references fp3).2,
        (extract_references_keeps specialized.references fp3).3,
        (extract_references_keeps specialized.references fp3).4,
        (extract_inputs_keeps specialized.inputs fp).2,
        (extract_inputs_keeps specialized.inputs fp).3,
        (extract_inputs_keeps specialized.inputs fp).4,
        (extract_outputs_keeps specialized.outputs fp1).2,
        (extract_outputs_keeps specialized.outputs fp1).3,
        min_outputs-extract_outputs specialized.outputs fp1,
        length-extract_mints specialized.mints fp2.required_mint_policies fp2.min_mints,
        length-extract_mints specialized.burns fp2.required_burn_policies fp2.min_burns,
      )

  -- The pre-filter rejects every payload that has no output at the constant address of some output of
  -- the transaction, whether that output is optional or not.
  pub matches_needs_output :
      (s : PayloadSummary) (output : Output) (a : Bytes)
      → In output specialized.outputs
      → const_address output.address ≡ some a
      → contains s.output_addresses a ≡ false
      → matches fingerprint_of s ≡ false
  matches_needs_output s output a i c absent = elim (Bool-cases (matches fingerprint_of s)) [
    | inr n ↦ n
    | inl y ↦
        let needed : any (output_names_address a) specialized.outputs ≡ true =
          (any_iff (output_names_address a) specialized.outputs).1
            (output, i, rw (c, names_address) ((==_iff a a).1 refl)) in
        let present =
          ((matches_iff fingerprint_of s).0 y).output_addresses a
            (required_output_addresses-extract a ∙ needed) in
        cc
  ]
