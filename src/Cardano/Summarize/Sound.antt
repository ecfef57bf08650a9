-- ===== src/Cardano/Summarize/Sound.antt =====
-- crates/tx3-lift-cardano/src/summarize.rs: what the summary says of the decoded transaction.
use tx3_lift.Prelude.{
  ◌≡◌, refl, sym, ap, ◌∙◌, Bool, true, false, ◌||◌, ◌&&◌, Option, none, some, List, [], ◌∷◌, Bytes,
  any, ◌↔◌, In, ok, ok_inj, ok_or, ◌>>=◌, is_some, arith, if◌then◌else◌,
}
use tx3_lift.Prelude.Order.{nat_ord, list_ord, pair_ord, ◌==◌}
use tx3_lift.Collections.Set.{contains, contains-insert, insert}
use tx3_lift.Lift.Payload.{PayloadSummary, default_summary}
use tx3_lift.Cardano.Ledger.{
  OutputRef, DatumOption, LedgerOutput, PolicyAssets, LedgerTx, Pallas, CardanoPayload, ref_key,
  parsed, resolved_output,
}
use tx3_lift.Cardano.Signs.{
  IsPositive, IsNegative, HasAmount, any-IsPositive_iff, any-IsNegative_iff,
}
use tx3_lift.Cardano.Summarize.Meaning.{
  pays, locks, moves, exact_iff, pays_iff, locks_iff, moves_iff,
}
use tx3_lift.Cardano.Summarize.{
  insert_address, add_resolved, add_input, add_inputs, with_datum, add_output, add_outputs,
  has_positive, has_negative, add_mint, add_mints, add_rest, summarize,
}

or-false : (b : Bool) → (b || false) ≡ b
or-false b = ground arith

module _ (a : Bytes) where
  contains-insert_address :
      (o : Option Bytes) (t : List Bytes)
      → contains (insert_address o t) a
        ≡ (elim o [ none ↦ false | some b ↦ b == a ] || contains t a)
  contains-insert_address none t = refl
  contains-insert_address (some b) t = contains-insert b a t

  contains-with_datum :
      (o : Option Bytes) (d : Option DatumOption) (t : List Bytes)
      → contains (with_datum o d t) a
        ≡ ((elim o [ none ↦ false | some b ↦ b == a ] && is_some d) || contains t a)
  contains-with_datum none d t = refl
  contains-with_datum (some b) none t = ground arith
  contains-with_datum (some b) (some d) t = ground (arith, contains-insert b a t)

  contains-add_outputs :
      (xs : List LedgerOutput) (s : PayloadSummary)
      → contains (add_outputs xs s).output_addresses a
        ≡ (any (pays a) xs || contains s.output_addresses a)
  unfolding add_outputs
  contains-add_outputs [] s = refl
  contains-add_outputs (x ∷ xs) s =
      contains-add_outputs xs (add_output x s)
      ∙ ap (λ b. any (pays a) xs || b) (contains-insert_address x.address s.output_addresses)
      ∙ ground arith

  datum-add_outputs :
      (xs : List LedgerOutput) (s : PayloadSummary)
      → contains (add_outputs xs s).output_addresses_with_datum a
        ≡ (any (locks a) xs || contains s.output_addresses_with_datum a)
  unfolding add_outputs
  datum-add_outputs [] s = refl
  datum-add_outputs (x ∷ xs) s =
      datum-add_outputs xs (add_output x s)
      ∙ ap (λ b. any (locks a) xs || b)
          (contains-with_datum x.address x.datum s.output_addresses_with_datum)
      ∙ ground arith

  contains-insert_if :
      (signed : Bool) (p : Bytes) (t : List Bytes)
      → contains (if signed then insert p t else t) a ≡ ((signed && (p == a)) || contains t a)
  contains-insert_if true p t = contains-insert p a t
  contains-insert_if false p t = refl

  contains-add_mints :
      (xs : List PolicyAssets) (s : PayloadSummary)
      → (contains (add_mints xs s).mint_policies a
          ≡ (any (moves has_positive a) xs || contains s.mint_policies a))
        × (contains (add_mints xs s).burn_policies a
            ≡ (any (moves has_negative a) xs || contains s.burn_policies a))
  unfolding add_mints
  contains-add_mints [] s = (refl, refl)
  contains-add_mints (x ∷ xs) s = (
    (contains-add_mints xs (add_mint x s)).0
        ∙ ap (λ b. any (moves has_positive a) xs || b)
            (contains-insert_if (has_positive x) x.policy s.mint_policies)
        ∙ ground arith,
    (contains-add_mints xs (add_mint x s)).1
        ∙ ap (λ b. any (moves has_negative a) xs || b)
            (contains-insert_if (has_negative x) x.policy s.burn_policies)
        ∙ ground arith,
  )

-- fields that a part does not write
add_mints_keeps :
    (xs : List PolicyAssets) (s : PayloadSummary)
    → ((add_mints xs s).output_addresses ≡ s.output_addresses)
      × ((add_mints xs s).output_addresses_with_datum ≡ s.output_addresses_with_datum)
unfolding add_mints
add_mints_keeps [] s = (refl, refl)
add_mints_keeps (x ∷ xs) s = add_mints_keeps xs (add_mint x s)

add_outputs_keeps :
    (xs : List LedgerOutput) (s : PayloadSummary)
    → ((add_outputs xs s).mint_policies ≡ s.mint_policies)
      × ((add_outputs xs s).burn_policies ≡ s.burn_policies)
unfolding add_outputs
add_outputs_keeps [] s = (refl, refl)
add_outputs_keeps (x ∷ xs) s = add_outputs_keeps xs (add_output x s)

module _ (pallas : Pallas) (payload : CardanoPayload) where
  add_resolved_keeps :
      (o : Option LedgerOutput) (s : PayloadSummary)
      → ((add_resolved pallas payload o s).output_addresses ≡ s.output_addresses)
        × ((add_resolved pallas payload o s).output_addresses_with_datum
            ≡ s.output_addresses_with_datum)
        × ((add_resolved pallas payload o s).mint_policies ≡ s.mint_policies)
        × ((add_resolved pallas payload o s).burn_policies ≡ s.burn_policies)
  add_resolved_keeps none s = (refl, refl, refl, refl)
  add_resolved_keeps (some x) s = (refl, refl, refl, refl)

  add_inputs_keeps :
      (xs : List OutputRef) (s : PayloadSummary)
      → ((add_inputs pallas payload xs s).output_addresses ≡ s.output_addresses)
        × ((add_inputs pallas payload xs s).output_addresses_with_datum
            ≡ s.output_addresses_with_datum)
        × ((add_inputs pallas payload xs s).mint_policies ≡ s.mint_policies)
        × ((add_inputs pallas payload xs s).burn_policies ≡ s.burn_policies)
  unfolding add_inputs
  add_inputs_keeps [] s = (refl, refl, refl, refl)
  add_inputs_keeps (x ∷ xs) s =
      let rest = add_inputs_keeps xs (add_input pallas payload x s) in
      let one =
        add_resolved_keeps (resolved_output pallas payload (ref_key x))
          (record s { input_refs = insert (ref_key x) s.input_refs }) in
      (rest.0 ∙ one.0, rest.1 ∙ one.1, rest.2 ∙ one.2, rest.3 ∙ one.3)

  contains-summarize :
      (tx : LedgerTx) (s : PayloadSummary) (a : Bytes)
      → pallas.decode_tx payload.raw ≡ some tx
      → summarize pallas payload ≡ ok s
      → (contains s.output_addresses a ≡ any (pays a) tx.outputs)
        × (contains s.output_addresses_with_datum a ≡ any (locks a) tx.outputs)
        × (contains s.mint_policies a ≡ any (moves has_positive a) tx.mints)
        × (contains s.burn_policies a ≡ any (moves has_negative a) tx.mints)
  unfolding summarize parsed add_rest
  contains-summarize tx s a d h =
      let s1 = add_inputs pallas payload tx.inputs default_summary in
      let s2 = add_outputs tx.outputs s1 in
      let s3 = add_mints tx.mints s2 in
      let same : add_rest tx s3 ≡ s = ok_inj (rw (d, ok_or, ◌>>=◌) at h) in
      let k1 = add_inputs_keeps tx.inputs default_summary in
      let k2 = add_outputs_keeps tx.outputs s1 in
      let k3 = add_mints_keeps tx.mints s2 in
      rw (sym same) (
        ap (λ t. contains t a) k3.0 ∙ contains-add_outputs a tx.outputs s1 ∙ rw k1.0 (or-false _),
        ap (λ t. contains t a) k3.1 ∙ datum-add_outputs a tx.outputs s1 ∙ rw k1.1 (or-false _),
        (contains-add_mints a tx.mints s2).0 ∙ rw (k2.0 ∙ k1.2) (or-false _),
        (contains-add_mints a tx.mints s2).1 ∙ rw (k2.1 ∙ k1.3) (or-false _),
      )

  -- Where the payload decodes and the summary is `s`, an address is in `output_addresses` exactly if
  -- an output is at it, in `output_addresses_with_datum` exactly if such an output has a datum, and a
  -- policy is in `mint_policies` or `burn_policies` exactly if the mint field has it with an asset
  -- whose amount is positive, or negative.
  pub summarize_exact :
      (tx : LedgerTx) (s : PayloadSummary) (a : Bytes)
      → pallas.decode_tx payload.raw ≡ some tx
      → summarize pallas payload ≡ ok s
      → ((contains s.output_addresses a ≡ true)
          ↔ ((x : LedgerOutput) × In x tx.outputs × (x.address ≡ some a)))
        × ((contains s.output_addresses_with_datum a ≡ true) ↔ (
            (x : LedgerOutput) × In x tx.outputs
            × ((x.address ≡ some a) × ((d : DatumOption) × (x.datum ≡ some d)))))
        × ((contains s.mint_policies a ≡ true)
            ↔ ((p : PolicyAssets) × In p tx.mints × (HasAmount IsPositive p × (p.policy ≡ a))))
        × ((contains s.burn_policies a ≡ true)
            ↔ ((p : PolicyAssets) × In p tx.mints × (HasAmount IsNegative p × (p.policy ≡ a))))
  summarize_exact tx s a d h =
      let (paid, locked, minted, burned) = contains-summarize tx s a d h in
      (
        exact_iff (pays a) _ tx.outputs paid (pays_iff a),
        exact_iff (locks a) _ tx.outputs locked (locks_iff a),
        exact_iff (moves has_positive a) _ tx.mints minted
            (moves_iff a has_positive (HasAmount IsPositive) any-IsPositive_iff),
        exact_iff (moves has_negative a) _ tx.mints burned
            (moves_iff a has_negative (HasAmount IsNegative) any-IsNegative_iff),
      )
