-- ===== src/Cardano/Summarize/Refs.antt =====
-- crates/tx3-lift-cardano/src/summarize.rs: the input references of the summary.
use tx3_lift.Prelude.{
  ◌≡◌, refl, ◌∙◌, sym, ap, ◌||◌, Option, none, some, List, [], ◌∷◌, any, ok, ok_inj, ok_or, ◌>>=◌,
  arith,
}
use tx3_lift.Prelude.Order.{nat_ord, list_ord, pair_ord, ◌==◌}
use tx3_lift.Collections.Set.{contains, insert, contains-insert}
use tx3_lift.Lift.Payload.{PayloadSummary, UtxoRef, default_summary}
use tx3_lift.Cardano.Ledger.{
  OutputRef, LedgerOutput, PolicyAssets, LedgerTx, Pallas, CardanoPayload, ref_key, parsed,
  resolved_output,
}
use tx3_lift.Cardano.Summarize.{
  add_resolved, add_input, add_inputs, add_output, add_outputs, add_mint, add_mints, add_rest,
  summarize,
}

input_refs-add_outputs :
    (xs : List LedgerOutput) (s : PayloadSummary) → (add_outputs xs s).input_refs ≡ s.input_refs
unfolding add_outputs
input_refs-add_outputs [] s = refl
input_refs-add_outputs (x ∷ xs) s = input_refs-add_outputs xs (add_output x s)

input_refs-add_mints :
    (xs : List PolicyAssets) (s : PayloadSummary) → (add_mints xs s).input_refs ≡ s.input_refs
unfolding add_mints
input_refs-add_mints [] s = refl
input_refs-add_mints (x ∷ xs) s = input_refs-add_mints xs (add_mint x s)

module _ (pallas : Pallas) (payload : CardanoPayload) where
  input_refs-add_resolved :
      (o : Option LedgerOutput) (s : PayloadSummary)
      → (add_resolved pallas payload o s).input_refs ≡ s.input_refs
  input_refs-add_resolved none s = refl
  input_refs-add_resolved (some x) s = refl

  contains-add_input :
      (x : OutputRef) (s : PayloadSummary) (r : UtxoRef)
      → contains (add_input pallas payload x s).input_refs r
        ≡ ((ref_key x == r) || contains s.input_refs r)
  contains-add_input x s r =
      ap (λ t. contains t r)
        (input_refs-add_resolved (resolved_output pallas payload (ref_key x))
          (record s { input_refs = insert (ref_key x) s.input_refs }))
      ∙ contains-insert (ref_key x) r s.input_refs

  contains-add_inputs :
      (xs : List OutputRef) (s : PayloadSummary) (r : UtxoRef)
      → contains (add_inputs pallas payload xs s).input_refs r
        ≡ (any (λ x. ref_key x == r) xs || contains s.input_refs r)
  unfolding add_inputs
  contains-add_inputs [] s r = refl
  contains-add_inputs (x ∷ xs) s r =
      contains-add_inputs xs (add_input pallas payload x s) r
      ∙ ap (λ b. any (λ y. ref_key y == r) xs || b) (contains-add_input x s r)
      ∙ ground arith

  -- Where the payload decodes and the summary is `s`, a reference is in `input_refs` exactly if an
  -- input of the transaction has it.
  pub summarize_refs :
      (tx : LedgerTx) (s : PayloadSummary) (r : UtxoRef)
      → pallas.decode_tx payload.raw ≡ some tx
      → summarize pallas payload ≡ ok s
      → contains s.input_refs r ≡ any (λ x. ref_key x == r) tx.inputs
  unfolding summarize parsed add_rest
  summarize_refs tx s r d h =
      let s1 = add_inputs pallas payload tx.inputs default_summary in
      let s2 = add_outputs tx.outputs s1 in
      let same : add_rest tx (add_mints tx.mints s2) ≡ s = ok_inj (rw (d, ok_or, ◌>>=◌) at h) in
      rw (sym same) (
        ap (λ t. contains t r)
          (input_refs-add_mints tx.mints s2 ∙ input_refs-add_outputs tx.outputs s1)
        ∙ contains-add_inputs tx.inputs default_summary r
        ∙ ground arith)
