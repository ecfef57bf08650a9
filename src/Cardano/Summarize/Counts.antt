-- ===== src/Cardano/Summarize/Counts.antt =====
-- crates/tx3-lift-cardano/src/summarize.rs: the counters of the summary.
use tx3_lift.Prelude.{
  ℕ, ◌+◌, ◌≤◌, ◌≡◌, refl, ◌∙◌, sym, Bool, true, false, Option, none, some, List, [], ◌∷◌, length,
  ok, ok_inj, ok_or, ◌>>=◌, count_if, clamp_u16, saturating_add_u16, u16_max, if◌then◌else◌, arith,
}
use tx3_lift.Prelude.Order.{nat_ord, list_ord, pair_ord}
use tx3_lift.Collections.Set.{insert}
use tx3_lift.Lift.Payload.{PayloadSummary, default_summary}
use tx3_lift.Cardano.Ledger.{
  OutputRef, LedgerOutput, PolicyAssets, LedgerTx, Pallas, CardanoPayload, ref_key, parsed,
  resolved_output,
}
use tx3_lift.Cardano.Summarize.{
  add_resolved, add_input, add_inputs, add_output, add_outputs, has_positive, has_negative,
  add_mint, add_mints, add_rest, summarize,
}

-- one more, or not, and then `n` more
counted_once :
    (b : Bool) (start n : ℕ)
    → clamp_u16 ((if b then saturating_add_u16 start 1 else start) + n)
      ≡ clamp_u16 (start + (if b then 1 + n else n))
counted_once true start n = omega arith
counted_once false start n = refl

counts-add_mints :
    (xs : List PolicyAssets) (s : PayloadSummary)
    → s.mint_count ≤ u16_max
    → s.burn_count ≤ u16_max
    → ((add_mints xs s).mint_count ≡ clamp_u16 (s.mint_count + count_if has_positive xs))
      × ((add_mints xs s).burn_count ≡ clamp_u16 (s.burn_count + count_if has_negative xs))
unfolding add_mints
counts-add_mints [] s h k = (omega arith, omega arith)
counts-add_mints (x ∷ xs) s h k =
    let rest = counts-add_mints xs (add_mint x s) (ground arith) (ground arith) in
    (
      rest.0 ∙ counted_once (has_positive x) s.mint_count (count_if has_positive xs) ∙ ground arith,
      rest.1 ∙ counted_once (has_negative x) s.burn_count (count_if has_negative xs) ∙ ground arith,
    )

counts-add_outputs :
    (xs : List LedgerOutput) (s : PayloadSummary)
    → ((add_outputs xs s).mint_count ≡ s.mint_count)
      × ((add_outputs xs s).burn_count ≡ s.burn_count)
unfolding add_outputs
counts-add_outputs [] s = (refl, refl)
counts-add_outputs (x ∷ xs) s = counts-add_outputs xs (add_output x s)

module _ (pallas : Pallas) (payload : CardanoPayload) where
  counts-add_resolved :
      (o : Option LedgerOutput) (s : PayloadSummary)
      → ((add_resolved pallas payload o s).mint_count ≡ s.mint_count)
        × ((add_resolved pallas payload o s).burn_count ≡ s.burn_count)
  counts-add_resolved none s = (refl, refl)
  counts-add_resolved (some x) s = (refl, refl)

  counts-add_inputs :
      (xs : List OutputRef) (s : PayloadSummary)
      → ((add_inputs pallas payload xs s).mint_count ≡ s.mint_count)
        × ((add_inputs pallas payload xs s).burn_count ≡ s.burn_count)
  unfolding add_inputs
  counts-add_inputs [] s = (refl, refl)
  counts-add_inputs (x ∷ xs) s =
      let rest = counts-add_inputs xs (add_input pallas payload x s) in
      let one =
        counts-add_resolved (resolved_output pallas payload (ref_key x))
          (record s { input_refs = insert (ref_key x) s.input_refs }) in
      (rest.0 ∙ one.0, rest.1 ∙ one.1)

  -- Where the payload decodes and the summary is `s`, its counts of inputs and outputs are those of
  -- the transaction, and its counts of mints and burns are the numbers of policies with a positive,
  -- and with a negative, amount, all capped at `u16::MAX`.
  pub summarize_counts :
      (tx : LedgerTx) (s : PayloadSummary)
      → pallas.decode_tx payload.raw ≡ some tx
      → summarize pallas payload ≡ ok s
      → (s.input_count ≡ clamp_u16 (length tx.inputs))
        × (s.output_count ≡ clamp_u16 (length tx.outputs))
        × (s.mint_count ≡ clamp_u16 (count_if has_positive tx.mints))
        × (s.burn_count ≡ clamp_u16 (count_if has_negative tx.mints))
  unfolding summarize parsed add_rest
  summarize_counts tx s d h =
      let s1 = add_inputs pallas payload tx.inputs default_summary in
      let s2 = add_outputs tx.outputs s1 in
      let same : add_rest tx (add_mints tx.mints s2) ≡ s = ok_inj (rw (d, ok_or, ◌>>=◌) at h) in
      let k1 = counts-add_inputs tx.inputs default_summary in
      let k2 = counts-add_outputs tx.outputs s1 in
      let zero_mints : s2.mint_count ≡ 0 = k2.0 ∙ k1.0 in
      let zero_burns : s2.burn_count ≡ 0 = k2.1 ∙ k1.1 in
      let k3 = counts-add_mints tx.mints s2 (omega arith) (omega arith) in
      rw (sym same)
        (refl, refl, k3.0 ∙ rw zero_mints (omega arith), k3.1 ∙ rw zero_burns (omega arith))
