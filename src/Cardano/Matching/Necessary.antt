-- ===== src/Cardano/Matching/Necessary.antt =====
-- crates/tx3-lift-cardano/src/matching.rs against crates/tx3-lift/src/fingerprint.rs: the pre-filter's
-- counts and input references are necessary for the structural match.
use tx3_lift.Prelude.{
  sym, ℕ, ◌≤◌, ◌≡◌, refl, ◌∙◌, true, List, [], ◌∷◌, Text, length, ok, count_if, clamp_u16, arith,
}
use tx3_lift.Lift.Tir.{Tx, TiiFile, ArgMap}
use tx3_lift.Lift.Library.{Library}
use tx3_lift.Lift.Payload.{PayloadSummary}
use tx3_lift.Lift.Fingerprint.Extract.{extract}
use tx3_lift.Lift.Fingerprint.Extract.Exact.{extract_counts, extract_exact}
use tx3_lift.Collections.Set.{is_subset, is_subset_iff}
use tx3_lift.Prelude.Order.{nat_ord, list_ord, pair_ord}
use tx3_lift.Cardano.Summarize.Refs.{summarize_refs}
use tx3_lift.Cardano.Matching.Spent.{assign_inputs-spent}
use tx3_lift.Cardano.Ledger.{LedgerTx, Pallas, CardanoPayload}
use tx3_lift.Cardano.Summarize.{summarize}
use tx3_lift.Cardano.Summarize.Counts.{summarize_counts}
use tx3_lift.Cardano.Matching.{MatchAssignment, any_positive, any_negative, unused}
use tx3_lift.Cardano.Matching.Assigned.{IsMatch, match_tx-parts}
use tx3_lift.Cardano.Matching.Free.{free-unused, count_if-assign_outputs, length-assign_mints}

count_if-all : {A : Type 0} (xs : List A) → count_if (λ x. true) xs ≡ length xs
count_if-all [] = refl
count_if-all (x ∷ xs) = omega (arith, count_if-all xs)

clamped : (a b : ℕ) → a ≤ b → clamp_u16 a ≤ clamp_u16 b
clamped a b h = omega arith

module _ (lib : Library) (tii : TiiFile) (args : ArgMap) (pallas : Pallas) (specialized : Tx)
    (payload : CardanoPayload) (profile_name tx_name : Text) (tx : LedgerTx)
    (a : MatchAssignment) where
  -- Where the payload decodes and the structural match succeeds, the counts of outputs, mints and
  -- burns that the fingerprint of the transaction requires are met by the payload's summary, and the
  -- input references that it requires are in the summary.
  pub match_tx-meets :
      (s : PayloadSummary)
      → IsMatch pallas specialized payload profile_name tx_name tx a
      → summarize pallas payload ≡ ok s
      → let fp = extract lib tii tx_name profile_name specialized args in
        (fp.min_outputs ≤ s.output_count)
        × (fp.min_mints ≤ s.mint_count)
        × (fp.min_burns ≤ s.burn_count)
        × (is_subset fp.required_input_refs s.input_refs ≡ true)
  match_tx-meets s h e =
      let (inputs, outputs, mints, burns) =
        match_tx-parts pallas specialized payload profile_name tx_name tx a h in
      let counts = summarize_counts pallas payload tx s h.0 e in
      let needs = extract_counts lib tii tx_name profile_name specialized args in
      let exact = extract_exact lib tii tx_name profile_name specialized args in
      let o =
        count_if-assign_outputs specialized.outputs tx.outputs (unused tx.outputs) a.output_map
          outputs in
      let m =
        length-assign_mints any_positive specialized.mints tx.mints (unused tx.mints) a.mint_map
          mints in
      let b =
        length-assign_mints any_negative specialized.burns tx.mints (unused tx.mints) a.burn_map
          burns in
      let o' = rw (free-unused (λ x. true) tx.outputs ∙ count_if-all tx.outputs) at o in
      let m' = rw (free-unused any_positive tx.mints) at m in
      let b' = rw (free-unused any_negative tx.mints) at b in
      rw (needs.0, needs.1, needs.2, counts.1, counts.2, counts.3)
        (
          clamped _ _ o',
          clamped _ _ m',
          clamped _ _ b',
          (is_subset_iff (extract lib tii tx_name profile_name specialized args).required_input_refs
                s.input_refs).1
              λ r c.
                summarize_refs pallas payload tx s r h.0 e
                ∙ assign_inputs-spent pallas payload specialized.inputs tx.inputs (unused tx.inputs)
                    a.input_map r inputs (sym (exact.0 r) ∙ c),
        )
