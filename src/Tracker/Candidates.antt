-- ===== src/Tracker/Candidates.antt =====
-- bin/tracker/src/process.rs, `run_specializations`: the sources that gate a transaction, and the
-- candidates that match it.
use tx3_lift.Prelude.{
  ◌+◌, Option, none, some, List, [], ◌∷◌, ◌++◌, Text, Result, ok, ◌>>=◌, map_err, clamp_u32,
  if◌then◌else◌,
}
use tx3_lift.Prelude.Order.{nat_ord, list_ord, pair_ord}
use tx3_lift.Lift.Tir.{Tx}
use tx3_lift.Lift.Payload.{PayloadSummary}
use tx3_lift.Lift.Fingerprint.{Fingerprint, matches, information_score}
use tx3_lift.Lift.Anchors.{AnchorHits, hits, gates}
use tx3_lift.Cardano.Ledger.{Pallas, CardanoPayload}
use tx3_lift.Cardano.Matching.{MatchAssignment}
use tx3_lift.Cardano.Routing.{matcher_match_tx}
use tx3_lift.Tracker.Error.{TrackerError, lift_cardano}
use tx3_lift.Tracker.Select.{Candidate}
use tx3_lift.Tracker.Specialization.{SpecializedTii}

-- `LiftInputs`
pub record LiftInputs : Type 0 where
  pub spec : SpecializedTii
  pub tir : Tx
  pub assignment : MatchAssignment

module _ (pallas : Pallas) where
  -- the body of the loop over the transactions of a source
  abbrev pub candidate_of :
      SpecializedTii
      → AnchorHits
      → Text
      → Tx
      → Fingerprint
      → Option MatchAssignment
      → List (Candidate LiftInputs)
  candidate_of spec found tx_name tir fp none = []
  candidate_of spec found tx_name tir fp (some assignment) =
      record {
        source_name = spec.name;
        tx_name = tx_name;
        score = clamp_u32 (found.total + information_score fp);
        payload = record { spec = spec; tir = tir; assignment = assignment };
      }
      ∷ []

  unfoldable pub collect_txs :
      CardanoPayload
      → PayloadSummary
      → SpecializedTii
      → AnchorHits
      → List (Text × (Tx × Fingerprint))
      → Result TrackerError (List (Candidate LiftInputs))
  collect_txs payload summary spec found [] = ok []
  collect_txs payload summary spec found ((tx_name, (tir, fp)) ∷ txs) =
      let rest = collect_txs payload summary spec found txs in
      let matched = (do
        assignment ← map_err lift_cardano (matcher_match_tx pallas tir payload)
        candidates ← rest
        ok (candidate_of spec found tx_name tir fp assignment ++ candidates)) in
      if matches fp summary then matched else rest

  -- (1) the gate, and the candidates of the sources that pass it
  unfoldable pub collect_candidates :
      CardanoPayload
      → PayloadSummary
      → List SpecializedTii
      → Result TrackerError (List (Candidate LiftInputs))
  unfolding collect_txs
  collect_candidates payload summary [] = ok []
  collect_candidates payload summary (spec ∷ specs) =
      let found = hits summary spec.anchors in
      let rest = collect_candidates payload summary specs in
      let gated = (do
        candidates ← collect_txs payload summary spec found spec.txs
        more ← rest
        ok (candidates ++ more)) in
      if gates found then gated else rest
