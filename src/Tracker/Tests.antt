-- ===== src/Tracker/Tests.antt =====
-- The tracker on one source: its specialization, and an Apply event that matches.
use tx3_lift.Prelude.{
  List, inl, In, ◌+◌, ◌≤◌, clamp_u32, ℤ, pos, ◌≡◌, refl, none, some, [], ◌∷◌, Bytes, All, ok,
}
use tx3_lift.Prelude.Order.{nat_ord, list_ord, pair_ord}
use tx3_lift.Lift.Fingerprint.{Fingerprint, matches, information_score}
use tx3_lift.Lift.Fingerprint.Extract.{extract}
use tx3_lift.Lift.Specialize.{
  lookup_profile, decode_bech32_address, args_from_profile, lookup_tx, decode_tir,
}
use tx3_lift.Lift.Anchors.{from_profile, no_anchors, gates, hits}
use tx3_lift.Lift.Tir.{arg_address}
use tx3_lift.Lift.Payload.{PayloadSummary, default_summary}
use tx3_lift.Lift.Expr.{const_address, const_policies_in}
use tx3_lift.Cardano.Ledger.{from_cbor, parsed}
use tx3_lift.Cardano.Summarize.{summarize}
use tx3_lift.Cardano.Matching.{match_tx}
use tx3_lift.Cardano.Lifting.{lift}
use tx3_lift.Cardano.Routing.{matcher_match_tx}
use tx3_lift.Cardano.Lifting.Tests.{lib, pallas, assets, tii, tir, payload, assignment}
use tx3_lift.Tracker.Candidates.{LiftInputs, collect_candidates}
use tx3_lift.Tracker.Select.{Candidate, all_matches, select_matches}
use tx3_lift.Tracker.Store.{ChainPoint, OwnedMatchRow, Db, apply_block}
use tx3_lift.Tracker.Specialization.{
  SourceConfig, SpecializedTii, Files, specialize_all, specialize_one,
}
use tx3_lift.Tracker.Specialization.Prepared.{IsPrepared, specialize_all-IsPrepared}
use tx3_lift.Tracker.Process.{apply_rows, run_specializations}
use tx3_lift.Tracker.Messages.{AnyChainTx, WatchedTx, Block, ProcessLibrary}
use tx3_lift.Tracker.Process.Rows.{IsCandidate, AllRows, run_specializations-IsRowOf}
use tx3_lift.Tracker.Process.Covers.{run_specializations-covers}
use tx3_lift.Tracker.Store.Refines.{view, specified_apply, store-view}

abbrev pub files : Files
files = record { read_to_string = λ path. some path; parse_tii = λ raw. some tii }

abbrev pub source : SourceConfig
source = record { name = 5 ∷ []; tii_path = []; profile = 4 ∷ [] }

abbrev pub spec : SpecializedTii
spec = record {
  name = 5 ∷ [];
  tii = tii;
  profile_name = 4 ∷ [];
  anchors = record { addresses = (1 ∷ []) ∷ []; utxo_refs = []; policies = [] };
  txs =
      (3 ∷ [], (tir, extract lib tii (3 ∷ []) (4 ∷ []) tir ((2 ∷ [], arg_address (1 ∷ [])) ∷ [])))
      ∷ [];
}

specialized : specialize_all lib files (source ∷ []) ≡ ok (spec ∷ [])
unfolding specialize_all specialize_one lookup_profile from_profile decode_bech32_address
    args_from_profile lookup_tx decode_tir no_anchors
specialized = refl

specialize_all-IsPrepared_example : All (IsPrepared lib) (spec ∷ [])
specialize_all-IsPrepared_example =
    specialize_all-IsPrepared lib files (source ∷ []) (spec ∷ []) specialized

abbrev pub zeros : Bytes
zeros =
    0 ∷ 0 ∷ 0 ∷ 0 ∷ 0 ∷ 0 ∷ 0 ∷ 0 ∷ 0 ∷ 0 ∷ 0 ∷ 0 ∷ 0 ∷ 0 ∷ 0 ∷ 0 ∷ 0 ∷ 0 ∷ 0 ∷ 0 ∷ 0 ∷ 0 ∷ 0 ∷ 0
    ∷ 0 ∷ 0 ∷ 0 ∷ 0 ∷ 0 ∷ 0 ∷ 0 ∷ 0 ∷ []

abbrev pub block : Block
block = record {
  era = 6;
  hash = zeros;
  slot = 9;
  header_slot = 9;
  previous_hash = none;
  txs = (zeros, []) ∷ [];
}

abbrev pub process : ProcessLibrary ℤ
process = record { decode_block = λ b. some block; lifted_to_json = λ l. some (8 ∷ []) }

abbrev pub watched : WatchedTx
watched = record { hash = zeros; inputs = []; reference_inputs = [] }

abbrev pub event : AnyChainTx
event = record { chain = some watched; block = some (7 ∷ []) }

abbrev pub point : ChainPoint
point = record { slot = 9; hash = zeros }

abbrev pub row : OwnedMatchRow
row = record {
  tx_hash = [];
  block_slot = 9;
  block_hash = zeros;
  source_name = 5 ∷ [];
  protocol_name = [];
  tx_name = 3 ∷ [];
  profile_name = 4 ∷ [];
  lifted_json = 8 ∷ [];
  score = 2;
  match_rank = 1;
}

pub rows_found :
    apply_rows lib pallas assets process (spec ∷ []) all_matches event ≡ ok (some (point, row ∷ []))
unfolding apply_rows from_cbor run_specializations summarize parsed gates hits matches extract
    const_address const_policies_in matcher_match_tx match_tx select_matches lift
    decode_bech32_address information_score
rows_found = refl

rows_run :
    run_specializations lib pallas assets process (spec ∷ []) payload 9 zeros all_matches
    ≡ ok (row ∷ [])
unfolding run_specializations summarize parsed gates hits matches extract const_address
    const_policies_in matcher_match_tx match_tx select_matches lift decode_bech32_address
    information_score
rows_run = refl

run_specializations-IsRowOf_example :
    (summary : PayloadSummary) × (cs : List (Candidate LiftInputs)) × (summarize pallas payload
      ≡ ok summary)
    × (collect_candidates pallas payload summary (spec ∷ []) ≡ ok cs)
    × AllRows lib pallas assets process payload 9 zeros
        (λ r.
          In r (select_matches cs all_matches)
          × IsCandidate pallas payload summary (spec ∷ []) r.candidate)
        (row ∷ [])
run_specializations-IsRowOf_example =
    run_specializations-IsRowOf lib pallas assets process payload 9 zeros (spec ∷ []) all_matches
      (row ∷ []) rows_run

abbrev pub empty : Db
empty = record { matches = []; cursor = none }

store-view_example :
    view (apply_block [] (pos 5) point (row ∷ []) empty).1
    ≡ specified_apply point (row ∷ []) (view empty)
store-view_example = (store-view empty).0 (pos 5) point (row ∷ [])

abbrev pub summary : PayloadSummary
summary = record default_summary {
  output_addresses = (1 ∷ []) ∷ [];
  output_addresses_with_datum = (1 ∷ []) ∷ [];
  output_count = 1;
}

abbrev pub fp : Fingerprint
fp = extract lib tii (3 ∷ []) (4 ∷ []) tir ((2 ∷ [], arg_address (1 ∷ [])) ∷ [])

run_specializations-covers_example :
    (r : OwnedMatchRow) × In r (row ∷ [])
    × (r.source_name ≡ 5 ∷ [])
    × (clamp_u32 ((hits summary spec.anchors).total + information_score fp) ≤ r.score)
unfolding summarize parsed gates hits matches extract const_address const_policies_in
    matcher_match_tx match_tx
run_specializations-covers_example =
    run_specializations-covers lib pallas assets process payload 9 zeros (spec ∷ []) (row ∷ [])
      summary spec (3 ∷ []) tir fp (record assignment { tx_name = []; profile_name = [] }) rows_run
      refl (inl refl) refl (inl refl) refl refl
