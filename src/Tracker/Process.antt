-- ===== src/Tracker/Process.antt =====
-- bin/tracker/src/process.rs: an Apply event is matched against every source and stored, an Undo event
-- takes its rows back.
pub mod Rows
pub mod Covers
pub mod Errors
pub mod Events
use tx3_lift.Prelude.{
  ℕ, ◌+◌, ◌-◌, Bool, true, false, Option, none, some, List, [], ◌∷◌, ◌++◌, Bytes, Text, ℤ, Result,
  ok, err, ◌>>=◌, ok_or, map_err, is_empty, length, nat_eqb, clamp_u32, if◌then◌else◌, any,
}
use tx3_lift.Prelude.Order.{nat_ord, list_ord, pair_ord, ◌==◌}
use tx3_lift.Collections.Map
use tx3_lift.Collections.Map.{Map}
use tx3_lift.Lift.Tir.{Tx}
use tx3_lift.Lift.Library.{Library}
use tx3_lift.Lift.Payload.{UtxoRef, PayloadSummary}
use tx3_lift.Lift.Lifted.{Lifted}
use tx3_lift.Lift.Fingerprint.{Fingerprint, matches, information_score}
use tx3_lift.Lift.Anchors.{AnchorHits, hits, gates}
use tx3_lift.Cardano.Ledger.{
  LedgerTx, Pallas, CardanoPayload, ResolvedOutput, Era, from_cbor, with_resolved_inputs,
}
use tx3_lift.Cardano.Summarize.{summarize}
use tx3_lift.Cardano.Matching.{MatchAssignment}
use tx3_lift.Cardano.Lifting.{AssetLibrary, lift}
use tx3_lift.Cardano.Routing.{matcher_match_tx}
use tx3_lift.Tracker.Error.{
  TrackerError, lift_cardano, json_error, decode_error, internal_error, tx_not_in_block,
  sqlite_error,
}
use tx3_lift.Tracker.Candidates.{LiftInputs, candidate_of, collect_txs, collect_candidates}
use tx3_lift.Tracker.Messages.{
  WatchedInput, WatchedTx, AnyChainTx, Block, ProcessLibrary, add_resolved_inputs,
  collect_resolved_inputs, find_tx,
}
use tx3_lift.Tracker.Select.{MatchMode, Candidate, Ranked, select_matches}
use tx3_lift.Tracker.Sql.{SqlError, Faults}
use tx3_lift.Tracker.Store.{ChainPoint, OwnedMatchRow, Db}
use tx3_lift.Tracker.Store
use tx3_lift.Tracker.Specialization.{SpecializedTii}

-- the store's answer, whose count is dropped
abbrev pub stored_result :
    {B : Type 0} → Result SqlError B × Db → Result TrackerError (Unit {0}) × Db
stored_result (ok n, db) = (ok tt, db)
stored_result (err e, db) = (err sqlite_error, db)

-- the rows of an Apply event are stored; an error before that leaves the database alone
abbrev pub store_rows :
    Faults
    → ℤ
    → Result TrackerError (Option (ChainPoint × List OwnedMatchRow))
    → Db
    → Result TrackerError (Unit {0}) × Db
store_rows faults now (err e) db = (err e, db)
store_rows faults now (ok none) db = (ok tt, db)
store_rows faults now (ok (some (point, rows))) db =
    stored_result (Store.apply_block faults now point rows db)

-- the rows of an Undo event's transaction are removed
abbrev pub remove_rows :
    Faults → Option WatchedTx → Option ChainPoint → Db → Result TrackerError (Unit {0}) × Db
remove_rows faults none parent db = (ok tt, db)
remove_rows faults (some tx) parent db = stored_result (Store.undo_tx faults tx.hash parent db)

module _ {A : Type 0} (lib : Library) (pallas : Pallas) (assets : AssetLibrary A)
    (process : ProcessLibrary A) where
  abbrev pub row_of : Lifted A → Text → ℕ → Bytes → Ranked LiftInputs → OwnedMatchRow
  row_of lifted json slot block_hash r = record {
    tx_hash = lifted.tx_id;
    block_slot = slot;
    block_hash = block_hash;
    source_name = r.candidate.payload.spec.name;
    protocol_name = lifted.protocol_name;
    tx_name = lifted.tx_name;
    profile_name = lifted.profile_name;
    lifted_json = json;
    score = r.candidate.score;
    match_rank = r.match_rank;
  }

  -- (3) the loop over the survivors
  pub lift_survivors :
      CardanoPayload
      → ℕ
      → Bytes
      → List (Ranked LiftInputs)
      → Result TrackerError (List OwnedMatchRow)
  lift_survivors payload slot block_hash [] = ok []
  lift_survivors payload slot block_hash (r ∷ survivors) = do
    let inputs = r.candidate.payload
    lifted ← map_err lift_cardano (
        lift lib pallas assets inputs.spec.tii r.candidate.tx_name inputs.spec.profile_name
          inputs.tir payload inputs.assignment)
    json ← ok_or (process.lifted_to_json lifted) json_error
    rows ← lift_survivors payload slot block_hash survivors
    ok (row_of lifted json slot block_hash r ∷ rows)

  unfoldable pub run_specializations :
      List SpecializedTii
      → CardanoPayload
      → ℕ
      → Bytes
      → MatchMode
      → Result TrackerError (List OwnedMatchRow)
  unfolding collect_candidates lift_survivors
  run_specializations specialized payload slot block_hash mode = do
    summary ← map_err lift_cardano (summarize pallas payload)
    candidates ← collect_candidates pallas payload summary specialized
    lift_survivors payload slot block_hash (select_matches candidates mode)

  -- from the decoded block to the rows
  rows_of_block :
      List SpecializedTii
      → MatchMode
      → WatchedTx
      → Block
      → Result TrackerError (ChainPoint × List OwnedMatchRow)
  rows_of_block specialized mode tx block = do
    encoded ← ok_or (find_tx block.txs tx.hash) (tx_not_in_block tx.hash)
    payload ← map_err lift_cardano (from_cbor pallas encoded)
    rows ←
        run_specializations specialized
          (with_resolved_inputs payload (collect_resolved_inputs tx block.era)) block.slot
          block.hash mode
    ok (record { slot = block.slot; hash = block.hash }, rows)

  rows_of_event :
      List SpecializedTii
      → MatchMode
      → Option WatchedTx
      → Option Bytes
      → Result TrackerError (Option (ChainPoint × List OwnedMatchRow))
  unfolding rows_of_block
  rows_of_event specialized mode none native_bytes = ok none
  rows_of_event specialized mode (some tx) none = ok none
  rows_of_event specialized mode (some tx) (some native_bytes) =
      let decoded = (do
        block ← ok_or (process.decode_block native_bytes) decode_error
        rows ←
            (if nat_eqb (length tx.hash) 32
              then rows_of_block specialized mode tx block
              else err internal_error)
        ok (some rows)) in
      if is_empty native_bytes then ok none else decoded

  -- what an Apply event comes to before the store: nothing, where it lacks a transaction or a block
  unfoldable pub apply_rows :
      List SpecializedTii
      → MatchMode
      → AnyChainTx
      → Result TrackerError (Option (ChainPoint × List OwnedMatchRow))
  unfolding rows_of_event
  apply_rows specialized mode any_tx = rows_of_event specialized mode any_tx.chain any_tx.block

  unfoldable pub apply_tx :
      List SpecializedTii
      → MatchMode
      → Faults
      → ℤ
      → AnyChainTx
      → Db
      → Result TrackerError (Unit {0}) × Db
  apply_tx specialized mode faults now any_tx db =
      store_rows faults now (apply_rows specialized mode any_tx) db

  -- the parent that an Undo event names, with the slot before that of the block
  unfoldable pub parent_of : Option Bytes → Option ChainPoint
  parent_of none = none
  parent_of (some native_bytes) =
      if is_empty native_bytes then none else elim (process.decode_block native_bytes) [
        | none ↦ none
        | some block ↦ elim block.previous_hash [
          | none ↦ none
          | some hash ↦ some (record { slot = block.header_slot - 1; hash = hash })
        ]
      ]

  unfoldable pub undo_tx : Faults → AnyChainTx → Db → Result TrackerError (Unit {0}) × Db
  undo_tx faults any_tx db = remove_rows faults any_tx.chain (parent_of any_tx.block) db
