-- ===== src/Tracker/Process/Errors.antt =====
-- bin/tracker/src/process.rs: which errors the tracker retries, and that the handlers give none of them.
use tx3_lift.Prelude.{
  ◌≡◌, refl, Bool, true, false, Option, none, some, List, [], ◌∷◌, ℤ, ℕ, Bytes, Text, Result, ok,
  err, ◌>>=◌, map_err, ok_or, if◌then◌else◌, length, nat_eqb, is_empty,
}
use tx3_lift.Lift.Tir.{Tx}
use tx3_lift.Lift.Library.{Library}
use tx3_lift.Lift.Payload.{PayloadSummary}
use tx3_lift.Lift.Fingerprint.{Fingerprint, matches}
use tx3_lift.Lift.Anchors.{AnchorHits, hits, gates}
use tx3_lift.Cardano.Ledger.{Pallas, CardanoPayload, from_cbor}
use tx3_lift.Cardano.Lifting.{AssetLibrary}
use tx3_lift.Tracker.Error.{TrackerError, rpc, tonic_transport, lift_cardano, tx_not_in_block}
use tx3_lift.Tracker.Retry.{is_transient}
use tx3_lift.Tracker.Select.{MatchMode, Ranked, select_matches}
use tx3_lift.Tracker.Sql.{Faults, SqlError}
use tx3_lift.Tracker.Store
use tx3_lift.Tracker.Store.{Db, ChainPoint, OwnedMatchRow}
use tx3_lift.Tracker.Specialization.{SpecializedTii}
use tx3_lift.Tracker.Process.{
  lift_survivors, run_specializations, rows_of_block, rows_of_event, apply_rows, stored_result,
  store_rows, remove_rows,
}
use tx3_lift.Tracker.Candidates.{LiftInputs, collect_txs, collect_candidates}
use tx3_lift.Tracker.Messages.{WatchedTx, AnyChainTx, Block, ProcessLibrary, find_tx}

-- the errors after which `main` reconnects
abbrev pub is_retried : TrackerError → Bool
is_retried (rpc code) = is_transient code
is_retried tonic_transport = true
is_retried e = false

unfoldable pub IsPermanent : {B : Type 0} → Result TrackerError B → Type 0
IsPermanent (ok b) = Unit {0}
IsPermanent (err e) = is_retried e ≡ false

module _ {B C : Type 0} where
  pub bind-IsPermanent :
      (m : Result TrackerError B) (f : B → Result TrackerError C)
      → IsPermanent m
      → ((b : B) → IsPermanent (f b))
      → IsPermanent (m >>= f)
  unfolding IsPermanent
  bind-IsPermanent (ok b) f h k = k b
  bind-IsPermanent (err e) f h k = h

  pub map_err-IsPermanent :
      (g : C → TrackerError) (m : Result C B)
      → ((c : C) → is_retried (g c) ≡ false)
      → IsPermanent (map_err g m)
  unfolding IsPermanent
  map_err-IsPermanent g (ok b) h = tt
  map_err-IsPermanent g (err c) h = h c

module _ {B : Type 0} where
  pub ok_or-IsPermanent :
      (o : Option B) (e : TrackerError) → is_retried e ≡ false → IsPermanent (ok_or o e)
  unfolding IsPermanent
  ok_or-IsPermanent none e h = h
  ok_or-IsPermanent (some b) e h = tt

  pub if-IsPermanent :
      (b : Bool) (m n : Result TrackerError B)
      → IsPermanent m
      → IsPermanent n
      → IsPermanent (if b then m else n)
  unfolding IsPermanent
  if-IsPermanent true m n h k = h
  if-IsPermanent false m n h k = k

  stored_result-IsPermanent : (r : Result SqlError B × Db) → IsPermanent (stored_result r).0
  unfolding IsPermanent
  stored_result-IsPermanent (ok n, db) = tt
  stored_result-IsPermanent (err e, db) = refl

pub store_rows-IsPermanent :
    (faults : Faults) (now : ℤ)
    (found : Result TrackerError (Option (ChainPoint × List OwnedMatchRow))) (db : Db)
    → IsPermanent found
    → IsPermanent (store_rows faults now found db).0
unfolding IsPermanent
store_rows-IsPermanent faults now (err e) db h = h
store_rows-IsPermanent faults now (ok none) db h = tt
store_rows-IsPermanent faults now (ok (some (point, rows))) db h =
    stored_result-IsPermanent (Store.apply_block faults now point rows db)

pub remove_rows-IsPermanent :
    (faults : Faults) (chain : Option WatchedTx) (parent : Option ChainPoint) (db : Db)
    → IsPermanent (remove_rows faults chain parent db).0
unfolding IsPermanent
remove_rows-IsPermanent faults none parent db = tt
remove_rows-IsPermanent faults (some tx) parent db =
    stored_result-IsPermanent (Store.undo_tx faults tx.hash parent db)

module _ (pallas : Pallas) (payload : CardanoPayload) (summary : PayloadSummary) where
  collect_txs-IsPermanent :
      (spec : SpecializedTii) (found : AnchorHits) (txs : List (Text × (Tx × Fingerprint)))
      → IsPermanent (collect_txs pallas payload summary spec found txs)
  unfolding collect_txs IsPermanent
  collect_txs-IsPermanent spec found [] = tt
  collect_txs-IsPermanent spec found ((tx_name, (tir, fp)) ∷ txs) =
      let rest = collect_txs-IsPermanent spec found txs in
      if-IsPermanent (matches fp summary) _ _
        (bind-IsPermanent _ _ (map_err-IsPermanent _ _ (λ c. refl))
          λ a. bind-IsPermanent _ _ rest λ c. tt)
        rest

  collect_candidates-IsPermanent :
      (specs : List SpecializedTii) → IsPermanent (collect_candidates pallas payload summary specs)
  unfolding collect_candidates IsPermanent
  collect_candidates-IsPermanent [] = tt
  collect_candidates-IsPermanent (spec ∷ specs) =
      let found = hits summary spec.anchors in
      let rest = collect_candidates-IsPermanent specs in
      if-IsPermanent (gates found) _ _
        (bind-IsPermanent _ _ (collect_txs-IsPermanent spec found spec.txs)
          λ a. bind-IsPermanent _ _ rest λ c. tt)
        rest

module _ {A : Type 0} (lib : Library) (pallas : Pallas) (assets : AssetLibrary A)
    (process : ProcessLibrary A) where
  lift_survivors-IsPermanent :
      (payload : CardanoPayload) (slot : ℕ) (block_hash : Bytes)
      (survivors : List (Ranked LiftInputs))
      → IsPermanent (lift_survivors lib pallas assets process payload slot block_hash survivors)
  unfolding lift_survivors IsPermanent
  lift_survivors-IsPermanent payload slot block_hash [] = tt
  lift_survivors-IsPermanent payload slot block_hash (r ∷ survivors) =
      bind-IsPermanent _ _ (map_err-IsPermanent _ _ (λ c. refl)) λ lifted.
        bind-IsPermanent _ _ (ok_or-IsPermanent (process.lifted_to_json lifted) _ refl) λ json.
          bind-IsPermanent _ _ (lift_survivors-IsPermanent payload slot block_hash survivors)
            λ rows. tt

  run_specializations-IsPermanent :
      (specs : List SpecializedTii) (payload : CardanoPayload) (slot : ℕ) (block_hash : Bytes)
      (mode : MatchMode)
      → IsPermanent
          (run_specializations lib pallas assets process specs payload slot block_hash mode)
  unfolding run_specializations IsPermanent
  run_specializations-IsPermanent specs payload slot block_hash mode =
      bind-IsPermanent _ _ (map_err-IsPermanent _ _ (λ c. refl)) λ summary.
        bind-IsPermanent _ _ (collect_candidates-IsPermanent pallas payload summary specs)
          λ candidates.
            lift_survivors-IsPermanent payload slot block_hash (select_matches candidates mode)

  rows_of_block-IsPermanent :
      (specs : List SpecializedTii) (mode : MatchMode) (tx : WatchedTx) (block : Block)
      → IsPermanent (rows_of_block lib pallas assets process specs mode tx block)
  unfolding rows_of_block IsPermanent
  rows_of_block-IsPermanent specs mode tx block =
      bind-IsPermanent (ok_or (find_tx block.txs tx.hash) (tx_not_in_block tx.hash)) _
        (ok_or-IsPermanent _ _ refl)
        λ encoded.
          bind-IsPermanent (map_err lift_cardano (from_cbor pallas encoded)) _
            (map_err-IsPermanent _ _ (λ c. refl))
            λ payload.
              bind-IsPermanent _ _
                (run_specializations-IsPermanent specs _ block.slot block.hash mode) λ rows. tt

  rows_of_event-IsPermanent :
      (specs : List SpecializedTii) (mode : MatchMode) (chain : Option WatchedTx)
      (block : Option Bytes)
      → IsPermanent (rows_of_event lib pallas assets process specs mode chain block)
  unfolding rows_of_event IsPermanent
  rows_of_event-IsPermanent specs mode none block = tt
  rows_of_event-IsPermanent specs mode (some tx) none = tt
  rows_of_event-IsPermanent specs mode (some tx) (some native_bytes) =
      if-IsPermanent (is_empty native_bytes) _ _ tt (
        bind-IsPermanent _ _ (ok_or-IsPermanent (process.decode_block native_bytes) _ refl) λ block.
          bind-IsPermanent _ _
            (if-IsPermanent (nat_eqb (length tx.hash) 32) _ _
              (rows_of_block-IsPermanent specs mode tx block) refl)
            λ rows. tt)

  pub apply_rows-IsPermanent :
      (specs : List SpecializedTii) (mode : MatchMode) (any_tx : AnyChainTx)
      → IsPermanent (apply_rows lib pallas assets process specs mode any_tx)
  unfolding apply_rows
  apply_rows-IsPermanent specs mode any_tx =
      rows_of_event-IsPermanent specs mode any_tx.chain any_tx.block
