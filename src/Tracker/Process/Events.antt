-- ===== src/Tracker/Process/Events.antt =====
-- bin/tracker/src/process.rs: what the events do to the store.
use mathlib.Core.Path.{subst}
use tx3_lift.Prelude.{
  Option, none, some, List, [], ◌≡◌, refl, ◌∙◌, sym, ap, ◌⊎◌, inl, inr, ℤ, Result, ok, err, arith,
}
use tx3_lift.Lift.Library.{Library}
use tx3_lift.Cardano.Ledger.{Pallas}
use tx3_lift.Cardano.Lifting.{AssetLibrary}
use tx3_lift.Tracker.Error.{TrackerError}
use tx3_lift.Tracker.Sql.{SqlError, sqlite, Faults}
use tx3_lift.Tracker.Select.{MatchMode}
use tx3_lift.Tracker.Store
use tx3_lift.Tracker.Store.{Db, ChainPoint, OwnedMatchRow, read_cursor}
use tx3_lift.Tracker.Store.Rows.{store_atomic, apply_block_lem, apply_block_idempotent}
use tx3_lift.Tracker.Store.Unique.{IsUnique, undo_tx_lem, store-IsUnique}
use tx3_lift.Tracker.Specialization.{SpecializedTii}
use tx3_lift.Tracker.Process.{
  apply_rows, stored_result, store_rows, remove_rows, apply_tx, parent_of, undo_tx,
}
use tx3_lift.Tracker.Messages.{ProcessLibrary, WatchedTx, AnyChainTx}

pub stored_result_db :
    {B : Type 0} (r : Result SqlError B) (db : Db) → (stored_result (r, db)).1 ≡ db
stored_result_db (ok n) db = refl
stored_result_db (err e) db = refl

-- a transaction that fails leaves the database as it was, and without faults it does not fail
stored_result-kept :
    {B : Type 0} (stored pure : Result SqlError B × Db) (db : Db)
    → (stored ≡ pure) ⊎ (stored ≡ (err sqlite, db))
    → (stored_result pure).0 ≡ ok tt
    → (e : TrackerError) → (stored_result stored).0 ≡ err e
    → (stored_result stored).1 ≡ db
stored_result-kept stored pure db (inl q) total e h =
    let bad : ok tt ≡ err e = sym total ∙ (rw q at h) in absurd (ground arith)
stored_result-kept stored pure db (inr q) total e h = rw q refl

store_rows-kept :
    (faults : Faults) (now : ℤ)
    (found : Result TrackerError (Option (ChainPoint × List OwnedMatchRow))) (db : Db)
    (e : TrackerError)
    → (store_rows faults now found db).0 ≡ err e
    → (store_rows faults now found db).1 ≡ db
store_rows-kept faults now (err x) db e h = refl
store_rows-kept faults now (ok none) db e h = refl
store_rows-kept faults now (ok (some (point, rows))) db e h =
    stored_result-kept _ _ db ((store_atomic faults db).0 now point rows)
      (rw (apply_block_lem now point rows db) refl) e h

remove_rows-kept :
    (faults : Faults) (chain : Option WatchedTx) (parent : Option ChainPoint) (db : Db)
    (e : TrackerError)
    → (remove_rows faults chain parent db).0 ≡ err e
    → (remove_rows faults chain parent db).1 ≡ db
remove_rows-kept faults none parent db e h = refl
remove_rows-kept faults (some tx) parent db e h =
    stored_result-kept _ _ db ((store_atomic faults db).1 tx.hash parent)
      (rw (undo_tx_lem tx.hash parent db) refl) e h

store_rows-IsUnique :
    (faults : Faults) (now : ℤ)
    (found : Result TrackerError (Option (ChainPoint × List OwnedMatchRow))) (db : Db)
    → IsUnique db
    → IsUnique (store_rows faults now found db).1
store_rows-IsUnique faults now (err x) db u = u
store_rows-IsUnique faults now (ok none) db u = u
store_rows-IsUnique faults now (ok (some (point, rows))) db u =
    let r = Store.apply_block faults now point rows db in
    subst IsUnique (sym (stored_result_db r.0 r.1)) ((store-IsUnique faults db u).0 now point rows)

remove_rows-IsUnique :
    (faults : Faults) (chain : Option WatchedTx) (parent : Option ChainPoint) (db : Db)
    → IsUnique db
    → IsUnique (remove_rows faults chain parent db).1
remove_rows-IsUnique faults none parent db u = u
remove_rows-IsUnique faults (some tx) parent db u =
    let r = Store.undo_tx faults tx.hash parent db in
    subst IsUnique (sym (stored_result_db r.0 r.1)) ((store-IsUnique faults db u).1 tx.hash parent)

module _ {A : Type 0} (lib : Library) (pallas : Pallas) (assets : AssetLibrary A)
    (process : ProcessLibrary A) (specialized : List SpecializedTii) (mode : MatchMode)
    (any_tx : AnyChainTx) where
  -- An error of an Apply or an Undo event, from whatever step or statement, leaves the database as it
  -- was.
  pub events_atomic :
      (faults : Faults) (db : Db) (e : TrackerError)
      → ((now : ℤ)
          → (apply_tx lib pallas assets process specialized mode faults now any_tx db).0 ≡ err e
          → (apply_tx lib pallas assets process specialized mode faults now any_tx db).1 ≡ db)
        × ((undo_tx lib pallas assets process faults any_tx db).0 ≡ err e
            → (undo_tx lib pallas assets process faults any_tx db).1 ≡ db)
  unfolding apply_tx undo_tx
  events_atomic faults db e = (
    λ now h.
        store_rows-kept faults now (apply_rows lib pallas assets process specialized mode any_tx) db
          e h,
    λ h.
        remove_rows-kept faults any_tx.chain (parent_of lib pallas assets process any_tx.block) db e
          h,
  )

  pub events-IsUnique :
      (faults : Faults) (db : Db)
      → IsUnique db
      → ((now : ℤ)
          → IsUnique (apply_tx lib pallas assets process specialized mode faults now any_tx db).1)
        × IsUnique (undo_tx lib pallas assets process faults any_tx db).1
  unfolding apply_tx undo_tx
  events-IsUnique faults db u = (
    λ now.
        store_rows-IsUnique faults now
          (apply_rows lib pallas assets process specialized mode any_tx) db u,
    remove_rows-IsUnique faults any_tx.chain (parent_of lib pallas assets process any_tx.block) db
        u,
  )

  -- Where an Apply event comes to a point and rows, handling it once more, at whatever time, succeeds
  -- and changes nothing: not the rows, and not the cursor.
  pub apply_tx_idempotent :
      (now later : ℤ) (db : Db) (point : ChainPoint) (rows : List OwnedMatchRow)
      → apply_rows lib pallas assets process specialized mode any_tx ≡ ok (some (point, rows))
      → let once = (apply_tx lib pallas assets process specialized mode [] now any_tx db).1 in
        apply_tx lib pallas assets process specialized mode [] later any_tx once ≡ (ok tt, once)
  unfolding apply_tx
  apply_tx_idempotent now later db point rows h = rw h (
      let r = Store.apply_block [] now point rows db in
      let once : (stored_result r).1 ≡ r.1 = stored_result_db r.0 r.1 in
      rw once (
        ap stored_result (apply_block_idempotent now later point point rows db)
        ∙ rw (apply_block_lem now point rows db) refl))
