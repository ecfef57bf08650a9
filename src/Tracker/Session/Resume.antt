-- ===== src/Tracker/Session/Resume.antt =====
-- bin/tracker/src/main.rs: where a reconnect starts, after a message that was handled or failed.
use mathlib.Core.Path.{subst}
use tx3_lift.Prelude.{
  ◌≤◌, ◌≡◌, refl, ◌∙◌, sym, ap, ◌⊎◌, inl, inr, false, none, some, List, [], ◌∷◌, ℤ, ok, err, length,
  u64_max,
}
use tx3_lift.Lift.Library.{Library}
use tx3_lift.Cardano.Ledger.{Pallas}
use tx3_lift.Cardano.Lifting.{AssetLibrary}
use tx3_lift.Tracker.Sql.{Faults}
use tx3_lift.Tracker.Error.{sqlite_error}
use tx3_lift.Tracker.Store
use tx3_lift.Tracker.Store.{Db, ChainPoint, OwnedMatchRow, read_cursor}
use tx3_lift.Tracker.Store.Rows.{store_atomic, apply_block_lem}
use tx3_lift.Tracker.Store.Cursor.{read_cursor_roundtrip}
use tx3_lift.Tracker.Specialization.{SpecializedTii}
use tx3_lift.Tracker.Process.{apply_rows, apply_tx, stored_result}
use tx3_lift.Tracker.Messages.{ProcessLibrary, AnyChainTx}
use tx3_lift.Tracker.Process.Events.{stored_result_db}
use tx3_lift.Tracker.Config.{Config}
use tx3_lift.Tracker.Upstream.{BlockRef, intersect_block_refs}
use tx3_lift.Tracker.Session.{apply, handle, resume_from}

-- the reference to a point
abbrev pub block_ref : ChainPoint → BlockRef
block_ref p = record { slot = p.slot; hash = p.hash; height = 0 }

module _ {A : Type 0} (lib : Library) (pallas : Pallas) (assets : AssetLibrary A)
    (process : ProcessLibrary A) (specialized : List SpecializedTii) (cfg : Config) where
  resume_from-read :
      (db : Db) (p : ChainPoint)
      → read_cursor db ≡ some p
      → resume_from lib pallas assets process specialized cfg false db ≡ ok (block_ref p ∷ [])
  unfolding resume_from
  resume_from-read db p h = rw h refl

  resume_from-none :
      (db : Db)
      → read_cursor db ≡ none
      → resume_from lib pallas assets process specialized cfg false db
        ≡ intersect_block_refs lib cfg.upstream.intersect
  unfolding resume_from
  resume_from-none db h = rw h refl

  -- After an Apply event that comes to a point, with a 32-byte hash and a `u64` slot, either the event
  -- failed in the store, which is as it was, or the next session starts at that point alone.
  pub resume_from-apply_tx :
      (any_tx : AnyChainTx) (now : ℤ) (faults : Faults) (db : Db) (point : ChainPoint)
      (rows : List OwnedMatchRow)
      → apply_rows lib pallas assets process specialized cfg.matching.mode any_tx
        ≡ ok (some (point, rows))
      → length point.hash ≡ 32
      → point.slot ≤ u64_max
      → (handle lib pallas assets process specialized cfg (some (apply any_tx)) now faults db
          ≡ (err sqlite_error, db))
        ⊎ ((handle lib pallas assets process specialized cfg (some (apply any_tx)) now faults db).0
            ≡ ok tt)
          × (resume_from lib pallas assets process specialized cfg false
                (handle lib pallas assets process specialized cfg
                  (some (apply any_tx))
                  now
                  faults
                  db).1
              ≡ ok (block_ref point ∷ []))
  unfolding handle apply_tx
  resume_from-apply_tx any_tx now faults db point rows h k b =
      rw h (elim ((store_atomic faults db).0 now point rows) [
        | inr q ↦ inl (rw q refl)
        | inl q ↦
            let pure = Store.apply_block [] now point rows db in
            let resumed =
              resume_from-read pure.1 point ((read_cursor_roundtrip point db k b).0 now rows) in
            inr (
              rw (q, apply_block_lem now point rows db) refl,
              subst
                  (λ z.
                    resume_from lib pallas assets process specialized cfg false z
                    ≡ ok (block_ref point ∷ []))
                  (sym (ap (λ r. (stored_result r).1) q ∙ stored_result_db pure.0 pure.1)) resumed,
            )
      ])
