-- ===== src/Tracker/Session/Refines.antt =====
-- bin/tracker/src/main.rs: a session as steps on the set of matched pairs with a cursor.
use tx3_lift.Prelude.{
  ◌≡◌, refl, sym, ap, ◌∙◌, Option, none, some, List, [], ◌∷◌, ℤ, Result, ok, err, All,
}
use tx3_lift.Lift.Library.{Library}
use tx3_lift.Cardano.Ledger.{Pallas}
use tx3_lift.Cardano.Lifting.{AssetLibrary}
use tx3_lift.Tracker.Error.{TrackerError}
use tx3_lift.Tracker.Retry.{reset}
use tx3_lift.Tracker.Store.{ChainPoint, OwnedMatchRow, Db}
use tx3_lift.Tracker.Store.Rows.{apply_block_lem}
use tx3_lift.Tracker.Store.Unique.{undo_tx_lem}
use tx3_lift.Tracker.Store.Refines.{Matched, view, specified_apply, specified_undo, store-view}
use tx3_lift.Tracker.Specialization.{SpecializedTii}
use tx3_lift.Tracker.Messages.{ProcessLibrary, WatchedTx}
use tx3_lift.Tracker.Process.{store_rows, remove_rows, apply_rows, parent_of, apply_tx, undo_tx}
use tx3_lift.Tracker.Config.{Config}
use tx3_lift.Tracker.Session.{
  Action, apply, undo, idle, Event, signal, message, SessionOutcome, Progress, State, handle,
  after_message, consume,
}

-- the rows of an Apply event are added, where there are any; an error stops the session
abbrev pub specified_rows :
    Result TrackerError (Option (ChainPoint × List OwnedMatchRow)) → Matched → Option Matched
specified_rows (err e) m = none
specified_rows (ok none) m = some m
specified_rows (ok (some (point, rows))) m = some (specified_apply point rows m)

-- the pairs of an Undo event's transaction are removed
abbrev pub specified_remove : Option WatchedTx → Option ChainPoint → Matched → Option Matched
specified_remove none parent m = some m
specified_remove (some tx) parent m = some (specified_undo tx.hash parent m)

-- what a step leaves agrees with the specified one
abbrev Agrees : Matched → Result TrackerError (Unit {0}) × Db → Option Matched → Type 0
Agrees m (ok u, db) (some m') = view db ≡ m'
Agrees m (ok u, db) none = ⊥
Agrees m (err e, db) (some m') = ⊥
Agrees m (err e, db) none = view db ≡ m

store_rows-Agrees :
    (now : ℤ) (found : Result TrackerError (Option (ChainPoint × List OwnedMatchRow))) (db : Db)
    → Agrees (view db) (store_rows [] now found db) (specified_rows found (view db))
store_rows-Agrees now (err e) db = refl
store_rows-Agrees now (ok none) db = refl
store_rows-Agrees now (ok (some (point, rows))) db = rw (apply_block_lem now point rows db) (
    ap (λ r. view r.1) (sym (apply_block_lem now point rows db)) ∙ (store-view db).0 now point rows)

remove_rows-Agrees :
    (chain : Option WatchedTx) (parent : Option ChainPoint) (db : Db)
    → Agrees (view db) (remove_rows [] chain parent db) (specified_remove chain parent (view db))
remove_rows-Agrees none parent db = refl
remove_rows-Agrees (some tx) parent db =
    rw (undo_tx_lem tx.hash parent db)
      (ap (λ r. view r.1) (sym (undo_tx_lem tx.hash parent db)) ∙ (store-view db).1 tx.hash parent)

-- no statement fails while an event is handled
abbrev pub IsFaultless : Event → Type 0
IsFaultless signal = Unit
IsFaultless (message answer now faults) = faults ≡ []

module _ {A : Type 0} (lib : Library) (pallas : Pallas) (assets : AssetLibrary A)
    (process : ProcessLibrary A) (specialized : List SpecializedTii) (cfg : Config) where
  unfoldable pub specified_action : Option Action → Matched → Option Matched
  specified_action none m = some m
  specified_action (some (apply any_tx)) m =
      specified_rows (apply_rows lib pallas assets process specialized cfg.matching.mode any_tx) m
  specified_action (some (undo any_tx)) m =
      specified_remove any_tx.chain (parent_of lib pallas assets process any_tx.block) m
  specified_action (some (idle slot)) m = some m

  abbrev pub and_specified : Option Matched → Matched → Matched → Matched
  and_specified none m rest = m
  and_specified (some m') m rest = rest

  abbrev or_same : Option Matched → Matched → Matched
  or_same none m = m
  or_same (some m') m = m'

  -- the events up to the first that ends the session
  unfoldable pub specified_session : List Event → Matched → Matched
  unfolding specified_action
  specified_session [] m = m
  specified_session (signal ∷ events) m = m
  specified_session (message (err code) now faults ∷ events) m = m
  specified_session (message (ok none) now faults ∷ events) m = m
  specified_session (message (ok (some action)) now faults ∷ events) m =
      let next = specified_action action m in
      and_specified next m (specified_session events (or_same next m))

  handle-Agrees :
      (action : Option Action) (now : ℤ) (db : Db)
      → Agrees
          (view db)
          (handle lib pallas assets process specialized cfg action now [] db)
          (specified_action action (view db))
  unfolding handle apply_tx undo_tx specified_action
  handle-Agrees none now db = refl
  handle-Agrees (some (apply any_tx)) now db =
      store_rows-Agrees now
        (apply_rows lib pallas assets process specialized cfg.matching.mode any_tx) db
  handle-Agrees (some (undo any_tx)) now db =
      remove_rows-Agrees any_tx.chain (parent_of lib pallas assets process any_tx.block) db
  handle-Agrees (some (idle slot)) now db = refl

  after_message-Agrees :
      (m : Matched) (handled : Result TrackerError (Unit {0})) (next : State)
      (specified : Option Matched) (rest : Progress SessionOutcome × State)
      (specified_rest : Matched)
      → Agrees m (handled, next.db) specified
      → (view next.db ≡ or_same specified m → view rest.1.db ≡ specified_rest)
      → view (after_message lib pallas assets process specialized cfg handled next rest).1.db
        ≡ and_specified specified m specified_rest
  after_message-Agrees m (ok u) next (some m') rest r h k = k h
  after_message-Agrees m (ok u) next none rest r h k = absurd h
  after_message-Agrees m (err e) next (some m') rest r h k = absurd h
  after_message-Agrees m (err e) next none rest r h k = h

  -- Where no statement fails, the store after the events of a session, seen as a set of pairs with a
  -- cursor, is what the specified session makes of the set before: each Apply event adds the pairs of
  -- its rows, each Undo event removes those of its transaction, until an event ends the session.
  pub consume-view :
      (events : List Event) (s : State)
      → All IsFaultless events
      → view (consume lib pallas assets process specialized cfg events s).1.db
        ≡ specified_session events (view s.db)
  unfolding consume specified_session
  consume-view [] s h = refl
  consume-view (signal ∷ events) s h = refl
  consume-view (message (err code) now faults ∷ events) s h = refl
  consume-view (message (ok none) now faults ∷ events) s h = refl
  consume-view (message (ok (some action)) now faults ∷ events) s h = rw (h.0) (
      let handled = handle lib pallas assets process specialized cfg action now [] s.db in
      let next : State = record { db = handled.1; backoff = reset s.backoff } in
      after_message-Agrees (view s.db) handled.0 next (specified_action action (view s.db)) _ _
        (handle-Agrees action now s.db)
        λ q. consume-view events next h.1 ∙ ap (specified_session events) q)
