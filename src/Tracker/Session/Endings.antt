-- ===== src/Tracker/Session/Endings.antt =====
-- bin/tracker/src/main.rs: how a run ends, and that it does once the signal comes.
use tx3_lift.Prelude.{
  ◌≡◌, refl, inl, inr, Bool, true, false, ◌||◌, Option, none, some, List, [], ◌∷◌, ℤ, ℕ, Result, ok,
  err, ok_or, any, arith, Bool-cases, Option-cases,
}
use tx3_lift.Lift.Library.{Library}
use tx3_lift.Cardano.Ledger.{Pallas}
use tx3_lift.Cardano.Lifting.{AssetLibrary}
use tx3_lift.Tracker.Error.{Code, TrackerError, hex_error}
use tx3_lift.Tracker.Retry.{is_transient}
use tx3_lift.Tracker.Sql.{Faults}
use tx3_lift.Tracker.Store.{Db, read_cursor}
use tx3_lift.Tracker.Predicate.{TxPredicate}
use tx3_lift.Tracker.Specialization.{SpecializedTii}
use tx3_lift.Tracker.Process.{apply_rows, apply_tx, parent_of, undo_tx}
use tx3_lift.Tracker.Messages.{ProcessLibrary}
use tx3_lift.Tracker.Process.Errors.{
  is_retried, IsPermanent, ok_or-IsPermanent, bind-IsPermanent, store_rows-IsPermanent,
  remove_rows-IsPermanent, apply_rows-IsPermanent,
}
use tx3_lift.Tracker.Config.{Config, Intersect, tip, point}
use tx3_lift.Tracker.Upstream.Failures.{connect-FailsToConnect}
use tx3_lift.Tracker.Upstream.{call, BlockRef, intersect_block_refs}
use tx3_lift.Tracker.Session.{
  Action, apply, undo, idle, Event, signal, message, WatchTxRequest, Script, State, Round,
  SessionOutcome, shutdown, reconnect, Progress, waiting, returned, on_status, handle,
  after_message, consume, subscribed, stream_session, resume_from, after_session, with_intersect,
  run_loop,
}

abbrev pub is_signal : Event → Bool
is_signal signal = true
is_signal (message answer now faults) = false

-- the signal comes in the stream, or during the backoff after it
abbrev pub is_signalled : Round → Bool
is_signalled round = any is_signal round.script.events || round.signalled

-- the ending of a session over a stream
abbrev pub IsSessionEnd : List Event → Progress SessionOutcome → Type 0
IsSessionEnd events waiting = Unit {0}
IsSessionEnd events (returned (ok shutdown)) = any is_signal events ≡ true
IsSessionEnd events (returned (ok reconnect)) = Unit {0}
IsSessionEnd events (returned (err e)) = is_retried e ≡ false

-- a run that returns was signalled, or has an error that is not one to retry
abbrev pub IsEnd : List Round → Progress (Unit {0}) → Type 0
IsEnd rounds waiting = Unit {0}
IsEnd rounds (returned (ok u)) = any is_signalled rounds ≡ true
IsEnd rounds (returned (err e)) = is_retried e ≡ false

on_status-IsSessionEnd :
    (events : List Event) (code : Code) → IsSessionEnd events (returned (on_status code))
on_status-IsSessionEnd events code = elim (Bool-cases (is_transient code)) [
  | inl y ↦ rw y tt
  | inr n ↦ rw n n
]

IsSessionEnd-later :
    (event : Event) (events : List Event) (progress : Progress SessionOutcome)
    → IsSessionEnd events progress
    → IsSessionEnd (event ∷ events) progress
IsSessionEnd-later event events waiting h = tt
IsSessionEnd-later event events (returned (ok shutdown)) h = ground (arith)
IsSessionEnd-later event events (returned (ok reconnect)) h = tt
IsSessionEnd-later event events (returned (err e)) h = h

IsEnd-later :
    (round : Round) (rounds : List Round) (progress : Progress (Unit {0}))
    → IsEnd rounds progress
    → IsEnd (round ∷ rounds) progress
IsEnd-later round rounds waiting h = tt
IsEnd-later round rounds (returned (ok u)) h = rw h (ground arith)
IsEnd-later round rounds (returned (err e)) h = h

module _ {A : Type 0} (lib : Library) (pallas : Pallas) (assets : AssetLibrary A)
    (process : ProcessLibrary A) (specialized : List SpecializedTii) (cfg : Config) where
  handle-IsPermanent :
      (action : Option Action) (now : ℤ) (faults : Faults) (db : Db)
      → IsPermanent (handle lib pallas assets process specialized cfg action now faults db).0
  unfolding handle apply_tx undo_tx IsPermanent
  handle-IsPermanent none now faults db = tt
  handle-IsPermanent (some (apply any_tx)) now faults db =
      store_rows-IsPermanent faults now
        (apply_rows lib pallas assets process specialized cfg.matching.mode any_tx) db
        (apply_rows-IsPermanent lib pallas assets process specialized cfg.matching.mode any_tx)
  handle-IsPermanent (some (undo any_tx)) now faults db =
      remove_rows-IsPermanent faults any_tx.chain (parent_of lib pallas assets process any_tx.block)
        db
  handle-IsPermanent (some (idle slot)) now faults db = tt

  after_message-IsSessionEnd :
      (event : Event) (events : List Event) (handled : Result TrackerError (Unit {0}))
      (next : State) (rest : Progress SessionOutcome × State)
      → IsPermanent handled
      → IsSessionEnd events rest.0
      → IsSessionEnd
          (event ∷ events)
          (after_message lib pallas assets process specialized cfg handled next rest).0
  unfolding IsPermanent
  after_message-IsSessionEnd event events (ok u) next rest h r =
      IsSessionEnd-later event events rest.0 r
  after_message-IsSessionEnd event events (err e) next rest h r = h

  consume-IsSessionEnd :
      (events : List Event) (s : State)
      → IsSessionEnd events (consume lib pallas assets process specialized cfg events s).0
  unfolding consume
  consume-IsSessionEnd [] s = tt
  consume-IsSessionEnd (signal ∷ events) s = refl
  consume-IsSessionEnd (message (err code) now faults ∷ events) s =
      on_status-IsSessionEnd (message (err code) now faults ∷ events) code
  consume-IsSessionEnd (message (ok none) now faults ∷ events) s = tt
  consume-IsSessionEnd (message (ok (some action)) now faults ∷ events) s =
      after_message-IsSessionEnd (message (ok (some action)) now faults) events _ _ _
        (handle-IsPermanent action now faults s.db) (consume-IsSessionEnd events _)

  subscribed-IsSessionEnd :
      (script : Script) (answer : Result Code (Unit {0})) (s : State)
      → IsSessionEnd script.events
          (subscribed lib pallas assets process specialized cfg script answer s).0
  subscribed-IsSessionEnd script (ok u) s = consume-IsSessionEnd script.events s
  subscribed-IsSessionEnd script (err code) s = on_status-IsSessionEnd script.events code

  stream_session-IsSessionEnd :
      (script : Script) (request : WatchTxRequest) (s : State)
      → IsSessionEnd script.events
          (stream_session lib pallas assets process specialized cfg script request s).0
  unfolding stream_session
  stream_session-IsSessionEnd script request s =
      elim (connect-FailsToConnect script.transport cfg.upstream) [
        | inl (interceptor, e) ↦
            rw e (subscribed-IsSessionEnd script (script.subscribe (call interceptor []) request) s)
        | inr x ↦ elim x [ inl e ↦ rw e refl | inr e ↦ rw e tt ]
      ]

  intersect_block_refs-IsPermanent : (i : Intersect) → IsPermanent (intersect_block_refs lib i)
  unfolding intersect_block_refs IsPermanent
  intersect_block_refs-IsPermanent tip = tt
  intersect_block_refs-IsPermanent (point slot hash) =
      bind-IsPermanent (ok_or (lib.hex_decode hash) hex_error) _ (ok_or-IsPermanent _ _ refl)
        λ b. tt

  resume_from-IsPermanent :
      (fault : Bool) (db : Db)
      → IsPermanent (resume_from lib pallas assets process specialized cfg fault db)
  unfolding resume_from IsPermanent
  resume_from-IsPermanent fault db = elim (Bool-cases fault) [
    | inl y ↦ rw y refl
    | inr n ↦ rw n (elim (Option-cases (read_cursor db)) [
      | inl e ↦ rw e (intersect_block_refs-IsPermanent cfg.upstream.intersect)
      | inr (q, e) ↦ rw e tt
    ])
  ]

  after_session-IsEnd :
      (round : Round) (rounds : List Round) (progress : Progress SessionOutcome)
      (after later : State) (delay : ℕ) (rest : Progress (Unit {0}) × (List ℕ × State))
      → IsSessionEnd round.script.events progress
      → IsEnd rounds rest.0
      → IsEnd
          (round ∷ rounds)
          (after_session lib pallas assets process specialized cfg progress after delay later
            round.signalled rest).0
  after_session-IsEnd round rounds waiting after later delay rest h r = tt
  after_session-IsEnd round rounds (returned (err e)) after later delay rest h r = h
  after_session-IsEnd round rounds (returned (ok shutdown)) after later delay rest h r = rw h refl
  after_session-IsEnd round rounds (returned (ok reconnect)) after later delay rest h r =
      elim (Bool-cases round.signalled) [
        | inl y ↦ rw y (ground arith)
        | inr n ↦ rw n (IsEnd-later (record round { signalled = false }) rounds rest.0 r)
      ]

  with_intersect-IsEnd :
      (rounds : List Round) (found : Result TrackerError (List BlockRef)) (s : State)
      (session : List BlockRef → Progress (Unit {0}) × (List ℕ × State))
      → IsPermanent found
      → ((intersect : List BlockRef) → IsEnd rounds (session intersect).0)
      → IsEnd rounds (with_intersect lib pallas assets process specialized cfg found s session).0
  unfolding IsPermanent
  with_intersect-IsEnd rounds (ok intersect) s session h r = r intersect
  with_intersect-IsEnd rounds (err e) s session h r = h

  -- A run that returns successfully got the signal, in a stream or during a backoff. One that returns
  -- an error returns none that is worth a retry: no transport error, and no status with a transient
  -- code.
  pub run_loop-IsEnd :
      (predicate : Option TxPredicate) (rounds : List Round) (s : State)
      → IsEnd rounds (run_loop lib pallas assets process specialized cfg predicate rounds s).0
  unfolding run_loop
  run_loop-IsEnd predicate [] s = tt
  run_loop-IsEnd predicate (round ∷ rounds) s =
      with_intersect-IsEnd (round ∷ rounds)
        (resume_from lib pallas assets process specialized cfg round.cursor_fails s.db) s _
        (resume_from-IsPermanent round.cursor_fails s.db)
        λ intersect.
          after_session-IsEnd round rounds _ _ _ _ _
            (stream_session-IsSessionEnd round.script
              (record { predicate = predicate; intersect = intersect }) s)
            (run_loop-IsEnd predicate rounds _)
