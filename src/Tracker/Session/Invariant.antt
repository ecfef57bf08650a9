-- ===== src/Tracker/Session/Invariant.antt =====
-- bin/tracker/src/main.rs: what every message and every backoff keeps, the sessions and the loop keep.
use tx3_lift.Prelude.{
  ℕ, Bool, true, false, Option, none, some, List, [], ◌∷◌, All, ℤ, Result, ok, err,
}
use tx3_lift.Lift.Library.{Library}
use tx3_lift.Cardano.Ledger.{Pallas}
use tx3_lift.Cardano.Lifting.{AssetLibrary}
use tx3_lift.Tracker.Error.{Code, TrackerError}
use tx3_lift.Tracker.Sql.{Faults}
use tx3_lift.Tracker.Retry.{next_delay, reset}
use tx3_lift.Tracker.Predicate.{TxPredicate}
use tx3_lift.Tracker.Specialization.{SpecializedTii}
use tx3_lift.Tracker.Messages.{ProcessLibrary}
use tx3_lift.Tracker.Config.{Config}
use tx3_lift.Tracker.Upstream.{ApiKeyInterceptor, call, BlockRef, connect}
use tx3_lift.Tracker.Session.{
  Action, Event, signal, message, WatchTxRequest, Script, State, Round, shutdown, reconnect,
  waiting, returned, Progress, handle, after_message, after_session, SessionOutcome, consume,
  with_intersect, connected, subscribed, stream_session, resume_from, run_loop,
}

module _ {A : Type 0} (lib : Library) (pallas : Pallas) (assets : AssetLibrary A)
    (process : ProcessLibrary A) (specialized : List SpecializedTii) (cfg : Config)
    (P : State → Type 0) (Q : ℕ → Type 0) where
  -- what a message and a backoff keep, and what holds of the delays
  abbrev pub IsKept : Type 0
  IsKept =
      ((action : Option Action) (now : ℤ) (faults : Faults) (s : State)
        → P s
        → P (record {
          db = (handle lib pallas assets process specialized cfg action now faults s.db).1;
          backoff = reset s.backoff;
        }))
      × ((s : State) → P s → P (record s { backoff = (next_delay s.backoff).1 }))
      × ((s : State) → P s → Q (next_delay s.backoff).0)

  after_message-kept :
      (handled : Result TrackerError (Unit {0})) (next : State)
      (rest : Progress SessionOutcome × State)
      → P next
      → P rest.1
      → P (after_message lib pallas assets process specialized cfg handled next rest).1
  after_message-kept (ok u) next rest h r = r
  after_message-kept (err e) next rest h r = h

  module _ (kept : IsKept) where
    consume-kept :
        (events : List Event) (s : State)
        → P s
        → P (consume lib pallas assets process specialized cfg events s).1
    unfolding consume
    consume-kept [] s h = h
    consume-kept (signal ∷ events) s h = h
    consume-kept (message (err code) now faults ∷ events) s h = h
    consume-kept (message (ok none) now faults ∷ events) s h = h
    consume-kept (message (ok (some action)) now faults ∷ events) s h =
        let next = kept.0 action now faults s h in
        after_message-kept
          (handle lib pallas assets process specialized cfg action now faults s.db).0 _ _ next
          (consume-kept events _ next)

    subscribed-kept :
        (script : Script) (answer : Result Code (Unit {0})) (s : State)
        → P s
        → P (subscribed lib pallas assets process specialized cfg script answer s).1
    subscribed-kept script (ok u) s h = consume-kept script.events s h
    subscribed-kept script (err code) s h = h

    connected-kept :
        (script : Script) (request : WatchTxRequest)
        (answer : Result TrackerError ApiKeyInterceptor) (s : State)
        → P s
        → P (connected lib pallas assets process specialized cfg script request answer s).1
    connected-kept script request (ok interceptor) s h =
        subscribed-kept script (script.subscribe (call interceptor []) request) s h
    connected-kept script request (err e) s h = h

    stream_session-kept :
        (script : Script) (request : WatchTxRequest) (s : State)
        → P s
        → P (stream_session lib pallas assets process specialized cfg script request s).1
    unfolding stream_session
    stream_session-kept script request s h =
        connected-kept script request (connect script.transport cfg.upstream) s h

    after_session-kept :
        (progress : Progress SessionOutcome) (after : State) (signalled : Bool)
        (rest : Progress (Unit {0}) × (List ℕ × State))
        → P after
        → All Q rest.1.0 × P rest.1.1
        → let later = record after { backoff = (next_delay after.backoff).1 } in
          let r =
            after_session lib pallas assets process specialized cfg progress after
              (next_delay after.backoff).0
              later
              signalled
              rest in
          All Q r.1.0 × P r.1.1
    after_session-kept waiting after signalled rest h r = (tt, h)
    after_session-kept (returned (err e)) after signalled rest h r = (tt, h)
    after_session-kept (returned (ok shutdown)) after signalled rest h r = (tt, h)
    after_session-kept (returned (ok reconnect)) after true rest h r =
        ((kept.2 after h, tt), kept.1 after h)
    after_session-kept (returned (ok reconnect)) after false rest h r = ((kept.2 after h, r.0), r.1)

    with_intersect-kept :
        (found : Result TrackerError (List BlockRef)) (s : State)
        (session : List BlockRef → Progress (Unit {0}) × (List ℕ × State))
        → P s
        → ((intersect : List BlockRef) → All Q (session intersect).1.0 × P (session intersect).1.1)
        → let r = with_intersect lib pallas assets process specialized cfg found s session in
          All Q r.1.0 × P r.1.1
    with_intersect-kept (ok intersect) s session h r = r intersect
    with_intersect-kept (err e) s session h r = (tt, h)

    pub run_loop-kept :
        (predicate : Option TxPredicate) (rounds : List Round) (s : State)
        → P s
        → let r = run_loop lib pallas assets process specialized cfg predicate rounds s in
          All Q r.1.0 × P r.1.1
    unfolding run_loop
    run_loop-kept predicate [] s h = (tt, h)
    run_loop-kept predicate (round ∷ rounds) s h =
        with_intersect-kept
          (resume_from lib pallas assets process specialized cfg round.cursor_fails s.db) s _ h
          λ intersect.
            let request : WatchTxRequest = record {
              predicate = predicate;
              intersect = intersect;
            } in
            let session =
              stream_session lib pallas assets process specialized cfg round.script request s in
            let after = stream_session-kept round.script request s h in
            after_session-kept session.0 session.1 round.signalled _ after (
              run_loop-kept predicate rounds
                (record session.1 { backoff = (next_delay session.1.backoff).1 })
                (kept.1 session.1 after))
