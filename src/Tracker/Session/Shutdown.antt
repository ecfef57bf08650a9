-- ===== src/Tracker/Session/Shutdown.antt =====
-- bin/tracker/src/main.rs: a run does not wait for ever.
use tx3_lift.Prelude.{
  ◌≡◌, refl, ◌⊎◌, inl, inr, Bool, true, false, Option, none, some, List, [], ◌∷◌, ℕ, Result, ok,
  err, any, all, arith, Bool-cases,
}
use tx3_lift.Lift.Library.{Library}
use tx3_lift.Cardano.Ledger.{Pallas}
use tx3_lift.Cardano.Lifting.{AssetLibrary}
use tx3_lift.Tracker.Error.{Code, TrackerError}
use tx3_lift.Tracker.Predicate.{TxPredicate}
use tx3_lift.Tracker.Specialization.{SpecializedTii}
use tx3_lift.Tracker.Messages.{ProcessLibrary}
use tx3_lift.Tracker.Config.{Config}
use tx3_lift.Tracker.Upstream.{ApiKeyInterceptor, call, BlockRef, connect}
use tx3_lift.Tracker.Session.{
  Event, signal, message, WatchTxRequest, Script, State, Round, SessionOutcome, shutdown, reconnect,
  Progress, waiting, returned, after_message, consume, subscribed, connected, stream_session,
  resume_from, after_session, with_intersect, run_loop,
}

-- the stream ends here: the signal, a closed stream or a status
abbrev pub is_last : Event → Bool
is_last signal = true
is_last (message (err code) now faults) = true
is_last (message (ok none) now faults) = true
is_last (message (ok (some action)) now faults) = false

abbrev pub is_waiting : {R : Type 0} → Progress R → Bool
is_waiting waiting = true
is_waiting (returned r) = false

abbrev pub ends : Round → Bool
ends round = any is_last round.script.events

abbrev pub during_backoff : Round → Bool
during_backoff round = round.signalled

module _ {A : Type 0} (lib : Library) (pallas : Pallas) (assets : AssetLibrary A)
    (process : ProcessLibrary A) (specialized : List SpecializedTii) (cfg : Config) where
  after_message-waits :
      (handled : Result TrackerError (Unit {0})) (next : State)
      (rest : Progress SessionOutcome × State)
      → is_waiting rest.0 ≡ false
      → is_waiting (after_message lib pallas assets process specialized cfg handled next rest).0
        ≡ false
  after_message-waits (ok u) next rest h = h
  after_message-waits (err e) next rest h = refl

  consume-waits :
      (events : List Event) (s : State)
      → any is_last events ≡ true
      → is_waiting (consume lib pallas assets process specialized cfg events s).0 ≡ false
  unfolding consume
  consume-waits [] s h = cc
  consume-waits (signal ∷ events) s h = refl
  consume-waits (message (err code) now faults ∷ events) s h = refl
  consume-waits (message (ok none) now faults ∷ events) s h = refl
  consume-waits (message (ok (some action)) now faults ∷ events) s h =
      after_message-waits _ _ _ (consume-waits events _ h)

  subscribed-waits :
      (script : Script) (answer : Result Code (Unit {0})) (s : State)
      → any is_last script.events ≡ true
      → is_waiting (subscribed lib pallas assets process specialized cfg script answer s).0 ≡ false
  subscribed-waits script (ok u) s h = consume-waits script.events s h
  subscribed-waits script (err code) s h = refl

  connected-waits :
      (script : Script) (request : WatchTxRequest) (answer : Result TrackerError ApiKeyInterceptor)
      (s : State)
      → any is_last script.events ≡ true
      → is_waiting (connected lib pallas assets process specialized cfg script request answer s).0
        ≡ false
  connected-waits script request (ok interceptor) s h =
      subscribed-waits script (script.subscribe (call interceptor []) request) s h
  connected-waits script request (err e) s h = refl

  after_session-waits :
      (progress : Progress SessionOutcome) (after later : State) (delay : ℕ) (signalled : Bool)
      (rest : Progress (Unit {0}) × (List ℕ × State))
      → is_waiting progress ≡ false
      → (signalled ≡ true) ⊎ (is_waiting rest.0 ≡ false)
      → is_waiting
          (after_session lib pallas assets process specialized cfg progress after delay later
            signalled rest).0
        ≡ false
  after_session-waits waiting after later delay signalled rest h r = cc
  after_session-waits (returned (err e)) after later delay signalled rest h r = refl
  after_session-waits (returned (ok shutdown)) after later delay signalled rest h r = refl
  after_session-waits (returned (ok reconnect)) after later delay true rest h r = refl
  after_session-waits (returned (ok reconnect)) after later delay false rest h (inl y) = cc
  after_session-waits (returned (ok reconnect)) after later delay false rest h (inr n) = n

  with_intersect-waits :
      (found : Result TrackerError (List BlockRef)) (s : State)
      (session : List BlockRef → Progress (Unit {0}) × (List ℕ × State))
      → ((intersect : List BlockRef) → is_waiting (session intersect).0 ≡ false)
      → is_waiting (with_intersect lib pallas assets process specialized cfg found s session).0
        ≡ false
  with_intersect-waits (ok intersect) s session r = r intersect
  with_intersect-waits (err e) s session r = refl

  -- Where every stream ends at some event, be it the signal, its close or a status, and the signal
  -- comes during one of the backoffs at the latest, the run returns.
  pub run_loop-returns :
      (predicate : Option TxPredicate) (rounds : List Round) (s : State)
      → all ends rounds ≡ true
      → any during_backoff rounds ≡ true
      → is_waiting (run_loop lib pallas assets process specialized cfg predicate rounds s).0 ≡ false
  unfolding run_loop stream_session
  run_loop-returns predicate [] s h k = cc
  run_loop-returns predicate (round ∷ rounds) s h k =
      with_intersect-waits
        (resume_from lib pallas assets process specialized cfg round.cursor_fails s.db) s _
        λ intersect.
          after_session-waits _ _ _ _ round.signalled _
            (connected-waits round.script (record { predicate = predicate; intersect = intersect })
              (connect round.script.transport cfg.upstream) s (ground arith))
            (elim (Bool-cases round.signalled) [
              | inl y ↦ inl y
              | inr n ↦ inr (run_loop-returns predicate rounds _ (ground arith) (ground arith))
            ])
