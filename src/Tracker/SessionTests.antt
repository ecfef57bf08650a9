-- ===== src/Tracker/SessionTests.antt =====
-- A run of the tracker on one source: a session that closes, a signal, and an event that comes again.
use tx3_lift.Prelude.{
  inl, inr, pos, ◌≡◌, refl, ◌⊎◌, true, false, none, some, [], ◌∷◌, All, Result, ok, err, arith,
  text,
}
use tx3_lift.Prelude.Order.{nat_ord, list_ord, pair_ord}
use tx3_lift.Cardano.Lifting.Tests.{lib, pallas, assets}
use tx3_lift.Tracker.Error.{TrackerError, sqlite_error, unavailable}
use tx3_lift.Tracker.Select.{all_matches}
use tx3_lift.Tracker.Store.{Db}
use tx3_lift.Collections.Map
use tx3_lift.Tracker.Config.{Config, tip, Environment, with_api_key, load, resolve_api_key}
use tx3_lift.Tracker.Upstream.Key.{connect-load}
use tx3_lift.Tracker.Session.Refines.{specified_session, consume-view}
use tx3_lift.Tracker.Session.Redelivery.{deliver, consume-redelivered}
use tx3_lift.Tracker.Upstream.{Transport, call, header_name, connect}
use tx3_lift.Tracker.Session.{
  apply, message, Round, State, consume, start, handle, run_loop, resume_from,
}
use tx3_lift.Tracker.Session.Safety.{IsDelay, IsSafe, run_loop-IsSafe}
use tx3_lift.Tracker.Session.Resume.{block_ref, resume_from-apply_tx}
use tx3_lift.Tracker.Session.Endings.{IsEnd, run_loop-IsEnd}
use tx3_lift.Tracker.Session.Shutdown.{is_waiting, run_loop-returns}
use tx3_lift.Tracker.Store.Refines.{view}
use tx3_lift.Tracker.Tests.{source, spec, process, event, point, row, empty, rows_found}

-- a session that handles the event and is then cut, and the signal during the backoff
abbrev cfg : Config
cfg = record {
  upstream = record {
    endpoint = text "http://localhost:50051";
    api_key = none;
    intersect = tip;
    filter = record { addresses = []; moves_policy_id = none; mints_policy_id = none };
  };
  storage = record { database_path = [] };
  sources = source ∷ [];
  matching = record { mode = all_matches };
}

abbrev transport : Transport
transport = record {
  from_shared = λ e. true;
  tls_config = true;
  reachable = true;
  metadata_value = λ k. true;
}

abbrev cut : Round
cut = record {
  cursor_fails = false;
  script = record {
    transport = transport;
    subscribe = λ metadata request. ok tt;
    events =
        message (ok (some (some (apply event)))) (pos 5) []
        ∷ message (err unavailable) (pos 6) []
        ∷ [];
  };
  signalled = true;
}

run_loop-IsSafe_example :
    let r = run_loop lib pallas assets process (spec ∷ []) cfg none (cut ∷ []) (start empty) in
    All IsDelay r.1.0 × IsSafe r.1.1
run_loop-IsSafe_example =
    run_loop-IsSafe lib pallas assets process (spec ∷ []) cfg none (cut ∷ []) empty tt

run_loop-IsEnd_example :
    IsEnd
      (cut ∷ [])
      (run_loop lib pallas assets process (spec ∷ []) cfg none (cut ∷ []) (start empty)).0
run_loop-IsEnd_example =
    run_loop-IsEnd lib pallas assets process (spec ∷ []) cfg none (cut ∷ []) (start empty)

run_loop-returns_example :
    is_waiting (run_loop lib pallas assets process (spec ∷ []) cfg none (cut ∷ []) (start empty)).0
    ≡ false
run_loop-returns_example =
    run_loop-returns lib pallas assets process (spec ∷ []) cfg none (cut ∷ []) (start empty) refl
      refl

abbrev handled : Result TrackerError (Unit {0}) × Db
handled = handle lib pallas assets process (spec ∷ []) cfg (some (apply event)) (pos 5) [] empty

resume_from-apply_tx_example :
    (handled ≡ (err sqlite_error, empty))
    ⊎ (handled.0 ≡ ok tt)
      × (resume_from lib pallas assets process (spec ∷ []) cfg false handled.1
          ≡ ok (block_ref point ∷ []))
resume_from-apply_tx_example =
    resume_from-apply_tx lib pallas assets process (spec ∷ []) cfg event (pos 5) [] empty point
      (row ∷ []) rows_found refl (omega arith)

consume-view_example :
    view (consume lib pallas assets process (spec ∷ []) cfg cut.script.events (start empty)).1.db
    ≡ specified_session lib pallas assets process (spec ∷ []) cfg cut.script.events (view empty)
consume-view_example =
    consume-view lib pallas assets process (spec ∷ []) cfg cut.script.events (start empty)
      (refl, (refl, tt))

-- the event once, and twice more after a reconnect
abbrev after_once : State
after_once =
    start
      (consume lib pallas assets process (spec ∷ []) cfg
        (deliver lib pallas assets process (spec ∷ []) cfg (pos 5) (event ∷ [])) (start empty)).1.db

consume-redelivered_example :
    (view
        (consume lib pallas assets process
          (spec ∷ [])
          cfg
          (deliver lib pallas assets process (spec ∷ []) cfg (pos 6) (event ∷ event ∷ []))
          after_once).1.db).is_matched
      []
      (5 ∷ [])
    ≡ (view after_once.db).is_matched [] (5 ∷ [])
consume-redelivered_example =
    consume-redelivered lib pallas assets process (spec ∷ []) cfg (pos 5) (pos 6) (event ∷ [])
      (event ∷ event ∷ []) (start empty) after_once [] (5 ∷ [])
      ((some (point, row ∷ []), rows_found), tt) (inl refl, (inl refl, tt)) refl

-- the key of the environment, where the file has an empty one
abbrev environment : Environment
environment = record {
  read_to_string = λ path. some path;
  from_str = λ contents. some (with_api_key (some []) cfg);
  dmtr_api_key = some (7 ∷ []);
}

connect-load_example :
    Map.get (call (record { api_key = some (7 ∷ []) }) []) header_name ≡ some (7 ∷ [])
unfolding load resolve_api_key connect
connect-load_example =
    (connect-load environment [] [] (with_api_key (some []) cfg) (with_api_key (some (7 ∷ [])) cfg)
        transport (record { api_key = some (7 ∷ []) }) [] refl refl refl refl).1
      (7 ∷ []) (inr refl) (refl, refl)
