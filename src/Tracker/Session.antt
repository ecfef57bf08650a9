-- ===== src/Tracker/Session.antt =====
-- bin/tracker/src/main.rs: the reconnect loop and the streaming sessions it runs. The answers of the
-- server and the signal come as scripts: what a loop waits for is the next entry, and at the end of
-- the script it is still waiting.
pub mod Invariant
pub mod Safety
pub mod Resume
pub mod Endings
pub mod Shutdown
pub mod Refines
pub mod Redelivery
use tx3_lift.Prelude.{
  ℕ, Bool, true, false, Option, none, some, List, [], ◌∷◌, Text, ℤ, Result, ok, err, ◌>>=◌,
  if◌then◌else◌, text,
}
use tx3_lift.Lift.Library.{Library}
use tx3_lift.Cardano.Ledger.{Pallas}
use tx3_lift.Cardano.Lifting.{AssetLibrary}
use tx3_lift.Tracker.Error.{Code, TrackerError, rpc, sqlite_error, tonic_transport}
use tx3_lift.Tracker.Sql.{Faults}
use tx3_lift.Tracker.Store.{Db, ChainPoint, read_cursor}
use tx3_lift.Tracker.Opening.{Disk, open_store}
use tx3_lift.Tracker.Retry.{Backoff, is_transient, new, next_delay, reset}
use tx3_lift.Tracker.Predicate.{TxPredicate, compile}
use tx3_lift.Tracker.Specialization.{SpecializedTii, Files, specialize_all}
use tx3_lift.Tracker.Process.{apply_tx, undo_tx}
use tx3_lift.Tracker.Messages.{ProcessLibrary, AnyChainTx}
use tx3_lift.Tracker.Config.{Config, Environment, load}
use tx3_lift.Tracker.Upstream.{
  MetadataMap, ApiKeyInterceptor, call, Transport, BlockRef, connect, intersect_block_refs,
}

-- `watch_tx_response::Action`
pub data Action : Type 0 where
  apply undo : AnyChainTx → Action
  idle : ℕ → Action

-- what `tokio::select!` wakes up to: the signal, or a message with the time and the statements that
-- fail while it is handled
pub data Event : Type 0 where
  signal : Event
  message : Result Code (Option (Option Action)) → ℤ → Faults → Event

pub record WatchTxRequest : Type 0 where
  pub predicate : Option TxPredicate
  pub intersect : List BlockRef

-- one session as the server plays it: the answers to the connection and to the request with its
-- metadata, and the stream
pub record Script : Type 0 where
  pub transport : Transport
  pub subscribe : MetadataMap → WatchTxRequest → Result Code (Unit {0})
  pub events : List Event

pub data SessionOutcome : Type 0 where
  shutdown reconnect : SessionOutcome

pub record State : Type 0 where
  pub db : Db
  pub backoff : Backoff

-- how far a loop has come: it waits, or it returned
pub data Progress (R : Type 0) : Type 0 where
  waiting : Progress R
  returned : Result TrackerError R → Progress R

-- one round of `run`'s loop: whether the cursor fails to be read, the session, and whether the signal
-- comes during the backoff
pub record Round : Type 0 where
  pub cursor_fails : Bool
  pub script : Script
  pub signalled : Bool

-- a transient code asks for a reconnect, another one is fatal
abbrev pub on_status : Code → Result TrackerError SessionOutcome
on_status code = if is_transient code then ok reconnect else err (rpc code)

-- `Err(Error::TonicTransport(e))`
abbrev pub is_transport : TrackerError → Bool
is_transport tonic_transport = true
is_transport e = false

module _ {A : Type 0} (lib : Library) (pallas : Pallas) (assets : AssetLibrary A)
    (process : ProcessLibrary A) (specialized : List SpecializedTii) (cfg : Config) where
  -- the `match response.action`
  unfoldable pub handle : Option Action → ℤ → Faults → Db → Result TrackerError (Unit {0}) × Db
  handle none now faults db = (ok tt, db)
  handle (some (apply any_tx)) now faults db =
      apply_tx lib pallas assets process specialized cfg.matching.mode faults now any_tx db
  handle (some (undo any_tx)) now faults db = undo_tx lib pallas assets process faults any_tx db
  handle (some (idle slot)) now faults db = (ok tt, db)

  -- an error ends the loop over the stream, which otherwise goes on
  abbrev pub after_message :
      Result TrackerError (Unit {0})
      → State
      → Progress SessionOutcome × State
      → Progress SessionOutcome × State
  after_message (ok u) next rest = rest
  after_message (err e) next rest = (returned (err e), next)

  -- the loop over the stream
  unfoldable pub consume : List Event → State → Progress SessionOutcome × State
  consume [] state = (waiting, state)
  consume (signal ∷ events) state = (returned (ok shutdown), state)
  consume (message (err code) now faults ∷ events) state = (returned (on_status code), state)
  consume (message (ok none) now faults ∷ events) state = (returned (ok reconnect), state)
  consume (message (ok (some action)) now faults ∷ events) state =
      let (handled, db) = handle action now faults state.db in
      let next : State = record { db = db; backoff = reset state.backoff } in
      after_message handled next (consume events next)

  -- `stream_session` once the connection stands
  abbrev pub subscribed : Script → Result Code (Unit {0}) → State → Progress SessionOutcome × State
  subscribed script (ok u) state = consume script.events state
  subscribed script (err code) state = (returned (on_status code), state)

  -- the connection: an error of the transport is worth a retry
  abbrev pub connected :
      Script
      → WatchTxRequest
      → Result TrackerError ApiKeyInterceptor
      → State
      → Progress SessionOutcome × State
  connected script request (ok interceptor) state =
      subscribed script (script.subscribe (call interceptor []) request) state
  connected script request (err e) state =
      (returned (if is_transport e then ok reconnect else err e), state)

  unfoldable pub stream_session : Script → WatchTxRequest → State → Progress SessionOutcome × State
  stream_session script request state =
      connected script request (connect script.transport cfg.upstream) state

  -- where the stream is to start, from the stored cursor if it can be read and there is one
  unfoldable pub resume_from : Bool → Db → Result TrackerError (List BlockRef)
  resume_from fault db = if fault then err sqlite_error else elim (read_cursor db) [
    | some p ↦ ok (record { slot = p.slot; hash = p.hash; height = 0 } ∷ [])
    | none ↦ intersect_block_refs lib cfg.upstream.intersect
  ]

  -- the `match` on how a session ended, with the backoff
  abbrev pub after_session :
      Progress SessionOutcome
      → State
      → ℕ
      → State
      → Bool
      → Progress (Unit {0}) × (List ℕ × State)
      → Progress (Unit {0}) × (List ℕ × State)
  after_session waiting after delay later signalled rest = (waiting, ([], after))
  after_session (returned (err e)) after delay later signalled rest =
      (returned (err e), ([], after))
  after_session (returned (ok shutdown)) after delay later signalled rest =
      (returned (ok tt), ([], after))
  after_session (returned (ok reconnect)) after delay later signalled (end, (delays, last)) =
      if signalled then (returned (ok tt), (delay ∷ [], later)) else (end, (delay ∷ delays, last))

  -- without a point to start from there is no session
  abbrev pub with_intersect :
      Result TrackerError (List BlockRef)
      → State
      → (List BlockRef → Progress (Unit {0}) × (List ℕ × State))
      → Progress (Unit {0}) × (List ℕ × State)
  with_intersect (ok intersect) state session = session intersect
  with_intersect (err e) state session = (returned (err e), ([], state))

  -- the delay that the loop waits for is added to those before it
  unfoldable pub run_loop :
      Option TxPredicate → List Round → State → Progress (Unit {0}) × (List ℕ × State)
  run_loop predicate [] state = (waiting, ([], state))
  run_loop predicate (round ∷ rounds) state =
      with_intersect (resume_from round.cursor_fails state.db) state λ intersect.
        let (progress, after) =
          stream_session round.script (record { predicate = predicate; intersect = intersect })
            state in
        let (delay, advanced) = next_delay after.backoff in
        let later : State = record after { backoff = advanced } in
        after_session progress after delay later round.signalled (run_loop predicate rounds later)

-- `run` before the loop
pub record Prepared : Type 0 where
  pub cfg : Config
  pub db : Db
  pub specialized : List SpecializedTii
  pub predicate : Option TxPredicate

-- the first argument, or `tracker.toml`
abbrev pub config_path : Option Text → Text
config_path none = text "tracker.toml"
config_path (some path) = path

unfoldable pub prepare :
    Library → Environment → Files → (Text → Disk) → Option Text → Result TrackerError Prepared
prepare lib environment files disk argument = do
  cfg ← load environment (config_path argument)
  db ← open_store (disk cfg.storage.database_path)
  specialized ← specialize_all lib files cfg.sources
  predicate ← compile lib cfg.upstream.filter
  ok (record { cfg = cfg; db = db; specialized = specialized; predicate = predicate })

-- `Backoff::new(Duration::from_secs(1), Duration::from_secs(30))`
abbrev pub start : Db → State
start db = record { db = db; backoff = new 1000000000 30000000000 }

-- `run`
unfoldable pub run :
    {A : Type 0}
    → Library
    → Pallas
    → AssetLibrary A
    → ProcessLibrary A
    → Environment
    → Files
    → (Text → Disk)
    → Option Text
    → List Round
    → Progress (Unit {0})
run lib pallas assets process environment files disk argument rounds =
    elim (prepare lib environment files disk argument) [
      | err e ↦ returned (err e)
      | ok p ↦
          (run_loop lib pallas assets process p.specialized p.cfg p.predicate rounds (start p.db)).0
    ]
