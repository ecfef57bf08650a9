-- ===== src/Tracker/Session/Safety.antt =====
-- bin/tracker/src/main.rs: what holds of the store and of the delays throughout a run.
use tx3_lift.Prelude.{ℕ, ◌≤◌, ◌≡◌, refl, Option, none, some, List, All, ℤ, arith}
use tx3_lift.Lift.Library.{Library}
use tx3_lift.Cardano.Ledger.{Pallas}
use tx3_lift.Cardano.Lifting.{AssetLibrary}
use tx3_lift.Tracker.Sql.{Faults}
use tx3_lift.Tracker.Retry.{Backoff, new, next_delay, reset}
use tx3_lift.Tracker.Store.{Db}
use tx3_lift.Tracker.Store.Unique.{IsUnique}
use tx3_lift.Tracker.Predicate.{TxPredicate}
use tx3_lift.Tracker.Specialization.{SpecializedTii}
use tx3_lift.Tracker.Messages.{ProcessLibrary}
use tx3_lift.Tracker.Process.Events.{events-IsUnique}
use tx3_lift.Tracker.Config.{Config}
use tx3_lift.Tracker.Session.{Action, apply, undo, idle, State, Round, start, handle, run_loop}
use tx3_lift.Tracker.Session.Invariant.{run_loop-kept}

-- one second and thirty seconds
abbrev pub IsDelay : ℕ → Type 0
IsDelay d = (1000000000 ≤ d) × (d ≤ 30000000000)

abbrev pub IsCapped : Backoff → Type 0
IsCapped b = (b.initial ≡ 1000000000) × (b.max ≡ 30000000000) × IsDelay b.current

next_delay-IsCapped : (b : Backoff) → IsCapped b → IsCapped (next_delay b).1
unfolding next_delay
next_delay-IsCapped b (i, m, (lo, hi)) = (i, m, (ground arith, ground arith))

reset-IsCapped : (b : Backoff) → IsCapped b → IsCapped (reset b)
unfolding reset
reset-IsCapped b (i, m, (lo, hi)) = (i, m, (omega arith, omega arith))

abbrev pub IsSafe : State → Type 0
IsSafe s = IsUnique s.db × IsCapped s.backoff

module _ {A : Type 0} (lib : Library) (pallas : Pallas) (assets : AssetLibrary A)
    (process : ProcessLibrary A) (specialized : List SpecializedTii) (cfg : Config) where
  handle-IsUnique :
      (action : Option Action) (now : ℤ) (faults : Faults) (db : Db)
      → IsUnique db
      → IsUnique (handle lib pallas assets process specialized cfg action now faults db).1
  unfolding handle
  handle-IsUnique none now faults db u = u
  handle-IsUnique (some (apply any_tx)) now faults db u =
      (events-IsUnique lib pallas assets process specialized cfg.matching.mode any_tx faults db u).0
        now
  handle-IsUnique (some (undo any_tx)) now faults db u =
      (events-IsUnique lib pallas assets process specialized cfg.matching.mode any_tx faults db u).1
  handle-IsUnique (some (idle slot)) now faults db u = u

  -- From a store without two rows of one transaction and source, a run, whatever the server sends,
  -- whatever fails and whenever the signal comes, leaves such a store, and every delay before a
  -- reconnect is at least one second and at most thirty.
  pub run_loop-IsSafe :
      (predicate : Option TxPredicate) (rounds : List Round) (db : Db)
      → IsUnique db
      → let r = run_loop lib pallas assets process specialized cfg predicate rounds (start db) in
        All IsDelay r.1.0 × IsSafe r.1.1
  unfolding next_delay new
  run_loop-IsSafe predicate rounds db u =
      run_loop-kept lib pallas assets process specialized cfg IsSafe IsDelay
        (
          λ action now faults s h.
              (handle-IsUnique action now faults s.db h.0, reset-IsCapped s.backoff h.1),
          λ s h. (h.0, next_delay-IsCapped s.backoff h.1),
          λ s h. h.1.2,
        )
        predicate rounds (start db) (u, (refl, refl, (omega arith, omega arith)))
