-- ===== src/Tracker/Retry.antt =====
-- bin/tracker/src/upstream/retry.rs: the gRPC codes worth a reconnect, and the capped exponential
-- backoff between the attempts. A duration is its number of nanoseconds.
pub mod Schedule
pub mod Tests
use tx3_lift.Tracker.Error.{
  Code, cancelled, unknown, deadline_exceeded, resource_exhausted, aborted, internal, unavailable,
}
use tx3_lift.Prelude.{
  ℕ, zero, suc, ◌+◌, ◌*◌, Bool, true, false, Option, none, some, leb, min, if◌then◌else◌,
}

-- `is_transient`
unfoldable pub is_transient : Code → Bool
is_transient unknown = true
is_transient unavailable = true
is_transient aborted = true
is_transient cancelled = true
is_transient deadline_exceeded = true
is_transient internal = true
is_transient resource_exhausted = true
is_transient c = false

-- `Duration::MAX`: 2 ^ 64 seconds, less one nanosecond
abbrev pub duration_max : ℕ
duration_max = 18446744073709551615999999999

-- `Duration::checked_mul`
abbrev pub checked_mul : ℕ → ℕ → Option ℕ
checked_mul d k = if leb (d * k) duration_max then some (d * k) else none

abbrev pub or_else : Option ℕ → ℕ → ℕ
or_else none d = d
or_else (some x) d = x

-- `Backoff`
pub record Backoff : Type 0 where
  pub current : ℕ
  pub initial : ℕ
  pub max : ℕ

-- `Backoff::new`
unfoldable pub new : ℕ → ℕ → Backoff
new initial max = record { current = initial; initial = initial; max = max }

-- `Backoff::next_delay`: the delay to wait, and the advanced schedule
unfoldable pub next_delay : Backoff → ℕ × Backoff
next_delay b = (
  b.current,
  record {
    current = min (or_else (checked_mul b.current 2) b.max) b.max;
    initial = b.initial;
    max = b.max;
  },
)

-- `Backoff::reset`
unfoldable pub reset : Backoff → Backoff
reset b = record { current = b.initial; initial = b.initial; max = b.max }
