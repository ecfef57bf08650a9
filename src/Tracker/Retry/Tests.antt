-- ===== src/Tracker/Retry/Tests.antt =====
-- The schedule of the repository's own test: one second, doubled, at most eight.
use tx3_lift.Prelude.{ℕ, ◌≡◌, refl, ◌*◌, ◌^◌, min, arith}
use tx3_lift.Tracker.Retry.{new, next_delay, reset}
use tx3_lift.Tracker.Retry.Schedule.{attempts, next_delay-reset}

abbrev second : ℕ
second = 1000000000

fifth_delay : (next_delay (attempts 4 (new second (8 * second)))).0 ≡ 8 * second
unfolding next_delay attempts new
fifth_delay = refl

next_delay-reset_example :
    (next_delay (attempts 2 (reset (attempts 7 (new second (8 * second)))))).0
    ≡ min (second * 2 ^ 2) (8 * second)
next_delay-reset_example = next_delay-reset 7 2 second (8 * second) (omega arith) (omega arith)
