-- ===== src/Tracker/Retry/Schedule.antt =====
-- bin/tracker/src/upstream/retry.rs: the delays that the backoff hands out, and its resets.
use tx3_lift.Prelude.{ℕ, zero, suc, ◌*◌, ◌^◌, ◌≤◌, ◌≡◌, refl, ap, ◌∙◌, min, arith}
use tx3_lift.Tracker.Retry.{Backoff, new, next_delay, reset, duration_max, checked_mul, or_else}

-- the schedule after `n` attempts
unfoldable pub attempts : ℕ → Backoff → Backoff
unfolding next_delay
attempts zero b = b
attempts (suc n) b = (next_delay (attempts n b)).1

capped_double :
    (x max : ℕ)
    → max ≤ duration_max
    → min (or_else (checked_mul (min x max) 2) max) max ≡ min (x * 2) max
capped_double x max h = ground arith

attempts_bounds :
    (n : ℕ) (b : Backoff) → ((attempts n b).initial ≡ b.initial) × ((attempts n b).max ≡ b.max)
unfolding attempts next_delay
attempts_bounds zero b = (refl, refl)
attempts_bounds (suc n) b = attempts_bounds n b

power : (n initial : ℕ) → initial * 2 ^ n * 2 ≡ initial * 2 ^ suc n
power n initial = grind arith

attempts-current :
    (n initial max : ℕ)
    → initial ≤ max
    → max ≤ duration_max
    → (attempts n (new initial max)).current ≡ min (initial * 2 ^ n) max
unfolding attempts next_delay new
attempts-current zero initial max h k = ground arith
attempts-current (suc n) initial max h k =
    rw (attempts-current n initial max h k, (attempts_bounds n (new initial max)).1)
      (capped_double (initial * 2 ^ n) max k ∙ ap (λ z. min z max) (power n initial))

reset-attempts : (m initial max : ℕ) → reset (attempts m (new initial max)) ≡ new initial max
unfolding attempts reset new
reset-attempts m initial max =
    rw ((attempts_bounds m (new initial max)).0, (attempts_bounds m (new initial max)).1) refl

-- When the initial delay is at most the largest one, and that one is a `Duration`, the delay
-- after `m` attempts, a reset and `n` more attempts is `initial * 2 ^ n`, cut at the largest one.
pub next_delay-reset :
    (m n initial max : ℕ)
    → initial ≤ max
    → max ≤ duration_max
    → (next_delay (attempts n (reset (attempts m (new initial max))))).0 ≡ min (initial * 2 ^ n) max
unfolding next_delay
next_delay-reset m n initial max h k =
    rw (reset-attempts m initial max) (attempts-current n initial max h k)
