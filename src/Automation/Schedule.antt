-- ===== src/Automation/Schedule.antt =====
-- The due times of crates/codex-runtime/src/automation.rs.
use coclai.Prelude.{
  ℕ, ◌+◌, ◌-◌, ◌*◌, ◌/◌, ◌%◌, min, Option, none, some, ltb, leb, eqb, if◌then◌else◌, ◌>>=◌,
}

abbrev pub nanos_per_sec : ℕ
nanos_per_sec = 1000000000

abbrev pub u128_max : ℕ
u128_max = 340282366920938463463374607431768211455

abbrev pub u64_bound : ℕ
u64_bound = 18446744073709551616

-- A `u128` operation that is checked.
abbrev pub checked_u128 : ℕ → Option ℕ
checked_u128 n = if leb n u128_max then some n else none

-- Seconds and nanoseconds, not yet carried over, as a duration.
unfoldable pub carry_over : ℕ → ℕ → Option ℕ
carry_over secs nanos = checked_u128 (secs + nanos / nanos_per_sec) >>= λ total.
    if ltb total u64_bound then some (total * nanos_per_sec + nanos % nanos_per_sec) else none

unfoldable pub checked_mul_duration : ℕ → ℕ → Option ℕ
unfolding carry_over
checked_mul_duration delta factor = checked_u128 (delta / nanos_per_sec * factor) >>= λ secs.
    checked_u128 (delta % nanos_per_sec * factor) >>= λ nanos. carry_over secs nanos

unfoldable pub initial_due_at : Option ℕ → ℕ → ℕ
initial_due_at none now = now
initial_due_at (some start_at) now = if ltb now start_at then start_at else now

module _ (last_time : ℕ) where
  -- `SystemTime::checked_add`.
  abbrev pub checked_add_system_time : ℕ → ℕ → Option ℕ
  checked_add_system_time base delta =
      if leb (base + delta) last_time then some (base + delta) else none

  unfoldable pub checked_add_system_time_by_factor : ℕ → ℕ → ℕ → Option ℕ
  unfolding checked_mul_duration
  checked_add_system_time_by_factor base delta factor =
      checked_mul_duration delta factor >>= λ scaled. checked_add_system_time base scaled

  unfoldable pub collapse_next_due : ℕ → ℕ → ℕ → Option ℕ
  unfolding checked_add_system_time_by_factor
  collapse_next_due last_due_at every now =
      checked_add_system_time last_due_at every >>= λ next_due.
      if ltb now next_due
      then some next_due
      else if eqb every 0
      then none
      else checked_add_system_time_by_factor last_due_at every
          (min ((now - last_due_at) / every + 1) u128_max)
