-- ===== src/Artifact/LockPolicy.antt =====
-- Locks that are left behind: crates/codex-runtime/src/domain/artifact/lock_policy.rs. A duration is
-- its nanoseconds.
use coclai.Prelude.{
  ℕ, ◌-◌, ◌/◌, ◌≤◌, ◌≡◌, refl, min, Bool, true, false, Option, none, some, leb, u64_max, arith,
}

pub data LockOwnerStatus : Type 0 where
  alive dead unknown : LockOwnerStatus

-- `threshold.as_millis()`, as a `u64`, at most its greatest number.
unfoldable pub threshold_millis : ℕ → ℕ
threshold_millis threshold = min (threshold / 1000000) u64_max

unfoldable pub lock_age_exceeds_threshold : ℕ → ℕ → ℕ → Bool
unfolding threshold_millis
lock_age_exceeds_threshold created_unix_ms now_unix_ms threshold =
    leb (threshold_millis threshold) (now_unix_ms - created_unix_ms)

unfoldable pub should_reap_lock : LockOwnerStatus → Option ℕ → ℕ → ℕ → Bool
unfolding lock_age_exceeds_threshold
should_reap_lock dead created_unix_ms now_unix_ms stale_fallback_age = true
should_reap_lock alive created_unix_ms now_unix_ms stale_fallback_age = false
should_reap_lock unknown none now_unix_ms stale_fallback_age = false
should_reap_lock unknown (some created) now_unix_ms stale_fallback_age =
    lock_age_exceeds_threshold created now_unix_ms stale_fallback_age

-- Time only makes a lock more reapable: what is reaped at one time is reaped at any later one.
pub should_reap_lock_mono :
    (status : LockOwnerStatus) (created_unix_ms : Option ℕ) (now later stale_fallback_age : ℕ)
    → now ≤ later
    → should_reap_lock status created_unix_ms now stale_fallback_age ≡ true
    → should_reap_lock status created_unix_ms later stale_fallback_age ≡ true
unfolding should_reap_lock
should_reap_lock_mono dead created now later age le h = refl
should_reap_lock_mono alive created now later age le h = h
should_reap_lock_mono unknown none now later age le h = h
should_reap_lock_mono unknown (some created) now later age le h = ground arith
