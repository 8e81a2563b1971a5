-- ===== src/Core/Supervisor/Restarts.antt =====
-- How often and how late a connection is restarted: crates/codex-runtime/src/runtime/core/supervisor.rs.
use coclai.Prelude.{
  ℕ, suc, ◌+◌, ◌-◌, ◌/◌, ◌≤◌, ◌<◌, min, eqb, u64_max, ◌≡◌, refl, sym, ap, ◌∙◌, true, false, List,
  [], ◌∷◌, arith, Bool-cases, inl, inr,
}
use native.Mathlib.Nat.{mod-lt, zero-lt-suc}
use coclai.Core.Supervisor.{
  on_crash, SupervisorConfig, Supervised, Spawned, refused, no_transport, no_handshake, spawned,
  Round, base_delay, jitter, compute_restart_delay, lived_long, spawn_connection_generation,
  restart_generation, supervise_round,
}

jitter-le : (base random : ℕ) → jitter base random ≤ min (base / 10) 1000
unfolding jitter
jitter-le base random = elim (Bool-cases (eqb (min (base / 10) 1000) 0)) [
  | inl no_cap ↦ rw (jitter, no_cap) (omega arith)
  | inr cap ↦ rw (jitter, cap) (omega (arith, mod-lt random (zero-lt-suc (min (base / 10) 1000))))
]

base_delay-le :
    (attempt base_backoff_ms max_backoff_ms : ℕ)
    → base_delay attempt base_backoff_ms max_backoff_ms ≤ max_backoff_ms
unfolding base_delay
base_delay-le attempt base_backoff_ms max_backoff_ms = omega arith

-- The delay before a restart is at least the backoff, which never exceeds its maximum, and at most
-- a tenth and at most a second longer, as long as the maximum is not close to 2^64.
pub compute_restart_delay-le :
    (random attempt base_backoff_ms max_backoff_ms : ℕ)
    → max_backoff_ms + 1000 ≤ u64_max
    → (base_delay attempt base_backoff_ms max_backoff_ms ≤ max_backoff_ms)
      × (base_delay attempt base_backoff_ms max_backoff_ms
          ≤ compute_restart_delay random attempt base_backoff_ms max_backoff_ms)
      × (compute_restart_delay random attempt base_backoff_ms max_backoff_ms
          ≤ base_delay attempt base_backoff_ms max_backoff_ms
            + min (base_delay attempt base_backoff_ms max_backoff_ms / 10) 1000)
unfolding compute_restart_delay
compute_restart_delay-le random attempt base_backoff_ms max_backoff_ms small =
    let capped = base_delay-le attempt base_backoff_ms max_backoff_ms in
    let late = jitter-le (base_delay attempt base_backoff_ms max_backoff_ms) random in
    (capped, omega (arith, capped, late, small), omega (arith, capped, late, small))

-- No uptime in these rounds reaches the time after which the attempts are counted anew.
abbrev pub ShortLived : SupervisorConfig → Supervised → List Round → Type 0
ShortLived cfg st [] = Unit {0}
ShortLived cfg st (r ∷ rs) =
    (lived_long cfg st r.now ≡ false) × ShortLived cfg (supervise_round cfg st r).0 rs

-- The rounds after which the loop goes on: each of them restarted the connection.
unfoldable pub restarts : SupervisorConfig → Supervised → List Round → ℕ
unfolding supervise_round
restarts cfg st [] = 0
restarts cfg st (r ∷ rs) =
    let (next, more) = supervise_round cfg st r in
    elim more [ true ↦ suc (restarts cfg next rs) | false ↦ 0 ]

restart_generation-attempts :
    (cfg : SupervisorConfig) (max_restarts : ℕ) (st : Supervised) (r : Round)
    → max_restarts ≤ 4294967295
    → lived_long cfg st r.now ≡ false
    → (restart_generation cfg max_restarts st r).1 ≡ true
    → (st.restart_attempts < max_restarts)
      × ((restart_generation cfg max_restarts st r).0.restart_attempts ≡ st.restart_attempts + 1)
unfolding restart_generation spawn_connection_generation
restart_generation-attempts cfg max_restarts st r small short more = go r.spawn refl
  where
    go :
        (spawn : Spawned)
        → r.spawn ≡ spawn
        → (st.restart_attempts < max_restarts)
          × ((restart_generation cfg max_restarts st r).0.restart_attempts
              ≡ st.restart_attempts + 1)
    go refused e = absurd (ground arith)
    go no_transport e = absurd (ground arith)
    go no_handshake e = absurd (ground arith)
    go spawned e = (ground arith, ground arith)

supervise_round-attempts :
    (cfg : SupervisorConfig) (max_restarts base_backoff_ms max_backoff_ms : ℕ) (st : Supervised)
    (r : Round)
    → cfg.restart ≡ on_crash max_restarts base_backoff_ms max_backoff_ms
    → max_restarts ≤ 4294967295
    → lived_long cfg st r.now ≡ false
    → (supervise_round cfg st r).1 ≡ true
    → (st.restart_attempts < max_restarts)
      × ((supervise_round cfg st r).0.restart_attempts ≡ st.restart_attempts + 1)
unfolding supervise_round lived_long
supervise_round-attempts cfg max_restarts base_backoff_ms max_backoff_ms st r policy small short
      more =
    let restarted : supervise_round cfg st r
        ≡ restart_generation cfg max_restarts (record st { initialized = false }) r =
      ground arith in
    let (left, counted) =
      restart_generation-attempts cfg max_restarts (record st { initialized = false }) r small short
        (sym (ap (λ p. p.1) restarted) ∙ more) in
    (left, ap (λ p. p.0.restart_attempts) restarted ∙ counted)

-- While no generation lives long enough for the budget to be reset, a connection is restarted at
-- most `max_restarts` times, whatever else happens; attempts that were made before count.
pub restarts-le :
    (cfg : SupervisorConfig) (max_restarts base_backoff_ms max_backoff_ms : ℕ) (st : Supervised)
    (rs : List Round)
    → cfg.restart ≡ on_crash max_restarts base_backoff_ms max_backoff_ms
    → max_restarts ≤ 4294967295
    → ShortLived cfg st rs
    → restarts cfg st rs ≤ max_restarts - st.restart_attempts
unfolding restarts
restarts-le cfg max_restarts base_backoff_ms max_backoff_ms st [] policy small short = omega arith
restarts-le cfg max_restarts base_backoff_ms max_backoff_ms st (r ∷ rs) policy small short =
    elim (Bool-cases (supervise_round cfg st r).1) [
      | inl more ↦
          let (left, counted) =
            supervise_round-attempts cfg max_restarts base_backoff_ms max_backoff_ms st r policy
              small short.0 more in
          rw (restarts, more)
            (omega (
              arith,
              left,
              counted,
              restarts-le cfg max_restarts base_backoff_ms max_backoff_ms
                  (supervise_round cfg st r).0 rs policy small short.1,
            ))
      | inr done ↦ rw (restarts, done) (omega arith)
    ]
