-- ===== src/Core/Supervisor.antt =====
-- The supervisor of the connection: crates/codex-runtime/src/runtime/core/supervisor.rs, with what
-- lifecycle.rs does to the connection's state when it spawns a generation. What the transport, the
-- clock, the waits and `shutdown` do in one round of the loop is an argument.
pub mod Restarts
use coclai.Prelude.{
  ℕ, suc, ◌+◌, ◌-◌, ◌*◌, ◌/◌, ◌%◌, ◌^◌, min, leb, ltb, eqb, u64_max, ℤ, pos, negsuc, Bool, true,
  false, not, List, [], ◌∷◌, if◌then◌else◌,
}
use coclai.State.{ConnectionState, starting, handshaking, running, restarting, dead}

pub data TransportCloseKind : Type 0 where
  clean_exit crash_exit unknown_exit : TransportCloseKind

pub data RestartPolicy : Type 0 where
  never : RestartPolicy
  on_crash : (max_restarts base_backoff_ms max_backoff_ms : ℕ) → RestartPolicy

pub record SupervisorConfig : Type 0 where
  pub restart : RestartPolicy
  pub restart_budget_reset_ms : ℕ

-- The counters and the state that the loop reads and writes.
pub record Supervised : Type 0 where
  pub initialized : Bool
  pub generation : ℕ
  pub connection : ConnectionState
  pub restart_attempts : ℕ
  pub generation_started_at_ms : ℕ

-- How far `spawn_connection_generation` gets.
pub data Spawned : Type 0 where
  refused no_transport no_handshake spawned : Spawned

-- One round: whether the transport's close was signalled, the reads of `shutting_down`, how the
-- transport closed, whether the teardown succeeded, the clock, whether the wait was slept through,
-- the spawn, and the clock after it.
pub record Round : Type 0 where
  pub closed : Bool
  pub shutting_down_first : Bool
  pub close_kind : TransportCloseKind
  pub detached : Bool
  pub now : ℕ
  pub slept : Bool
  pub shutting_down_second : Bool
  pub spawn : Spawned
  pub now_after : ℕ

-- `compute_restart_delay` in milliseconds; the random number is an argument.
unfoldable pub base_delay : (attempt base_backoff_ms max_backoff_ms : ℕ) → ℕ
base_delay attempt base_backoff_ms max_backoff_ms =
    min (min (base_backoff_ms * 2 ^ min attempt 20) u64_max) max_backoff_ms

unfoldable pub jitter : (base random : ℕ) → ℕ
jitter base random =
    let jitter_cap_ms = min (base / 10) 1000 in
    if eqb jitter_cap_ms 0 then 0 else random % min (jitter_cap_ms + 1) u64_max

unfoldable pub compute_restart_delay : (random attempt base_backoff_ms max_backoff_ms : ℕ) → ℕ
unfolding base_delay jitter
compute_restart_delay random attempt base_backoff_ms max_backoff_ms =
    let base = base_delay attempt base_backoff_ms max_backoff_ms in
    min (base + jitter base random) u64_max

-- The difference of two clocks, and the cast `as i64`.
abbrev difference : ℕ → ℕ → ℤ
difference a b = if leb b a then pos (a - b) else negsuc (b - a - 1)

abbrev as_i64 : ℕ → ℤ
as_i64 n = if ltb n 9223372036854775808 then pos n else negsuc (18446744073709551615 - n)

abbrev at_most : ℤ → ℤ → Bool
at_most (pos a) (pos b) = leb a b
at_most (pos a) (negsuc b) = false
at_most (negsuc a) (pos b) = true
at_most (negsuc a) (negsuc b) = leb b a

-- `uptime_ms >= restart_budget_reset_ms as i64`.
unfoldable pub lived_long : SupervisorConfig → Supervised → ℕ → Bool
lived_long cfg st now =
    at_most (as_i64 cfg.restart_budget_reset_ms) (difference now st.generation_started_at_ms)

-- `spawn_connection_generation`, on the connection's state.
unfoldable pub spawn_connection_generation : Supervised → ℕ → Spawned → Supervised
spawn_connection_generation st generation refused = st
spawn_connection_generation st generation no_transport = record st { connection = starting }
spawn_connection_generation st generation no_handshake = record st { connection = handshaking }
spawn_connection_generation st generation spawned = record st {
  generation = generation;
  initialized = true;
  connection = running generation;
}

abbrev succeeds : Spawned → Bool
succeeds refused = false
succeeds no_transport = false
succeeds no_handshake = false
succeeds spawned = true

abbrev give_up : Supervised → Supervised × Bool
give_up st = (record st { connection = dead }, false)

-- The restart of a transport that did not exit cleanly.
unfoldable pub restart_generation :
    SupervisorConfig → (max_restarts : ℕ) → Supervised → Round → Supervised × Bool
unfolding lived_long spawn_connection_generation
restart_generation cfg max_restarts st r =
    let attempts = if lived_long cfg st r.now then 0 else st.restart_attempts in
    if leb max_restarts attempts
    then give_up (record st { restart_attempts = attempts })
    else let waiting = record st {
      connection = restarting st.generation;
      restart_attempts = min (attempts + 1) 4294967295;
    } in
      if not r.slept
      then (waiting, false)
      else if r.shutting_down_second
      then (waiting, false)
      else let next =
          spawn_connection_generation waiting (min (st.generation + 1) u64_max) r.spawn in
        if succeeds r.spawn
        then (record next { generation_started_at_ms = r.now_after }, true)
        else give_up next

abbrev is_clean : TransportCloseKind → Bool
is_clean clean_exit = true
is_clean crash_exit = false
is_clean unknown_exit = false

-- One round of `supervisor_loop`; `false` leaves the loop.
unfoldable pub supervise_round : SupervisorConfig → Supervised → Round → Supervised × Bool
unfolding restart_generation
supervise_round cfg st r =
    if not r.closed
    then (st, false)
    else if r.shutting_down_first
    then (st, false)
    else let torn_down = record st { initialized = false } in
      if not r.detached then give_up torn_down else elim cfg.restart [
        | never ↦ give_up torn_down
        | on_crash max_restarts base_backoff_ms max_backoff_ms ↦
            if is_clean r.close_kind
            then give_up torn_down
            else restart_generation cfg max_restarts torn_down r
      ]

-- The loop, as far as the rounds that happened; the flag says that it still runs.
unfoldable pub supervisor_loop : SupervisorConfig → Supervised → List Round → Supervised × Bool
unfolding supervise_round
supervisor_loop cfg st [] = (st, true)
supervisor_loop cfg st (r ∷ rs) =
    let (next, more) = supervise_round cfg st r in
    elim more [ true ↦ supervisor_loop cfg next rs | false ↦ (next, false) ]
