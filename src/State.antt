-- ===== src/State.antt =====
-- The projected runtime state: crates/codex-runtime/src/runtime/state.rs. The children hold the
-- capped text accumulators, the retention limits and the reducer, and what is proved of each.
-- Maps are association lists, sequence numbers and sizes are natural numbers (the code only
-- compares the former and subtracts the latter behind a test), and accumulated text is a list of
-- UTF-8 bytes.
pub mod Append
pub mod Prune
pub mod Reduce
pub mod Within
use coclai.Prelude.{ℕ, ◌*◌, String, Bool, List, [], Option}
use coclai.Prelude.{Map}

pub data ConnectionState : Type 0 where
  starting handshaking : ConnectionState
  running : ℕ → ConnectionState
  restarting : ℕ → ConnectionState
  shutting_down dead : ConnectionState

pub record StateProjectionLimits : Type 0 where
  pub max_threads : ℕ
  pub max_turns_per_thread : ℕ
  pub max_items_per_turn : ℕ
  pub max_text_bytes_per_item : ℕ
  pub max_stdout_bytes_per_item : ℕ
  pub max_stderr_bytes_per_item : ℕ

-- `StateProjectionLimits::default`.
abbrev pub default_limits : StateProjectionLimits
default_limits = record {
  max_threads = 256;
  max_turns_per_thread = 256;
  max_items_per_turn = 256;
  max_text_bytes_per_item = 256 * 1024;
  max_stdout_bytes_per_item = 256 * 1024;
  max_stderr_bytes_per_item = 256 * 1024;
}

pub data TurnStatus : Type 0 where
  in_progress completed failed cancelled interrupted : TurnStatus

-- crates/codex-runtime/src/runtime/approvals.rs
pub record PendingServerRequest (Value : Type 0) : Type 0 where
  pub approval_id : String
  pub deadline_unix_ms : ℕ
  pub method : String
  pub params : Value

pub record ItemState (Value : Type 0) : Type 0 where
  pub id : String
  pub item_type : String
  pub started : Option Value
  pub completed : Option Value
  pub text_accum : List ℕ
  pub stdout_accum : List ℕ
  pub stderr_accum : List ℕ
  pub text_truncated : Bool
  pub stdout_truncated : Bool
  pub stderr_truncated : Bool
  pub last_seq : ℕ

pub record TurnState (Value : Type 0) : Type 0 where
  pub id : String
  pub status : TurnStatus
  pub items : Map (ItemState Value)
  pub error : Option Value
  pub last_seq : ℕ

pub record ThreadState (Value : Type 0) : Type 0 where
  pub id : String
  pub active_turn : Option String
  pub turns : Map (TurnState Value)
  pub last_diff : Option String
  pub plan : Option Value
  pub last_seq : ℕ

pub record RuntimeState (Value : Type 0) : Type 0 where
  pub connection : ConnectionState
  pub threads : Map (ThreadState Value)
  pub pending_server_requests : Map (PendingServerRequest Value)

-- `RuntimeState::default`.
unfoldable pub default_state : (Value : Type 0) → RuntimeState Value
default_state Value = record { connection = starting; threads = []; pending_server_requests = [] }
