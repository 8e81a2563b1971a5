-- ===== src/Automation.antt =====
-- Scheduled prompts: crates/codex-runtime/src/automation.rs. A `SystemTime` is the nanoseconds since
-- the first time that the platform can represent, and `last_time` is the last one; a `Duration` is
-- its nanoseconds. The prompt turn itself is a result that the step is given.
pub mod Schedule
pub mod Ticks
pub mod Loop
pub mod Steps
pub mod Reached
pub mod Stopped
use coclai.Prelude.{ℕ, ◌*◌, ◌^◌, String, Bool, true, false, Option}

pub record AutomationSpec : Type 0 where
  pub prompt : String
  pub start_at : Option ℕ
  pub every : ℕ
  pub stop_at : Option ℕ
  pub max_runs : Option ℕ

pub data AutomationState : Type 0 where
  waiting running stopped failed : AutomationState

abbrev pub is_terminal : AutomationState → Bool
is_terminal waiting = false
is_terminal running = false
is_terminal stopped = true
is_terminal failed = true

pub record AutomationStatus : Type 0 where
  pub thread_id : String
  pub runs_completed : ℕ
  pub next_due_at : Option ℕ
  pub last_started_at : Option ℕ
  pub last_finished_at : Option ℕ
  pub state : AutomationState
  pub last_error : Option String

pub record SharedState : Type 0 where
  pub status : AutomationStatus
  pub stop_requested : Bool

-- What `run_prompt` gives: a result, or an error with its text.
pub data RunResult : Type 0 where
  done : RunResult
  broken : String → RunResult
