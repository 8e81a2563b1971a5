-- ===== src/Automation/Steps.antt =====
-- The steps of the automation's task and of callers of `stop`, in any order:
-- crates/codex-runtime/src/automation.rs.
use coclai.Prelude.{ℕ, String, Bool, false}
use coclai.Automation.{AutomationSpec, SharedState, RunResult}
use coclai.Automation.Loop.{
  Progress, entering, entered, checking, sleeping, starting, prompting, initial_status, enter_loop,
  take_due, begin_iteration, wake_up, start_run, finish_run, request_stop, stop_status, abort_task,
}

module _ (last_time : ℕ) (spec : AutomationSpec) where
  -- One step of the loop's task, with whatever answers the clock, the session and the prompt give.
  pub data LoopStep : SharedState × Progress → SharedState × Progress → Type 0 where
    enter : (s : SharedState) → LoopStep (s, entering) (enter_loop s)
    take : (s : SharedState) → LoopStep (s, entered) (take_due s)
    check :
        (s : SharedState) (due now : ℕ) (closed : Bool)
        → LoopStep (s, checking due) (begin_iteration spec s closed now due)
    wake :
        (s : SharedState) (due now : ℕ) (closed : Bool)
        → LoopStep (s, sleeping due) (wake_up spec s closed now due)
    run :
        (s : SharedState) (due now : ℕ)
        → LoopStep (s, starting due now) (start_run s now, prompting due)
    finish :
        (s : SharedState) (due now : ℕ) (result : RunResult)
        → LoopStep (s, prompting due) (finish_run last_time spec s due now result)

  -- One step of a caller of `stop`.
  pub data StopStep : SharedState × Progress → SharedState × Progress → Type 0 where
    request : (s : SharedState) (p : Progress) → StopStep (s, p) (request_stop s, p)
    stop : (s : SharedState) (p : Progress) → StopStep (s, p) (stop_status s, p)
    abort : (s : SharedState) (p : Progress) → StopStep (s, p) (s, abort_task p)

  pub data Step (w v : SharedState × Progress) : Type 0 where
    by_loop : LoopStep w v → Step w v
    by_stop : StopStep w v → Step w v

  pub data Reached : SharedState × Progress → Type 0 where
    spawned :
        (thread_id : String) (closed : Bool) (now : ℕ)
        → Reached (
          record { status = initial_status thread_id closed spec now; stop_requested = false },
          entering,
        )
    then_step : {w v : SharedState × Progress} → Reached w → Step w v → Reached v
