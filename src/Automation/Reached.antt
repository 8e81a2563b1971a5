-- ===== src/Automation/Reached.antt =====
-- What holds of the loop and its handle in whatever order their steps run:
-- crates/codex-runtime/src/automation.rs.
use coclai.Prelude.{
  ℕ, ◌≤◌, ◌<◌, ◌||◌, ◌&&◌, ltb, ◌≡◌, refl, Bool, true, false, Option, none, some, arith,
  Option-cases, inl, inr,
}
use coclai.Automation.{AutomationSpec, is_terminal, SharedState, done, broken}
use coclai.Automation.Schedule.{collapse_next_due}
use coclai.Automation.Loop.{
  Progress, entering, entered, checking, sleeping, starting, prompting, returned, aborted, is_over,
  is_over-abort_task, initial_status, enter_loop, take_due, begin_iteration, wake_up, start_run,
  finish_run, stop_status, abort_task,
}
use coclai.Automation.Steps.{
  LoopStep, enter, take, check, wake, run, finish, request, stop, abort, Step, by_loop, by_stop,
  Reached, spawned, then_step,
}

module _ (last_time : ℕ) (spec : AutomationSpec) where
  abbrev at_entry : Progress → Bool
  at_entry entering = true
  at_entry entered = false
  at_entry (checking due) = false
  at_entry (sleeping due) = false
  at_entry (starting due now) = false
  at_entry (prompting due) = false
  at_entry (returned status) = false
  at_entry aborted = false

  -- The limit is not passed, and while the loop goes on another run is allowed; at the entry the
  -- status may forbid it instead.
  abbrev Allowed : ℕ → SharedState × Progress → Type 0
  Allowed limit (s, p) =
      (s.status.runs_completed ≤ limit)
      × ((is_over p
            || ltb s.status.runs_completed limit
            || (at_entry p && is_terminal s.status.state))
          ≡ true)

  LoopStep-Allowed :
      (limit : ℕ) {w v : SharedState × Progress}
      → spec.max_runs ≡ some limit
      → LoopStep last_time spec w v
      → Allowed limit w
      → Allowed limit v
  unfolding enter_loop take_due begin_iteration wake_up start_run finish_run
  LoopStep-Allowed limit e (enter s) h = ground arith
  LoopStep-Allowed limit e (take s) h = elim (Option-cases s.status.next_due_at) [
    | inl f ↦ ground arith
    | inr (due, f) ↦ ground arith
  ]
  LoopStep-Allowed limit e (check s due now closed) h = ground arith
  LoopStep-Allowed limit e (wake s due now closed) h = ground arith
  LoopStep-Allowed limit e (run s due now) h = h
  LoopStep-Allowed limit e (finish s due now done) h = ground arith
  LoopStep-Allowed limit e (finish s due now (broken message)) h = ground arith

  Step-Allowed :
      (limit : ℕ) {w v : SharedState × Progress}
      → spec.max_runs ≡ some limit
      → Step last_time spec w v
      → Allowed limit w
      → Allowed limit v
  unfolding stop_status
  Step-Allowed limit e (by_loop step) h = LoopStep-Allowed limit e step h
  Step-Allowed limit e (by_stop (request s p)) h = h
  Step-Allowed limit e (by_stop (stop s p)) h = ground arith
  Step-Allowed limit e (by_stop (abort s p)) h = (h.0, rw (is_over-abort_task p) refl)

  Reached-Allowed :
      (limit : ℕ) {w : SharedState × Progress}
      → spec.max_runs ≡ some limit
      → Reached last_time spec w
      → Allowed limit w
  unfolding initial_status
  Reached-Allowed limit e (spawned thread_id closed now) = ground arith
  Reached-Allowed limit e (then_step r step) = Step-Allowed limit e step (Reached-Allowed limit e r)

  -- However the steps of the loop and of callers of `stop` interleave, no more runs are completed
  -- than `max_runs` allows.
  pub Reached-max_runs :
      (limit : ℕ) (s : SharedState) (p : Progress)
      → spec.max_runs ≡ some limit
      → Reached last_time spec (s, p)
      → s.status.runs_completed ≤ limit
  Reached-max_runs limit s p e r = (Reached-Allowed limit e r).0

  -- A start that is noted, or about to be noted, is before `bound`.
  abbrev Before : ℕ → Option ℕ → Type 0
  Before bound none = Unit {0}
  Before bound (some t) = t < bound

  abbrev pub about_to_start : Progress → Option ℕ
  about_to_start entering = none
  about_to_start entered = none
  about_to_start (checking due) = none
  about_to_start (sleeping due) = none
  about_to_start (starting due now) = some now
  about_to_start (prompting due) = none
  about_to_start (returned status) = none
  about_to_start aborted = none

  abbrev InTime : ℕ → SharedState × Progress → Type 0
  InTime bound (s, p) = Before bound s.status.last_started_at × Before bound (about_to_start p)

  LoopStep-InTime :
      (bound : ℕ) {w v : SharedState × Progress}
      → spec.stop_at ≡ some bound
      → LoopStep last_time spec w v
      → InTime bound w
      → InTime bound v
  unfolding enter_loop take_due begin_iteration wake_up start_run finish_run
  LoopStep-InTime bound e (enter s) h = ground arith
  LoopStep-InTime bound e (take s) h = elim (Option-cases s.status.next_due_at) [
    | inl f ↦ ground arith
    | inr (due, f) ↦ ground arith
  ]
  LoopStep-InTime bound e (check s due now closed) h = ground arith
  LoopStep-InTime bound e (wake s due now closed) h = ground arith
  LoopStep-InTime bound e (run s due now) h = (h.1, tt)
  LoopStep-InTime bound e (finish s due now done) h =
      elim (Option-cases (collapse_next_due last_time due spec.every now)) [
        | inl f ↦ ground arith
        | inr (next_due, f) ↦ ground arith
      ]
  LoopStep-InTime bound e (finish s due now (broken message)) h = ground arith

  about_to_start-abort_task : (p : Progress) → about_to_start (abort_task p) ≡ none
  about_to_start-abort_task entering = refl
  about_to_start-abort_task entered = refl
  about_to_start-abort_task (checking due) = refl
  about_to_start-abort_task (sleeping due) = refl
  about_to_start-abort_task (starting due now) = refl
  about_to_start-abort_task (prompting due) = refl
  about_to_start-abort_task (returned status) = refl
  about_to_start-abort_task aborted = refl

  Step-InTime :
      (bound : ℕ) {w v : SharedState × Progress}
      → spec.stop_at ≡ some bound
      → Step last_time spec w v
      → InTime bound w
      → InTime bound v
  unfolding stop_status
  Step-InTime bound e (by_loop step) h = LoopStep-InTime bound e step h
  Step-InTime bound e (by_stop (request s p)) h = h
  Step-InTime bound e (by_stop (stop s p)) h = ground arith
  Step-InTime bound e (by_stop (abort s p)) h = (h.0, rw (about_to_start-abort_task p) tt)

  Reached-InTime :
      (bound : ℕ) {w : SharedState × Progress}
      → spec.stop_at ≡ some bound
      → Reached last_time spec w
      → InTime bound w
  unfolding initial_status
  Reached-InTime bound e (spawned thread_id closed now) = ground arith
  Reached-InTime bound e (then_step r step) = Step-InTime bound e step (Reached-InTime bound e r)

  -- However the steps interleave, no run starts at `stop_at` or later.
  pub Reached-stop_at :
      (bound started_at : ℕ) (s : SharedState) (p : Progress)
      → spec.stop_at ≡ some bound
      → Reached last_time spec (s, p)
      → s.status.last_started_at ≡ some started_at
      → started_at < bound
  Reached-stop_at bound started_at s p e r h =
      let (before, _) = Reached-InTime bound e r in rw h at before
