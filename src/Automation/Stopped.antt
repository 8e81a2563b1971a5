-- ===== src/Automation/Stopped.antt =====
-- What a stop of the automation brings about: crates/codex-runtime/src/automation.rs.
use coclai.Prelude.{ℕ, suc, ◌+◌, ◌≤◌, ◌≡◌, refl, true, arith, Option-cases, inl, inr}
use coclai.Automation.{AutomationSpec, running, SharedState, done, broken}
use coclai.Automation.Schedule.{collapse_next_due}
use coclai.Automation.Loop.{
  Progress, entering, entered, checking, sleeping, starting, prompting, returned, aborted,
  enter_loop, take_due, begin_iteration, wake_up, start_run, finish_run, request_stop, stop_status,
  abort_task,
}
use coclai.Automation.Steps.{
  LoopStep, enter, take, check, wake, run, finish, StopStep, request, stop, abort, by_loop, by_stop,
  Reached, then_step,
}

module _ (last_time : ℕ) (spec : AutomationSpec) where
  -- Steps in any order, of which the loop's task takes so many.
  pub data Steps (w : SharedState × Progress) : ℕ → SharedState × Progress → Type 0 where
    no_step : Steps w 0 w
    loop_step :
        {n : ℕ} {v u : SharedState × Progress}
        → Steps w n v
        → LoopStep last_time spec v u
        → Steps w (suc n) u
    stop_step :
        {n : ℕ} {v u : SharedState × Progress}
        → Steps w n v
        → StopStep last_time spec v u
        → Steps w n u

  -- The steps that the loop's task has left once a stop is requested.
  abbrev steps_left : Progress → ℕ
  steps_left entering = 3
  steps_left entered = 2
  steps_left (checking due) = 1
  steps_left (sleeping due) = 1
  steps_left (starting due now) = 3
  steps_left (prompting due) = 2
  steps_left (returned status) = 0
  steps_left aborted = 0

  -- The runs that are under way.
  abbrev pub under_way : Progress → ℕ
  under_way entering = 0
  under_way entered = 0
  under_way (checking due) = 0
  under_way (sleeping due) = 0
  under_way (starting due now) = 1
  under_way (prompting due) = 1
  under_way (returned status) = 0
  under_way aborted = 0

  -- From `w` on, a stop is requested, and so many steps of the loop's task are left.
  abbrev Ends : SharedState × Progress → ℕ → SharedState × Progress → Type 0
  Ends (s, p) n (t, q) =
      (t.stop_requested ≡ true)
      × (n + steps_left q ≤ steps_left p)
      × (t.status.runs_completed + under_way q ≤ s.status.runs_completed + under_way p)

  LoopStep-Ends :
      {v u : SharedState × Progress}
      → LoopStep last_time spec v u
      → v.0.stop_requested ≡ true
      → Ends v 1 u
  unfolding enter_loop take_due begin_iteration wake_up start_run finish_run
  LoopStep-Ends (enter s) h = ground arith
  LoopStep-Ends (take s) h = elim (Option-cases s.status.next_due_at) [
    | inl f ↦ ground arith
    | inr (due, f) ↦ ground arith
  ]
  LoopStep-Ends (check s due now closed) h = ground arith
  LoopStep-Ends (wake s due now closed) h = ground arith
  LoopStep-Ends (run s due now) h = ground arith
  LoopStep-Ends (finish s due now done) h =
      elim (Option-cases (collapse_next_due last_time due spec.every now)) [
        | inl f ↦ ground arith
        | inr (next_due, f) ↦ ground arith
      ]
  LoopStep-Ends (finish s due now (broken message)) h = ground arith

  abort_task_ends :
      (p : Progress) → (steps_left (abort_task p) ≡ 0) × (under_way (abort_task p) ≡ 0)
  abort_task_ends entering = (refl, refl)
  abort_task_ends entered = (refl, refl)
  abort_task_ends (checking due) = (refl, refl)
  abort_task_ends (sleeping due) = (refl, refl)
  abort_task_ends (starting due now) = (refl, refl)
  abort_task_ends (prompting due) = (refl, refl)
  abort_task_ends (returned status) = (refl, refl)
  abort_task_ends aborted = (refl, refl)

  StopStep-Ends :
      {v u : SharedState × Progress}
      → StopStep last_time spec v u
      → v.0.stop_requested ≡ true
      → Ends v 0 u
  unfolding stop_status
  StopStep-Ends (request s p) h = ground arith
  StopStep-Ends (stop s p) h = ground arith
  StopStep-Ends (abort s p) h = ground (arith, abort_task_ends p)

  Steps-Ends :
      {w v : SharedState × Progress} {n : ℕ} → w.0.stop_requested ≡ true → Steps w n v → Ends w n v
  Steps-Ends h no_step = (h, omega arith, omega arith)
  Steps-Ends h (loop_step steps step) =
      let (asked, left, runs) = Steps-Ends h steps in
      let (asked', left', runs') = LoopStep-Ends step asked in
      (asked', omega (arith, left, left'), omega (arith, runs, runs'))
  Steps-Ends h (stop_step steps step) =
      let (asked, left, runs) = Steps-Ends h steps in
      let (asked', left', runs') = StopStep-Ends step asked in
      (asked', omega (arith, left, left'), omega (arith, runs, runs'))

  steps_left-le : (p : Progress) → steps_left p ≤ 3
  steps_left-le entering = omega arith
  steps_left-le entered = omega arith
  steps_left-le (checking due) = omega arith
  steps_left-le (sleeping due) = omega arith
  steps_left-le (starting due now) = omega arith
  steps_left-le (prompting due) = omega arith
  steps_left-le (returned status) = omega arith
  steps_left-le aborted = omega arith

  -- Once a stop is requested, however the steps of the loop's task and of callers of `stop` interleave
  -- from there, the task takes at most three more steps, the request stays, and no run is completed
  -- but the one that was under way.
  pub request_stop-ends :
      (n : ℕ) (s t : SharedState) (p q : Progress)
      → s.stop_requested ≡ true
      → Steps (s, p) n (t, q)
      → (n ≤ 3)
        × (t.stop_requested ≡ true)
        × (t.status.runs_completed ≤ s.status.runs_completed + under_way p)
  request_stop-ends n s t p q h steps =
      let (asked, left, runs) = Steps-Ends h steps in
      (omega (arith, left, steps_left-le p), asked, omega (arith, runs))

  -- Steps of the loop's task alone.
  pub data LoopSteps (w : SharedState × Progress) : SharedState × Progress → Type 0 where
    at_rest : LoopSteps w w
    one_more :
        {v u : SharedState × Progress} → LoopSteps w v → LoopStep last_time spec v u → LoopSteps w u

  -- One whole call of `stop`: the flag, the lock region and the abort in this order, with steps of
  -- the loop's task in between.
  pub data StopCall (w : SharedState × Progress) : SharedState × Progress → Type 0 where
    stop_call :
        {s s' s'' : SharedState} {p p' p'' : Progress}
        → LoopSteps w (s, p)
        → LoopSteps (request_stop s, p) (s', p')
        → LoopSteps (stop_status s', p') (s'', p'')
        → StopCall w (s'', abort_task p'')

  -- From every state that is reached between the second check and the lock region that starts a run,
  -- a whole call of `stop` can be overtaken by that region: when the call has ended the task is
  -- aborted, and its status says that the automation runs.
  pub stop-overtaken :
      (s : SharedState) (due now : ℕ)
      → Reached last_time spec (s, starting due now)
      → (t : SharedState) × StopCall (s, starting due now) (t, aborted)
        × Reached last_time spec (t, aborted)
        × (t.stop_requested ≡ true)
        × (t.status.state ≡ running)
  unfolding start_run stop_status
  stop-overtaken s due now r =
      let marked = stop_status (request_stop s) in
      (
        start_run marked now,
        stop_call at_rest at_rest (one_more at_rest (run marked due now)),
        then_step
            (then_step
              (then_step (then_step r (by_stop (request s (starting due now))))
                (by_stop (stop (request_stop s) (starting due now))))
              (by_loop (run marked due now)))
            (by_stop (abort (start_run marked now) (prompting due))),
        ground arith,
        refl,
      )
