-- ===== src/Automation/Loop.antt =====
-- The loop of crates/codex-runtime/src/automation.rs, cut where it waits or takes the lock of its
-- status: `run_loop` and the operations of the handle as steps on the shared state.
use coclai.Prelude.{
  ◌≡◌, refl, ℕ, suc, min, String, Bool, true, false, ◌||◌, Option, none, some, leb, eqb,
  if◌then◌else◌,
}
use coclai.Automation.{
  AutomationSpec, waiting, running, stopped, failed, is_terminal, AutomationStatus, SharedState,
  RunResult, done, broken,
}
use coclai.Automation.Schedule.{initial_due_at, collapse_next_due}

-- Where the task of the loop is.
pub data Progress : Type 0 where
  -- in front of the first lock region of `run_loop`
  entering : Progress
  -- in front of its second one
  entered : Progress
  -- at the head of the loop, with the due time
  checking : ℕ → Progress
  -- in `wait_until_due_or_stop`
  sleeping : ℕ → Progress
  -- behind the checks, in front of the lock, with the time of the start
  starting : ℕ → ℕ → Progress
  -- in `run_prompt`
  prompting : ℕ → Progress
  returned : AutomationStatus → Progress
  aborted : Progress

-- `stop_at.is_some_and(|stop_at| time >= stop_at)`.
abbrev pub reached : Option ℕ → ℕ → Bool
reached none time = false
reached (some stop_at) time = leb stop_at time

abbrev pub or_keep : Option ℕ → Option ℕ → Option ℕ
or_keep none old = old
or_keep (some t) old = some t

unfoldable pub mark_stopped : SharedState → Option ℕ → SharedState × Progress
mark_stopped shared finished_at =
    let status = record shared.status {
      state = stopped;
      next_due_at = none;
      last_finished_at = or_keep finished_at shared.status.last_finished_at;
    } in
    (record shared { status = status }, returned status)

unfoldable pub mark_failed : SharedState → Option ℕ → String → SharedState × Progress
mark_failed shared finished_at last_error =
    let status = record shared.status {
      state = failed;
      next_due_at = none;
      last_finished_at = or_keep finished_at shared.status.last_finished_at;
      last_error = some last_error;
    } in
    (record shared { status = status }, returned status)

-- `max_runs == Some(0)`.
abbrev pub is_zero : Option ℕ → Bool
is_zero none = false
is_zero (some n) = eqb n 0

unfoldable pub initial_status : String → Bool → AutomationSpec → ℕ → AutomationStatus
unfolding initial_due_at
initial_status thread_id session_closed spec now =
    let status : AutomationStatus = record {
      thread_id = thread_id;
      runs_completed = 0;
      next_due_at = none;
      last_started_at = none;
      last_finished_at = none;
      state = waiting;
      last_error = none;
    } in
    let due_at = initial_due_at spec.start_at now in
    if eqb spec.every 0
    then record status {
      state = failed;
      last_error = some "automation interval must be greater than zero";
    }
    else if session_closed
    then record status { state = failed; last_error = some "session is closed" }
    else if is_zero spec.max_runs
    then record status { state = stopped }
    else if reached spec.stop_at due_at || reached spec.stop_at now
    then record status { state = stopped }
    else record status { next_due_at = some due_at }

-- The first lock region of `run_loop`.
unfoldable pub enter_loop : SharedState → SharedState × Progress
enter_loop shared =
    if is_terminal shared.status.state then (shared, returned shared.status) else (shared, entered)

-- Its second lock region: the due time, which is missing where a stop came in between.
unfoldable pub take_due : SharedState → SharedState × Progress
unfolding mark_failed
take_due shared = elim shared.status.next_due_at [
  | none ↦ mark_failed shared none "automation status invariant violated: missing next due time"
  | some due_at ↦ (shared, checking due_at)
]

-- From the head of the loop to the wait.
unfoldable pub begin_iteration :
    AutomationSpec → SharedState → Bool → ℕ → ℕ → SharedState × Progress
unfolding mark_stopped mark_failed
begin_iteration spec shared closed now due_at =
    if shared.stop_requested
    then mark_stopped shared none
    else if closed
    then mark_failed shared none "session is closed"
    else if reached spec.stop_at now || reached spec.stop_at due_at
    then mark_stopped shared none
    else (shared, sleeping due_at)

-- From the wait to the lock.
unfoldable pub wake_up : AutomationSpec → SharedState → Bool → ℕ → ℕ → SharedState × Progress
unfolding mark_stopped mark_failed
wake_up spec shared closed started_at due_at =
    if shared.stop_requested
    then mark_stopped shared none
    else if closed
    then mark_failed shared none "session is closed"
    else if reached spec.stop_at started_at
    then mark_stopped shared none
    else (shared, starting due_at started_at)

-- The lock region in front of the prompt.
unfoldable pub start_run : SharedState → ℕ → SharedState
start_run shared started_at = record shared {
  status = record shared.status {
    state = running;
    next_due_at = none;
    last_started_at = some started_at;
  };
}

-- `u32::saturating_add(1)`.
abbrev pub saturating_inc_u32 : ℕ → ℕ
saturating_inc_u32 n = min (suc n) 4294967295

-- A status that the loop returns with.
abbrev pub leave : SharedState → AutomationStatus → SharedState × Progress
leave shared status = (record shared { status = status }, returned status)

-- `max_runs.is_some_and(|limit| runs_completed >= limit)`.
abbrev pub exhausted : Option ℕ → ℕ → Bool
exhausted none runs = false
exhausted (some limit) runs = leb limit runs

module _ (last_time : ℕ) where
  -- What follows a prompt that went well: the lock region behind it.
  unfoldable pub schedule_next : AutomationSpec → SharedState → ℕ → ℕ → SharedState × Progress
  unfolding collapse_next_due
  schedule_next spec shared due_at finished_at =
      let status : AutomationStatus = record shared.status {
        runs_completed = saturating_inc_u32 shared.status.runs_completed;
        last_finished_at = some finished_at;
        last_error = none;
      } in
      if exhausted spec.max_runs status.runs_completed
      then leave shared (record status { state = stopped; next_due_at = none })
      else elim (collapse_next_due last_time due_at spec.every finished_at) [
        | none ↦ leave shared (record status {
          state = failed;
          next_due_at = none;
          last_error = some "automation schedule overflowed next due timestamp";
        })
        | some next_due ↦
            if reached spec.stop_at next_due
            then leave shared (record status { state = stopped; next_due_at = none })
            else (
              record shared {
                status = record status { state = waiting; next_due_at = some next_due };
              },
              checking next_due,
            )
      ]

  unfoldable pub finish_run :
      AutomationSpec → SharedState → ℕ → ℕ → RunResult → SharedState × Progress
  unfolding schedule_next mark_failed
  finish_run spec shared due_at finished_at done = schedule_next spec shared due_at finished_at
  finish_run spec shared due_at finished_at (broken message) =
      mark_failed shared (some finished_at) message

-- The first step of `stop`: the flag.
abbrev pub request_stop : SharedState → SharedState
request_stop shared = record shared { stop_requested = true }

-- Its lock region.
unfoldable pub stop_status : SharedState → SharedState
stop_status shared =
    if is_terminal shared.status.state
    then shared
    else record shared { status = record shared.status { state = stopped; next_due_at = none } }

-- `join.abort()`: a task that has returned is not aborted.
abbrev pub abort_task : Progress → Progress
abort_task entering = aborted
abort_task entered = aborted
abort_task (checking due) = aborted
abort_task (sleeping due) = aborted
abort_task (starting due now) = aborted
abort_task (prompting due) = aborted
abort_task (returned status) = returned status
abort_task aborted = aborted

-- The task has ended.
abbrev pub is_over : Progress → Bool
is_over entering = false
is_over entered = false
is_over (checking due) = false
is_over (sleeping due) = false
is_over (starting due now) = false
is_over (prompting due) = false
is_over (returned status) = true
is_over aborted = true

pub is_over-abort_task : (p : Progress) → is_over (abort_task p) ≡ true
is_over-abort_task entering = refl
is_over-abort_task entered = refl
is_over-abort_task (checking due) = refl
is_over-abort_task (sleeping due) = refl
is_over-abort_task (starting due now) = refl
is_over-abort_task (prompting due) = refl
is_over-abort_task (returned status) = refl
is_over-abort_task aborted = refl
