-- ===== src/Tests/AutomationRuns.antt =====
-- Automation at work: crates/codex-runtime/src/automation.rs.
use coclai.Prelude.{ℕ, ◌+◌, ◌*◌, ◌≤◌, ◌<◌, ◌≡◌, refl, true, false, none, some, arith}
use coclai.Automation.{
  AutomationSpec, waiting, running, failed, AutomationStatus, SharedState, done,
}
use coclai.Automation.Schedule.{collapse_next_due}
use coclai.Automation.Ticks.{collapse_next_due-first}
use coclai.Automation.Loop.{
  starting, prompting, returned, aborted, initial_status, enter_loop, take_due, begin_iteration,
  wake_up, start_run, finish_run, request_stop, stop_status,
}
use coclai.Automation.Steps.{
  enter, take, check, wake, run, finish, by_loop, Reached, spawned, then_step,
}
use coclai.Automation.Reached.{Reached-max_runs, Reached-stop_at}
use coclai.Automation.Stopped.{no_step, loop_step, request_stop-ends, StopCall, stop-overtaken}

abbrev nightly : AutomationSpec
nightly = record {
  prompt = "go";
  start_at = none;
  every = 10;
  stop_at = some 1000;
  max_runs = some 1;
}

abbrev status : AutomationStatus
status = record {
  thread_id = "thread";
  runs_completed = 0;
  next_due_at = some 100;
  last_started_at = none;
  last_finished_at = none;
  state = waiting;
  last_error = none;
}

abbrev idle : SharedState
idle = record { status = status; stop_requested = false }

abbrev busy : SharedState
busy = record {
  status = record status { state = running; next_due_at = none; last_started_at = some 101 };
  stop_requested = false;
}

ready : Reached 5000 nightly (idle, starting 100 101)
unfolding enter_loop take_due initial_status begin_iteration wake_up
ready =
    then_step
      (then_step
        (then_step (then_step (spawned "thread" false 100) (by_loop (enter idle)))
          (by_loop (take idle)))
        (by_loop (check idle 100 100 false)))
      (by_loop (wake idle 100 101 false))

at_work : Reached 5000 nightly (busy, prompting 100)
unfolding start_run
at_work = then_step ready (by_loop (run idle 100 101))

-- The next tick of a schedule of 10 that was last due at 100 and is looked at at 135.
collapse_next_due-first_example :
    (135 < 140) × ((k : ℕ) × (140 ≡ 100 + 10 * k)) × (140 ≤ 100 + 10 * 4)
unfolding collapse_next_due
collapse_next_due-first_example =
    collapse_next_due-first 5000 100 10 135 140 4 (omega arith) (omega arith) (omega arith) refl

Reached-max_runs_example : (finish_run 5000 nightly busy 100 135 done).0.status.runs_completed ≤ 1
Reached-max_runs_example =
    Reached-max_runs 5000 nightly 1 (finish_run 5000 nightly busy 100 135 done).0
      (finish_run 5000 nightly busy 100 135 done).1 refl
      (then_step at_work (by_loop (finish busy 100 135 done)))

Reached-stop_at_example : 101 < 1000
Reached-stop_at_example =
    Reached-stop_at 5000 nightly 1000 101 busy (prompting 100) refl at_work refl

abbrev asked : SharedState
asked = record idle { stop_requested = true }

-- A stop during the run: the run ends, and the check behind it returns.
abbrev asked_at_work : SharedState
asked_at_work = request_stop busy

abbrev endless : AutomationSpec
endless = record nightly { max_runs = none }

abbrev ran : SharedState
ran = (finish_run 5000 endless asked_at_work 100 135 done).0

abbrev left : SharedState
left = (begin_iteration endless ran false 136 140).0

request_stop-ends_example :
    (2 ≤ 3)
    × (left.stop_requested ≡ true)
    × (left.status.runs_completed ≤ asked_at_work.status.runs_completed + 1)
unfolding finish_run begin_iteration
request_stop-ends_example =
    request_stop-ends 5000 endless 2 asked_at_work left (prompting 100) (returned left.status) refl
      (loop_step (loop_step no_step (finish asked_at_work 100 135 done)) (check ran 140 136 false))

-- A stop between the two lock regions at the entry of the loop: the due time is gone, and the status
-- says that the automation has failed.
fails_at_entry : (take_due (stop_status (request_stop idle))).0.status.state ≡ failed
unfolding take_due stop_status
fails_at_entry = refl

stop-overtaken_example :
    (t : SharedState) × StopCall 5000 nightly (idle, starting 100 101) (t, aborted)
    × Reached 5000 nightly (t, aborted)
    × (t.stop_requested ≡ true)
    × (t.status.state ≡ running)
stop-overtaken_example = stop-overtaken 5000 nightly idle 100 101 ready
