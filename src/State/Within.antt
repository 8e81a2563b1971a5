-- ===== src/State/Within.antt =====
-- The retention limits as an invariant of the projected state: crates/codex-runtime/src/runtime/state.rs.
pub mod Pruned
pub mod Touched
pub mod Reduced
use coclai.Prelude.{
  ℕ, ◌≤◌, ◌≡◌, String, false, Option, none, some, Map, UniqueKeys, Entries, length, max, ◌==◌,
}
use coclai.State.{StateProjectionLimits, ItemState, TurnState, ThreadState, RuntimeState}

module _ {Value : Type 0} (limits : StateProjectionLimits) where
  -- No accumulator is past its cap.
  abbrev pub ItemFits : String → ItemState Value → Type 0
  ItemFits _ item =
      (length item.text_accum ≤ limits.max_text_bytes_per_item)
      × (length item.stdout_accum ≤ limits.max_stdout_bytes_per_item)
      × (length item.stderr_accum ≤ limits.max_stderr_bytes_per_item)

  abbrev pub TurnFits : String → TurnState Value → Type 0
  TurnFits _ turn = UniqueKeys turn.items × Entries ItemFits turn.items

  abbrev pub TurnWithin : String → TurnState Value → Type 0
  TurnWithin k turn = TurnFits k turn × (length turn.items ≤ limits.max_items_per_turn)

  abbrev pub ThreadFits : String → ThreadState Value → Type 0
  ThreadFits _ thread = UniqueKeys thread.turns × Entries TurnFits thread.turns

  -- The active turn is never dropped, so a limit of no turns still leaves one.
  abbrev pub ThreadWithin : String → ThreadState Value → Type 0
  ThreadWithin _ thread =
      UniqueKeys thread.turns
      × (length thread.turns ≤ max 1 limits.max_turns_per_thread)
      × Entries TurnWithin thread.turns

  abbrev pub StateWithin : RuntimeState Value → Type 0
  StateWithin state =
      UniqueKeys state.threads
      × (length state.threads ≤ limits.max_threads)
      × Entries ThreadWithin state.threads

  -- Between a handler and the pruning: the thread that was touched may hold too many entries, and
  -- there may be too many threads.
  abbrev pub ThreadTouched : String → String → ThreadState Value → Type 0
  ThreadTouched touched k thread =
      ThreadFits k thread × ((touched == k) ≡ false → ThreadWithin k thread)

  abbrev pub StateTouched : Option String → RuntimeState Value → Type 0
  StateTouched none state = StateWithin state
  StateTouched (some touched) state =
      UniqueKeys state.threads × Entries (ThreadTouched touched) state.threads
