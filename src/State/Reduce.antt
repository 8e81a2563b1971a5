-- ===== src/State/Reduce.antt =====
-- The reducer: `reduce_in_place_with_limits` and its handlers, crates/codex-runtime/src/runtime/state.rs.
-- A function that returns a mutable reference (`thread_mut`, `turn_mut`, `item_mut`,
-- `item_from_envelope`) takes the change that its caller makes through the reference, and a
-- `match` on the method name first finds the arm (`Event`).
use coclai.Prelude.{
  ℕ, String, Bool, true, false, Option, none, some, [], ltb, ◌==◌, if◌then◌else◌, lookup, upsert,
  ◌>>=◌, unwrap_or, utf8,
}
use coclai.Json.{Json}
use coclai.Events.{Envelope}
use coclai.RpcContract.{
  thread_started, turn_started, turn_completed, turn_failed, turn_cancelled, turn_interrupted,
  turn_diff_updated, turn_plan_updated, item_started, item_agent_message_delta,
  item_command_execution_output_delta, item_completed,
}
use coclai.State.{
  StateProjectionLimits, TurnStatus, in_progress, completed, failed, cancelled, interrupted,
  ItemState, TurnState, ThreadState, RuntimeState, default_limits,
}
use coclai.State.Append.{append_capped}
use coclai.State.Prune.{SelectNth, prune_state}

module _ {Value : Type 0} where
  abbrev pub new_thread : String → ℕ → ThreadState Value
  new_thread thread_id seq = record {
    id = thread_id;
    active_turn = none;
    turns = [];
    last_diff = none;
    plan = none;
    last_seq = seq;
  }

  abbrev pub new_turn : String → ℕ → TurnState Value
  new_turn turn_id seq = record {
    id = turn_id;
    status = in_progress;
    items = [];
    error = none;
    last_seq = seq;
  }

  abbrev pub new_item : String → ℕ → ItemState Value
  new_item item_id seq = record {
    id = item_id;
    item_type = "unknown";
    started = none;
    completed = none;
    text_accum = [];
    stdout_accum = [];
    stderr_accum = [];
    text_truncated = false;
    stdout_truncated = false;
    stderr_truncated = false;
    last_seq = seq;
  }

  unfoldable pub thread_mut :
      RuntimeState Value → String → ℕ → (ThreadState Value → ThreadState Value) → RuntimeState Value
  thread_mut state thread_id seq change = record state {
    threads =
        upsert thread_id (new_thread thread_id seq)
          (λ thread. change (record thread { last_seq = seq })) state.threads;
  }

  unfoldable pub turn_mut :
      ThreadState Value → String → ℕ → (TurnState Value → TurnState Value) → ThreadState Value
  turn_mut thread turn_id seq change = record thread {
    last_seq = seq;
    turns =
        upsert turn_id (new_turn turn_id seq) (λ turn. change (record turn { last_seq = seq }))
          thread.turns;
  }

  unfoldable pub item_mut :
      TurnState Value → String → ℕ → (ItemState Value → ItemState Value) → TurnState Value
  item_mut turn item_id seq change = record turn {
    last_seq = seq;
    items =
        upsert item_id (new_item item_id seq) (λ item. change (record item { last_seq = seq }))
          turn.items;
  }

  unfoldable pub clear_active_turn_if_matching : ThreadState Value → String → ThreadState Value
  clear_active_turn_if_matching thread turn_id = elim thread.active_turn [
    | none ↦ thread
    | some active ↦ if active == turn_id then record thread { active_turn = none } else thread
  ]

  unfoldable pub is_stale_thread_event : RuntimeState Value → Option String → ℕ → Bool
  is_stale_thread_event state none seq = false
  is_stale_thread_event state (some thread_id) seq = elim (lookup thread_id state.threads) [
    | none ↦ false
    | some thread ↦ ltb seq thread.last_seq
  ]

unfoldable pub thread_and_turn_ids : {Value : Type 0} → Envelope Value → Option (String × String)
thread_and_turn_ids envelope =
    envelope.thread_id >>= λ thread_id. envelope.turn_id >>= λ turn_id. some (thread_id, turn_id)

-- The arms of the `match` on the method.
pub data Event : Type 0 where
  thread_starts turn_starts diff_updates plan_updates item_starts message_delta : Event
  output_delta item_completes other : Event
  turn_ends : TurnStatus → Bool → Event

unfoldable pub event_of_method : String → Event
event_of_method method =
    if method == thread_started
    then thread_starts
    else if method == turn_started
    then turn_starts
    else if method == turn_completed
    then turn_ends completed false
    else if method == turn_failed
    then turn_ends failed true
    else if method == turn_cancelled
    then turn_ends cancelled false
    else if method == turn_interrupted
    then turn_ends interrupted false
    else if method == turn_diff_updated
    then diff_updates
    else if method == turn_plan_updated
    then plan_updates
    else if method == item_started
    then item_starts
    else if method == item_agent_message_delta
    then message_delta
    else if method == item_command_execution_output_delta
    then output_delta
    else if method == item_completed
    then item_completes
    else other

module _ (json : Json) where
  open json use {Value, get, as_str}

  -- `envelope.json.get("params").and_then(|p| p.get(field))`.
  abbrev pub param : Envelope Value → String → Option Value
  param envelope field = get "params" envelope.json >>= λ p. get field p

  abbrev pub param_str : Envelope Value → String → Option String
  param_str envelope field = param envelope field >>= as_str

  unfoldable pub handle_thread_started : RuntimeState Value → Envelope Value → RuntimeState Value
  unfolding thread_mut
  handle_thread_started state envelope = elim envelope.thread_id [
    | none ↦ state
    | some thread_id ↦ thread_mut state thread_id envelope.seq (λ thread. thread)
  ]

  unfoldable pub handle_turn_started : RuntimeState Value → Envelope Value → RuntimeState Value
  unfolding thread_mut turn_mut thread_and_turn_ids
  handle_turn_started state envelope = elim (thread_and_turn_ids envelope) [
    | none ↦ state
    | some (thread_id, turn_id) ↦ thread_mut state thread_id envelope.seq λ thread.
        turn_mut (record thread { active_turn = some turn_id }) turn_id envelope.seq
          (λ turn. record turn { status = in_progress })
  ]

  -- The status and, where it is asked for, the error of a turn that ends.
  unfoldable pub end_turn : Envelope Value → TurnStatus → Bool → TurnState Value → TurnState Value
  end_turn envelope status with_error turn =
      let ended = record turn { status = status } in
      if with_error then record ended { error = param envelope "error" } else ended

  unfoldable pub handle_turn_terminal :
      RuntimeState Value → Envelope Value → TurnStatus → Bool → RuntimeState Value
  unfolding thread_mut turn_mut thread_and_turn_ids clear_active_turn_if_matching end_turn
  handle_turn_terminal state envelope status with_error = elim (thread_and_turn_ids envelope) [
    | none ↦ state
    | some (thread_id, turn_id) ↦ thread_mut state thread_id envelope.seq λ thread.
        turn_mut (clear_active_turn_if_matching thread turn_id) turn_id envelope.seq
          (end_turn envelope status with_error)
  ]

  unfoldable pub handle_turn_diff_updated : RuntimeState Value → Envelope Value → RuntimeState Value
  unfolding thread_mut
  handle_turn_diff_updated state envelope = elim envelope.thread_id [
    | none ↦ state
    | some thread_id ↦
        thread_mut state thread_id envelope.seq
          (λ thread. record thread { last_diff = param_str envelope "diff" })
  ]

  unfoldable pub handle_turn_plan_updated : RuntimeState Value → Envelope Value → RuntimeState Value
  unfolding thread_mut
  handle_turn_plan_updated state envelope = elim envelope.thread_id [
    | none ↦ state
    | some thread_id ↦
        thread_mut state thread_id envelope.seq
          (λ thread. record thread { plan = param envelope "plan" })
  ]

  unfoldable pub thread_turn_item_ids : Envelope Value → Option (String × String × String)
  unfolding thread_and_turn_ids
  thread_turn_item_ids envelope = thread_and_turn_ids envelope >>= λ ids.
      envelope.item_id >>= λ item_id. some (ids.0, ids.1, item_id)

  unfoldable pub item_from_envelope :
      RuntimeState Value → Envelope Value → (ItemState Value → ItemState Value) → RuntimeState Value
  unfolding thread_mut turn_mut item_mut thread_turn_item_ids
  item_from_envelope state envelope change = elim (thread_turn_item_ids envelope) [
    | none ↦ state
    | some (thread_id, turn_id, item_id) ↦ thread_mut state thread_id envelope.seq λ thread.
        turn_mut thread turn_id envelope.seq λ turn. item_mut turn item_id envelope.seq change
  ]

  unfoldable pub start_item : Envelope Value → ItemState Value → ItemState Value
  start_item envelope item = record item {
    started = get "params" envelope.json;
    item_type = unwrap_or (param_str envelope "itemType") "unknown";
  }

  unfoldable pub append_message :
      StateProjectionLimits → Envelope Value → ItemState Value → ItemState Value
  append_message limits envelope item =
      let delta = utf8 (unwrap_or (param_str envelope "delta") "") in
      let (text, truncated) =
        append_capped item.text_accum delta limits.max_text_bytes_per_item item.text_truncated in
      record item { text_accum = text; text_truncated = truncated }

  unfoldable pub append_output :
      StateProjectionLimits → Envelope Value → ItemState Value → ItemState Value
  append_output limits envelope item =
      let stdout = utf8 (unwrap_or (param_str envelope "stdout") "") in
      let stderr = utf8 (unwrap_or (param_str envelope "stderr") "") in
      let (out, out_truncated) =
        append_capped item.stdout_accum stdout limits.max_stdout_bytes_per_item
          item.stdout_truncated in
      let (err, err_truncated) =
        append_capped item.stderr_accum stderr limits.max_stderr_bytes_per_item
          item.stderr_truncated in
      record item {
        stdout_accum = out;
        stdout_truncated = out_truncated;
        stderr_accum = err;
        stderr_truncated = err_truncated;
      }

  unfoldable pub handle_item_started : RuntimeState Value → Envelope Value → RuntimeState Value
  unfolding item_from_envelope start_item
  handle_item_started state envelope = item_from_envelope state envelope (start_item envelope)

  unfoldable pub handle_item_agent_message_delta :
      RuntimeState Value → Envelope Value → StateProjectionLimits → RuntimeState Value
  unfolding item_from_envelope append_message
  handle_item_agent_message_delta state envelope limits =
      item_from_envelope state envelope (append_message limits envelope)

  unfoldable pub handle_item_command_output_delta :
      RuntimeState Value → Envelope Value → StateProjectionLimits → RuntimeState Value
  unfolding item_from_envelope append_output
  handle_item_command_output_delta state envelope limits =
      item_from_envelope state envelope (append_output limits envelope)

  unfoldable pub handle_item_completed : RuntimeState Value → Envelope Value → RuntimeState Value
  unfolding item_from_envelope
  handle_item_completed state envelope =
      item_from_envelope state envelope
        (λ item. record item { completed = get "params" envelope.json })

  -- The `match` of the reducer, by arms.
  unfoldable pub handle_event :
      Event → RuntimeState Value → Envelope Value → StateProjectionLimits → RuntimeState Value
  handle_event thread_starts state envelope limits = handle_thread_started state envelope
  handle_event turn_starts state envelope limits = handle_turn_started state envelope
  handle_event (turn_ends status with_error) state envelope limits =
      handle_turn_terminal state envelope status with_error
  handle_event diff_updates state envelope limits = handle_turn_diff_updated state envelope
  handle_event plan_updates state envelope limits = handle_turn_plan_updated state envelope
  handle_event item_starts state envelope limits = handle_item_started state envelope
  handle_event message_delta state envelope limits =
      handle_item_agent_message_delta state envelope limits
  handle_event output_delta state envelope limits =
      handle_item_command_output_delta state envelope limits
  handle_event item_completes state envelope limits = handle_item_completed state envelope
  handle_event other state envelope limits = state

  module _ (select : SelectNth) where
    unfoldable pub reduce_in_place_with_limits :
        RuntimeState Value → Envelope Value → StateProjectionLimits → RuntimeState Value
    unfolding is_stale_thread_event
    reduce_in_place_with_limits state envelope limits = elim envelope.method [
      | none ↦ state
      | some method ↦
          if is_stale_thread_event state envelope.thread_id envelope.seq
          then state
          else prune_state select (handle_event (event_of_method method) state envelope limits)
              limits envelope.thread_id
    ]

    -- `reduce` and `reduce_in_place`, with the default limits.
    unfoldable pub reduce : RuntimeState Value → Envelope Value → RuntimeState Value
    reduce state envelope = reduce_in_place_with_limits state envelope default_limits
