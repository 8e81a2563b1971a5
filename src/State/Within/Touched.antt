-- ===== src/State/Within/Touched.antt =====
-- What a handler leaves: every thread but the touched one is within the limits.
use coclai.Prelude.{
  ℕ, ◌≡◌, String, Bool, true, false, Option, none, some, ◌==◌, Entries-upsert, upsert-UniqueKeys,
  ◌>>=◌, arith, eq_iff, Entries-imp, Option-cases, Bool-cases, inl, inr,
}
use coclai.Json.{Json}
use coclai.Events.{Envelope}
use coclai.State.{
  in_progress, StateProjectionLimits, ItemState, TurnState, ThreadState, RuntimeState, TurnStatus,
}
use coclai.State.Append.{append_capped-le}
use coclai.State.Reduce.{
  new_thread, new_turn, new_item, thread_mut, turn_mut, item_mut, clear_active_turn_if_matching,
  handle_event, Event, thread_starts, turn_starts, diff_updates, plan_updates, item_starts,
  message_delta, output_delta, item_completes, other, turn_ends, handle_thread_started,
  handle_turn_started, handle_turn_terminal, handle_turn_diff_updated, handle_turn_plan_updated,
  handle_item_started, handle_item_agent_message_delta, handle_item_command_output_delta,
  handle_item_completed, item_from_envelope, thread_turn_item_ids, thread_and_turn_ids, param,
  param_str, end_turn, start_item, append_message, append_output,
}
use coclai.State.Within.{
  ItemFits, TurnFits, ThreadFits, ThreadWithin, StateWithin, ThreadTouched, StateTouched,
}

abbrev turn_ids : Option String → Option String → Option (String × String)
turn_ids thread turn = thread >>= λ k. turn >>= λ turn_id. some (k, turn_id)

abbrev item_ids : Option String → Option String → Option String → Option (String × String × String)
item_ids thread turn item =
    turn_ids thread turn >>= λ ids. item >>= λ item_id. some (ids.0, ids.1, item_id)

module _ {Value : Type 0} (limits : StateProjectionLimits) where
  -- Entries that are within the limits fit the caps.
  ThreadWithin-ThreadFits :
      (k : String) (thread : ThreadState Value)
      → ThreadWithin limits k thread
      → ThreadFits limits k thread
  ThreadWithin-ThreadFits k thread (u, n, h) = (u, Entries-imp (λ _ turn w. w.0) thread.turns h)

  item_mut-TurnFits :
      (turn : TurnState Value) (k item_id : String) (seq : ℕ)
      (change : ItemState Value → ItemState Value)
      → ((item : ItemState Value)
          → ItemFits limits item_id item
          → ItemFits limits item_id (change item))
      → TurnFits limits k turn
      → TurnFits limits k (item_mut turn item_id seq change)
  unfolding item_mut
  item_mut-TurnFits turn k item_id seq change keep (u, h) = (
    upsert-UniqueKeys item_id _ _ turn.items u,
    Entries-upsert (ItemFits limits) (ItemFits limits) item_id
        (λ item. change (record item { last_seq = seq })) (λ item fits. keep _ fits)
        (λ _ _ _ fits. fits) (new_item item_id seq) turn.items
        (keep _ (omega arith, omega arith, omega arith)) u h,
  )

  turn_mut-ThreadFits :
      (thread : ThreadState Value) (k turn_id : String) (seq : ℕ)
      (change : TurnState Value → TurnState Value)
      → ((turn : TurnState Value)
          → TurnFits limits turn_id turn
          → TurnFits limits turn_id (change turn))
      → ThreadFits limits k thread
      → ThreadFits limits k (turn_mut thread turn_id seq change)
  unfolding turn_mut
  turn_mut-ThreadFits thread k turn_id seq change keep (u, h) = (
    upsert-UniqueKeys turn_id _ _ thread.turns u,
    Entries-upsert (TurnFits limits) (TurnFits limits) turn_id
        (λ turn. change (record turn { last_seq = seq })) (λ turn fits. keep _ fits)
        (λ _ _ _ fits. fits) (new_turn turn_id seq) thread.turns (keep _ (tt, tt)) u h,
  )

  thread_mut-StateTouched :
      (state : RuntimeState Value) (thread_id : String) (seq : ℕ)
      (change : ThreadState Value → ThreadState Value)
      → ((thread : ThreadState Value)
          → ThreadFits limits thread_id thread
          → ThreadFits limits thread_id (change thread))
      → StateWithin limits state
      → StateTouched limits (some thread_id) (thread_mut state thread_id seq change)
  unfolding thread_mut
  thread_mut-StateTouched state thread_id seq change keep (u, n, h) = (
    upsert-UniqueKeys thread_id _ _ state.threads u,
    Entries-upsert (ThreadWithin limits) (ThreadTouched limits thread_id) thread_id
        (λ thread. change (record thread { last_seq = seq }))
        (λ thread within. (
          keep _ (ThreadWithin-ThreadFits thread_id thread within),
          λ away. absurd (same_key away),
        ))
        (λ k thread away within. (ThreadWithin-ThreadFits k thread within, λ _. within))
        (new_thread thread_id seq) state.threads (keep _ (tt, tt), λ away. absurd (same_key away)) u
        h,
  )
    where
      same_key : (thread_id == thread_id) ≡ false → ⊥
      same_key away = ground (arith, eq_iff thread_id thread_id)

  -- A state within the limits is fit for any thread to be touched.
  StateWithin-StateTouched :
      (touched : Option String) (state : RuntimeState Value)
      → StateWithin limits state
      → StateTouched limits touched state
  StateWithin-StateTouched none state h = h
  StateWithin-StateTouched (some touched) state (u, n, h) = (
    u,
    Entries-imp (λ k thread within. (ThreadWithin-ThreadFits k thread within, λ _. within))
        state.threads h,
  )

  -- The early returns of the handlers, for events that name a thread, a turn, an item.
  touch_thread :
      (state : RuntimeState Value) (thread : Option String) (seq : ℕ)
      (change : ThreadState Value → ThreadState Value)
      → ((k : String) (t : ThreadState Value)
          → ThreadFits limits k t
          → ThreadFits limits k (change t))
      → StateWithin limits state
      → StateTouched limits thread
          (elim thread [ none ↦ state | some k ↦ thread_mut state k seq change ])
  touch_thread state none seq change keep h = h
  touch_thread state (some k) seq change keep h =
      thread_mut-StateTouched state k seq change (keep k) h

  touch_turn :
      (state : RuntimeState Value) (thread turn : Option String) (seq : ℕ)
      (change : String → ThreadState Value → ThreadState Value)
      → ((turn_id k : String) (t : ThreadState Value)
          → ThreadFits limits k t
          → ThreadFits limits k (change turn_id t))
      → StateWithin limits state
      → StateTouched limits thread (elim (turn_ids thread turn) [
        | none ↦ state
        | some (k, turn_id) ↦ thread_mut state k seq (change turn_id)
      ])
  touch_turn state none turn seq change keep h = h
  touch_turn state (some k) none seq change keep h = StateWithin-StateTouched (some k) state h
  touch_turn state (some k) (some turn_id) seq change keep h =
      thread_mut-StateTouched state k seq (change turn_id) (keep turn_id k) h

  touch_item :
      (state : RuntimeState Value) (thread turn item : Option String) (seq : ℕ)
      (change : ItemState Value → ItemState Value)
      → ((k : String) (i : ItemState Value) → ItemFits limits k i → ItemFits limits k (change i))
      → StateWithin limits state
      → StateTouched limits thread (elim (item_ids thread turn item) [
        | none ↦ state
        | some (k, turn_id, item_id) ↦
            thread_mut state k seq
              λ t. turn_mut t turn_id seq λ turn. item_mut turn item_id seq change
      ])
  touch_item state none turn item seq change keep h = h
  touch_item state (some k) none item seq change keep h = StateWithin-StateTouched (some k) state h
  touch_item state (some k) (some turn_id) none seq change keep h =
      StateWithin-StateTouched (some k) state h
  touch_item state (some k) (some turn_id) (some item_id) seq change keep h =
      thread_mut-StateTouched state k seq _
        (λ t fits.
          turn_mut-ThreadFits t k turn_id seq _
            (λ turn fit. item_mut-TurnFits turn turn_id item_id seq change (keep item_id) fit) fits)
        h

  clear_active-ThreadFits :
      (thread : ThreadState Value) (k turn_id : String)
      → ThreadFits limits k thread
      → ThreadFits limits k (clear_active_turn_if_matching thread turn_id)
  unfolding clear_active_turn_if_matching
  clear_active-ThreadFits thread k turn_id h = elim (Option-cases thread.active_turn) [
    | inl e ↦ rw (e, clear_active_turn_if_matching) h
    | inr (a, e) ↦ elim (Bool-cases (a == turn_id)) [
      | inl hit ↦ rw (e, clear_active_turn_if_matching, hit) h
      | inr miss ↦ rw (e, clear_active_turn_if_matching, miss) h
    ]
  ]

module _ (json : Json) (limits : StateProjectionLimits) where
  append_message-ItemFits :
      (envelope : Envelope json.Value) (k : String) (item : ItemState json.Value)
      → ItemFits limits k item
      → ItemFits limits k (append_message json limits envelope item)
  unfolding append_message
  append_message-ItemFits envelope k item (t, o, e) = (
    append_capped-le item.text_accum _ limits.max_text_bytes_per_item item.text_truncated t,
    o,
    e,
  )

  append_output-ItemFits :
      (envelope : Envelope json.Value) (k : String) (item : ItemState json.Value)
      → ItemFits limits k item
      → ItemFits limits k (append_output json limits envelope item)
  unfolding append_output
  append_output-ItemFits envelope k item (t, o, e) = (
    t,
    append_capped-le item.stdout_accum _ limits.max_stdout_bytes_per_item item.stdout_truncated o,
    append_capped-le item.stderr_accum _ limits.max_stderr_bytes_per_item item.stderr_truncated e,
  )

  start_item-ItemFits :
      (envelope : Envelope json.Value) (k : String) (item : ItemState json.Value)
      → ItemFits limits k item
      → ItemFits limits k (start_item json envelope item)
  unfolding start_item
  start_item-ItemFits envelope k item h = h

  end_turn-TurnFits :
      (envelope : Envelope json.Value) (status : TurnStatus) (with_error : Bool) (k : String)
      (turn : TurnState json.Value)
      → TurnFits limits k turn
      → TurnFits limits k (end_turn json envelope status with_error turn)
  unfolding end_turn
  end_turn-TurnFits envelope status true k turn h = h
  end_turn-TurnFits envelope status false k turn h = h

  -- Every arm of the reducer leaves the other threads within the limits, and the touched one fit.
  pub handle_event-StateTouched :
      (event : Event) (state : RuntimeState json.Value) (envelope : Envelope json.Value)
      → StateWithin limits state
      → StateTouched limits envelope.thread_id (handle_event json event state envelope limits)
  unfolding handle_event handle_thread_started handle_turn_started handle_turn_terminal
      handle_turn_diff_updated handle_turn_plan_updated handle_item_started
      handle_item_agent_message_delta handle_item_command_output_delta handle_item_completed
      item_from_envelope thread_turn_item_ids thread_and_turn_ids
  handle_event-StateTouched thread_starts state envelope h =
      touch_thread limits state envelope.thread_id envelope.seq (λ t. t) (λ k t fits. fits) h
  handle_event-StateTouched turn_starts state envelope h =
      touch_turn limits state envelope.thread_id envelope.turn_id envelope.seq
        (λ turn_id t.
          turn_mut (record t { active_turn = some turn_id }) turn_id envelope.seq
            (λ turn. record turn { status = in_progress }))
        (λ turn_id k t fits.
          turn_mut-ThreadFits limits (record t { active_turn = some turn_id }) k turn_id
            envelope.seq (λ turn. record turn { status = in_progress }) (λ turn fit. fit) fits)
        h
  handle_event-StateTouched (turn_ends status with_error) state envelope h =
      touch_turn limits state envelope.thread_id envelope.turn_id envelope.seq
        (λ turn_id t.
          turn_mut (clear_active_turn_if_matching t turn_id) turn_id envelope.seq
            (end_turn json envelope status with_error))
        (λ turn_id k t fits.
          turn_mut-ThreadFits limits (clear_active_turn_if_matching t turn_id) k turn_id
            envelope.seq (end_turn json envelope status with_error)
            (λ turn fit. end_turn-TurnFits envelope status with_error turn_id turn fit)
            (clear_active-ThreadFits limits t k turn_id fits))
        h
  handle_event-StateTouched diff_updates state envelope h =
      touch_thread limits state envelope.thread_id envelope.seq
        (λ t. record t { last_diff = param_str json envelope "diff" }) (λ k t fits. fits) h
  handle_event-StateTouched plan_updates state envelope h =
      touch_thread limits state envelope.thread_id envelope.seq
        (λ t. record t { plan = param json envelope "plan" }) (λ k t fits. fits) h
  handle_event-StateTouched item_starts state envelope h =
      touch_item limits state envelope.thread_id envelope.turn_id envelope.item_id envelope.seq
        (start_item json envelope) (λ k i fits. start_item-ItemFits envelope k i fits) h
  handle_event-StateTouched message_delta state envelope h =
      touch_item limits state envelope.thread_id envelope.turn_id envelope.item_id envelope.seq
        (append_message json limits envelope)
        (λ k i fits. append_message-ItemFits envelope k i fits) h
  handle_event-StateTouched output_delta state envelope h =
      touch_item limits state envelope.thread_id envelope.turn_id envelope.item_id envelope.seq
        (append_output json limits envelope) (λ k i fits. append_output-ItemFits envelope k i fits)
        h
  handle_event-StateTouched item_completes state envelope h =
      touch_item limits state envelope.thread_id envelope.turn_id envelope.item_id envelope.seq
        (λ i. record i { completed = json.get "params" envelope.json }) (λ k i fits. fits) h
  handle_event-StateTouched other state envelope h =
      StateWithin-StateTouched limits envelope.thread_id state h
