-- ===== src/Tests/StateRuns.antt =====
-- The projected state at work: crates/codex-runtime/src/runtime/state.rs.
use coclai.Prelude.{
  ◌+◌, true, ◌++◌, take, ◌||◌, ltb, ℕ, ◌≤◌, ◌≡◌, refl, String, false, none, some, List, [], ◌∷◌,
  Map, lookup, arith,
}
use coclai.Events.{Envelope, inbound, notification}
use coclai.State.{
  StateProjectionLimits, ItemState, TurnState, ThreadState, RuntimeState, completed, default_state,
}
use coclai.State.Append.{is_char_boundary, append_capped, append_capped-longest}
use coclai.State.Prune.{prune_turns}
use coclai.State.Prune.Sizes.{prune_turns-active}
use coclai.State.Within.{StateWithin}
use coclai.State.Within.Reduced.{reduce_all, reduce_all-StateWithin}
use coclai.Tests.Values.{Value, empty, text, field, small_json}
use coclai.Tests.Sorting.{sorting}

abbrev tight : StateProjectionLimits
tight = record {
  max_threads = 1;
  max_turns_per_thread = 1;
  max_items_per_turn = 1;
  max_text_bytes_per_item = 4;
  max_stdout_bytes_per_item = 4;
  max_stderr_bytes_per_item = 4;
}

abbrev event : ℕ → String → String → String → String → Value → Envelope Value
event seq method thread_id turn_id item_id params = record {
  seq = seq;
  ts_millis = 0;
  direction = inbound;
  kind = notification;
  rpc_id = none;
  method = some method;
  thread_id = some thread_id;
  turn_id = some turn_id;
  item_id = some item_id;
  json = field "params" params empty;
}

abbrev events : List (Envelope Value)
events =
    event 1 "thread/started" "a" "t" "i" empty
    ∷ event 2 "turn/started" "a" "t" "i" empty
    ∷ event 3 "item/started" "a" "t" "i" (field "itemType" (text "message") empty)
    ∷ event 4 "item/agentMessage/delta" "a" "t" "i" (field "delta" (text "hello") empty)
    ∷ event 5 "thread/started" "b" "t" "i" empty
    ∷ []

abbrev start : RuntimeState Value
start = default_state Value

reduce_all-StateWithin_example :
    StateWithin tight (reduce_all small_json sorting tight start events)
reduce_all-StateWithin_example = reduce_all-StateWithin small_json sorting tight events

abbrev thread_at : String → ℕ → ThreadState Value
thread_at id seq = record {
  id = id;
  active_turn = none;
  turns = [];
  last_diff = none;
  plan = none;
  last_seq = seq;
}

abbrev turn_at : String → ℕ → TurnState Value
turn_at id seq = record { id = id; status = completed; items = []; error = none; last_seq = seq }

abbrev item_at : String → ℕ → ItemState Value
item_at id seq = record {
  id = id;
  item_type = "message";
  started = none;
  completed = none;
  text_accum = [];
  stdout_accum = [];
  stderr_accum = [];
  text_truncated = false;
  stdout_truncated = false;
  stderr_truncated = false;
  last_seq = seq;
}

abbrev threads : Map (ThreadState Value)
threads = ("a", thread_at "a" 5) ∷ ("b", thread_at "b" 2) ∷ ("c", thread_at "c" 9) ∷ []

abbrev items : Map (ItemState Value)
items = ("a", item_at "a" 5) ∷ ("b", item_at "b" 2) ∷ ("c", item_at "c" 9) ∷ []

abbrev busy : ThreadState Value
busy = record (thread_at "a" 9) {
  active_turn = some "y";
  turns = ("x", turn_at "x" 5) ∷ ("y", turn_at "y" 2) ∷ ("z", turn_at "z" 9) ∷ [];
}

prune_turns-active_example : lookup "y" (prune_turns sorting 1 busy).turns ≡ lookup "y" busy.turns
prune_turns-active_example =
    prune_turns-active sorting 1 busy "y" ((refl, (refl, tt)), ((refl, tt), (tt, tt))) refl

append_capped-longest_example :
    (n : ℕ) × (append_capped (65 ∷ 66 ∷ []) (0xc3 ∷ 0xa9 ∷ 0xc3 ∷ 0xa9 ∷ []) 5 false
      ≡ ((65 ∷ 66 ∷ []) ++ take n (0xc3 ∷ 0xa9 ∷ 0xc3 ∷ 0xa9 ∷ []), false || ltb n 4))
    × (2 + n ≤ 5)
    × (n ≤ 4)
    × (is_char_boundary (0xc3 ∷ 0xa9 ∷ 0xc3 ∷ 0xa9 ∷ []) n ≡ true)
    × (2 ≤ n)
append_capped-longest_example =
    append_capped-longest (65 ∷ 66 ∷ []) (0xc3 ∷ 0xa9 ∷ 0xc3 ∷ 0xa9 ∷ []) 5 2 false (omega arith)
      (omega arith) (omega arith) refl
