-- ===== src/Tests/TurnRuns.antt =====
-- A turn that is collected: crates/codex-runtime/src/runtime/turn_output.rs and turn_lifecycle.rs.
use coclai.Prelude.{
  ◌∷◌, [], ℕ, ◌≤◌, ◌+◌, ◌≡◌, refl, String, true, none, some, not, filter, is_some, codes, arith,
}
use coclai.Checked.{Checked, ok}
use coclai.Events.{Envelope, inbound, notification}
use coclai.Turn.Output.{
  new_text, new_stream, TurnStreamCollector, merge_turn_completed_text, push_text,
}
use coclai.Turn.Output.Merge.{BeginsWith, EndsIn, merge_turn_completed_text-keeps_both}
use coclai.Turn.Output.Collected.{push_all, push_text-BeginsWith, push_text-streamed_item}
use coclai.Turn.Lifecycle.{
  Round, received, Collecting, collect_rounds, collect_turn_terminal_with_limits,
}
use coclai.Turn.Lifecycle.Rounds.{foreign, brings}
use coclai.Turn.Lifecycle.Bounds.{
  collect_rounds-filter, collect_turn_terminal_with_limits-matching_le,
  collect_turn_terminal_with_limits_ends,
}
use coclai.Tests.Values.{Value, empty, text, field, small_json}

merge_turn_completed_text-keeps_both_example :
    BeginsWith (codes "Hel") (merge_turn_completed_text (codes "Hel") (codes "Hello"))
    × EndsIn (codes "Hello") (merge_turn_completed_text (codes "Hel") (codes "Hello"))
merge_turn_completed_text-keeps_both_example =
    merge_turn_completed_text-keeps_both (codes "Hel") (codes "Hello")

abbrev envelope : String → String → Value → Envelope Value
envelope thread_id method json = record {
  seq = 1;
  ts_millis = 0;
  direction = inbound;
  kind = notification;
  rpc_id = none;
  method = some method;
  thread_id = some thread_id;
  turn_id = some "turn";
  item_id = some "item";
  json = json;
}

abbrev delta : Envelope Value
delta =
    envelope "thread" "item/agentMessage/delta"
      (field "params" (field "delta" (text "Hello") empty) empty)

abbrev done : Envelope Value
done = envelope "thread" "item/completed" (field "params" (field "text" (text "Hello") empty) empty)

push_text-BeginsWith_example : BeginsWith [] (push_text small_json new_text delta).text
push_text-BeginsWith_example = push_text-BeginsWith small_json new_text delta

push_text-streamed_item_example :
    (push_text small_json
      (push_all small_json (push_text small_json new_text delta) (delta ∷ []))
      done).text
    ≡ (push_all small_json (push_text small_json new_text delta) (delta ∷ [])).text
push_text-streamed_item_example =
    push_text-streamed_item small_json new_text delta done (delta ∷ []) "item" "Hello" refl refl
      refl refl refl

-- A callback that counts the envelopes that it sees.
abbrev counting : ℕ → Envelope Value → ℕ × Checked ℕ Unit
counting n e = (n + 1, ok tt)

abbrev at : Envelope Value → Round Value ℕ
at e = record { now = 1; event = received e }

abbrev other : Envelope Value
other = envelope "another" "turn/completed" empty

abbrev stream : TurnStreamCollector
stream = new_stream "thread" "turn"

abbrev collecting : Collecting ℕ
collecting = record { hook = 0; stream = stream; turn_event_budget = 2 }

collect_rounds-filter_example :
    collect_rounds small_json counting 9 collecting (at other ∷ at delta ∷ [])
    ≡ collect_rounds small_json counting 9 collecting
        (filter (λ r. not (foreign 9 stream r)) (at other ∷ at delta ∷ []))
collect_rounds-filter_example =
    collect_rounds-filter small_json counting 9 stream collecting (at other ∷ at delta ∷ [])
      (refl, refl)

collect_turn_terminal_with_limits-matching_le_example :
    (collect_turn_terminal_with_limits small_json counting 9 0 stream 1
      (at delta ∷ at delta ∷ [])).0.stream.matching_turn_events
    ≤ 0 + 1
collect_turn_terminal_with_limits-matching_le_example =
    collect_turn_terminal_with_limits-matching_le small_json counting 9 0 stream 1
      (at delta ∷ at delta ∷ [])

collect_turn_terminal_with_limits_ends_example :
    is_some
      (collect_turn_terminal_with_limits small_json counting 9 0 stream 1
        (at delta ∷ at other ∷ at delta ∷ [])).1
    ≡ true
unfolding brings
collect_turn_terminal_with_limits_ends_example =
    collect_turn_terminal_with_limits_ends small_json counting 9 0 stream 1
      (at delta ∷ at other ∷ at delta ∷ []) (omega arith)
