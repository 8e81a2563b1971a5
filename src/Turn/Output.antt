-- ===== src/Turn/Output.antt =====
-- The text of one turn and its end: crates/codex-runtime/src/runtime/turn_output.rs. A set of item
-- ids is a list without order, and the text that is collected is the list of its characters.
pub mod Merge
pub mod Collected
use coclai.Prelude.{
  ℕ, ◌+◌, min, u64_max, String, Bool, true, false, not, ◌&&◌, ◌||◌, Option, none, some, List, [],
  ◌∷◌, ◌++◌, ◌==◌, ◌===◌, ◌>>=◌, if◌then◌else◌, is_empty, unwrap_or, contains, starts_with,
  ends_with, codes,
}
use coclai.Json.{Json}
use coclai.Events.{Envelope}
use coclai.Events.Extract.{has_method, extract_text_from_params}
use coclai.RpcContract.{
  item_started, item_agent_message_delta, item_completed, turn_completed, turn_failed,
  turn_interrupted, turn_cancelled,
}

pub record AssistantTextCollector : Type 0 where
  pub assistant_item_ids : List String
  pub assistant_items_with_delta : List String
  pub text : List ℕ

pub data TurnTerminalEvent : Type 0 where
  completed failed interrupted cancelled : TurnTerminalEvent

pub record TurnStreamCollector : Type 0 where
  pub thread_id : String
  pub turn_id : String
  pub matching_turn_events : ℕ
  pub assistant : AssistantTextCollector

-- `AssistantTextCollector::new`.
abbrev pub new_text : AssistantTextCollector
new_text = record { assistant_item_ids = []; assistant_items_with_delta = []; text = [] }

-- `TurnStreamCollector::new`.
abbrev pub new_stream : String → String → TurnStreamCollector
new_stream thread_id turn_id = record {
  thread_id = thread_id;
  turn_id = turn_id;
  matching_turn_events = 0;
  assistant = new_text;
}

-- `HashSet::insert`.
abbrev pub insert_id : List String → Option String → List String
insert_id ids none = ids
insert_id ids (some id) = if contains ids id then ids else id ∷ ids

-- `.map(|id| ids.contains(id)).unwrap_or(false)`.
abbrev pub has_id : List String → Option String → Bool
has_id ids none = false
has_id ids (some id) = contains ids id

-- One of the two spellings of the type of an assistant's message.
abbrev is_agent_message : Option String → Bool
is_agent_message none = false
is_agent_message (some t) = t == "agentMessage" || t == "agent_message"

unfoldable pub merge_turn_completed_text : List ℕ → List ℕ → List ℕ
merge_turn_completed_text out text =
    if is_empty text
    then out
    else if is_empty out
    then text
    else if out === text
    then out
    else if starts_with text out
    then text
    else if ends_with out text
    then out
    else out ++ (10 ∷ text)

-- A text after the text before, on a line of its own: the end of the arm of `item/completed`.
unfoldable pub append_line : List ℕ → List ℕ → List ℕ
append_line out text =
    if is_empty text then out else if is_empty out then text else out ++ (10 ∷ text)

-- `envelope.thread_id.as_deref() == Some(..) && envelope.turn_id.as_deref() == Some(..)`.
abbrev same_id : Option String → String → Bool
same_id none id = false
same_id (some other) id = other == id

unfoldable pub is_target_envelope : {Value : Type 0} → TurnStreamCollector → Envelope Value → Bool
is_target_envelope stream envelope =
    same_id envelope.thread_id stream.thread_id && same_id envelope.turn_id stream.turn_id

-- The `match` on the method at the end of `TurnStreamCollector::push_envelope`.
unfoldable pub terminal_event : {Value : Type 0} → Envelope Value → Option TurnTerminalEvent
terminal_event envelope =
    if has_method envelope turn_completed
    then some completed
    else if has_method envelope turn_failed
    then some failed
    else if has_method envelope turn_interrupted
    then some interrupted
    else if has_method envelope turn_cancelled
    then some cancelled
    else none

module _ (json : Json) where
  open json use {Value, get, as_str}

  unfoldable pub track_assistant_item : List String → Envelope Value → List String
  track_assistant_item assistant_item_ids envelope =
      if not (has_method envelope item_started)
      then assistant_item_ids
      else if not
          (is_agent_message (get "params" envelope.json >>= λ p. get "itemType" p >>= as_str))
      then assistant_item_ids
      else insert_id assistant_item_ids envelope.item_id

  -- The arm of `item/agentMessage/delta`.
  unfoldable pub append_delta : AssistantTextCollector → Envelope Value → AssistantTextCollector
  append_delta c envelope = elim (get "params" envelope.json >>= λ p. get "delta" p >>= as_str) [
    | none ↦ c
    | some delta ↦ record c {
      assistant_items_with_delta = insert_id c.assistant_items_with_delta envelope.item_id;
      text = c.text ++ codes delta;
    }
  ]

  abbrev pub is_assistant_item : AssistantTextCollector → Envelope Value → Bool
  is_assistant_item c envelope =
      has_id c.assistant_item_ids envelope.item_id
      || is_agent_message
          (get "params" envelope.json >>= λ p. get "item" p >>= λ v. get "type" v >>= as_str)

  -- The arm of `item/completed`.
  unfoldable pub append_completed_item :
      AssistantTextCollector → Envelope Value → AssistantTextCollector
  unfolding extract_text_from_params append_line
  append_completed_item c envelope =
      if not (is_assistant_item c envelope)
      then c
      else if has_id c.assistant_items_with_delta envelope.item_id
      then c
      else elim (get "params" envelope.json >>= extract_text_from_params json) [
        | none ↦ c
        | some text ↦ record c { text = append_line c.text text }
      ]

  -- The arm of `turn/completed`.
  unfoldable pub append_completed_turn :
      AssistantTextCollector → Envelope Value → AssistantTextCollector
  unfolding extract_text_from_params merge_turn_completed_text
  append_completed_turn c envelope =
      elim (get "params" envelope.json >>= extract_text_from_params json) [
        | none ↦ c
        | some text ↦ record c { text = merge_turn_completed_text c.text text }
      ]

  unfoldable pub append_text_from_envelope :
      AssistantTextCollector → Envelope Value → AssistantTextCollector
  unfolding append_delta append_completed_item append_completed_turn
  append_text_from_envelope c envelope =
      if has_method envelope item_agent_message_delta
      then append_delta c envelope
      else if has_method envelope item_completed
      then append_completed_item c envelope
      else if has_method envelope turn_completed
      then append_completed_turn c envelope
      else c

  -- `AssistantTextCollector::push_envelope`.
  unfoldable pub push_text : AssistantTextCollector → Envelope Value → AssistantTextCollector
  unfolding track_assistant_item append_text_from_envelope
  push_text c envelope =
      append_text_from_envelope
        (record c { assistant_item_ids = track_assistant_item c.assistant_item_ids envelope })
        envelope

  -- `TurnStreamCollector::push_envelope`.
  unfoldable pub push_envelope :
      TurnStreamCollector → Envelope Value → TurnStreamCollector × Option TurnTerminalEvent
  unfolding is_target_envelope push_text terminal_event
  push_envelope stream envelope =
      if not (is_target_envelope stream envelope) then (stream, none) else (
        record stream {
          matching_turn_events = min (stream.matching_turn_events + 1) u64_max;
          assistant = push_text stream.assistant envelope;
        },
        terminal_event envelope,
      )
