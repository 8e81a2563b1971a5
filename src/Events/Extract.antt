-- ===== src/Events/Extract.antt =====
-- What is read from the envelope of a notification: crates/codex-runtime/src/runtime/events.rs. A
-- text that is built is the list of its characters.
use coclai.Prelude.{
  ℕ, ℤ, String, Bool, true, false, ◌&&◌, Option, none, some, List, [], ◌∷◌, ◌++◌, ◌==◌, ◌>>=◌,
  if◌then◌else◌, is_empty, or_else, codes,
}
use coclai.Json.{Json}
use coclai.Events.{Envelope, MsgKind, response, server_request, notification, unknown}
use coclai.RpcContract.{
  item_agent_message_delta, turn_completed, turn_failed, turn_interrupted, turn_cancelled,
  skills_changed,
}

pub record AgentMessageDeltaNotification : Type 0 where
  pub thread_id : String
  pub turn_id : String
  pub item_id : Option String
  pub delta : String

pub record TurnCompletedNotification : Type 0 where
  pub thread_id : String
  pub turn_id : String
  pub text : Option (List ℕ)

pub record TurnFailedNotification : Type 0 where
  pub thread_id : String
  pub turn_id : String
  pub code : Option ℤ
  pub message : Option String

-- `TurnInterruptedNotification` and `TurnCancelledNotification`.
pub record TurnEndedNotification : Type 0 where
  pub thread_id : String
  pub turn_id : String

-- `envelope.kind == MsgKind::Notification`.
abbrev is_notification_kind : MsgKind → Bool
is_notification_kind response = false
is_notification_kind server_request = false
is_notification_kind notification = true
is_notification_kind unknown = false

-- `envelope.method.as_deref() == Some(method)`.
abbrev pub has_method : {Value : Type 0} → Envelope Value → String → Bool
has_method envelope method = elim envelope.method [ none ↦ false | some m ↦ m == method ]

unfoldable pub is_notification : {Value : Type 0} → Envelope Value → String → Bool
is_notification envelope method = is_notification_kind envelope.kind && has_method envelope method

-- `if !is_notification(envelope, method) { return None; }`.
abbrev pub when : {A : Type 0} → Bool → Option A → Option A
when true o = o
when false o = none

unfoldable pub thread_turn_ids : {Value : Type 0} → Envelope Value → Option (String × String)
thread_turn_ids envelope =
    envelope.thread_id >>= λ thread_id. envelope.turn_id >>= λ turn_id. some (thread_id, turn_id)

unfoldable pub extract_skills_changed_notification :
    {Value : Type 0} → Envelope Value → Option (Unit {0})
unfolding is_notification
extract_skills_changed_notification envelope =
    when (is_notification envelope skills_changed) (some tt)

unfoldable pub extract_turn_interrupted :
    {Value : Type 0} → Envelope Value → Option TurnEndedNotification
unfolding is_notification thread_turn_ids
extract_turn_interrupted envelope = when (is_notification envelope turn_interrupted) do
  (thread_id, turn_id) ← thread_turn_ids envelope
  some (record { thread_id = thread_id; turn_id = turn_id })

unfoldable pub extract_turn_cancelled :
    {Value : Type 0} → Envelope Value → Option TurnEndedNotification
unfolding is_notification thread_turn_ids
extract_turn_cancelled envelope = when (is_notification envelope turn_cancelled) do
  (thread_id, turn_id) ← thread_turn_ids envelope
  some (record { thread_id = thread_id; turn_id = turn_id })

module _ (json : Json) where
  open json use {Value, get, as_str, as_array, as_i64}

  -- `root.get(a).and_then(|value| value.get(b))`.
  abbrev get_in : String → String → Value → Option Value
  get_in a b root = get a root >>= λ v. get b v

  -- The texts of the parts, joined.
  unfoldable pub joined_texts : List Value → List ℕ
  joined_texts [] = []
  joined_texts (part ∷ parts) =
      let rest = joined_texts parts in
      elim (get "text" part >>= as_str) [ none ↦ rest | some text ↦ codes text ++ rest ]

  -- The first of the four pointers that leads to a text.
  unfoldable pub first_text : Value → Option String
  first_text params = or_else (get_in "item" "text" params >>= as_str) (
      or_else (get "text" params >>= as_str)
        (or_else (get "outputText" params >>= as_str) (get_in "output" "text" params >>= as_str)))

  unfoldable pub extract_text_from_params : Value → Option (List ℕ)
  unfolding first_text joined_texts
  extract_text_from_params params = elim (first_text params) [
    | some text ↦ some (codes text)
    | none ↦ do
      content ← get_in "item" "content" params >>= as_array
      if is_empty (joined_texts content) then none else some (joined_texts content)
  ]

  unfoldable pub extract_error_message : Value → Option ℤ × Option String
  extract_error_message root = (
    or_else (get "code" root >>= as_i64) (get_in "error" "code" root >>= as_i64),
    or_else (get "message" root >>= as_str) (
        or_else (get "detail" root >>= as_str) (
          or_else (get "reason" root >>= as_str)
            (or_else (get "text" root >>= as_str) (get_in "error" "message" root >>= as_str)))),
  )

  unfoldable pub extract_agent_message_delta : Envelope Value → Option AgentMessageDeltaNotification
  unfolding is_notification thread_turn_ids
  extract_agent_message_delta envelope = when (is_notification envelope item_agent_message_delta) do
    (thread_id, turn_id) ← thread_turn_ids envelope
    delta ← get_in "params" "delta" envelope.json >>= as_str
    some (record {
      thread_id = thread_id;
      turn_id = turn_id;
      item_id = envelope.item_id;
      delta = delta;
    })

  unfoldable pub extract_turn_completed : Envelope Value → Option TurnCompletedNotification
  unfolding is_notification thread_turn_ids extract_text_from_params
  extract_turn_completed envelope = when (is_notification envelope turn_completed) do
    (thread_id, turn_id) ← thread_turn_ids envelope
    params ← get "params" envelope.json
    some (record {
      thread_id = thread_id;
      turn_id = turn_id;
      text = extract_text_from_params params;
    })

  unfoldable pub extract_turn_failed : Envelope Value → Option TurnFailedNotification
  unfolding is_notification thread_turn_ids extract_error_message
  extract_turn_failed envelope = when (is_notification envelope turn_failed) do
    (thread_id, turn_id) ← thread_turn_ids envelope
    params ← get "params" envelope.json
    some (record {
      thread_id = thread_id;
      turn_id = turn_id;
      code = (extract_error_message params).0;
      message = (extract_error_message params).1;
    })
