-- ===== src/Id.antt =====
-- Identifiers in payloads: crates/codex-runtime/src/runtime/id.rs.
use coclai.Prelude.{
  String, Bool, not, ◌||◌, Option, none, some, ◌==◌, if◌then◌else◌, ◌>>=◌, or_else, is_trimmed,
}
use coclai.Json.{Json}

module _ (json : Json) where
  open json use {Value, get, as_str}

  -- `raw.is_empty() || raw != raw.trim()`, negated.
  abbrev pub is_canonical : String → Bool
  is_canonical raw = not (raw == "" || not (is_trimmed raw))

  unfoldable pub parse_canonical_id : Value → Option String
  parse_canonical_id value = as_str value >>= λ raw. if is_canonical raw then some raw else none

  -- `value.pointer("/nested/id")`, or else the field `camel_id_field`.
  unfoldable pub parse_result_id : Value → String → String → Option String
  unfolding parse_canonical_id
  parse_result_id value nested camel_id_field =
      or_else ((get nested value >>= λ v. get "id" v) >>= parse_canonical_id)
        (get camel_id_field value >>= parse_canonical_id)

  unfoldable pub extract_id_field : Value → String → String → Option String
  unfolding parse_canonical_id
  extract_id_field root camel_id_field nested_object_field =
      or_else (get camel_id_field root >>= parse_canonical_id) (
        or_else ((get nested_object_field root >>= λ v. get "id" v) >>= parse_canonical_id) (
          or_else ((get "params" root >>= λ v. get camel_id_field v) >>= parse_canonical_id) (
            (get "params" root >>= λ v. get nested_object_field v >>= λ w. get "id" w)
            >>= parse_canonical_id)))

  unfoldable pub parse_result_thread_id : Value → Option String
  unfolding parse_result_id
  parse_result_thread_id value = parse_result_id value "thread" "threadId"

  unfoldable pub parse_result_turn_id : Value → Option String
  unfolding parse_result_id
  parse_result_turn_id value = parse_result_id value "turn" "turnId"

  unfoldable pub extract_thread_id : Value → Option String
  unfolding extract_id_field
  extract_thread_id root = extract_id_field root "threadId" "thread"

  unfoldable pub extract_turn_id : Value → Option String
  unfolding extract_id_field
  extract_turn_id root = extract_id_field root "turnId" "turn"

  unfoldable pub extract_item_id : Value → Option String
  unfolding extract_id_field
  extract_item_id root = extract_id_field root "itemId" "item"
