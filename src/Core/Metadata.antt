-- ===== src/Core/Metadata.antt =====
-- What the dispatcher reads from a message: crates/codex-runtime/src/runtime/rpc.rs.
use coclai.Prelude.{
  ℕ, ℤ, pos, negsuc, eqb, String, Bool, false, not, ◌&&◌, ◌||◌, Option, none, some, List, [], ◌∷◌,
  ◌>>=◌, if◌then◌else◌, is_some, unwrap_or, or_else, parse_u64, codes,
}
use coclai.Json.{Json}
use coclai.Id.{extract_thread_id, extract_turn_id, extract_item_id}
use coclai.Events.{
  MsgKind, response, server_request, notification, unknown, JsonRpcId, number, text,
}
use coclai.Core.{RpcError, overloaded, invalid_request, method_not_found, server_error}

pub record MsgMetadata : Type 0 where
  pub kind : MsgKind
  pub response_id : Option ℕ
  pub rpc_id : Option JsonRpcId
  pub method : Option String
  pub thread_id : Option String
  pub turn_id : Option String
  pub item_id : Option String

unfoldable pub classify_jsonrpc_shape : (has_id has_method has_result has_error : Bool) → MsgKind
classify_jsonrpc_shape has_id has_method has_result has_error =
    if has_id && not has_method && (has_result || has_error)
    then response
    else if has_id && has_method && not has_result && not has_error
    then server_request
    else if has_method && not has_id
    then notification
    else unknown

module _ (json : Json) where
  open json use {Value, get, as_str, as_u64, as_i64}

  unfoldable pub classify_message : Value → MsgKind
  unfolding classify_jsonrpc_shape
  classify_message message =
      classify_jsonrpc_shape (is_some (get "id" message)) (is_some (get "method" message))
        (is_some (get "result" message)) (is_some (get "error" message))

  unfoldable pub parse_response_rpc_id_value : Option Value → Option ℕ
  parse_response_rpc_id_value none = none
  parse_response_rpc_id_value (some v) = or_else (as_u64 v) (as_str v >>= λ s. parse_u64 (codes s))

  unfoldable pub parse_jsonrpc_id_value : Option Value → Option JsonRpcId
  parse_jsonrpc_id_value none = none
  parse_jsonrpc_id_value (some v) =
      or_else (as_u64 v >>= λ n. some (number n)) (as_str v >>= λ s. some (text s))

  -- The roots that are there: `roots.into_iter().flatten()`.
  abbrev pub flatten : List (Option Value) → List Value
  flatten [] = []
  flatten (none ∷ vs) = flatten vs
  flatten (some v ∷ vs) = v ∷ flatten vs

  -- The first root from which `extract` reads something; to stop early once all three ids are
  -- known changes none of them.
  unfoldable pub first_id : (Value → Option String) → List Value → Option String
  first_id extract [] = none
  first_id extract (root ∷ roots) = or_else (extract root) (first_id extract roots)

  unfoldable pub extract_message_metadata : Value → MsgMetadata
  unfolding classify_message parse_response_rpc_id_value parse_jsonrpc_id_value first_id
  extract_message_metadata message =
      let id_value = get "id" message in
      let roots = flatten (
        get "params" message
        ∷ get "result" message
        ∷ (get "error" message >>= λ e. get "data" e)
        ∷ some message
        ∷ []) in
      record {
        kind = classify_message message;
        response_id = parse_response_rpc_id_value id_value;
        rpc_id = parse_jsonrpc_id_value id_value;
        method = get "method" message >>= as_str;
        thread_id = first_id (extract_thread_id json) roots;
        turn_id = first_id (extract_turn_id json) roots;
        item_id = first_id (extract_item_id json) roots;
      }

  -- The number after a minus sign, as `ℤ` has it.
  abbrev is_code : ℤ → ℕ → Bool
  is_code (pos n) m = false
  is_code (negsuc n) m = eqb n m

  unfoldable pub map_rpc_error : Value → RpcError Value
  map_rpc_error json_error =
      let message = unwrap_or (get "message" json_error >>= as_str) "unknown rpc error" in
      elim (get "code" json_error >>= as_i64) [
        | none ↦ invalid_request "invalid rpc error payload"
        | some code ↦
            if is_code code 32000
            then overloaded
            else if is_code code 32599
            then invalid_request message
            else if is_code code 32600
            then method_not_found message
            else server_error code message (get "data" json_error)
      ]
