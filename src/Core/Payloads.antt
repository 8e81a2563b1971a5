-- ===== src/Core/Payloads.antt =====
-- The payloads of answers to server requests: crates/codex-runtime/src/runtime/core/dispatch.rs,
-- io_policy.rs, and the routes of approvals.rs.
use coclai.Prelude.{
  String, Bool, true, false, not, ◌&&◌, ◌||◌, Option, none, some, [], ◌==◌, if◌then◌else◌, is_some,
}
use coclai.Json.{Json}
use coclai.Checked.{Checked, ok, ◌>>◌, refuse_if}
use coclai.RpcContract.{
  item_command_execution_request_approval, item_file_change_request_approval,
  item_tool_request_user_input, item_tool_call, account_chatgpt_auth_tokens_refresh,
}
use coclai.Core.{RuntimeError, internal, RuntimeSpec}

pub data ServerRequestRoute : Type 0 where
  to_queue auto_decline : ServerRequestRoute

-- `methods::ITEM_COMMAND_EXECUTION_REQUEST_APPROVAL | methods::ITEM_FILE_CHANGE_REQUEST_APPROVAL`.
abbrev pub is_approval : String → Bool
is_approval method =
    method == item_command_execution_request_approval || method == item_file_change_request_approval

unfoldable pub is_known_server_request_method : String → Bool
is_known_server_request_method method =
    is_approval method
    || method == item_tool_request_user_input
    || method == item_tool_call
    || method == account_chatgpt_auth_tokens_refresh

unfoldable pub route_server_request : String → Bool → ServerRequestRoute
unfolding is_known_server_request_method
route_server_request method auto_decline_unknown =
    if auto_decline_unknown && not (is_known_server_request_method method)
    then auto_decline
    else to_queue

module _ (json : Json) where
  open json use {
    Value, get, as_str, as_array, as_bool, is_object, is_null, has_fields, of_string, of_bool,
    of_array, empty_object, singleton, insert_field,
  }

  unfoldable pub timeout_result_payload : String → Bool → Value
  timeout_result_payload method cancel =
      if method == item_tool_request_user_input
      then singleton "answers" empty_object
      else if method == item_tool_call
      then insert_field "contentItems" (of_array []) (singleton "success" (of_bool false))
      else singleton "decision" (of_string (if cancel then "cancel" else "decline"))

  abbrev Payload : Type 0
  Payload = Checked RuntimeError (Unit {0})

  -- `matches!(obj.get(key), Some(..))`, negated, for a test on the value.
  abbrev lacks : String → (Value → Bool) → Value → Bool
  lacks key test result = elim (get key result) [ none ↦ true | some v ↦ not (test v) ]

  unfoldable pub validate_approval_payload : Value → Payload
  validate_approval_payload result =
      refuse_if (lacks "decision" (λ v. is_some (as_str v) || has_fields v) result) internal

  -- `require_object`.
  abbrev require_object : Value → Payload
  require_object value = refuse_if (not (is_object value)) internal

  unfoldable pub validate_request_user_input_payload : Value → Payload
  validate_request_user_input_payload result = do
    require_object result
    refuse_if (lacks "answers" is_object result) internal

  unfoldable pub validate_dynamic_tool_call_payload : Value → Payload
  validate_dynamic_tool_call_payload result = do
    require_object result
    refuse_if (lacks "success" (λ v. is_some (as_bool v)) result) internal
    refuse_if (lacks "contentItems" (λ v. is_some (as_array v)) result) internal

  unfoldable pub validate_auth_refresh_payload : Value → Payload
  validate_auth_refresh_payload result = do
    require_object result
    refuse_if (lacks "accessToken" (λ v. is_some (as_str v)) result) internal
    refuse_if (lacks "chatgptAccountId" (λ v. is_some (as_str v)) result) internal
    refuse_if
        (is_some (get "chatgptPlanType" result)
          && lacks "chatgptPlanType" (λ v. is_some (as_str v) || is_null v) result)
        internal

  unfoldable pub validate_server_request_result_payload : String → Value → Payload
  unfolding validate_approval_payload validate_request_user_input_payload
      validate_dynamic_tool_call_payload validate_auth_refresh_payload
  validate_server_request_result_payload method result =
      if is_approval method
      then validate_approval_payload result
      else if method == item_tool_request_user_input
      then validate_request_user_input_payload result
      else if method == item_tool_call
      then validate_dynamic_tool_call_payload result
      else if method == account_chatgpt_auth_tokens_refresh
      then validate_auth_refresh_payload result
      else ok tt

  -- `maybe_run_pre_tool_use_hooks`: the answer of the hooks, where they decide.
  unfoldable pub maybe_run_pre_tool_use_hooks : RuntimeSpec Value → String → Value → Option Value
  maybe_run_pre_tool_use_hooks spec method params =
      if not (is_approval method)
      then none
      else if not spec.has_pre_tool_use_hooks
      then none
      else if spec.run_pre_tool_use method params
      then some (singleton "decision" (of_string "accept"))
      else some (singleton "decision" (of_string "decline"))
