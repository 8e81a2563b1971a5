-- ===== src/RpcContract/Validate.antt =====
-- The validation of requests and responses: crates/codex-runtime/src/runtime/rpc_contract.rs. The
-- message of an error is a value that keeps what is formatted.
use coclai.Prelude.{
  ℕ, String, Bool, false, not, ◌&&◌, ◌||◌, Option, none, some, List, [], ◌∷◌, if◌then◌else◌,
  is_blank, is_some, is_empty, unwrap_or, eqb, ℤ, is_negative, fits_i32, ◌>>=◌ as ◌|>◌,
}
use coclai.Checked.{Checked, ok, err, ◌>>◌, refuse_if}
use coclai.Json.{Json}
use coclai.Id.{parse_result_thread_id, parse_result_turn_id}
use coclai.Policy.{SandboxPolicyParseError, summarize_sandbox_policy_wire_value}
use coclai.RpcContract.Descriptors.{
  RpcValidationMode, no_validation, known_methods, RpcRequestContract, any_object, a_thread_start,
  a_thread_id, a_thread_id_and_turn_id, a_process_id, a_command_exec, a_command_exec_write,
  a_command_exec_resize, RpcResponseContract, any_result_object, with_thread_id, with_turn_id,
  with_data_array, with_command_exec, rpc_contract_descriptor,
}

pub data RpcContractSurface : Type 0 where
  on_request on_response : RpcContractSurface

pub data RpcContractViolation : Type 0 where
  empty_method : RpcContractViolation
  field_must_be_object : (field_name : String) → RpcContractViolation
  field_must_be_non_empty_string : (field_name key : String) → RpcContractViolation
  missing_thread_id missing_turn_id result_data_must_be_array : RpcContractViolation
  command_must_be_array command_must_not_be_empty : RpcContractViolation
  command_items_must_be_strings process_id_required_for_streaming : RpcContractViolation
  disable_output_cap_conflicts_with_output_bytes_cap : RpcContractViolation
  disable_timeout_conflicts_with_timeout_ms timeout_ms_must_be_non_negative : RpcContractViolation
  output_bytes_cap_must_be_positive size_requires_tty size_must_be_object : RpcContractViolation
  size_rows_must_be_positive size_cols_must_be_positive : RpcContractViolation
  write_request_must_include_delta_or_close_stdin : RpcContractViolation
  exit_code_must_be_i32_compatible_integer stdout_must_be_string : RpcContractViolation
  stderr_must_be_string : RpcContractViolation
  params_field_must_be_string : (key : String) → RpcContractViolation
  custom : SandboxPolicyParseError → RpcContractViolation

-- `RpcError::InvalidRequest`, of a method, a surface, a violation and a payload.
pub record InvalidRequest (Value : Type 0) : Type 0 where
  pub method : String
  pub surface : RpcContractSurface
  pub violation : RpcContractViolation
  pub payload : Value

-- `Some(v) if !v.trim().is_empty()`.
abbrev pub is_filled : Option String → Bool
is_filled none = false
is_filled (some s) = not (is_blank s)

abbrev pub negative_number : Option ℤ → Bool
negative_number none = false
negative_number (some n) = is_negative n

abbrev pub is_zero : Option ℕ → Bool
is_zero none = false
is_zero (some n) = eqb n 0

-- `Some(code) if i32::try_from(code).is_ok()`.
abbrev pub is_exit_code : Option ℤ → Bool
is_exit_code none = false
is_exit_code (some code) = fits_i32 code

module _ (json : Json) where
  open json use {Value, null, get, as_str, as_array, as_bool, as_u64, as_i64, is_object}

  abbrev pub Validated : Type 0
  Validated = Checked (InvalidRequest Value) (Unit {0})

  abbrev project_contract_violation :
      String → RpcContractSurface → RpcContractViolation → Value → InvalidRequest Value
  project_contract_violation method surface violation payload = record {
    method = method;
    surface = surface;
    violation = violation;
    payload = payload;
  }

  abbrev request_violation : String → RpcContractViolation → Value → InvalidRequest Value
  request_violation method violation payload =
      project_contract_violation method on_request violation payload

  abbrev response_violation : String → RpcContractViolation → Value → InvalidRequest Value
  response_violation method violation payload =
      project_contract_violation method on_response violation payload

  unfoldable pub validate_method_name : String → Validated
  validate_method_name method =
      refuse_if (is_blank method) (request_violation method empty_method null)

  unfoldable pub require_object_on : RpcContractSurface → Value → String → String → Validated
  require_object_on surface value method field_name =
      refuse_if (not (is_object value))
        (project_contract_violation method surface (field_must_be_object field_name) value)

  unfoldable pub require_string : Value → String → String → String → Validated
  unfolding require_object_on
  require_string value method key field_name = do
    require_object_on on_request value method field_name
    refuse_if (not (is_filled (get key value |> as_str)))
        (request_violation method (field_must_be_non_empty_string field_name key) value)

  abbrev pub get_bool : Value → String → Bool
  get_bool obj key = unwrap_or (get key obj |> as_bool) false

  unfoldable pub get_optional_non_empty_string :
      Value → String → Checked RpcContractViolation (Option String)
  get_optional_non_empty_string obj key = elim (get key obj) [
    | none ↦ ok none
    | some v ↦ elim (as_str v) [
      | none ↦ err (params_field_must_be_string key)
      | some text ↦
          if is_blank text
          then err (field_must_be_non_empty_string "params" key)
          else ok (some text)
    ]
  ]

  -- `.and_then(Value::as_u64).unwrap_or(0) == 0`.
  abbrev pub is_zero_or_missing : Value → String → Bool
  is_zero_or_missing obj key = eqb (unwrap_or (get key obj |> as_u64) 0) 0

  unfoldable pub validate_command_exec_size : Value → String → Value → Validated
  validate_command_exec_size size method payload = do
    refuse_if (not (is_object size)) (request_violation method size_must_be_object payload)
    refuse_if (is_zero_or_missing size "rows")
        (request_violation method size_rows_must_be_positive payload)
    refuse_if (is_zero_or_missing size "cols")
        (request_violation method size_cols_must_be_positive payload)

  -- `command.iter().any(|value| value.as_str().is_none())`.
  abbrev pub any_not_text : List Value → Bool
  any_not_text [] = false
  any_not_text (v ∷ vs) = not (is_some (as_str v)) || any_not_text vs

  -- The part of `validate_command_exec_request` on the command.
  unfoldable pub validate_command : Value → String → Validated
  validate_command params method = elim (get "command" params |> as_array) [
    | none ↦ err (request_violation method command_must_be_array params)
    | some command ↦ do
      refuse_if (is_empty command) (request_violation method command_must_not_be_empty params)
      refuse_if (any_not_text command)
          (request_violation method command_items_must_be_strings params)
  ]

  -- Its part on the process id; `tty` streams in both directions.
  unfoldable pub validate_process_id : Value → String → Validated
  unfolding get_optional_non_empty_string
  validate_process_id params method = elim (get_optional_non_empty_string params "processId") [
    | err violation ↦ err (request_violation method violation params)
    | ok process_id ↦
        let tty = get_bool params "tty" in
        refuse_if
          ((tty
              || (tty || get_bool params "streamStdin")
              || (tty || get_bool params "streamStdoutStderr"))
            && not (is_some process_id))
          (request_violation method process_id_required_for_streaming params)
  ]

  -- Its part on the limits.
  unfoldable pub validate_limits : Value → String → Validated
  validate_limits params method = do
    refuse_if (get_bool params "disableOutputCap" && is_some (get "outputBytesCap" params))
        (request_violation method disable_output_cap_conflicts_with_output_bytes_cap params)
    refuse_if (get_bool params "disableTimeout" && is_some (get "timeoutMs" params))
        (request_violation method disable_timeout_conflicts_with_timeout_ms params)
    refuse_if (negative_number (get "timeoutMs" params |> as_i64))
        (request_violation method timeout_ms_must_be_non_negative params)
    refuse_if (is_zero (get "outputBytesCap" params |> as_u64))
        (request_violation method output_bytes_cap_must_be_positive params)

  -- Its part on the size of the terminal.
  unfoldable pub validate_terminal_size : Value → String → Validated
  unfolding validate_command_exec_size
  validate_terminal_size params method = elim (get "size" params) [
    | none ↦ ok tt
    | some size ↦ do
      refuse_if (not (get_bool params "tty")) (request_violation method size_requires_tty params)
      validate_command_exec_size size method params
  ]

  -- Its part on the sandbox policy.
  unfoldable pub validate_sandbox_policy : Value → String → Validated
  validate_sandbox_policy params method = elim (get "sandboxPolicy" params) [
    | none ↦ ok tt
    | some sandbox_policy ↦
        elim (summarize_sandbox_policy_wire_value json sandbox_policy "params.sandboxPolicy") [
          | err reason ↦ err (request_violation method (custom reason) params)
          | ok _ ↦ ok tt
        ]
  ]

  unfoldable pub validate_command_exec_request : Value → String → Validated
  unfolding require_object_on validate_command validate_process_id validate_limits
      validate_terminal_size validate_sandbox_policy
  validate_command_exec_request params method = do
    require_object_on on_request params method "params"
    validate_command params method
    validate_process_id params method
    validate_limits params method
    validate_terminal_size params method
    validate_sandbox_policy params method

  unfoldable pub validate_command_exec_write_request : Value → String → Validated
  unfolding require_string
  validate_command_exec_write_request params method = do
    require_string params method "processId" "params"
    require_object_on on_request params method "params"
    refuse_if
        (not (is_some (get "deltaBase64" params |> as_str)) && not (get_bool params "closeStdin"))
        (request_violation method write_request_must_include_delta_or_close_stdin params)

  unfoldable pub validate_command_exec_resize_request : Value → String → Validated
  unfolding require_string validate_command_exec_size
  validate_command_exec_resize_request params method = do
    require_string params method "processId" "params"
    require_object_on on_request params method "params"
    elim (get "size" params) [
      | none ↦ err (request_violation method size_must_be_object params)
      | some size ↦ validate_command_exec_size size method params
    ]

  unfoldable pub validate_command_exec_response : Value → String → Validated
  unfolding require_object_on
  validate_command_exec_response result method = do
    require_object_on on_response result method "result"
    refuse_if (not (is_exit_code (get "exitCode" result |> as_i64)))
        (response_violation method exit_code_must_be_i32_compatible_integer result)
    refuse_if (not (is_some (get "stdout" result |> as_str)))
        (response_violation method stdout_must_be_string result)
    refuse_if (not (is_some (get "stderr" result |> as_str)))
        (response_violation method stderr_must_be_string result)

  unfoldable pub validate_request_by_contract : RpcRequestContract → String → Value → Validated
  unfolding require_string validate_command_exec_request validate_command_exec_write_request
      validate_command_exec_resize_request
  validate_request_by_contract any_object method params =
      require_object_on on_request params method "params"
  validate_request_by_contract a_thread_start method params =
      require_object_on on_request params method "params"
  validate_request_by_contract a_thread_id method params =
      require_string params method "threadId" "params"
  validate_request_by_contract a_thread_id_and_turn_id method params = do
    require_string params method "threadId" "params"
    require_string params method "turnId" "params"
  validate_request_by_contract a_process_id method params =
      require_string params method "processId" "params"
  validate_request_by_contract a_command_exec method params =
      validate_command_exec_request params method
  validate_request_by_contract a_command_exec_write method params =
      validate_command_exec_write_request params method
  validate_request_by_contract a_command_exec_resize method params =
      validate_command_exec_resize_request params method

  unfoldable pub validate_response_by_contract : RpcResponseContract → String → Value → Validated
  unfolding require_object_on validate_command_exec_response
  validate_response_by_contract any_result_object method result =
      require_object_on on_response result method "result"
  validate_response_by_contract with_thread_id method result =
      refuse_if (not (is_some (parse_result_thread_id json result)))
        (response_violation method missing_thread_id result)
  validate_response_by_contract with_turn_id method result =
      refuse_if (not (is_some (parse_result_turn_id json result)))
        (response_violation method missing_turn_id result)
  validate_response_by_contract with_data_array method result = do
    require_object_on on_response result method "result"
    refuse_if (not (is_some (get "data" result |> as_array)))
        (response_violation method result_data_must_be_array result)
  validate_response_by_contract with_command_exec method result =
      validate_command_exec_response result method

  unfoldable pub validate_rpc_request : String → Value → RpcValidationMode → Validated
  unfolding validate_method_name validate_request_by_contract rpc_contract_descriptor
  validate_rpc_request method params mode = do
    validate_method_name method
    elim mode [
      | no_validation ↦ ok tt
      | known_methods ↦ elim (rpc_contract_descriptor method) [
        | none ↦ ok tt
        | some descriptor ↦ validate_request_by_contract descriptor.request method params
      ]
    ]

  unfoldable pub validate_rpc_response : String → Value → RpcValidationMode → Validated
  unfolding validate_method_name validate_response_by_contract rpc_contract_descriptor
  validate_rpc_response method result mode = do
    validate_method_name method
    elim mode [
      | no_validation ↦ ok tt
      | known_methods ↦ elim (rpc_contract_descriptor method) [
        | none ↦ ok tt
        | some descriptor ↦ validate_response_by_contract descriptor.response method result
      ]
    ]
