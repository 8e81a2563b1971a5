-- ===== src/RpcContract/Accepted.antt =====
-- What the protocol asks of requests and responses: crates/codex-runtime/src/runtime/rpc_contract.rs.
use coclai.Prelude.{
  ℕ, ◌<◌, ◌≡◌, ◌≢◌, refl, String, Bool, true, false, not, ◌&&◌, ◌||◌, Option, none, some, List, [],
  ◌∷◌, ◌==◌, is_blank, is_some, is_empty, is_negative, unwrap_or, ◌⊎◌, inl, inr, arith, All,
  Option-cases, Bool-cases, ◌>>=◌ as ◌|>◌, ℤ, fits_i32,
}
use coclai.Checked.{Checked, ok, err, ◌>>=◌, ◌>>◌, refuse_if, Checked-cases}
use coclai.Json.{Json}
use coclai.Id.{parse_result_thread_id, parse_result_turn_id}
use coclai.Policy.{SandboxPolicySummary, summarize_sandbox_policy_wire_value}
use coclai.RpcContract.Descriptors.{
  RpcValidationMode, no_validation, known_methods, RpcContractDescriptor, rpc_contract_descriptor,
  RpcResponseContract, any_result_object, with_thread_id, with_turn_id, with_data_array,
  with_command_exec,
}
use coclai.RpcContract.Validate.{
  Validated, get_bool, validate_method_name, require_object_on, validate_command,
  validate_process_id, validate_limits, validate_terminal_size, validate_command_exec_size,
  validate_sandbox_policy, validate_command_exec_request, any_not_text, negative_number, is_zero,
  validate_rpc_request, validate_rpc_response, validate_response_by_contract,
  get_optional_non_empty_string, is_zero_or_missing, on_request,
}
pub mod Sound
pub mod Complete
pub mod Responses

module _ (json : Json) where
  open json use {Value, get, as_str, as_array, as_u64, as_i64, is_object}

  -- The command is a list of texts that is not empty.
  abbrev pub CommandOk : Value → Type 0
  CommandOk params =
      (command : List Value) × ((get "command" params |> as_array) ≡ some command)
      × (command ≢ [])
      × All (λ v. is_some (as_str v) ≡ true) command

  -- A process id is a text that is not blank, and there is one where the command streams.
  abbrev pub ProcessIdOk : Value → Type 0
  ProcessIdOk params =
      ((id : String) × ((get "processId" params |> as_str) ≡ some id) × (is_blank id ≡ false))
      ⊎ ((get "processId" params ≡ none)
          × (get_bool json params "tty" ≡ false)
          × (get_bool json params "streamStdin" ≡ false)
          × (get_bool json params "streamStdoutStderr" ≡ false))

  abbrev pub LimitsOk : Value → Type 0
  LimitsOk params =
      ((get_bool json params "disableOutputCap" ≡ false) ⊎ (get "outputBytesCap" params ≡ none))
      × ((get_bool json params "disableTimeout" ≡ false) ⊎ (get "timeoutMs" params ≡ none))
      × (negative_number (get "timeoutMs" params |> as_i64) ≡ false)
      × ((get "outputBytesCap" params |> as_u64) ≢ some 0)

  -- The size of a terminal has rows and columns.
  abbrev pub SizeOk : Value → Type 0
  SizeOk size =
      (is_object size ≡ true)
      × (0 < unwrap_or (get "rows" size |> as_u64) 0)
      × (0 < unwrap_or (get "cols" size |> as_u64) 0)

  abbrev pub TerminalOk : Value → Type 0
  TerminalOk params =
      (get "size" params ≡ none)
      ⊎ ((size : Value) × (get "size" params ≡ some size)
          × (get_bool json params "tty" ≡ true)
          × SizeOk size)

  abbrev pub SandboxOk : Value → Type 0
  SandboxOk params =
      (get "sandboxPolicy" params ≡ none)
      ⊎ ((policy : Value) × (summary : SandboxPolicySummary) × (get "sandboxPolicy" params
            ≡ some policy)
          × (summarize_sandbox_policy_wire_value json policy "params.sandboxPolicy" ≡ ok summary))

  -- What the protocol asks of the params of `command/exec`.
  abbrev pub CommandExecOk : Value → Type 0
  CommandExecOk params =
      (is_object params ≡ true)
      × CommandOk params
      × ProcessIdOk params
      × LimitsOk params
      × TerminalOk params
      × SandboxOk params

  -- What the client reads from a result of each contract.
  abbrev pub HasContent : RpcResponseContract → Value → Type 0
  HasContent any_result_object result = is_object result ≡ true
  HasContent with_thread_id result = (id : String) × (parse_result_thread_id json result ≡ some id)
  HasContent with_turn_id result = (id : String) × (parse_result_turn_id json result ≡ some id)
  HasContent with_data_array result =
      (vs : List Value) × ((get "data" result |> as_array) ≡ some vs)
  HasContent with_command_exec result =
      ((code : ℤ) × ((get "exitCode" result |> as_i64) ≡ some code) × (fits_i32 code ≡ true))
      × ((out : String) × ((get "stdout" result |> as_str) ≡ some out))
      × ((e : String) × ((get "stderr" result |> as_str) ≡ some e))
