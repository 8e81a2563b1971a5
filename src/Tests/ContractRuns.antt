-- ===== src/Tests/ContractRuns.antt =====
-- Policies and requests that are checked: crates/codex-runtime/src/runtime/rpc_contract.rs and
-- runtime/api.
use coclai.Prelude.{
  ◌∷◌, [], ◌≡◌, ◌≢◌, ◌⊎◌, refl, String, true, false, none, some, is_some, is_blank, contains,
}
use coclai.Checked.{ok}
use coclai.Policy.{
  ApprovalPolicy, on_request, never, SandboxPreset, workspace_write, preset, read_only_kind,
  SandboxPolicySummary, summarize_sandbox_preset, summarize_sandbox_policy,
  summarize_sandbox_policy_wire_value, sandbox_preset_to_wire_value,
  check_privileged_sandbox_security,
}
use coclai.Policy.Privileged.{check_privileged_sandbox_security-ok}
use coclai.Policy.Classified.{summarize_sandbox_policy_wire_value-to_wire}
use coclai.RpcContract.{known}
use coclai.RpcContract.Descriptors.{
  known_methods, RpcContractDescriptor, rpc_contract_descriptor, rpc_contract_descriptor-known,
  any_object, with_data_array,
}
use coclai.RpcContract.Validate.{validate_command_exec_request, validate_rpc_response}
use coclai.RpcContract.Accepted.{CommandExecOk, HasContent}
use coclai.RpcContract.Accepted.Complete.{validate_command_exec_request-CommandExecOk}
use coclai.RpcContract.Accepted.Responses.{validate_rpc_response-ok}
use coclai.Tests.Values.{Value, empty, text, bool, array, nil, cons, field, small_json}

abbrev roots : SandboxPreset
roots = workspace_write ("/work" ∷ []) true

approved :
    check_privileged_sandbox_security small_json (some (preset roots)) true (some on_request) none
    ≡ ok tt
unfolding check_privileged_sandbox_security summarize_sandbox_policy summarize_sandbox_preset
approved = refl

check_privileged_sandbox_security-ok_example :
    (summary : SandboxPolicySummary) × (summarize_sandbox_policy small_json (preset roots)
      ≡ ok summary)
    × ((summary.kind ≡ read_only_kind)
        ⊎ ((true ≡ true)
            × ((p : ApprovalPolicy) × (some on_request ≡ some p) × (p ≢ never))
            × ((summary.has_non_empty_writable_roots ≡ true)
                ⊎ ((dir : String) × (none ≡ some dir) × (is_blank dir ≡ false)))))
check_privileged_sandbox_security-ok_example =
    check_privileged_sandbox_security-ok small_json (preset roots) true (some on_request) none
      approved

summarize_sandbox_policy_wire_value-to_wire_example :
    summarize_sandbox_policy_wire_value small_json
      (sandbox_preset_to_wire_value small_json roots)
      "params.sandboxPolicy"
    ≡ ok (summarize_sandbox_preset roots)
summarize_sandbox_policy_wire_value-to_wire_example =
    summarize_sandbox_policy_wire_value-to_wire small_json roots "params.sandboxPolicy"

rpc_contract_descriptor-known_example :
    is_some (rpc_contract_descriptor "turn/start") ≡ contains known "turn/start"
rpc_contract_descriptor-known_example = rpc_contract_descriptor-known "turn/start"

-- A request that runs a command in a terminal.
abbrev command : Value
command =
    field "command" (array (cons (text "ls") nil))
      (field "processId" (text "p") (field "tty" (bool true) empty))

validate_command_exec_request-CommandExecOk_example :
    ((validate_command_exec_request small_json command "command/exec" ≡ ok tt)
      → CommandExecOk small_json command)
    × (CommandExecOk small_json command
        → validate_command_exec_request small_json command "command/exec" ≡ ok tt)
validate_command_exec_request-CommandExecOk_example =
    validate_command_exec_request-CommandExecOk small_json command "command/exec"

abbrev threads : Value
threads = field "data" (array nil) empty

abbrev listing : RpcContractDescriptor
listing = record { method = "thread/list"; request = any_object; response = with_data_array }

listed : rpc_contract_descriptor "thread/list" ≡ some listing
unfolding rpc_contract_descriptor
listed = refl

accepted : validate_rpc_response small_json "thread/list" threads known_methods ≡ ok tt
unfolding validate_rpc_response
accepted = refl

validate_rpc_response-ok_example : HasContent small_json with_data_array threads
validate_rpc_response-ok_example =
    validate_rpc_response-ok small_json "thread/list" threads listing listed accepted
