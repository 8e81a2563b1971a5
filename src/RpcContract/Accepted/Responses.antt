-- ===== src/RpcContract/Accepted/Responses.antt =====
-- An accepted response has what the client reads: crates/codex-runtime/src/runtime/rpc_contract.rs.
use coclai.Prelude.{
  ◌≡◌, refl, String, Bool, true, false, Option, none, some, is_some, inl, inr, arith, Option-cases,
  ◌>>=◌ as ◌|>◌,
}
use coclai.Checked.{ok, refuse_if}
use coclai.Json.{Json}
use coclai.Id.{parse_result_thread_id, parse_result_turn_id}
use coclai.RpcContract.Descriptors.{
  known_methods, RpcContractDescriptor, rpc_contract_descriptor, RpcResponseContract,
  any_result_object, with_thread_id, with_turn_id, with_data_array, with_command_exec,
}
use coclai.RpcContract.Validate.{
  validate_rpc_response, validate_response_by_contract, validate_command_exec_response,
  require_object_on, validate_method_name,
}
use coclai.RpcContract.Accepted.{HasContent}

refuse_if-ok : {E : Type 0} (b : Bool) (e : E) → refuse_if b e ≡ ok tt → b ≡ false
refuse_if-ok true e h = ground arith
refuse_if-ok false e h = refl

is_some-found : {A : Type 0} (o : Option A) → is_some o ≡ true → (a : A) × (o ≡ some a)
is_some-found (some a) h = (a, refl)
is_some-found none h = ground arith

module _ (json : Json) where
  open json use {Value, get, as_str, as_array, as_u64, as_i64, is_object}

  validate_response_by_contract-ok :
      (contract : RpcResponseContract) (method : String) (result : Value)
      → validate_response_by_contract json contract method result ≡ ok tt
      → HasContent json contract result
  unfolding validate_response_by_contract require_object_on validate_command_exec_response
  validate_response_by_contract-ok any_result_object method result h = ground arith
  validate_response_by_contract-ok with_thread_id method result h =
      is_some-found (parse_result_thread_id json result) (ground arith)
  validate_response_by_contract-ok with_turn_id method result h =
      is_some-found (parse_result_turn_id json result) (ground arith)
  validate_response_by_contract-ok with_data_array method result h =
      is_some-found (get "data" result |> as_array) (ground arith)
  validate_response_by_contract-ok with_command_exec method result h = (
    elim (Option-cases (get "exitCode" result |> as_i64)) [
      | inl missing ↦ absurd (ground arith)
      | inr (code, found) ↦ (code, found, ground arith)
    ],
    is_some-found (get "stdout" result |> as_str) (ground arith),
    is_some-found (get "stderr" result |> as_str) (ground arith),
  )

  -- A response to a known method that is accepted has what the client reads from it: the thread
  -- id, the turn id, the array of data, or the exit code with both outputs.
  pub validate_rpc_response-ok :
      (method : String) (result : Value) (d : RpcContractDescriptor)
      → rpc_contract_descriptor method ≡ some d
      → validate_rpc_response json method result known_methods ≡ ok tt
      → HasContent json d.response result
  unfolding validate_rpc_response validate_method_name
  validate_rpc_response-ok method result d found h =
      validate_response_by_contract-ok d.response method result (ground arith)
