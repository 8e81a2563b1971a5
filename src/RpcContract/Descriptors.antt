-- ===== src/RpcContract/Descriptors.antt =====
-- The contract of each method: crates/codex-runtime/src/runtime/rpc_contract.rs.
use coclai.Prelude.{
  String, ◌≡◌, refl, true, Option, none, some, List, [], ◌∷◌, map, ◌==◌, if◌then◌else◌, is_some,
  contains, arith,
}
use coclai.RpcContract.{
  thread_start, thread_resume, thread_fork, thread_archive, thread_read, thread_list,
  thread_loaded_list, thread_rollback, skills_list, command_exec, command_exec_write,
  command_exec_terminate, command_exec_resize, turn_start, turn_interrupt, known,
}

pub data RpcValidationMode : Type 0 where
  no_validation known_methods : RpcValidationMode

pub data RpcRequestContract : Type 0 where
  any_object a_thread_start a_thread_id a_thread_id_and_turn_id : RpcRequestContract
  a_process_id a_command_exec a_command_exec_write a_command_exec_resize : RpcRequestContract

pub data RpcResponseContract : Type 0 where
  any_result_object with_thread_id with_turn_id with_data_array : RpcResponseContract
  with_command_exec : RpcResponseContract

pub record RpcContractDescriptor : Type 0 where
  pub method : String
  pub request : RpcRequestContract
  pub response : RpcResponseContract

abbrev descriptor : String → RpcRequestContract → RpcResponseContract → RpcContractDescriptor
descriptor method request response = record {
  method = method;
  request = request;
  response = response;
}

unfoldable pub rpc_contract_descriptors : List RpcContractDescriptor
rpc_contract_descriptors =
    descriptor thread_start a_thread_start with_thread_id
    ∷ descriptor thread_resume a_thread_id with_thread_id
    ∷ descriptor thread_fork a_thread_id with_thread_id
    ∷ descriptor thread_archive a_thread_id any_result_object
    ∷ descriptor thread_read a_thread_id with_thread_id
    ∷ descriptor thread_list any_object with_data_array
    ∷ descriptor thread_loaded_list any_object with_data_array
    ∷ descriptor thread_rollback a_thread_id with_thread_id
    ∷ descriptor skills_list any_object with_data_array
    ∷ descriptor command_exec a_command_exec with_command_exec
    ∷ descriptor command_exec_write a_command_exec_write any_result_object
    ∷ descriptor command_exec_terminate a_process_id any_result_object
    ∷ descriptor command_exec_resize a_command_exec_resize any_result_object
    ∷ descriptor turn_start a_thread_id with_turn_id
    ∷ descriptor turn_interrupt a_thread_id_and_turn_id any_result_object
    ∷ []

-- `.iter().find(|descriptor| descriptor.method == method)`.
unfoldable pub find_descriptor : String → List RpcContractDescriptor → Option RpcContractDescriptor
find_descriptor method [] = none
find_descriptor method (d ∷ ds) =
    let rest = find_descriptor method ds in if d.method == method then some d else rest

unfoldable pub rpc_contract_descriptor : String → Option RpcContractDescriptor
unfolding find_descriptor rpc_contract_descriptors
rpc_contract_descriptor method = find_descriptor method rpc_contract_descriptors

find_descriptor-contains :
    (method : String) (ds : List RpcContractDescriptor)
    → is_some (find_descriptor method ds) ≡ contains (map (λ d. d.method) ds) method
unfolding find_descriptor contains
find_descriptor-contains method [] = refl
find_descriptor-contains method (d ∷ ds) = ground (arith, find_descriptor-contains method ds)

-- A method has a descriptor exactly when it is one of the known methods.
pub rpc_contract_descriptor-known :
    (method : String) → is_some (rpc_contract_descriptor method) ≡ contains known method
unfolding rpc_contract_descriptor rpc_contract_descriptors
rpc_contract_descriptor-known method = find_descriptor-contains method rpc_contract_descriptors

-- What is found is the entry of the method.
pub find_descriptor-method :
    (method : String) (ds : List RpcContractDescriptor) (d : RpcContractDescriptor)
    → find_descriptor method ds ≡ some d
    → (d.method == method) ≡ true
unfolding find_descriptor
find_descriptor-method method [] d h = ground arith
find_descriptor-method method (e ∷ ds) d h = ground (arith, find_descriptor-method method ds d)
