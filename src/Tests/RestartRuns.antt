-- ===== src/Tests/RestartRuns.antt =====
-- A validated call, and a connection that is restarted: crates/codex-runtime/src/runtime/core.
use coclai.Prelude.{◌∷◌, [], ◌≤◌, ◌-◌, ◌≡◌, refl, String, true, false, some, arith}
use coclai.Checked.{ok}
use coclai.State.{running}
use coclai.RpcContract.Descriptors.{
  known_methods, RpcContractDescriptor, rpc_contract_descriptor, any_object, with_data_array,
}
use coclai.RpcContract.Validate.{InvalidRequest, validate_rpc_request, validate_rpc_response}
use coclai.RpcContract.Accepted.{HasContent}
use coclai.Core.{rpc_request}
use coclai.Core.Calls.{Waited, answer}
use coclai.Core.Validated.{start_validated_call, finish_validated_call, finish_validated_call-ok}
use coclai.Core.Supervisor.{
  on_crash, crash_exit, SupervisorConfig, Supervised, spawned, Round, lived_long, supervise_round,
}
use coclai.Core.Supervisor.Restarts.{restarts, restarts-le}
use coclai.Tests.Values.{Value, empty, array, nil, field, small_json}
use coclai.Tests.CoreRuns.{fresh}

abbrev describe : InvalidRequest Value → String
describe e = e.method

abbrev listing : RpcContractDescriptor
listing = record { method = "thread/list"; request = any_object; response = with_data_array }

listed : rpc_contract_descriptor "thread/list" ≡ some listing
unfolding rpc_contract_descriptor
listed = refl

abbrev page : Value
page = field "data" (array nil) empty

abbrev answered : Waited Value
answered = answer (ok page)

begun :
    (start_validated_call small_json describe known_methods true fresh "thread/list" empty).1 ≡ ok 1
unfolding start_validated_call validate_rpc_request
begun = refl

done :
    (finish_validated_call small_json describe known_methods fresh 1 "thread/list" answered).1
    ≡ ok page
unfolding finish_validated_call validate_rpc_response
done = refl

finish_validated_call-ok_example :
    (validate_rpc_request small_json "thread/list" empty known_methods ≡ ok tt)
    × (true ≡ true)
    × ((start_validated_call small_json describe known_methods true fresh "thread/list"
          empty).0.sent
        ≡ rpc_request 1 "thread/list" empty ∷ [])
    × (answered ≡ answer (ok page))
    × HasContent small_json with_data_array page
finish_validated_call-ok_example =
    finish_validated_call-ok small_json describe true fresh fresh "thread/list" empty 1 answered
      page listing listed begun done

abbrev config : SupervisorConfig
config = record { restart = on_crash 1 250 10000; restart_budget_reset_ms = 30000 }

abbrev first : Supervised
first = record {
  initialized = true;
  generation = 0;
  connection = running 0;
  restart_attempts = 0;
  generation_started_at_ms = 0;
}

-- A crash after a second, after which the connection is restarted.
abbrev crash : Round
crash = record {
  closed = true;
  shutting_down_first = false;
  close_kind = crash_exit;
  detached = true;
  now = 1000;
  slept = true;
  shutting_down_second = false;
  spawn = spawned;
  now_after = 2000;
}

restarts-le_example : restarts config first (crash ∷ record crash { now = 5000 } ∷ []) ≤ 1 - 0
unfolding lived_long supervise_round
restarts-le_example =
    restarts-le config 1 250 10000 first (crash ∷ record crash { now = 5000 } ∷ []) refl
      (omega arith) (refl, (refl, tt))
