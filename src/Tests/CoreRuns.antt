-- ===== src/Tests/CoreRuns.antt =====
-- The core of the runtime at work: crates/codex-runtime/src/runtime/core.
use coclai.Prelude.{
  List, lookup, insert, ◌∷◌, [], ◌≤◌, ◌+◌, ◌≡◌, refl, true, false, none, some, arith,
}
use coclai.Checked.{ok}
use coclai.Events.{number, server_request}
use coclai.State.{default_state, default_limits}
use coclai.Core.{RuntimeInner, RuntimeSpec, default_config}
use coclai.Core.Metadata.{MsgMetadata}
use coclai.Core.Dispatch.{resolve_call}
use coclai.Core.Calls.{start_call, elapsed, finish_call}
use coclai.Core.Accounted.{accounted}
use coclai.Core.Accounted.Runs.{
  RequestEvent, comes, sweep, total, handle, handle_all, handle_all-accounted,
}
use coclai.Core.Sequence.{Descends, dispatch_all, dispatch_all-Descends}
use coclai.Core.Waiting.{times, answers, begins, calls, responds, finishes, Reached-answered_once}
use coclai.Tests.Values.{Value, empty, text, field, small_json}
use coclai.Tests.Sorting.{sorting}

abbrev pub fresh : RuntimeInner Value
fresh = record {
  next_rpc_id = 1;
  next_seq = 0;
  outbound_set = true;
  outbound_alive = true;
  sent = [];
  pending = [];
  answered = [];
  pending_server_requests = [];
  queue = [];
  queue_capacity = 1;
  queue_open = true;
  state = default_state Value;
  live = [];
  pending_rpc_count = 0;
  pending_server_request_count = 0;
}

abbrev spec : RuntimeSpec Value
spec = record {
  server_request_cfg = default_config;
  state_projection_limits = default_limits;
  has_pre_tool_use_hooks = false;
  run_pre_tool_use = λ method params. true;
}

abbrev request : MsgMetadata
request = record {
  kind = server_request;
  response_id = some 7;
  rpc_id = some (number 7);
  method = some "item/tool/call";
  thread_id = none;
  turn_id = none;
  item_id = none;
}

-- Two requests with the same id: the second finds the queue full, the first expires.
abbrev requests : List (RequestEvent Value)
requests = comes "a" 0 request empty ∷ comes "b" 1 request empty ∷ sweep 40000 ∷ []

handle_all-accounted_example :
    accounted "n:7" (handle_all small_json empty spec fresh requests)
    ≡ total "n:7" requests + accounted "n:7" fresh
unfolding lookup insert handle
handle_all-accounted_example =
    handle_all-accounted small_json empty spec "n:7" fresh requests refl tt (refl, (refl, (tt, tt)))

abbrev called : RuntimeInner Value
called = (start_call fresh "initialize" empty).0

abbrev settled : RuntimeInner Value
settled = (finish_call (resolve_call called 1 (ok empty)) 1 elapsed).0

Reached-answered_once_example : times 1 settled.pending + answers 1 settled.answered ≤ 1
Reached-answered_once_example =
    Reached-answered_once 1 settled
      (finishes 1 (resolve_call called 1 (ok empty)) 1 elapsed (
        responds 1 called 1 (ok empty)
          (calls 0 fresh "initialize" empty (begins fresh refl refl refl))))
      (omega arith) 1

abbrev ping : Value
ping = field "method" (text "thread/started") empty

dispatch_all-Descends_example :
    Descends
      ((dispatch_all small_json empty sorting spec fresh
          (("a", 0, ping) ∷ ("b", 1, ping) ∷ [])).next_seq
        + 1)
      (dispatch_all small_json empty sorting spec fresh (("a", 0, ping) ∷ ("b", 1, ping) ∷ [])).live
dispatch_all-Descends_example =
    dispatch_all-Descends small_json empty sorting spec fresh (("a", 0, ping) ∷ ("b", 1, ping) ∷ [])
      (omega arith) tt
