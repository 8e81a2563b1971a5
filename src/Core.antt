-- ===== src/Core.antt =====
-- The core of the runtime: crates/codex-runtime/src/runtime/core/ with rpc.rs and approvals.rs. The
-- record is the part of `RuntimeInner` that the dispatcher and the callers share. A channel is what
-- was put into it: `sent` is the outbound channel and `live` the broadcast of envelopes (both the newest
-- first), `queue` the channel of server requests, and `answered` what the waiting callers were given.
-- A map from rpc ids to senders is the list of its ids.
pub mod Metadata
pub mod Payloads
pub mod ServerRequests
pub mod Dispatch
pub mod Calls
pub mod Accounted
pub mod Sequence
pub mod Waiting
pub mod Validated
pub mod Supervisor
use coclai.Prelude.{
  ℕ, ◌+◌, ◌-◌, ◌%◌, min, ℤ, String, Bool, true, false, ◌&&◌, Option, List, ◌++◌, [], ◌∷◌, ◌==◌, Map,
  length, decimal, if◌then◌else◌,
}
use Prim.Native.String.{◌++◌ as ◌+++◌}
use coclai.Json.{Json}
use coclai.Checked.{Checked}
use coclai.Events.{Envelope, JsonRpcId, number, text}
use coclai.State.{RuntimeState, StateProjectionLimits, PendingServerRequest}

-- crates/codex-runtime/src/runtime/errors.rs; the messages of `RuntimeError` are dropped, and its
-- `TransportClosed` and `Timeout` are `channel_closed` and `out_of_time`.
pub data RpcError (Value : Type 0) : Type 0 where
  overloaded timeout transport_closed : RpcError Value
  invalid_request : (message : String) → RpcError Value
  method_not_found : (message : String) → RpcError Value
  server_error : (code : ℤ) → (message : String) → (error_data : Option Value) → RpcError Value

pub data RuntimeError : Type 0 where
  not_initialized already_initialized invalid_config channel_closed : RuntimeError
  process_exited out_of_time server_request_receiver_taken internal : RuntimeError

pub data TimeoutAction : Type 0 where
  decline cancel error : TimeoutAction

pub record ServerRequestConfig : Type 0 where
  pub default_timeout_ms : ℕ
  pub on_timeout : TimeoutAction
  pub auto_decline_unknown : Bool

-- `ServerRequestConfig::default`.
abbrev pub default_config : ServerRequestConfig
default_config = record {
  default_timeout_ms = 30000;
  on_timeout = decline;
  auto_decline_unknown = true;
}

pub record PendingServerRequestEntry : Type 0 where
  pub rpc_id : JsonRpcId
  pub rpc_key : String
  pub method : String
  pub created_at_millis : ℕ
  pub deadline_millis : ℕ

pub record ServerRequest (Value : Type 0) : Type 0 where
  pub approval_id : String
  pub method : String
  pub params : Value

-- A message of the outbound channel, by its parts.
pub data Outbound (Value : Type 0) : Type 0 where
  rpc_result : JsonRpcId → Value → Outbound Value
  rpc_error : JsonRpcId → Value → Outbound Value
  rpc_request : ℕ → (method : String) → (params : Value) → Outbound Value
  rpc_notification : (method : String) → (params : Value) → Outbound Value

pub record RuntimeInner (Value : Type 0) : Type 0 where
  pub next_rpc_id : ℕ
  pub next_seq : ℕ
  pub outbound_set : Bool
  pub outbound_alive : Bool
  pub sent : List (Outbound Value)
  pub pending : List ℕ
  pub answered : List (ℕ × Checked (RpcError Value) Value)
  pub pending_server_requests : Map PendingServerRequestEntry
  pub queue : List (ServerRequest Value)
  pub queue_capacity : ℕ
  pub queue_open : Bool
  pub state : RuntimeState Value
  pub live : List (Envelope Value)
  pub pending_rpc_count : ℕ
  pub pending_server_request_count : ℕ

-- The parts of `RuntimeSpec` that are read, and the pre-tool-use hooks: whether there are any, and
-- whether they let a request pass.
pub record RuntimeSpec (Value : Type 0) : Type 0 where
  pub server_request_cfg : ServerRequestConfig
  pub state_projection_limits : StateProjectionLimits
  pub has_pre_tool_use_hooks : Bool
  pub run_pre_tool_use : String → Value → Bool

-- The outbound channel is there, and its receiver too: a message can be sent.
abbrev pub can_send : {Value : Type 0} → RuntimeInner Value → Bool
can_send inner = inner.outbound_set && inner.outbound_alive

-- A counter of 64 bits wraps.
abbrev pub wrap64 : ℕ → ℕ
wrap64 n = n % 18446744073709551616

-- crates/codex-runtime/src/runtime/core/dispatch.rs
unfoldable pub jsonrpc_state_key : JsonRpcId → String
jsonrpc_state_key (number v) = "n:" +++ decimal v
jsonrpc_state_key (text v) = "s:" +++ v

-- crates/codex-runtime/src/runtime/core/io_policy.rs; both numbers are 64 bits wide.
unfoldable pub compute_deadline_millis : (now_millis timeout_ms : ℕ) → ℕ
compute_deadline_millis now_millis timeout_ms =
    min (now_millis + min timeout_ms 9223372036854775807) 9223372036854775807
