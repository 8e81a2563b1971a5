-- ===== src/Events.antt =====
-- The event envelope: crates/codex-runtime/src/runtime/events.rs. A timestamp is a natural number.
pub mod Extract
use coclai.Prelude.{ℕ, String, Option}

pub data JsonRpcId : Type 0 where
  number : ℕ → JsonRpcId
  text : String → JsonRpcId

pub data Direction : Type 0 where
  inbound outbound : Direction

pub data MsgKind : Type 0 where
  response server_request notification unknown : MsgKind

pub record Envelope (Value : Type 0) : Type 0 where
  pub seq : ℕ
  pub ts_millis : ℕ
  pub direction : Direction
  pub kind : MsgKind
  pub rpc_id : Option JsonRpcId
  pub method : Option String
  pub thread_id : Option String
  pub turn_id : Option String
  pub item_id : Option String
  pub json : Value
