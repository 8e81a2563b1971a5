-- ===== src/Core/Calls.antt =====
-- A call of the client, in the steps that other tasks may come between: `call_raw_inner`,
-- crates/codex-runtime/src/runtime/core/rpc_io.rs, and the wait that io_policy.rs projects.
use coclai.Prelude.{ℕ, ◌+◌, ◌-◌, String, not, ◌∷◌, if◌then◌else◌}
use coclai.Checked.{Checked, ok, err}
use coclai.Core.{
  RpcError, timeout, transport_closed, RuntimeError, channel_closed, RuntimeInner, rpc_request,
  rpc_notification, can_send, wrap64,
}
use coclai.Core.Dispatch.{is_waiting, without}

-- `timeout(timeout_duration, pending_rx).await`: an answer, a dropped sender, or no time left.
pub data Waited (Value : Type 0) : Type 0 where
  answer : Checked (RpcError Value) Value → Waited Value
  sender_dropped elapsed : Waited Value

module _ {Value : Type 0} where
  unfoldable pub clear_pending_rpc : RuntimeInner Value → ℕ → RuntimeInner Value
  unfolding is_waiting without
  clear_pending_rpc inner rpc_id =
      if is_waiting rpc_id inner.pending
      then record inner {
        pending = without rpc_id inner.pending;
        pending_rpc_count = inner.pending_rpc_count - 1;
      }
      else inner

  -- The call gets its id and its place among the pending calls.
  unfoldable pub register_call : RuntimeInner Value → RuntimeInner Value
  unfolding without
  register_call inner = record inner {
    next_rpc_id = wrap64 (inner.next_rpc_id + 1);
    pending = inner.next_rpc_id ∷ without inner.next_rpc_id inner.pending;
    pending_rpc_count = wrap64 (inner.pending_rpc_count + 1);
  }

  -- The part of `call_raw_inner` before it waits; the result is the id under which it waits.
  unfoldable pub start_call :
      RuntimeInner Value
      → (method : String) → (params : Value) → RuntimeInner Value × Checked (RpcError Value) ℕ
  unfolding register_call clear_pending_rpc
  start_call inner method params =
      if not inner.outbound_set
      then (inner, err transport_closed)
      else if inner.outbound_alive
      then (
        record (register_call inner) {
          sent = rpc_request inner.next_rpc_id method params ∷ inner.sent;
        },
        ok inner.next_rpc_id,
      )
      else (clear_pending_rpc (register_call inner) inner.next_rpc_id, err transport_closed)

  -- `project_pending_rpc_outcome`, with what `call_raw_inner` does for each outcome.
  unfoldable pub finish_call :
      RuntimeInner Value → ℕ → Waited Value → RuntimeInner Value × Checked (RpcError Value) Value
  unfolding clear_pending_rpc
  finish_call inner rpc_id (answer result) = (inner, result)
  finish_call inner rpc_id sender_dropped = (inner, err transport_closed)
  finish_call inner rpc_id elapsed = (clear_pending_rpc inner rpc_id, err timeout)

  unfoldable pub notify_raw_inner :
      RuntimeInner Value
      → (method : String) → (params : Value) → RuntimeInner Value × Checked RuntimeError (Unit {0})
  notify_raw_inner inner method params =
      if can_send inner
      then (record inner { sent = rpc_notification method params ∷ inner.sent }, ok tt)
      else (inner, err channel_closed)
