-- ===== src/Core/Dispatch.antt =====
-- One message of the transport: the body of `dispatcher_loop`,
-- crates/codex-runtime/src/runtime/core/dispatch.rs, with `resolve_transport_closed_pending` of rpc_io.rs.
use coclai.Prelude.{
  ℕ, ◌+◌, ◌-◌, String, Bool, false, Option, none, some, List, [], ◌∷◌, if◌then◌else◌, unwrap_or,
  eqb, ◌||◌,
}
use coclai.Json.{Json}
use coclai.Checked.{Checked, ok, err}
use coclai.Events.{Envelope, inbound, response, server_request, notification, unknown}
use coclai.State.Prune.{SelectNth}
use coclai.State.Reduce.{reduce_in_place_with_limits}
use coclai.Core.{RpcError, transport_closed, RuntimeInner, RuntimeSpec, wrap64}
use coclai.Core.Metadata.{MsgMetadata, extract_message_metadata, map_rpc_error}
use coclai.Core.Payloads.{to_queue, auto_decline, route_server_request}
use coclai.Core.ServerRequests.{
  respond_with_timeout_policy, queue_server_request, with_pending_server_requests,
}

-- `contains_key` and `remove` of the map of pending calls.
unfoldable pub is_waiting : ℕ → List ℕ → Bool
is_waiting id [] = false
is_waiting id (j ∷ ids) = eqb j id || is_waiting id ids

unfoldable pub without : ℕ → List ℕ → List ℕ
without id [] = []
without id (j ∷ ids) = let rest = without id ids in if eqb j id then rest else j ∷ rest

module _ {Value : Type 0} where
  -- The sender of a pending call is taken out and gets its answer.
  unfoldable pub resolve_call :
      RuntimeInner Value → ℕ → Checked (RpcError Value) Value → RuntimeInner Value
  unfolding is_waiting without
  resolve_call inner id answer =
      if is_waiting id inner.pending
      then record inner {
        pending = without id inner.pending;
        pending_rpc_count = inner.pending_rpc_count - 1;
        answered = (id, answer) ∷ inner.answered;
      }
      else inner

  -- `for (_, tx) in pending.drain()`.
  unfoldable pub close_all :
      List ℕ → List (ℕ × Checked (RpcError Value) Value) → List (ℕ × Checked (RpcError Value) Value)
  close_all [] answered = answered
  close_all (id ∷ ids) answered = close_all ids ((id, err transport_closed) ∷ answered)

  unfoldable pub resolve_transport_closed_pending : RuntimeInner Value → RuntimeInner Value
  unfolding close_all
  resolve_transport_closed_pending inner = record inner {
    pending = [];
    answered = close_all inner.pending inner.answered;
    pending_rpc_count = 0;
    pending_server_requests = [];
    pending_server_request_count = 0;
    state = with_pending_server_requests inner.state (λ requests. []);
  }

module _ (json : Json) where
  open json use {Value, null, get}

  -- `MsgKind::Response`.
  unfoldable pub on_response : RuntimeInner Value → Option ℕ → Value → RuntimeInner Value
  unfolding resolve_call map_rpc_error
  on_response inner none message = inner
  on_response inner (some id) message = resolve_call inner id (elim (get "error" message) [
    | some e ↦ err (map_rpc_error json e)
    | none ↦ ok (unwrap_or (get "result" message) null)
  ])

  module _ (error_code : Value) where
    -- `MsgKind::ServerRequest`.
    unfoldable pub on_server_request :
        RuntimeSpec Value
        → RuntimeInner Value
        → (approval_id : String) → (now : ℕ) → MsgMetadata
        → Value
        → RuntimeInner Value
    unfolding route_server_request respond_with_timeout_policy queue_server_request
    on_server_request spec inner approval_id now metadata message = elim metadata.rpc_id [
      | none ↦ inner
      | some id ↦ elim metadata.method [
        | none ↦ inner
        | some method ↦
            elim (route_server_request method spec.server_request_cfg.auto_decline_unknown) [
              | auto_decline ↦ (respond_with_timeout_policy json error_code spec inner id method).0
              | to_queue ↦
                  queue_server_request json error_code spec inner approval_id now id method
                    (unwrap_or (get "params" message) null)
            ]
      ]
    ]

    unfoldable pub on_message :
        RuntimeSpec Value
        → RuntimeInner Value
        → (approval_id : String) → (now : ℕ) → MsgMetadata
        → Value
        → RuntimeInner Value
    unfolding on_response on_server_request
    on_message spec inner approval_id now metadata message = elim metadata.kind [
      | response ↦ on_response inner metadata.response_id message
      | server_request ↦ on_server_request spec inner approval_id now metadata message
      | notification ↦ inner
      | unknown ↦ inner
    ]

    abbrev pub envelope_of : (seq now : ℕ) → MsgMetadata → Value → Envelope Value
    envelope_of seq now metadata message = record {
      seq = seq;
      ts_millis = now;
      direction = inbound;
      kind = metadata.kind;
      rpc_id = metadata.rpc_id;
      method = metadata.method;
      thread_id = metadata.thread_id;
      turn_id = metadata.turn_id;
      item_id = metadata.item_id;
      json = message;
    }

    module _ (select : SelectNth) where
      -- The envelope gets the next sequence number, is reduced into the state, and is broadcast.
      unfoldable pub publish :
          RuntimeSpec Value
          → RuntimeInner Value
          → (now : ℕ) → MsgMetadata
          → Value
          → RuntimeInner Value
      unfolding reduce_in_place_with_limits
      publish spec inner now metadata message =
          let envelope = envelope_of (wrap64 (inner.next_seq + 1)) now metadata message in
          record inner {
            next_seq = wrap64 (inner.next_seq + 1);
            state =
                reduce_in_place_with_limits json select inner.state envelope
                  spec.state_projection_limits;
            live = envelope ∷ inner.live;
          }

      unfoldable pub dispatch_message :
          RuntimeSpec Value
          → RuntimeInner Value
          → (approval_id : String) → (now : ℕ) → Value
          → RuntimeInner Value
      unfolding extract_message_metadata on_message publish
      dispatch_message spec inner approval_id now message =
          let metadata = extract_message_metadata json message in
          publish spec (on_message spec inner approval_id now metadata message) now metadata message
