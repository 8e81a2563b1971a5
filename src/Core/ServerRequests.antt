-- ===== src/Core/ServerRequests.antt =====
-- Server requests, from the dispatcher to their one answer: crates/codex-runtime/src/runtime/core/dispatch.rs,
-- approval.rs and state_projection.rs. The approval id is the one that `Uuid::new_v4` gives, and a
-- result that the code drops (`let _ = …`) is dropped.
use coclai.Prelude.{
  ℕ, ◌+◌, ◌-◌, leb, ltb, String, Bool, true, false, not, ◌&&◌, none, some, List, [], ◌∷◌, ◌++◌,
  ◌==◌, if◌then◌else◌, length, Map, lookup, insert, remove, retain,
}
use coclai.Json.{Json}
use coclai.Checked.{Checked, ok, err}
use coclai.Events.{JsonRpcId}
use coclai.RpcContract.{account_chatgpt_auth_tokens_refresh}
use coclai.State.{RuntimeState, PendingServerRequest}
use coclai.Core.{
  RuntimeError, internal, channel_closed, decline, cancel, error, PendingServerRequestEntry,
  Outbound, rpc_result, rpc_error, RuntimeInner, RuntimeSpec, can_send, wrap64, jsonrpc_state_key,
  compute_deadline_millis,
}
use coclai.Core.Payloads.{
  timeout_result_payload, maybe_run_pre_tool_use_hooks, validate_server_request_result_payload,
}

-- What an operation leaves, and its result.
abbrev pub Answered : Type 0 → Type 0
Answered Value = RuntimeInner Value × Checked RuntimeError (Unit {0})

abbrev pub is_expired : ℕ → PendingServerRequestEntry → Bool
is_expired now entry = leb entry.deadline_millis now

-- The entries that `retain` takes out, and those that it leaves.
unfoldable pub expired_entries : ℕ → Map PendingServerRequestEntry → List PendingServerRequestEntry
expired_entries now [] = []
expired_entries now ((id, entry) ∷ entries) =
    let rest = expired_entries now entries in if is_expired now entry then entry ∷ rest else rest

module _ {Value : Type 0} where
  unfoldable pub send_rpc_message : RuntimeInner Value → Outbound Value → Answered Value
  send_rpc_message inner message =
      if can_send inner
      then (record inner { sent = message ∷ inner.sent }, ok tt)
      else (inner, err channel_closed)

  abbrev pub with_pending_server_requests :
      RuntimeState Value
      → (Map (PendingServerRequest Value) → Map (PendingServerRequest Value))
      → RuntimeState Value
  with_pending_server_requests state change = record state {
    pending_server_requests = change state.pending_server_requests;
  }

  -- An entry is gone: its count and its projection go with it.
  unfoldable pub forget_entry : RuntimeInner Value → PendingServerRequestEntry → RuntimeInner Value
  forget_entry inner entry = record inner {
    pending_server_request_count = inner.pending_server_request_count - 1;
    state = with_pending_server_requests inner.state (remove entry.rpc_key);
  }

  -- An entry is taken out of the map and forgotten.
  abbrev pub take_entry :
      RuntimeInner Value → String → PendingServerRequestEntry → RuntimeInner Value
  take_entry inner approval_id entry =
      forget_entry
        (record inner {
          pending_server_requests = remove approval_id inner.pending_server_requests;
        })
        entry

  -- `try_send` on the channel of server requests.
  unfoldable pub queue_accepts : RuntimeInner Value → Bool
  queue_accepts inner = inner.queue_open && ltb (length inner.queue) inner.queue_capacity

  -- `take_pending_server_request_entry`.
  unfoldable pub take_pending_server_request_entry :
      RuntimeInner Value
      → String
      → (PendingServerRequestEntry → Checked RuntimeError (Unit {0}))
      → Checked RuntimeError (RuntimeInner Value × PendingServerRequestEntry)
  unfolding forget_entry
  take_pending_server_request_entry inner approval_id validate =
      elim (lookup approval_id inner.pending_server_requests) [
        | none ↦ err internal
        | some entry ↦ elim (validate entry) [
          | err e ↦ err e
          | ok _ ↦ ok (take_entry inner approval_id entry, entry)
        ]
      ]

module _ (json : Json) where
  open json use {Value, of_string, singleton, insert_field}

  -- `timeout_error_payload`, with the code −32000 as `error_code`.
  module _ (error_code : Value) where
    unfoldable pub timeout_error_payload : String → Value
    timeout_error_payload method = insert_field "data" (singleton "method" (of_string method)) (
        insert_field "message" (of_string "server request timed out") (singleton "code" error_code))

    unfoldable pub respond_with_timeout_policy :
        RuntimeSpec Value → RuntimeInner Value → JsonRpcId → String → Answered Value
    unfolding send_rpc_message timeout_result_payload timeout_error_payload
    respond_with_timeout_policy spec inner id method =
        if method == account_chatgpt_auth_tokens_refresh
        then send_rpc_message inner (rpc_error id (timeout_error_payload method))
        else elim spec.server_request_cfg.on_timeout [
          | decline ↦
              send_rpc_message inner (rpc_result id (timeout_result_payload json method false))
          | cancel ↦
              send_rpc_message inner (rpc_result id (timeout_result_payload json method true))
          | error ↦ send_rpc_message inner (rpc_error id (timeout_error_payload method))
        ]

    -- The entry of a request that is queued now, registered and projected.
    unfoldable pub register_server_request :
        RuntimeSpec Value
        → RuntimeInner Value
        → (approval_id : String) → (now : ℕ) → JsonRpcId
        → (method : String) → (params : Value) → RuntimeInner Value
    unfolding compute_deadline_millis jsonrpc_state_key
    register_server_request spec inner approval_id now rpc_id method params =
        let deadline = compute_deadline_millis now spec.server_request_cfg.default_timeout_ms in
        record inner {
          pending_server_requests =
              insert approval_id
                (record {
                  rpc_id = rpc_id;
                  rpc_key = jsonrpc_state_key rpc_id;
                  method = method;
                  created_at_millis = now;
                  deadline_millis = deadline;
                })
                inner.pending_server_requests;
          pending_server_request_count = wrap64 (inner.pending_server_request_count + 1);
          state = with_pending_server_requests inner.state (
              insert (jsonrpc_state_key rpc_id) (record {
                approval_id = approval_id;
                deadline_unix_ms = deadline;
                method = method;
                params = params;
              }));
        }

    -- The queue is full or closed: the entry is taken out again and answered.
    unfoldable pub resolve_unqueued :
        RuntimeSpec Value → RuntimeInner Value → (approval_id : String) → RuntimeInner Value
    unfolding forget_entry respond_with_timeout_policy
    resolve_unqueued spec inner approval_id =
        elim (lookup approval_id inner.pending_server_requests) [
          | none ↦ inner
          | some entry ↦
              (respond_with_timeout_policy spec (take_entry inner approval_id entry) entry.rpc_id
                entry.method).0
        ]

    unfoldable pub queue_server_request :
        RuntimeSpec Value
        → RuntimeInner Value
        → (approval_id : String) → (now : ℕ) → JsonRpcId
        → (method : String) → (params : Value) → RuntimeInner Value
    unfolding maybe_run_pre_tool_use_hooks send_rpc_message register_server_request queue_accepts
        resolve_unqueued
    queue_server_request spec inner approval_id now rpc_id method params =
        elim (maybe_run_pre_tool_use_hooks json spec method params) [
          | some result ↦ (send_rpc_message inner (rpc_result rpc_id result)).0
          | none ↦
              let registered =
                register_server_request spec inner approval_id now rpc_id method params in
              if queue_accepts registered
              then record registered {
                queue =
                    registered.queue
                    ++ (record { approval_id = approval_id; method = method; params = params }
                        ∷ []);
              }
              else resolve_unqueued spec registered approval_id
        ]

    -- The loop over the entries that expired.
    unfoldable pub answer_expired :
        RuntimeSpec Value → RuntimeInner Value → List PendingServerRequestEntry → RuntimeInner Value
    unfolding forget_entry respond_with_timeout_policy
    answer_expired spec inner [] = inner
    answer_expired spec inner (entry ∷ entries) =
        answer_expired spec
          (respond_with_timeout_policy spec (forget_entry inner entry) entry.rpc_id entry.method).0
          entries

    unfoldable pub expire_pending_server_requests :
        RuntimeSpec Value → RuntimeInner Value → (now : ℕ) → RuntimeInner Value
    unfolding expired_entries answer_expired
    expire_pending_server_requests spec inner now =
        answer_expired spec
          (record inner {
            pending_server_requests =
                retain (λ id entry. not (is_expired now entry)) inner.pending_server_requests;
          })
          (expired_entries now inner.pending_server_requests)

  unfoldable pub respond_approval_ok : RuntimeInner Value → String → Value → Answered Value
  unfolding take_pending_server_request_entry validate_server_request_result_payload
      send_rpc_message
  respond_approval_ok inner approval_id result =
      elim (take_pending_server_request_entry inner approval_id
        (λ entry. validate_server_request_result_payload json entry.method result)) [
          | err e ↦ (inner, err e)
          | ok (taken, entry) ↦ send_rpc_message taken (rpc_result entry.rpc_id result)
        ]

  -- The error object is given as the value that is sent.
  unfoldable pub respond_approval_err : RuntimeInner Value → String → Value → Answered Value
  unfolding take_pending_server_request_entry send_rpc_message
  respond_approval_err inner approval_id error_value =
      elim (take_pending_server_request_entry inner approval_id (λ entry. ok tt)) [
        | err e ↦ (inner, err e)
        | ok (taken, entry) ↦ send_rpc_message taken (rpc_error entry.rpc_id error_value)
      ]
