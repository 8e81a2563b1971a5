-- ===== src/Core/Sequence.antt =====
-- The order of what is broadcast, and the calls that are answered: crates/codex-runtime/src/runtime/core/dispatch.rs.
use coclai.Prelude.{
  ℕ, ◌+◌, ◌<◌, String, ◌≡◌, refl, sym, List, [], ◌∷◌, length, lookup, false, ◌==◌, Option, none,
  some, arith, Bool-cases, Option-cases, inl, inr, subst,
}
use coclai.Checked.{Checked}
use coclai.Json.{Json}
use coclai.Events.{Envelope, JsonRpcId, MsgKind, response, server_request, notification, unknown}
use coclai.RpcContract.{account_chatgpt_auth_tokens_refresh}
use coclai.State.Prune.{SelectNth}
use coclai.Core.{
  RuntimeInner, can_send, RuntimeSpec, wrap64, RpcError, Outbound, TimeoutAction, decline, cancel,
  error,
}
use coclai.Core.Metadata.{MsgMetadata, extract_message_metadata}
use coclai.Core.Payloads.{
  ServerRequestRoute, to_queue, auto_decline, route_server_request, maybe_run_pre_tool_use_hooks,
}
use coclai.Core.ServerRequests.{
  send_rpc_message, forget_entry, take_entry, queue_accepts, respond_with_timeout_policy,
  register_server_request, resolve_unqueued, queue_server_request,
}
use coclai.Core.Dispatch.{
  is_waiting, resolve_call, on_response, on_server_request, on_message, dispatch_message, publish,
}

module _ {Value : Type 0} where
  -- Every envelope has a smaller number than the one that was broadcast after it.
  abbrev pub Descends : ℕ → List (Envelope Value) → Type 0
  Descends bound [] = Unit {0}
  Descends bound (e ∷ es) = (e.seq < bound) × Descends e.seq es

-- An operation that broadcasts nothing.
abbrev Quiet : {Value : Type 0} → RuntimeInner Value → RuntimeInner Value → Type 0
Quiet inner next = (next.next_seq ≡ inner.next_seq) × (next.live ≡ inner.live)

module _ {Value : Type 0} where
  send-Quiet :
      (inner : RuntimeInner Value) (message : Outbound Value)
      → Quiet inner (send_rpc_message inner message).0
  unfolding send_rpc_message
  send-Quiet inner message = elim (Bool-cases (can_send inner)) [
    | inl up ↦ rw (send_rpc_message, up) (refl, refl)
    | inr down ↦ rw (send_rpc_message, down) (refl, refl)
  ]

  resolve_call-Quiet :
      (inner : RuntimeInner Value) (id : ℕ) (result : Checked (RpcError Value) Value)
      → Quiet inner (resolve_call inner id result)
  unfolding resolve_call
  resolve_call-Quiet inner id result = elim (Bool-cases (is_waiting id inner.pending)) [
    | inl there ↦ rw (resolve_call, there) (refl, refl)
    | inr gone ↦ rw (resolve_call, gone) (refl, refl)
  ]

module _ (json : Json) (error_code : json.Value) (spec : RuntimeSpec json.Value) where
  open json use {Value, null, get}

  respond-Quiet :
      (inner : RuntimeInner Value) (id : JsonRpcId) (method : String)
      → Quiet inner (respond_with_timeout_policy json error_code spec inner id method).0
  unfolding respond_with_timeout_policy
  respond-Quiet inner id method =
      elim (Bool-cases (method == account_chatgpt_auth_tokens_refresh)) [
        | inl refresh ↦ rw (respond_with_timeout_policy, refresh) (send-Quiet inner _)
        | inr other ↦ by_policy other spec.server_request_cfg.on_timeout refl
      ]
    where
      by_policy :
          (method == account_chatgpt_auth_tokens_refresh) ≡ false
          → (action : TimeoutAction) → spec.server_request_cfg.on_timeout ≡ action
          → Quiet inner (respond_with_timeout_policy json error_code spec inner id method).0
      by_policy other decline e = rw (respond_with_timeout_policy, other, e) (send-Quiet inner _)
      by_policy other cancel e = rw (respond_with_timeout_policy, other, e) (send-Quiet inner _)
      by_policy other error e = rw (respond_with_timeout_policy, other, e) (send-Quiet inner _)

  resolve_unqueued-Quiet :
      (inner : RuntimeInner Value) (approval_id : String)
      → Quiet inner (resolve_unqueued json error_code spec inner approval_id)
  unfolding resolve_unqueued forget_entry
  resolve_unqueued-Quiet inner approval_id =
      elim (Option-cases (lookup approval_id inner.pending_server_requests)) [
        | inl missing ↦ rw (resolve_unqueued, missing) (refl, refl)
        | inr (entry, found) ↦
            rw (resolve_unqueued, found)
              (respond-Quiet (take_entry inner approval_id entry) entry.rpc_id entry.method)
      ]

  queue-Quiet :
      (inner : RuntimeInner Value) (approval_id : String) (now : ℕ) (rpc_id : JsonRpcId)
      (method : String) (params : Value)
      → Quiet inner
          (queue_server_request json error_code spec inner approval_id now rpc_id method params)
  unfolding queue_server_request register_server_request
  queue-Quiet inner approval_id now rpc_id method params =
      elim (Option-cases (maybe_run_pre_tool_use_hooks json spec method params)) [
        | inr (result, decided) ↦ rw (queue_server_request, decided) (send-Quiet inner _)
        | inl undecided ↦ elim (Bool-cases (queue_accepts registered)) [
          | inl room ↦ rw (queue_server_request, undecided, room) (refl, refl)
          | inr full ↦
              rw (queue_server_request, undecided, full)
                (resolve_unqueued-Quiet registered approval_id)
        ]
      ]
    where
      registered : RuntimeInner Value
      registered =
          register_server_request json error_code spec inner approval_id now rpc_id method params

  on_server_request-Quiet :
      (inner : RuntimeInner Value) (approval_id : String) (now : ℕ) (metadata : MsgMetadata)
      (message : Value)
      → Quiet inner (on_server_request json error_code spec inner approval_id now metadata message)
  unfolding on_server_request
  on_server_request-Quiet inner approval_id now metadata message =
      elim (Option-cases metadata.rpc_id) [
        | inl no_id ↦ rw (on_server_request, no_id) (refl, refl)
        | inr (id, has_id) ↦ elim (Option-cases metadata.method) [
          | inl no_method ↦ rw (on_server_request, has_id, no_method) (refl, refl)
          | inr (method, has_method) ↦
              routed id has_id method has_method
                (route_server_request method spec.server_request_cfg.auto_decline_unknown) refl
        ]
      ]
    where
      routed :
          (id : JsonRpcId)
          → metadata.rpc_id ≡ some id
          → (method : String) → metadata.method ≡ some method
          → (route : ServerRequestRoute)
          → route_server_request method spec.server_request_cfg.auto_decline_unknown ≡ route
          → Quiet inner
              (on_server_request json error_code spec inner approval_id now metadata message)
      routed id has_id method has_method auto_decline r =
          rw (on_server_request, has_id, has_method, r) (respond-Quiet inner id method)
      routed id has_id method has_method to_queue r =
          rw (on_server_request, has_id, has_method, r)
            (queue-Quiet inner approval_id now id method _)

  on_message-Quiet :
      (inner : RuntimeInner Value) (approval_id : String) (now : ℕ) (metadata : MsgMetadata)
      (message : Value)
      → Quiet inner (on_message json error_code spec inner approval_id now metadata message)
  unfolding on_message on_response
  on_message-Quiet inner approval_id now metadata message =
      of_kind metadata.kind refl metadata.response_id refl
    where
      of_kind :
          (kind : MsgKind)
          → metadata.kind ≡ kind
          → (id : Option ℕ) → metadata.response_id ≡ id
          → Quiet inner (on_message json error_code spec inner approval_id now metadata message)
      of_kind response e none f = rw (on_message, e, on_response, f) (refl, refl)
      of_kind response e (some id) f =
          rw (on_message, e, on_response, f) (resolve_call-Quiet inner id _)
      of_kind server_request e id f =
          rw (on_message, e) (on_server_request-Quiet inner approval_id now metadata message)
      of_kind notification e id f = rw (on_message, e) (refl, refl)
      of_kind unknown e id f = rw (on_message, e) (refl, refl)

module _ (json : Json) (error_code : json.Value) (select : SelectNth)
    (spec : RuntimeSpec json.Value) where
  open json use {Value}

  -- The messages of the transport, each with the approval id and the clock of its turn.
  unfoldable pub dispatch_all : RuntimeInner Value → List (String × ℕ × Value) → RuntimeInner Value
  unfolding dispatch_message
  dispatch_all inner [] = inner
  dispatch_all inner ((approval_id, now, message) ∷ rest) =
      dispatch_all (dispatch_message json error_code select spec inner approval_id now message) rest

  dispatch_message-Descends :
      (inner : RuntimeInner Value) (approval_id : String) (now : ℕ) (message : Value)
      → inner.next_seq + 1 < 18446744073709551616
      → Descends (inner.next_seq + 1) inner.live
      → ((dispatch_message json error_code select spec inner approval_id now message).next_seq
          ≡ inner.next_seq + 1)
        × Descends
            (inner.next_seq + 2)
            (dispatch_message json error_code select spec inner approval_id now message).live
  unfolding dispatch_message publish
  dispatch_message-Descends inner approval_id now message small order =
      let metadata = extract_message_metadata json message in
      let after = on_message json error_code spec inner approval_id now metadata message in
      let (seq, live) =
        on_message-Quiet json error_code spec inner approval_id now metadata message in
      let next : wrap64 (after.next_seq + 1) ≡ inner.next_seq + 1 = omega (arith, seq, small) in
      (
        next,
        (
          omega (arith, next),
          subst (Descends (wrap64 (after.next_seq + 1))) (sym live)
              (subst (λ bound. Descends bound inner.live) (sym next) order),
        ),
      )

  -- The envelopes that are broadcast carry sequence numbers that only grow: after any messages,
  -- every envelope has a smaller number than the next one, and a number that was given out, as long
  -- as the counter of 64 bits does not wrap.
  pub dispatch_all-Descends :
      (inner : RuntimeInner Value) (messages : List (String × ℕ × Value))
      → inner.next_seq + length messages < 18446744073709551616
      → Descends (inner.next_seq + 1) inner.live
      → Descends ((dispatch_all inner messages).next_seq + 1) (dispatch_all inner messages).live
  unfolding dispatch_all
  dispatch_all-Descends inner [] small order = order
  dispatch_all-Descends inner ((approval_id, now, message) ∷ rest) small order =
      let next = dispatch_message json error_code select spec inner approval_id now message in
      let (seq, live) =
        dispatch_message-Descends inner approval_id now message (omega (arith, small)) order in
      dispatch_all-Descends next rest (omega (arith, small, seq))
        (subst (λ bound. Descends bound next.live) (omega (arith, seq)) live)
