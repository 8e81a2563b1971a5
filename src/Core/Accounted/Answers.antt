-- ===== src/Core/Accounted/Answers.antt =====
-- What one operation on server requests does to the count of replies: crates/codex-runtime/src/runtime/core/dispatch.rs
-- and approval.rs.
use coclai.Prelude.{
  ℕ, ◌+◌, String, ◌≡◌, refl, sym, ap, subst, ◌∙◌, true, false, not, none, some, List, [], ◌∷◌, ◌==◌,
  lookup, retain, UniqueKeys, arith, Bool-cases, Option-cases, inl, inr, insert-UniqueKeys,
  remove-UniqueKeys, retain-UniqueKeys,
}
use coclai.Json.{Json}
use coclai.Checked.{Checked-cases}
use coclai.Events.{JsonRpcId}
use coclai.Core.{
  PendingServerRequestEntry, rpc_result, rpc_error, RuntimeInner, can_send, RuntimeSpec,
  TimeoutAction, decline, cancel, error,
}
use coclai.RpcContract.{account_chatgpt_auth_tokens_refresh}
use coclai.Core.Payloads.{maybe_run_pre_tool_use_hooks, validate_server_request_result_payload}
use coclai.Core.ServerRequests.{
  send_rpc_message, forget_entry, take_entry, queue_accepts, is_expired, expired_entries,
  take_pending_server_request_entry, respond_with_timeout_policy, register_server_request,
  resolve_unqueued, queue_server_request, answer_expired, expire_pending_server_requests,
  respond_approval_ok, respond_approval_err,
}
use coclai.Core.Accounted.{
  one, replies, waiting, waiting_list, accounted, waiting-insert, waiting-remove, waiting-retain,
}

-- One answer to the id was sent, and nothing else changed that is counted.
abbrev Replied : {Value : Type 0} → JsonRpcId → RuntimeInner Value → RuntimeInner Value → Type 0
Replied id inner next =
    ((key : String) → replies key next.sent ≡ one key id + replies key inner.sent)
    × (next.pending_server_requests ≡ inner.pending_server_requests)
    × (can_send next ≡ true)

module _ {Value : Type 0} where
  send_result-Replied :
      (inner : RuntimeInner Value) (id : JsonRpcId) (v : Value)
      → can_send inner ≡ true
      → Replied id inner (send_rpc_message inner (rpc_result id v)).0
  unfolding send_rpc_message replies
  send_result-Replied inner id v up = rw (send_rpc_message, up) (λ key. refl, refl, up)

  send_error-Replied :
      (inner : RuntimeInner Value) (id : JsonRpcId) (v : Value)
      → can_send inner ≡ true
      → Replied id inner (send_rpc_message inner (rpc_error id v)).0
  unfolding send_rpc_message replies
  send_error-Replied inner id v up = rw (send_rpc_message, up) (λ key. refl, refl, up)

  -- So many more requests with the key are accounted for, and nothing is in the way of the next.
  abbrev pub Settled : String → ℕ → RuntimeInner Value → RuntimeInner Value → Type 0
  Settled key more inner next =
      (accounted key next ≡ more + accounted key inner)
      × UniqueKeys next.pending_server_requests
      × (can_send next ≡ true)

  Replied-Settled :
      (key : String) (inner : RuntimeInner Value) (id : JsonRpcId) (next : RuntimeInner Value)
      → Replied id inner next
      → UniqueKeys inner.pending_server_requests
      → Settled key (one key id) inner next
  Replied-Settled key inner id next (sent, kept, up) unique =
      (omega (arith, sent key, ap (waiting key) kept), subst UniqueKeys (sym kept) unique, up)

  -- An entry that is taken and answered moves from the one count to the other.
  taken-Settled :
      (key : String) (inner : RuntimeInner Value) (approval_id : String)
      (entry : PendingServerRequestEntry)
      → UniqueKeys inner.pending_server_requests
      → lookup approval_id inner.pending_server_requests ≡ some entry
      → (next : RuntimeInner Value) → Replied entry.rpc_id (take_entry inner approval_id entry) next
      → Settled key 0 inner next
  unfolding forget_entry
  taken-Settled key inner approval_id entry unique found next (sent, kept, up) = (
    omega (
      arith,
      sent key,
      ap (waiting key) kept,
      waiting-remove key approval_id entry inner.pending_server_requests unique found,
    ),
    subst UniqueKeys (sym kept)
        (remove-UniqueKeys approval_id inner.pending_server_requests unique),
    up,
  )

module _ (json : Json) where
  open json use {Value}

  module _ (error_code : Value) (spec : RuntimeSpec Value) where
    respond-Replied :
        (inner : RuntimeInner Value) (id : JsonRpcId) (method : String)
        → can_send inner ≡ true
        → Replied id inner (respond_with_timeout_policy json error_code spec inner id method).0
    unfolding respond_with_timeout_policy
    respond-Replied inner id method up =
        elim (Bool-cases (method == account_chatgpt_auth_tokens_refresh)) [
          | inl refresh ↦
              rw (respond_with_timeout_policy, refresh) (send_error-Replied inner id _ up)
          | inr other ↦ by_policy other spec.server_request_cfg.on_timeout refl
        ]
      where
        by_policy :
            (method == account_chatgpt_auth_tokens_refresh) ≡ false
            → (action : TimeoutAction) → spec.server_request_cfg.on_timeout ≡ action
            → Replied id inner (respond_with_timeout_policy json error_code spec inner id method).0
        by_policy other decline e =
            rw (respond_with_timeout_policy, other, e) (send_result-Replied inner id _ up)
        by_policy other cancel e =
            rw (respond_with_timeout_policy, other, e) (send_result-Replied inner id _ up)
        by_policy other error e =
            rw (respond_with_timeout_policy, other, e) (send_error-Replied inner id _ up)

    -- Answering entries that left the map turns each of them into one reply.
    answer_expired-accounted :
        (key : String) (entries : List PendingServerRequestEntry) (inner : RuntimeInner Value)
        → can_send inner ≡ true
        → (accounted key (answer_expired json error_code spec inner entries)
            ≡ waiting_list key entries + accounted key inner)
          × ((answer_expired json error_code spec inner entries).pending_server_requests
              ≡ inner.pending_server_requests)
          × (can_send (answer_expired json error_code spec inner entries) ≡ true)
    unfolding answer_expired waiting_list forget_entry
    answer_expired-accounted key [] inner up = (omega arith, refl, up)
    answer_expired-accounted key (entry ∷ entries) inner up =
        let (sent, kept, still) =
          respond-Replied (forget_entry inner entry) entry.rpc_id entry.method up in
        let (count, same, on) =
          answer_expired-accounted key entries
            (respond_with_timeout_policy json error_code spec (forget_entry inner entry)
              entry.rpc_id entry.method).0
            still in
        (omega (arith, count, sent key, ap (waiting key) kept), same ∙ kept, on)

    pub expire-Settled :
        (key : String) (inner : RuntimeInner Value) (now : ℕ)
        → can_send inner ≡ true
        → UniqueKeys inner.pending_server_requests
        → Settled key 0 inner (expire_pending_server_requests json error_code spec inner now)
    unfolding expire_pending_server_requests
    expire-Settled key inner now up unique =
        let (count, same, on) =
          answer_expired-accounted key (expired_entries now inner.pending_server_requests)
            (record inner {
              pending_server_requests =
                  retain (λ id entry. not (is_expired now entry)) inner.pending_server_requests;
            })
            up in
        (
          omega (arith, count, waiting-retain key now inner.pending_server_requests),
          subst UniqueKeys (sym same) (
              retain-UniqueKeys (λ id entry. not (is_expired now entry))
                inner.pending_server_requests unique),
          on,
        )

    pub respond-Settled :
        (key : String) (inner : RuntimeInner Value) (id : JsonRpcId) (method : String)
        → can_send inner ≡ true
        → UniqueKeys inner.pending_server_requests
        → Settled key
            (one key id)
            inner
            (respond_with_timeout_policy json error_code spec inner id method).0
    respond-Settled key inner id method up unique =
        Replied-Settled key inner id
          (respond_with_timeout_policy json error_code spec inner id method).0
          (respond-Replied inner id method up) unique

    resolve_unqueued-Settled :
        (key : String) (inner : RuntimeInner Value) (approval_id : String)
        → can_send inner ≡ true
        → UniqueKeys inner.pending_server_requests
        → Settled key 0 inner (resolve_unqueued json error_code spec inner approval_id)
    unfolding resolve_unqueued
    resolve_unqueued-Settled key inner approval_id up unique =
        elim (Option-cases (lookup approval_id inner.pending_server_requests)) [
          | inl missing ↦ rw (resolve_unqueued, missing) (omega arith, unique, up)
          | inr (entry, found) ↦
              rw (resolve_unqueued, found)
                (taken-Settled key inner approval_id entry unique found
                  (respond_with_timeout_policy json error_code spec
                    (take_entry inner approval_id entry) entry.rpc_id entry.method).0
                  (respond-Replied (take_entry inner approval_id entry) entry.rpc_id entry.method
                    up))
        ]

    pub queue-Settled :
        (key : String) (inner : RuntimeInner Value) (approval_id : String) (now : ℕ)
        (rpc_id : JsonRpcId) (method : String) (params : Value)
        → can_send inner ≡ true
        → UniqueKeys inner.pending_server_requests
        → lookup approval_id inner.pending_server_requests ≡ none
        → Settled key
            (one key rpc_id)
            inner
            (queue_server_request json error_code spec inner approval_id now rpc_id method params)
    unfolding queue_server_request register_server_request
    queue-Settled key inner approval_id now rpc_id method params up unique fresh =
        elim (Option-cases (maybe_run_pre_tool_use_hooks json spec method params)) [
          | inr (result, decided) ↦
              rw (queue_server_request, decided)
                (Replied-Settled key inner rpc_id
                  (send_rpc_message inner (rpc_result rpc_id result)).0
                  (send_result-Replied inner rpc_id result up) unique)
          | inl undecided ↦ elim (Bool-cases (queue_accepts registered)) [
            | inl room ↦ rw (queue_server_request, undecided, room) settled
            | inr full ↦
                let (count, keys, on) = settled in
                let (same, left, still) =
                  resolve_unqueued-Settled key registered approval_id on keys in
                rw (queue_server_request, undecided, full) (omega (arith, count, same), left, still)
          ]
        ]
      where
        registered : RuntimeInner Value
        registered =
            register_server_request json error_code spec inner approval_id now rpc_id method params

        settled : Settled key (one key rpc_id) inner registered
        settled = (
          omega (arith, waiting-insert key approval_id _ inner.pending_server_requests fresh),
          insert-UniqueKeys approval_id _ inner.pending_server_requests unique,
          up,
        )

  pub respond_approval_ok-Settled :
      (key : String) (inner : RuntimeInner Value) (approval_id : String) (result : Value)
      → can_send inner ≡ true
      → UniqueKeys inner.pending_server_requests
      → Settled key 0 inner (respond_approval_ok json inner approval_id result).0
  unfolding respond_approval_ok take_pending_server_request_entry
  respond_approval_ok-Settled key inner approval_id result up unique =
      elim (Option-cases (lookup approval_id inner.pending_server_requests)) [
        | inl missing ↦
            rw (respond_approval_ok, take_pending_server_request_entry, missing)
              (omega arith, unique, up)
        | inr (entry, found) ↦
            elim (Checked-cases (validate_server_request_result_payload json entry.method result)) [
              | inl (e, bad) ↦
                  rw (respond_approval_ok, take_pending_server_request_entry, found, bad)
                    (omega arith, unique, up)
              | inr (_, good) ↦
                  rw (respond_approval_ok, take_pending_server_request_entry, found, good)
                    (taken-Settled key inner approval_id entry unique found
                      (send_rpc_message (take_entry inner approval_id entry)
                        (rpc_result entry.rpc_id result)).0
                      (send_result-Replied (take_entry inner approval_id entry) entry.rpc_id result
                        up))
            ]
      ]

  pub respond_approval_err-Settled :
      (key : String) (inner : RuntimeInner Value) (approval_id : String) (error_value : Value)
      → can_send inner ≡ true
      → UniqueKeys inner.pending_server_requests
      → Settled key 0 inner (respond_approval_err json inner approval_id error_value).0
  unfolding respond_approval_err take_pending_server_request_entry
  respond_approval_err-Settled key inner approval_id error_value up unique =
      elim (Option-cases (lookup approval_id inner.pending_server_requests)) [
        | inl missing ↦
            rw (respond_approval_err, take_pending_server_request_entry, missing)
              (omega arith, unique, up)
        | inr (entry, found) ↦
            rw (respond_approval_err, take_pending_server_request_entry, found)
              (taken-Settled key inner approval_id entry unique found
                (send_rpc_message (take_entry inner approval_id entry)
                  (rpc_error entry.rpc_id error_value)).0
                (send_error-Replied (take_entry inner approval_id entry) entry.rpc_id error_value
                  up))
      ]
