-- ===== src/Core/Accounted.antt =====
-- Every server request is answered once, or still pending: crates/codex-runtime/src/runtime/core/dispatch.rs
-- and approval.rs.
pub mod Answers
pub mod Runs
use coclai.Prelude.{
  ℕ, ◌+◌, ◌-◌, String, ◌≡◌, refl, sym, ap, subst, ◌∙◌, Bool, true, false, not, ◌&&◌, Option, none,
  some, List, [], ◌∷◌, ◌==◌, if◌then◌else◌, Map, lookup, insert, remove, retain, UniqueKeys, Absent,
  lookup-Absent, arith, Bool-cases, Option-cases, inl, inr, remove_of_Absent, eq_iff,
  insert-UniqueKeys, remove-UniqueKeys, retain-UniqueKeys,
}
use coclai.Json.{Json}
use coclai.Checked.{Checked, ok, err, Checked-cases}
use coclai.Events.{JsonRpcId}
use coclai.Core.{
  RuntimeError, PendingServerRequestEntry, Outbound, rpc_result, rpc_error, rpc_request,
  rpc_notification, RuntimeInner, can_send, RuntimeSpec, jsonrpc_state_key, TimeoutAction, decline,
  cancel, error,
}
use coclai.Core.Payloads.{maybe_run_pre_tool_use_hooks, validate_server_request_result_payload}
use coclai.Core.ServerRequests.{
  Answered, send_rpc_message, forget_entry, queue_accepts, is_expired, expired_entries,
  take_pending_server_request_entry, respond_with_timeout_policy, register_server_request,
  resolve_unqueued, queue_server_request, answer_expired, expire_pending_server_requests,
  respond_approval_ok, respond_approval_err,
}

-- One where the id has the key, zero elsewhere.
abbrev pub one : String → JsonRpcId → ℕ
one key id = if jsonrpc_state_key id == key then 1 else 0

-- The replies to requests with the key, among the messages that were sent.
unfoldable pub replies : {Value : Type 0} → String → List (Outbound Value) → ℕ
replies key [] = 0
replies key (rpc_result id v ∷ ms) = one key id + replies key ms
replies key (rpc_error id v ∷ ms) = one key id + replies key ms
replies key (rpc_request n method v ∷ ms) = replies key ms
replies key (rpc_notification method v ∷ ms) = replies key ms

-- The pending entries of requests with the key.
unfoldable pub waiting : String → Map PendingServerRequestEntry → ℕ
waiting key [] = 0
waiting key ((id, entry) ∷ entries) = one key entry.rpc_id + waiting key entries

unfoldable pub waiting_list : String → List PendingServerRequestEntry → ℕ
waiting_list key [] = 0
waiting_list key (entry ∷ entries) = one key entry.rpc_id + waiting_list key entries

-- The requests with the key that were answered or are pending.
abbrev pub accounted : {Value : Type 0} → String → RuntimeInner Value → ℕ
accounted key inner = replies key inner.sent + waiting key inner.pending_server_requests

pub waiting-insert :
    (key id : String) (entry : PendingServerRequestEntry) (entries : Map PendingServerRequestEntry)
    → lookup id entries ≡ none
    → waiting key (insert id entry entries) ≡ one key entry.rpc_id + waiting key entries
unfolding waiting lookup insert
waiting-insert key id entry [] fresh = refl
waiting-insert key id entry ((at, old) ∷ entries) fresh =
    ground (arith, waiting-insert key id entry entries)

pub waiting-remove :
    (key id : String) (entry : PendingServerRequestEntry) (entries : Map PendingServerRequestEntry)
    → UniqueKeys entries
    → lookup id entries ≡ some entry
    → one key entry.rpc_id + waiting key (remove id entries) ≡ waiting key entries
unfolding waiting lookup remove
waiting-remove key id entry [] unique found = ground arith
waiting-remove key id entry ((at, old) ∷ entries) (absent, unique) found =
    elim (Bool-cases (at == id)) [
      | inl here ↦
          let same = subst (λ k. Absent k entries) ((eq_iff at id).0 here) absent in
          ground (arith, remove_of_Absent id entries same)
      | inr later ↦ ground (arith, waiting-remove key id entry entries unique)
    ]

pub waiting-retain :
    (key : String) (now : ℕ) (entries : Map PendingServerRequestEntry)
    → waiting_list key (expired_entries now entries)
        + waiting key (retain (λ id entry. not (is_expired now entry)) entries)
      ≡ waiting key entries
unfolding waiting waiting_list expired_entries retain
waiting-retain key now [] = refl
waiting-retain key now ((id, entry) ∷ entries) = ground (arith, waiting-retain key now entries)
