-- ===== src/Core/Accounted/Runs.antt =====
-- Runs of the dispatcher, the sweep and the approvals: crates/codex-runtime/src/runtime/core/dispatch.rs
-- and approval.rs.
use coclai.Prelude.{
  ℕ, ◌+◌, String, ◌≡◌, refl, true, none, some, List, [], ◌∷◌, lookup, UniqueKeys, arith,
  Option-cases, inl, inr,
}
use coclai.Json.{Json}
use coclai.Events.{JsonRpcId}
use coclai.Core.{RuntimeInner, can_send, RuntimeSpec}
use coclai.Core.Metadata.{MsgMetadata}
use coclai.Core.Payloads.{ServerRequestRoute, to_queue, auto_decline, route_server_request}
use coclai.Core.ServerRequests.{
  expire_pending_server_requests, respond_approval_ok, respond_approval_err,
}
use coclai.Core.Dispatch.{on_server_request}
use coclai.Core.Accounted.{one, accounted}
use coclai.Core.Accounted.Answers.{
  Settled, respond-Settled, queue-Settled, expire-Settled, respond_approval_ok-Settled,
  respond_approval_err-Settled,
}

-- What may happen to server requests.
pub data RequestEvent (Value : Type 0) : Type 0 where
  comes : (approval_id : String) → (now : ℕ) → MsgMetadata → (message : Value) → RequestEvent Value
  sweep : (now : ℕ) → RequestEvent Value
  approve : (approval_id : String) → (result : Value) → RequestEvent Value
  disapprove : (approval_id : String) → (error_value : Value) → RequestEvent Value

-- The request with the key that the event brings: one that has an id and a method.
abbrev pub brought : {Value : Type 0} → String → RequestEvent Value → ℕ
brought key (comes approval_id now metadata message) = elim metadata.rpc_id [
  | none ↦ 0
  | some id ↦ elim metadata.method [ none ↦ 0 | some method ↦ one key id ]
]
brought key (sweep now) = 0
brought key (approve approval_id result) = 0
brought key (disapprove approval_id error_value) = 0

abbrev pub total : {Value : Type 0} → String → List (RequestEvent Value) → ℕ
total key [] = 0
total key (e ∷ es) = brought key e + total key es

module _ (json : Json) (error_code : json.Value) (spec : RuntimeSpec json.Value) where
  open json use {Value}

  unfoldable pub handle : RuntimeInner Value → RequestEvent Value → RuntimeInner Value
  unfolding on_server_request expire_pending_server_requests respond_approval_ok
      respond_approval_err
  handle inner (comes approval_id now metadata message) =
      on_server_request json error_code spec inner approval_id now metadata message
  handle inner (sweep now) = expire_pending_server_requests json error_code spec inner now
  handle inner (approve approval_id result) = (respond_approval_ok json inner approval_id result).0
  handle inner (disapprove approval_id error_value) =
      (respond_approval_err json inner approval_id error_value).0

  unfoldable pub handle_all : RuntimeInner Value → List (RequestEvent Value) → RuntimeInner Value
  unfolding handle
  handle_all inner [] = inner
  handle_all inner (e ∷ es) = handle_all (handle inner e) es

  -- An approval id that is drawn is not in use.
  abbrev pub IsFresh : RuntimeInner Value → RequestEvent Value → Type 0
  IsFresh inner (comes approval_id now metadata message) =
      lookup approval_id inner.pending_server_requests ≡ none
  IsFresh inner (sweep now) = Unit
  IsFresh inner (approve approval_id result) = Unit
  IsFresh inner (disapprove approval_id error_value) = Unit

  abbrev pub AllFresh : RuntimeInner Value → List (RequestEvent Value) → Type 0
  AllFresh inner [] = Unit
  AllFresh inner (e ∷ es) = IsFresh inner e × AllFresh (handle inner e) es

  on_server_request-Settled :
      (key : String) (inner : RuntimeInner Value) (approval_id : String) (now : ℕ)
      (metadata : MsgMetadata) (message : Value)
      → can_send inner ≡ true
      → UniqueKeys inner.pending_server_requests
      → lookup approval_id inner.pending_server_requests ≡ none
      → Settled key
          (brought key (comes approval_id now metadata message))
          inner
          (on_server_request json error_code spec inner approval_id now metadata message)
  unfolding on_server_request
  on_server_request-Settled key inner approval_id now metadata message up unique fresh =
      elim (Option-cases metadata.rpc_id) [
        | inl no_id ↦ rw (on_server_request, no_id) (omega arith, unique, up)
        | inr (id, has_id) ↦ elim (Option-cases metadata.method) [
          | inl no_method ↦ rw (on_server_request, has_id, no_method) (omega arith, unique, up)
          | inr (method, has_method) ↦
              routed id has_id method has_method
                (route_server_request method spec.server_request_cfg.auto_decline_unknown) refl
        ]
      ]
    where
      routed :
          (id : JsonRpcId)
          → metadata.rpc_id ≡ some id
          → (method : String) → metadata.method ≡ some method
          → (route : ServerRequestRoute)
          → route_server_request method spec.server_request_cfg.auto_decline_unknown ≡ route
          → Settled key
              (brought key (comes approval_id now metadata message))
              inner
              (on_server_request json error_code spec inner approval_id now metadata message)
      routed id has_id method has_method auto_decline r =
          rw (on_server_request, has_id, has_method, r)
            (respond-Settled json error_code spec key inner id method up unique)
      routed id has_id method has_method to_queue r =
          rw (on_server_request, has_id, has_method, r)
            (queue-Settled json error_code spec key inner approval_id now id method _ up unique
              fresh)

  handle-Settled :
      (key : String) (inner : RuntimeInner Value) (e : RequestEvent Value)
      → can_send inner ≡ true
      → UniqueKeys inner.pending_server_requests
      → IsFresh inner e
      → Settled key (brought key e) inner (handle inner e)
  unfolding handle
  handle-Settled key inner (comes approval_id now metadata message) up unique fresh =
      on_server_request-Settled key inner approval_id now metadata message up unique fresh
  handle-Settled key inner (sweep now) up unique fresh =
      expire-Settled json error_code spec key inner now up unique
  handle-Settled key inner (approve approval_id result) up unique fresh =
      respond_approval_ok-Settled json key inner approval_id result up unique
  handle-Settled key inner (disapprove approval_id error_value) up unique fresh =
      respond_approval_err-Settled json key inner approval_id error_value up unique

  -- Whatever requests come, expire and are approved, in whatever order: as long as messages can be
  -- sent and the approval ids that are drawn are not in use, the requests of every JSON-RPC id that
  -- came are as many as the replies that were sent to it and the entries that still wait for one.
  -- So no request is lost and none is answered twice.
  pub handle_all-accounted :
      (key : String) (inner : RuntimeInner Value) (events : List (RequestEvent Value))
      → can_send inner ≡ true
      → UniqueKeys inner.pending_server_requests
      → AllFresh inner events
      → accounted key (handle_all inner events) ≡ total key events + accounted key inner
  unfolding handle_all
  handle_all-accounted key inner [] up unique fresh = omega arith
  handle_all-accounted key inner (e ∷ es) up unique fresh =
      let (count, keys, on) = handle-Settled key inner e up unique fresh.0 in
      omega (arith, count, handle_all-accounted key (handle inner e) es on keys fresh.1)
