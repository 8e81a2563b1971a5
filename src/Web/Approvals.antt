-- ===== src/Web/Approvals.antt =====
-- Approvals: the routing of server requests, the stale index, subscriptions and answers, of
-- crates/codex-runtime/src/adapters/web/handlers.rs. What happens under one acquisition of the lock
-- is one function; whether a send on a broadcast channel finds a receiver is an argument.
pub mod Kept
pub mod Reach
pub mod Replayed
use coclai.Prelude.{
  ℕ, suc, ◌+◌, min, String, Bool, true, false, not, ◌||◌, Option, none, some, List, [], ◌∷◌, ◌++◌,
  ◌==◌, if◌then◌else◌, Map, lookup, insert, remove, upsert, retain, map_values, length, ltb,
  unwrap_or, contains, filter, is_empty, u64_max,
}
use coclai.Json.{Json}
use coclai.Id.{extract_thread_id}
use coclai.Web.Types.{
  WebError, invalid_session, invalid_approval, forbidden, invalid_approval_payload, Result, ok, err,
  ◌>>=◌, ◌>>◌, Topics, WebState, ServerRequest, ApprovalResponsePayload, RouteMissMetrics,
}
use coclai.Web.Registry.{load_owned_session, ok_or}

-- `u64::saturating_add(1)`.
abbrev pub saturating_inc : ℕ → ℕ
saturating_inc n = min (suc n) u64_max

module _ (json : Json) where
  -- `ApprovalResponsePayload::into_result_payload`.
  unfoldable pub into_result_payload : ApprovalResponsePayload json.Value → Result json.Value
  into_result_payload payload = elim payload.result [
    | some result ↦ ok result
    | none ↦ elim payload.decision [
      | some decision ↦ ok (json.singleton "decision" decision)
      | none ↦ err invalid_approval_payload
    ]
  ]

module _ {json : Json} {topics : Topics} where
  abbrev pub count_missing_thread_id : WebState json topics → WebState json topics
  count_missing_thread_id state =
      let misses = state.server_request_route_miss in
      record state {
        server_request_route_miss = record misses {
          missing_thread_id = saturating_inc misses.missing_thread_id;
        };
      }

  abbrev pub count_missing_session_mapping : WebState json topics → WebState json topics
  count_missing_session_mapping state =
      let misses = state.server_request_route_miss in
      record state {
        server_request_route_miss = record misses {
          missing_session_mapping = saturating_inc misses.missing_session_mapping;
        };
      }

  abbrev pub count_missing_approval_topic : WebState json topics → WebState json topics
  count_missing_approval_topic state =
      let misses = state.server_request_route_miss in
      record state {
        server_request_route_miss = record misses {
          missing_approval_topic = saturating_inc misses.missing_approval_topic;
        };
      }

  -- The first lock region of `route_server_request`: where the request goes, and its owner noted.
  unfoldable pub index_request :
      WebState json topics
      → String
      → ServerRequest json.Value
      → Option (topics.ApprovalSender × String × ℕ) × WebState json topics
  index_request state thread_id request = elim (lookup thread_id state.thread_to_session) [
    | none ↦ (none, count_missing_session_mapping state)
    | some session_id ↦
        let indexed = record state {
          approval_to_session = insert request.approval_id session_id state.approval_to_session;
        } in
        let unindexed = record indexed {
          approval_to_session = remove request.approval_id indexed.approval_to_session;
        } in
        elim (lookup session_id state.sessions) [
          | none ↦ (none, unindexed)
          | some session ↦ elim (lookup session_id state.approval_topics) [
            | none ↦ (none, count_missing_approval_topic unindexed)
            | some sender ↦ (some (sender, session_id, session.approval_queue_capacity), indexed)
          ]
        ]
  ]

  -- The second lock region: a request that found no subscriber is queued, up to the capacity.
  unfoldable pub queue_request :
      WebState json topics → String → ℕ → ServerRequest json.Value → WebState json topics
  queue_request state session_id capacity request = record state {
    queued_approvals =
        upsert session_id []
          (λ queue. if ltb (length queue) capacity then queue ++ request ∷ [] else queue)
          state.queued_approvals;
  }

  -- `delivered` says whether a send on the session's channel finds a receiver.
  unfoldable pub route_server_request :
      WebState json topics
      → ServerRequest json.Value
      → (topics.ApprovalSender → Bool)
      → WebState json topics
  unfolding index_request queue_request
  route_server_request state request delivered = elim (extract_thread_id json request.params) [
    | none ↦ count_missing_thread_id state
    | some thread_id ↦
        let (target, indexed) = index_request state thread_id request in
        elim target [
          | none ↦ indexed
          | some (sender, session_id, capacity) ↦
              if delivered sender
              then indexed
              else queue_request indexed session_id capacity request
        ]
  ]

  -- `active` are the approvals that the runtime still waits for.
  unfoldable pub prune_stale_approval_index :
      WebState json topics → List String → WebState json topics
  prune_stale_approval_index state active = record state {
    approval_to_session =
        retain (λ approval_id _. contains active approval_id) state.approval_to_session;
    queued_approvals =
        retain (λ _ requests. not (is_empty requests))
          (map_values
            (λ (requests : List (ServerRequest json.Value)).
              filter (λ request. contains active request.approval_id) requests)
            state.queued_approvals);
  }

  -- The lock region of `subscribe_session_approvals`: the channel to subscribe to, and the requests
  -- that are replayed to the new receiver.
  unfoldable pub take_queued_approvals :
      WebState json topics
      → String
      → Result (topics.ApprovalSender × List (ServerRequest json.Value)) × WebState json topics
  take_queued_approvals state session_id = elim (lookup session_id state.approval_topics) [
    | none ↦ (err invalid_session, state)
    | some sender ↦ (
      ok (sender, unwrap_or (lookup session_id state.queued_approvals) []),
      record state { queued_approvals = remove session_id state.queued_approvals },
    )
  ]

  unfoldable pub subscribe_session_approvals :
      WebState json topics
      → String
      → String
      → Result (topics.ApprovalSender × List (ServerRequest json.Value)) × WebState json topics
  unfolding load_owned_session take_queued_approvals
  subscribe_session_approvals state tenant_id session_id =
      elim (load_owned_session state tenant_id session_id) [
        | err e ↦ (err e, state)
        | ok _ ↦ take_queued_approvals state session_id
      ]

  unfoldable pub subscribe_session_events :
      WebState json topics → String → String → Result topics.EventSender
  unfolding load_owned_session
  subscribe_session_events state tenant_id session_id = do
    load_owned_session state tenant_id session_id >>= λ _. ok tt
    ok_or (lookup session_id state.event_topics) invalid_session

  -- The owner of an approval, checked against the session that answers it.
  unfoldable pub approval_owner : WebState json topics → String → String → Result (Unit {0})
  approval_owner state session_id approval_id =
      elim (lookup approval_id state.approval_to_session) [
        | none ↦ err invalid_approval
        | some owner ↦ if not (owner == session_id) then err forbidden else ok tt
      ]

  -- An approval that was answered leaves the index and every queue.
  unfoldable pub forget_approval : WebState json topics → String → WebState json topics
  forget_approval state approval_id = record state {
    approval_to_session = remove approval_id state.approval_to_session;
    queued_approvals =
        map_values
          (λ (requests : List (ServerRequest json.Value)).
            filter (λ request. not (request.approval_id == approval_id)) requests)
          state.queued_approvals;
  }

  -- `respond` is the adapter's `respond_approval_ok`.
  unfoldable pub post_approval :
      WebState json topics
      → (String → json.Value → Result (Unit {0}))
      → String
      → String
      → String
      → ApprovalResponsePayload json.Value
      → Result (Unit {0}) × WebState json topics
  unfolding load_owned_session approval_owner into_result_payload forget_approval
  post_approval state respond tenant_id session_id approval_id payload =
      let answered : Result (Unit {0}) = do
        load_owned_session state tenant_id session_id >>= λ _. ok tt
        approval_owner state session_id approval_id
        result ← into_result_payload json payload
        respond approval_id result
      in elim answered [
        | err e ↦ (err e, state)
        | ok _ ↦ (ok tt, forget_approval state approval_id)
      ]
