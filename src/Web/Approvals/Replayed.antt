-- ===== src/Web/Approvals/Replayed.antt =====
-- Requests that wait for a subscriber, and answers: crates/codex-runtime/src/adapters/web/handlers.rs.
use coclai.Prelude.{
  ℕ, ◌<◌, ◌≡◌, refl, String, true, none, some, List, [], ◌∷◌, ◌++◌, ◌==◌, lookup, arith, eq_iff,
  length, unwrap_or, if◌then◌else◌, Option-cases, inl, inr, lookup-upsert, lookup-remove_self,
  upsert, ltb,
}
use coclai.Json.{Json}
use coclai.Web.Types.{
  Result, ok, Result-cases, Topics, WebState, ServerRequest, ApprovalResponsePayload, SessionRecord,
  active,
}
use coclai.Web.Registry.{load_owned_session}
use coclai.Web.Registry.Access.{load_owned_session-ok}
use coclai.Web.Approvals.{
  queue_request, take_queued_approvals, approval_owner, into_result_payload, forget_approval,
  post_approval,
}

module _ {json : Json} {topics : Topics} (state : WebState json topics) where
  -- While a session's queue has room, a request that finds no subscriber is the last one that the
  -- next subscriber gets, behind those that waited already; then the queue is empty.
  pub take_queued_approvals-queue_request :
      (session_id : String) (capacity : ℕ) (request : ServerRequest json.Value)
      (sender : topics.ApprovalSender)
      → lookup session_id state.approval_topics ≡ some sender
      → length (unwrap_or (lookup session_id state.queued_approvals) []) < capacity
      → let (taken, left) =
          take_queued_approvals (queue_request state session_id capacity request) session_id in
        (taken
          ≡ ok (sender, unwrap_or (lookup session_id state.queued_approvals) [] ++ request ∷ []))
        × (lookup session_id left.queued_approvals ≡ none)
  unfolding take_queued_approvals queue_request
  take_queued_approvals-queue_request session_id capacity request sender found room =
      let waiting = unwrap_or (lookup session_id state.queued_approvals) [] in
      let add : List (ServerRequest json.Value) → List (ServerRequest json.Value) =
        λ queue. if ltb (length queue) capacity then queue ++ request ∷ [] else queue in
      let fits : ltb (length waiting) capacity ≡ true = ground arith in
      let self : (session_id == session_id) ≡ true = ground (arith, eq_iff session_id session_id) in
      (
        rw
            (
              take_queued_approvals,
              queue_request,
              found,
              lookup-upsert session_id session_id [] add state.queued_approvals,
              self,
              fits,
            )
            refl,
        rw (take_queued_approvals, queue_request, found)
            (lookup-remove_self session_id (upsert session_id [] add state.queued_approvals)),
      )

  approval_owner-ok :
      (session_id approval_id : String)
      → approval_owner state session_id approval_id ≡ ok tt
      → lookup approval_id state.approval_to_session ≡ some session_id
  unfolding approval_owner
  approval_owner-ok session_id approval_id h =
      elim (Option-cases (lookup approval_id state.approval_to_session)) [
        | inl missing ↦ ground arith
        | inr (owner, indexed) ↦ ground (arith, eq_iff owner session_id)
      ]

  -- An approval that is answered was asked of an active session of the tenant, the app-server took
  -- the answer, and the approval leads to no session afterwards.
  pub post_approval-ok :
      (respond : String → json.Value → Result (Unit {0}))
      (tenant_id session_id approval_id : String) (payload : ApprovalResponsePayload json.Value)
      (left : WebState json topics)
      → post_approval state respond tenant_id session_id approval_id payload ≡ (ok tt, left)
      → (session : SessionRecord) × (result : json.Value) × (lookup session_id state.sessions
          ≡ some session)
        × (session.tenant_id ≡ tenant_id)
        × (session.lifecycle ≡ active)
        × (lookup approval_id state.approval_to_session ≡ some session_id)
        × (into_result_payload json payload ≡ ok result)
        × (respond approval_id result ≡ ok tt)
        × (lookup approval_id left.approval_to_session ≡ none)
  unfolding post_approval forget_approval
  post_approval-ok respond tenant_id session_id approval_id payload left h =
      elim (Result-cases (load_owned_session state tenant_id session_id)) [
        | inl (e, failed) ↦ ground arith
        | inr (session, loaded) ↦
            let (there, owned, live) =
              load_owned_session-ok state tenant_id session_id session loaded in
            elim (Result-cases (approval_owner state session_id approval_id)) [
              | inl (e, failed) ↦ ground arith
              | inr (_, asked) ↦ elim (Result-cases (into_result_payload json payload)) [
                | inl (e, failed) ↦ ground arith
                | inr (result, answered) ↦ elim (Result-cases (respond approval_id result)) [
                  | inl (e, failed) ↦ ground arith
                  | inr (_, responded) ↦
                      let gone : forget_approval state approval_id ≡ left = ground arith in
                      (
                        session,
                        result,
                        there,
                        owned,
                        live,
                        approval_owner-ok session_id approval_id asked,
                        answered,
                        responded,
                        rw (← gone) (lookup-remove_self approval_id state.approval_to_session),
                      )
                ]
              ]
            ]
      ]
