-- ===== src/Web/Approvals/Reach.antt =====
-- Concurrent requests as a sequence of lock regions:
-- crates/codex-runtime/src/adapters/web/handlers.rs and state.rs.
use coclai.Prelude.{◌≡◌, refl, String, none, List, lookup}
use coclai.Json.{Json}
use coclai.Web.Types.{WebAdapterConfig, Topics, WebState, ServerRequest, empty_state}
use coclai.Web.Registry.{
  register_session, begin_close_owned_session, finalize_close_owned_session,
  rollback_close_owned_session,
}
use coclai.Web.Registry.Consistent.{
  Consistent, empty_state-Consistent, register_session-Consistent, begin_close-Consistent,
  finalize_close-Consistent, rollback_close-Consistent,
}
use coclai.Web.Approvals.{
  index_request, queue_request, prune_stale_approval_index, take_queued_approvals, forget_approval,
}
use coclai.Web.Approvals.Kept.{
  index_request-Consistent, queue_request-Consistent, prune-Consistent, forget_approval-Consistent,
  take_queued-Consistent,
}

module _ {json : Json} {topics : Topics} (config : WebAdapterConfig) where
  -- One acquisition of the registry's lock by some task, with whatever arguments.
  pub data Region (s : WebState json topics) : WebState json topics → Type 0 where
    register :
        (session_id tenant_id artifact_id thread_id : String)
        → lookup session_id s.sessions ≡ none
        → Region s (register_session s config session_id tenant_id artifact_id thread_id).1
    begin_close :
        (tenant_id session_id : String)
        → Region s (begin_close_owned_session s tenant_id session_id).1
    finalize_close :
        (tenant_id session_id : String)
        → Region s (finalize_close_owned_session s tenant_id session_id).1
    rollback_close :
        (tenant_id session_id : String)
        → Region s (rollback_close_owned_session s tenant_id session_id).1
    index :
        (thread_id : String) (request : ServerRequest json.Value)
        → Region s (index_request s thread_id request).1
    queue :
        (session_id : String) (request : ServerRequest json.Value)
        → Region s (queue_request s session_id config.session_approval_channel_capacity request)
    prune : (active : List String) → Region s (prune_stale_approval_index s active)
    take_queued : (session_id : String) → Region s (take_queued_approvals s session_id).1
    forget : (approval_id : String) → Region s (forget_approval s approval_id)

  pub data Reach : WebState json topics → Type 0 where
    start : Reach (empty_state json topics)
    step : {s t : WebState json topics} → Reach s → Region s t → Reach t

  Region-Consistent :
      {s t : WebState json topics}
      → Region s t
      → Consistent config.session_approval_channel_capacity s
      → Consistent config.session_approval_channel_capacity t
  Region-Consistent {s} (register session_id tenant_id artifact_id thread_id fresh) h =
      register_session-Consistent config.session_approval_channel_capacity s h config session_id
        tenant_id artifact_id thread_id refl fresh
  Region-Consistent {s} (begin_close tenant_id session_id) h =
      begin_close-Consistent config.session_approval_channel_capacity s h tenant_id session_id
  Region-Consistent {s} (finalize_close tenant_id session_id) h =
      finalize_close-Consistent config.session_approval_channel_capacity s h tenant_id session_id
  Region-Consistent {s} (rollback_close tenant_id session_id) h =
      rollback_close-Consistent config.session_approval_channel_capacity s h tenant_id session_id
  Region-Consistent {s} (index thread_id request) h =
      index_request-Consistent config.session_approval_channel_capacity s h thread_id request
  Region-Consistent {s} (queue session_id request) h =
      queue_request-Consistent config.session_approval_channel_capacity s h session_id
        config.session_approval_channel_capacity request refl
  Region-Consistent {s} (prune active) h =
      prune-Consistent config.session_approval_channel_capacity s h active
  Region-Consistent {s} (take_queued session_id) h =
      take_queued-Consistent config.session_approval_channel_capacity s h session_id
  Region-Consistent {s} (forget approval_id) h =
      forget_approval-Consistent config.session_approval_channel_capacity s h approval_id

  -- In whatever order the lock regions of concurrent requests run, with whatever arguments (a new
  -- session's id being unused, and requests queued up to the configured capacity), the registry's
  -- maps agree with one another and no queue of approvals is past the capacity.
  pub Reach-Consistent :
      (s : WebState json topics) → Reach s → Consistent config.session_approval_channel_capacity s
  Reach-Consistent s start = empty_state-Consistent config.session_approval_channel_capacity
  Reach-Consistent s (step r region) = Region-Consistent region (Reach-Consistent _ r)
