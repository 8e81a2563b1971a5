-- ===== src/Tests/WebRuns.antt =====
-- The web adapter at work: crates/codex-runtime/src/adapters/web.
use coclai.Prelude.{
  ◌∷◌, [], ℕ, ◌≡◌, ◌==◌, if◌then◌else◌, eq_iff, refl, String, true, none, some, lookup, insert,
  modify, arith, ◌>>=◌ as ◌|>◌,
}
use coclai.Id.{parse_result_turn_id}
use coclai.Web.Types.{
  ApprovalResponsePayload, WebAdapterConfig, forbidden, session_closing, internal, archive_failed,
  adapter_error, Result, ok, err, active, SessionRecord, ServerRequest, Topics, WebState,
  empty_state,
}
use coclai.Web.Registry.{
  new_session, begin_closing, register_session, load_owned_session, begin_close_owned_session,
  finalize_close_owned_session, rollback_close_owned_session, drop_session,
}
use coclai.Web.Registry.Dropped.{drop_session_lem, IsGone}
use coclai.Web.Registry.Access.{tenant_isolation, close_begun_shuts, rollback_undoes_begin}
use coclai.Web.Registry.Consistent.{Consistent}
use coclai.Web.Approvals.Replayed.{take_queued_approvals-queue_request, post_approval-ok}
use coclai.Web.Approvals.{
  take_queued_approvals, into_result_payload, forget_approval, post_approval, index_request,
  queue_request,
}
use coclai.Web.Approvals.Reach.{register, index, queue, start, step, Reach-Consistent}
use coclai.Web.Sessions.{Adapter, close_session, create_turn}
use coclai.Web.Sessions.Outcomes.{close_session-archived, close_session-restored}
use coclai.Web.Sessions.Turns.{create_turn-ok}
use coclai.Tests.Values.{Value, empty, text, field, get, as_str, small_json}

-- A channel is its capacity.
abbrev channels : Topics
channels = record {
  EventSender = ℕ;
  ApprovalSender = ℕ;
  event_channel = λ capacity. capacity;
  approval_channel = λ capacity. capacity;
}

abbrev config : WebAdapterConfig
config = record { session_event_channel_capacity = 8; session_approval_channel_capacity = 1 }

-- An app-server that archives every thread but one.
abbrev archive : String → Result (Unit {0})
archive thread_id = if thread_id == "stuck" then err (internal (adapter_error "archive")) else ok tt

abbrev server : Adapter Value
server = record {
  thread_start = λ model. ok "new";
  thread_resume = λ thread_id model. ok thread_id;
  thread_archive = archive;
  turn_start = λ params. ok (field "turnId" (text "turn-1") empty);
}

abbrev initial : WebState small_json channels
initial = empty_state small_json channels

-- One session of one tenant.
abbrev one : WebState small_json channels
one = (register_session initial config "s" "tenant" "artifact" "thread").1

abbrev session : SessionRecord
session = new_session config "s" "tenant" "artifact" "thread"

abbrev closing_one : WebState small_json channels
closing_one = (begin_close_owned_session one "tenant" "s").1

-- One whose thread cannot be archived.
abbrev stuck : WebState small_json channels
stuck = (register_session initial config "s" "tenant" "artifact" "stuck").1

abbrev stuck_session : SessionRecord
stuck_session = new_session config "s" "tenant" "artifact" "stuck"

abbrev closing_stuck : WebState small_json channels
closing_stuck = (begin_close_owned_session stuck "tenant" "s").1

abbrev request : ServerRequest Value
request = record {
  approval_id = "approval";
  method = "exec";
  params = field "threadId" (text "thread") empty;
}

tenant_isolation_example :
    (load_owned_session one "other" "s" ≡ err forbidden)
    × (begin_close_owned_session one "other" "s" ≡ (err forbidden, one))
    × (finalize_close_owned_session one "other" "s" ≡ (err forbidden, one))
    × (rollback_close_owned_session one "other" "s" ≡ (err forbidden, one))
unfolding register_session lookup insert
tenant_isolation_example =
    tenant_isolation one "other" "s" session refl (λ e. ground (arith, e, eq_iff "tenant" "other"))

close_begun_shuts_example :
    (load_owned_session closing_one "tenant" "s" ≡ err session_closing)
    × (begin_close_owned_session closing_one "tenant" "s" ≡ (err session_closing, closing_one))
unfolding register_session begin_close_owned_session lookup insert modify
close_begun_shuts_example =
    close_begun_shuts one "tenant" "s" (begin_closing session) closing_one refl

rollback_undoes_begin_example : rollback_close_owned_session closing_one "tenant" "s" ≡ (ok tt, one)
unfolding register_session begin_close_owned_session lookup insert modify
rollback_undoes_begin_example =
    rollback_undoes_begin one "tenant" "s" (begin_closing session) closing_one refl

-- Two sessions, each with an approval.
abbrev two : WebState small_json channels
two = record (register_session one config "u" "tenant" "artifact_2" "thread_2").1 {
  approval_to_session = ("approval", "s") ∷ ("approval_2", "u") ∷ [];
}

abbrev closing_two : WebState small_json channels
closing_two = (begin_close_owned_session two "tenant" "s").1

drop_session_lem_example :
    IsGone two (drop_session two "s" "thread") "s" "thread" "u" "thread_2" "approval_2"
drop_session_lem_example =
    drop_session_lem two "s" "thread" "u" "thread_2" "approval_2" ((refl, tt), (tt, tt)) refl refl

close_session-archived_example :
    let closed = close_session server two "tenant" "s" in
    (closed.0 ≡ ok (record { thread_id = "thread"; archived = true }))
    × IsGone two closed.1 "s" "thread" "u" "thread_2" "approval_2"
unfolding register_session begin_close_owned_session lookup insert modify
close_session-archived_example =
    close_session-archived server two "tenant" "s" (begin_closing session) closing_two refl "u"
      "thread_2" "approval_2" refl ((refl, tt), (tt, tt)) refl refl

close_session-restored_example :
    close_session server stuck "tenant" "s"
    ≡ (err (internal (archive_failed "s" (internal (adapter_error "archive")))), stuck)
unfolding register_session begin_close_owned_session lookup insert modify
close_session-restored_example =
    close_session-restored server stuck "tenant" "s" (begin_closing stuck_session) closing_stuck
      refl (internal (adapter_error "archive")) refl

create_turn-ok_example :
    (owner : SessionRecord) × (params : Value) × (result : Value) × (lookup "s" one.sessions
      ≡ some owner)
    × (owner.tenant_id ≡ "tenant")
    × (owner.lifecycle ≡ active)
    × ((get "threadId" params |> as_str) ≡ some owner.thread_id)
    × (server.turn_start params ≡ ok result)
    × (parse_result_turn_id small_json result ≡ some "turn-1")
unfolding register_session create_turn lookup insert parse_result_turn_id
create_turn-ok_example = create_turn-ok small_json server one "tenant" "s" "turn-1" empty refl

Reach-Consistent_example :
    Consistent 1 (queue_request (index_request one "thread" request).1 "s" 1 request)
unfolding lookup
Reach-Consistent_example =
    Reach-Consistent config (queue_request (index_request one "thread" request).1 "s" 1 request) (
      step
        (step (step start (register "s" "tenant" "artifact" "thread" refl))
          (index "thread" request))
        (queue "s" request))

take_queued_approvals-queue_request_example :
    let (taken, left) = take_queued_approvals (queue_request one "s" 1 request) "s" in
    (taken ≡ ok (1, request ∷ [])) × (lookup "s" left.queued_approvals ≡ none)
unfolding register_session lookup insert
take_queued_approvals-queue_request_example =
    take_queued_approvals-queue_request one "s" 1 request 1 refl (omega arith)

abbrev indexed_one : WebState small_json channels
indexed_one = (index_request one "thread" request).1

abbrev accept : ApprovalResponsePayload Value
accept = record { decision = some (text "accept"); result = none }

post_approval-ok_example :
    (owner : SessionRecord) × (result : Value) × (lookup "s" indexed_one.sessions ≡ some owner)
    × (owner.tenant_id ≡ "tenant")
    × (owner.lifecycle ≡ active)
    × (lookup "approval" indexed_one.approval_to_session ≡ some "s")
    × (into_result_payload small_json accept ≡ ok result)
    × (archive "approval" ≡ ok tt)
    × (lookup "approval" (forget_approval indexed_one "approval").approval_to_session ≡ none)
unfolding register_session index_request post_approval lookup insert
post_approval-ok_example =
    post_approval-ok indexed_one (λ approval_id result. archive approval_id) "tenant" "s" "approval"
      accept (forget_approval indexed_one "approval") refl
