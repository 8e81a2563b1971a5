-- ===== src/Web/Sessions/Outcomes.antt =====
-- The outcomes of closing and creating a session: crates/codex-runtime/src/adapters/web/handlers.rs.
use coclai.Prelude.{◌≡◌, refl, String, true, false, ◌==◌, UniqueKeys, ap, sym, subst}
use coclai.Json.{Json}
use coclai.Web.Types.{WebError, internal, archive_failed, ok, err, Topics, WebState, SessionRecord}
use coclai.Web.Registry.{begin_close_owned_session, drop_session}
use coclai.Web.Registry.Dropped.{IsGone, drop_closing}
use coclai.Web.Registry.Access.{rollback_undoes_begin, finalize_after_begin}
use coclai.Web.Sessions.{Adapter, close_session, close_begun, close_archived, close_failed}

module _ {json : Json} {topics : Topics} (adapter : Adapter json.Value)
    (state : WebState json topics) (tenant_id session_id : String) (session : SessionRecord)
    (closing : WebState json topics)
    (begun : begin_close_owned_session state tenant_id session_id ≡ (ok session, closing)) where
  -- The registry and the answer of a close whose thread is archived.
  close_session_lem :
      adapter.thread_archive session.thread_id ≡ ok tt
      → close_session adapter state tenant_id session_id ≡ (
        ok (record { thread_id = session.thread_id; archived = true }),
        drop_session closing session_id session.thread_id,
      )
  unfolding close_session close_begun close_archived close_failed
  close_session_lem archived =
      rw
        (
          close_session,
          begun,
          close_begun,
          archived,
          close_archived,
          finalize_after_begin state tenant_id session_id session closing begun,
        )
        refl

  -- After a close has begun, where the app-server archives the thread and no approval is indexed
  -- twice, the answer names the thread, and of the registry before the request nothing of the session
  -- is left: no record, no topic, no queue, no entry of its thread and no approval that leads to it.
  -- The record, the topics and the queue of any other session stay, as does the entry of any other
  -- thread, and every approval of another session keeps its owner.
  pub close_session-archived :
      (other other_thread approval : String)
      → adapter.thread_archive session.thread_id ≡ ok tt
      → UniqueKeys state.approval_to_session
      → (session_id == other) ≡ false
      → (session.thread_id == other_thread) ≡ false
      → let closed = close_session adapter state tenant_id session_id in
        (closed.0 ≡ ok (record { thread_id = session.thread_id; archived = true }))
        × IsGone state closed.1 session_id session.thread_id other other_thread approval
  close_session-archived other other_thread approval archived u apart apart_thread =
      let same = close_session_lem archived in
      (
        ap (λ c. c.0) same,
        subst (λ c. IsGone state c.1 session_id session.thread_id other other_thread approval)
            (sym same)
            (drop_closing state tenant_id session_id session closing begun other other_thread
              approval u apart apart_thread),
      )

  -- After a close has begun, where the archiving fails, the answer is that failure, and the registry
  -- is as it was before the request: the session is active again.
  pub close_session-restored :
      (e : WebError)
      → adapter.thread_archive session.thread_id ≡ err e
      → close_session adapter state tenant_id session_id
        ≡ (err (internal (archive_failed session_id e)), state)
  unfolding close_session close_begun close_archived close_failed
  close_session-restored e failed =
      rw
        (
          close_session,
          begun,
          close_begun,
          failed,
          close_failed,
          rollback_undoes_begin state tenant_id session_id session closing begun,
        )
        refl
