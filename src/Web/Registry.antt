-- ===== src/Web/Registry.antt =====
-- The session registry: crates/codex-runtime/src/adapters/web/state.rs. Each function is what runs
-- under one acquisition of the lock. The session id that `Uuid::new_v4` makes is an argument.
pub mod Access
pub mod Dropped
pub mod Consistent
use coclai.Prelude.{
  ℕ, String, Bool, true, false, not, Option, none, some, List, [], ◌∷◌, ◌==◌, if◌then◌else◌, Map,
  lookup, insert, remove, modify, retain,
}
use coclai.Json.{Json}
use coclai.Web.Types.{
  WebAdapterConfig, WebError, invalid_session, forbidden, session_closing, session_thread_conflict,
  internal, thread_index_inconsistent, close_requires_closing, Result, ok, err, ◌>>=◌, ◌>>◌,
  SessionLifecycle, active, closing, SessionRecord, Topics, WebState, CreateSessionResponse,
}

unfoldable pub ensure_tenant_owns_session : SessionRecord → String → Result (Unit {0})
ensure_tenant_owns_session session tenant_id =
    if session.tenant_id == tenant_id then ok tt else err forbidden

unfoldable pub ensure_artifact_matches_session : SessionRecord → String → String → Result (Unit {0})
ensure_artifact_matches_session session artifact_id thread_id =
    if session.artifact_id == artifact_id
    then ok tt
    else err (session_thread_conflict thread_id session.artifact_id artifact_id)

abbrev pub is_active : SessionLifecycle → Bool
is_active active = true
is_active closing = false

unfoldable pub ensure_session_active : SessionRecord → Result (Unit {0})
ensure_session_active session = if is_active session.lifecycle then ok tt else err session_closing

unfoldable pub ensure_session_key_consistent :
    SessionRecord → String → String → String → Result (Unit {0})
unfolding ensure_tenant_owns_session ensure_artifact_matches_session ensure_session_active
ensure_session_key_consistent session tenant_id artifact_id thread_id = do
  ensure_tenant_owns_session session tenant_id
  ensure_artifact_matches_session session artifact_id thread_id
  ensure_session_active session

-- The record that `register_session` inserts.
abbrev pub new_session : WebAdapterConfig → String → String → String → String → SessionRecord
new_session config session_id tenant_id artifact_id thread_id = record {
  session_id = session_id;
  tenant_id = tenant_id;
  artifact_id = artifact_id;
  thread_id = thread_id;
  lifecycle = active;
  approval_queue_capacity = config.session_approval_channel_capacity;
}

-- `record.lifecycle = SessionLifecycle::Closing`.
abbrev pub begin_closing : SessionRecord → SessionRecord
begin_closing session = record session { lifecycle = closing }

-- `if session.lifecycle == Closing { session.lifecycle = Active; }`.
abbrev pub reopen : SessionRecord → SessionRecord
reopen session =
    if is_active session.lifecycle then session else record session { lifecycle = active }

-- `.ok_or(error)`.
abbrev pub ok_or {ℓ} : {A : Type ℓ} → Option A → WebError → Result A
ok_or none e = err e
ok_or (some a) e = ok a

module _ {json : Json} {topics : Topics} where
  unfoldable pub session_from_thread_index :
      WebState json topics → String → Result (Option SessionRecord)
  session_from_thread_index state thread_id = elim (lookup thread_id state.thread_to_session) [
    | none ↦ ok none
    | some session_id ↦ do
      existing ← ok_or (lookup session_id state.sessions) (internal thread_index_inconsistent)
      ok (some existing)
  ]

  unfoldable pub assert_thread_access :
      WebState json topics → String → String → String → Result (Unit {0})
  unfolding session_from_thread_index ensure_session_key_consistent
  assert_thread_access state tenant_id artifact_id thread_id =
      session_from_thread_index state thread_id >>= λ found. elim found [
        | none ↦ err forbidden
        | some existing ↦ ensure_session_key_consistent existing tenant_id artifact_id thread_id
      ]

  -- The insertions of `register_session`, for a thread that has no session.
  unfoldable pub add_session :
      WebState json topics
      → WebAdapterConfig
      → String
      → String
      → String
      → String
      → WebState json topics
  add_session state config session_id tenant_id artifact_id thread_id = record state {
    sessions =
        insert session_id (new_session config session_id tenant_id artifact_id thread_id)
          state.sessions;
    thread_to_session = insert thread_id session_id state.thread_to_session;
    event_topics =
        insert session_id (topics.event_channel config.session_event_channel_capacity)
          state.event_topics;
    approval_topics =
        insert session_id (topics.approval_channel config.session_approval_channel_capacity)
          state.approval_topics;
  }

  unfoldable pub register_session :
      WebState json topics
      → WebAdapterConfig
      → String
      → String
      → String
      → String
      → Result CreateSessionResponse × WebState json topics
  unfolding session_from_thread_index ensure_session_key_consistent add_session
  register_session state config session_id tenant_id artifact_id thread_id =
      elim (session_from_thread_index state thread_id) [
        | err e ↦ (err e, state)
        | ok none ↦ (
          ok (record { session_id = session_id; thread_id = thread_id }),
          add_session state config session_id tenant_id artifact_id thread_id,
        )
        | ok (some existing) ↦ (
          (do
            ensure_session_key_consistent existing tenant_id artifact_id thread_id
            ok (record { session_id = existing.session_id; thread_id = existing.thread_id })),
          state,
        )
      ]

  unfoldable pub load_owned_session : WebState json topics → String → String → Result SessionRecord
  unfolding ensure_tenant_owns_session ensure_session_active
  load_owned_session state tenant_id session_id = do
    session ← ok_or (lookup session_id state.sessions) invalid_session
    ensure_tenant_owns_session session tenant_id
    ensure_session_active session
    ok session

  unfoldable pub begin_close_owned_session :
      WebState json topics → String → String → Result SessionRecord × WebState json topics
  unfolding load_owned_session
  begin_close_owned_session state tenant_id session_id =
      elim (load_owned_session state tenant_id session_id) [
        | err e ↦ (err e, state)
        | ok session ↦ (
          ok (begin_closing session),
          record state { sessions = modify session_id begin_closing state.sessions },
        )
      ]

  -- What `finalize_close_owned_session` removes.
  unfoldable pub drop_session : WebState json topics → String → String → WebState json topics
  drop_session state session_id thread_id = record state {
    sessions = remove session_id state.sessions;
    thread_to_session = remove thread_id state.thread_to_session;
    event_topics = remove session_id state.event_topics;
    approval_topics = remove session_id state.approval_topics;
    queued_approvals = remove session_id state.queued_approvals;
    approval_to_session =
        retain (λ _ owner_session_id. not (owner_session_id == session_id))
          state.approval_to_session;
  }

  -- The checks of `finalize_close_owned_session`.
  unfoldable pub load_closing_session :
      WebState json topics → String → String → Result SessionRecord
  unfolding ensure_tenant_owns_session
  load_closing_session state tenant_id session_id = do
    session ← ok_or (lookup session_id state.sessions) invalid_session
    ensure_tenant_owns_session session tenant_id
    if is_active session.lifecycle then err (internal close_requires_closing) else ok session

  unfoldable pub finalize_close_owned_session :
      WebState json topics → String → String → Result SessionRecord × WebState json topics
  unfolding load_closing_session drop_session
  finalize_close_owned_session state tenant_id session_id =
      elim (load_closing_session state tenant_id session_id) [
        | err e ↦ (err e, state)
        | ok session ↦ (ok session, drop_session state session_id session.thread_id)
      ]

  -- The checks of `rollback_close_owned_session`.
  unfoldable pub ensure_owned_session : WebState json topics → String → String → Result (Unit {0})
  unfolding ensure_tenant_owns_session
  ensure_owned_session state tenant_id session_id = do
    session ← ok_or (lookup session_id state.sessions) invalid_session
    ensure_tenant_owns_session session tenant_id

  unfoldable pub rollback_close_owned_session :
      WebState json topics → String → String → Result (Unit {0}) × WebState json topics
  unfolding ensure_owned_session
  rollback_close_owned_session state tenant_id session_id =
      elim (ensure_owned_session state tenant_id session_id) [
        | err e ↦ (err e, state)
        | ok _ ↦ (ok tt, record state { sessions = modify session_id reopen state.sessions })
      ]
