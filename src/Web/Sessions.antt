-- ===== src/Web/Sessions.antt =====
-- Creating and closing sessions and starting turns: crates/codex-runtime/src/adapters/web/handlers.rs,
-- wire.rs and service.rs. The adapter (the trait `WebPluginAdapter`) is a record of the answers that
-- its calls get. A rollback that a guard spawns is the list of the threads that it archives.
pub mod Outcomes
pub mod Turns
use coclai.Prelude.{
  ℕ, String, Bool, true, false, not, ◌&&◌, Option, none, some, List, [], ◌∷◌, ◌==◌, if◌then◌else◌,
  is_blank, ltb, eqb,
}
use coclai.Json.{Json}
use coclai.Id.{parse_result_turn_id}
use coclai.Web.Types.{
  WebAdapterConfig, WebError, invalid_session, forbidden, invalid_turn_payload, internal,
  resume_mismatch, archive_failed, archive_and_rollback_failed, missing_turn_id, invalid_config,
  incompatible_contract, Result, ok, err, ◌>>=◌, ◌>>◌, Topics, WebState, CreateSessionRequest,
  CreateSessionResponse, CloseSessionResponse, SessionRecord,
}
use coclai.Web.Registry.{
  assert_thread_access, register_session, load_owned_session, begin_close_owned_session,
  finalize_close_owned_session, rollback_close_owned_session,
}

pub record Adapter (Value : Type 0) : Type 0 where
  -- The model that the request asks for.
  pub thread_start : Option String → Result String
  pub thread_resume : String → Option String → Result String
  pub thread_archive : String → Result (Unit {0})
  pub turn_start : Value → Result Value

-- The thread of a session, and whether it was started for it.
pub record SessionThreadResolution : Type 0 where
  pub thread_id : String
  pub started_new_thread : Bool

module _ {Value : Type 0} (adapter : Adapter Value) where
  unfoldable pub resolve_session_thread_id :
      Option String → Option String → Result SessionThreadResolution
  resolve_session_thread_id (some thread_id) model = do
    resumed_thread_id ← adapter.thread_resume thread_id model
    if not (resumed_thread_id == thread_id)
        then err (internal (resume_mismatch thread_id resumed_thread_id))
        else ok (record { thread_id = resumed_thread_id; started_new_thread = false })
  resolve_session_thread_id none model = do
    thread_id ← adapter.thread_start model
    ok (record { thread_id = thread_id; started_new_thread = true })

-- The checks of `create_session` in front of the calls of the adapter.
module _ {json : Json} {topics : Topics} where
  unfoldable pub check_create_session :
      WebState json topics → String → CreateSessionRequest → Result (Unit {0})
  unfolding assert_thread_access
  check_create_session state tenant_id request =
      if is_blank request.artifact_id then err invalid_session else elim request.thread_id [
        | none ↦ ok tt
        | some thread_id ↦ assert_thread_access state tenant_id request.artifact_id thread_id
      ]

  -- The end of `create_session`: a guard archives a thread that was started for nothing.
  unfoldable pub settle_created :
      SessionThreadResolution
      → Result CreateSessionResponse × WebState json topics
      → Result CreateSessionResponse × WebState json topics × List String
  settle_created thread (ok response, state) = (ok response, state, [])
  settle_created thread (err e, state) =
      (err e, state, if thread.started_new_thread then thread.thread_id ∷ [] else [])

  -- The thread of the session that is asked for, checked.
  unfoldable pub resolve_checked :
      Adapter json.Value
      → WebState json topics
      → String
      → CreateSessionRequest
      → Result SessionThreadResolution
  unfolding check_create_session resolve_session_thread_id
  resolve_checked adapter state tenant_id request = do
    check_create_session state tenant_id request
    resolve_session_thread_id adapter request.thread_id request.model

  -- The response, the new state, and the threads that the rollback guard archives.
  unfoldable pub create_session :
      Adapter json.Value
      → WebState json topics
      → WebAdapterConfig
      → String
      → String
      → CreateSessionRequest
      → Result CreateSessionResponse × WebState json topics × List String
  unfolding resolve_checked settle_created register_session
  create_session adapter state config session_id tenant_id request =
      elim (resolve_checked adapter state tenant_id request) [
        | err e ↦ (err e, state, [])
        | ok thread ↦ settle_created thread (
            register_session state config session_id tenant_id request.artifact_id thread.thread_id)
      ]

  -- The end of `close_session` where the archiving went well; the guard rolls back an error.
  unfoldable pub close_archived :
      String
      → String
      → Result SessionRecord × WebState json topics
      → Result CloseSessionResponse × WebState json topics
  unfolding rollback_close_owned_session
  close_archived tenant_id session_id (ok closed, state) =
      (ok (record { thread_id = closed.thread_id; archived = true }), state)
  close_archived tenant_id session_id (err e, state) =
      (err e, (rollback_close_owned_session state tenant_id session_id).1)

  -- Its end where the archiving failed with the error `e`, after the rollback.
  unfoldable pub close_failed :
      String
      → WebError
      → Result (Unit {0}) × WebState json topics
      → Result CloseSessionResponse × WebState json topics
  close_failed session_id e (ok _, state) = (err (internal (archive_failed session_id e)), state)
  close_failed session_id e (err rollback_err, state) =
      (err (internal (archive_and_rollback_failed session_id e rollback_err)), state)

  -- `close_session` after the begin of the close.
  unfoldable pub close_begun :
      Adapter json.Value
      → String
      → String
      → Result SessionRecord × WebState json topics
      → Result CloseSessionResponse × WebState json topics
  unfolding close_archived close_failed finalize_close_owned_session rollback_close_owned_session
  close_begun adapter tenant_id session_id (err e, state) = (err e, state)
  close_begun adapter tenant_id session_id (ok session, state) =
      elim (adapter.thread_archive session.thread_id) [
        | ok _ ↦
            close_archived tenant_id session_id
              (finalize_close_owned_session state tenant_id session_id)
        | err e ↦
            close_failed session_id e (rollback_close_owned_session state tenant_id session_id)
      ]

  unfoldable pub close_session :
      Adapter json.Value
      → WebState json topics
      → String
      → String
      → Result CloseSessionResponse × WebState json topics
  unfolding close_begun begin_close_owned_session
  close_session adapter state tenant_id session_id =
      close_begun adapter tenant_id session_id
        (begin_close_owned_session state tenant_id session_id)

module _ (json : Json) where
  open json use {Value, get, as_str, is_object, of_string, insert_field}

  -- A thread id in the payload, if any, must be the session's.
  unfoldable pub foreign_thread : String → Option Value → Bool
  foreign_thread thread_id none = false
  foreign_thread thread_id (some value) = elim (as_str value) [
    | none ↦ true
    | some s ↦ not (s == thread_id)
  ]

  unfoldable pub normalize_turn_start_params : String → Value → Result Value
  unfolding foreign_thread
  normalize_turn_start_params thread_id task =
      if not (is_object task)
      then err invalid_turn_payload
      else if foreign_thread thread_id (get "threadId" task)
      then err forbidden
      else ok (insert_field "threadId" (of_string thread_id) task)

  unfoldable pub create_turn :
      {topics : Topics}
      → Adapter Value
      → WebState json topics
      → String
      → String
      → Value
      → Result String
  unfolding load_owned_session normalize_turn_start_params
  create_turn adapter state tenant_id session_id task = do
    session ← load_owned_session state tenant_id session_id
    params ← normalize_turn_start_params session.thread_id task
    result ← adapter.turn_start params
    elim (parse_result_turn_id json result) [
      | none ↦ err (internal missing_turn_id)
      | some turn_id ↦ ok turn_id
    ]

unfoldable pub ensure_positive_capacity : String → ℕ → Result (Unit {0})
ensure_positive_capacity name value = if ltb 0 value then ok tt else err (invalid_config name)

unfoldable pub validate_web_adapter_config : WebAdapterConfig → Result (Unit {0})
unfolding ensure_positive_capacity
validate_web_adapter_config config = do
  ensure_positive_capacity "session_event_channel_capacity" config.session_event_channel_capacity
  ensure_positive_capacity "session_approval_channel_capacity"
      config.session_approval_channel_capacity
