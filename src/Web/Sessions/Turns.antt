-- ===== src/Web/Sessions/Turns.antt =====
-- The turns that a session starts: crates/codex-runtime/src/adapters/web/wire.rs and handlers.rs.
use coclai.Prelude.{
  ◌≡◌, refl, String, true, false, some, arith, Option-cases, Bool-cases, inl, inr, ◌==◌, lookup,
  ◌>>=◌ as ◌|>◌,
}
use coclai.Json.{Json}
use coclai.Id.{parse_result_turn_id}
use coclai.Web.Types.{ok, Result-cases, Topics, WebState, SessionRecord, active}
use coclai.Web.Registry.{load_owned_session}
use coclai.Web.Registry.Access.{load_owned_session-ok}
use coclai.Web.Sessions.{Adapter, foreign_thread, normalize_turn_start_params, create_turn}

module _ (json : Json) where
  open json use {
    Value, get, as_str, is_object, of_string, insert_field, as_str-of_string, get-insert_field,
  }

  -- The payload of a turn is the client's object with the session's thread in it.
  normalize_turn_start_params_lem :
      (thread_id : String) (task params : Value)
      → normalize_turn_start_params json thread_id task ≡ ok params
      → (is_object task ≡ true)
        × (foreign_thread json thread_id (get "threadId" task) ≡ false)
        × (params ≡ insert_field "threadId" (of_string thread_id) task)
  unfolding normalize_turn_start_params
  normalize_turn_start_params_lem thread_id task params h = elim (Bool-cases (is_object task)) [
    | inl e ↦ elim (Bool-cases (foreign_thread json thread_id (get "threadId" task))) [
      | inl f ↦ ground arith
      | inr f ↦ ground arith
    ]
    | inr e ↦ ground arith
  ]

  -- Params that are accepted name the session's thread, whatever the client sent, and every other
  -- field is the client's.
  pub normalize_turn_start_params-ok :
      (thread_id field : String) (task params : Value)
      → normalize_turn_start_params json thread_id task ≡ ok params
      → ("threadId" == field) ≡ false
      → ((get "threadId" params |> as_str) ≡ some thread_id) × (get field params ≡ get field task)
  normalize_turn_start_params-ok thread_id field task params h other =
      let (o, f, e) = normalize_turn_start_params_lem thread_id task params h in
      (
        rw (e, get-insert_field "threadId" "threadId" (of_string thread_id) task o)
            (as_str-of_string thread_id),
        rw (e, get-insert_field "threadId" field (of_string thread_id) task o, other) refl,
      )

  -- A turn that is created was started on the thread of an active session of the tenant, and its id
  -- is the one that the app-server's answer holds.
  pub create_turn-ok :
      {topics : Topics} (adapter : Adapter Value) (state : WebState json topics)
      (tenant_id session_id turn_id : String) (task : Value)
      → create_turn json adapter state tenant_id session_id task ≡ ok turn_id
      → (session : SessionRecord) × (params : Value) × (result : Value) × (lookup session_id
            state.sessions
          ≡ some session)
        × (session.tenant_id ≡ tenant_id)
        × (session.lifecycle ≡ active)
        × ((get "threadId" params |> as_str) ≡ some session.thread_id)
        × (adapter.turn_start params ≡ ok result)
        × (parse_result_turn_id json result ≡ some turn_id)
  unfolding create_turn
  create_turn-ok adapter state tenant_id session_id turn_id task h =
      elim (Result-cases (load_owned_session state tenant_id session_id)) [
        | inl (e, failed) ↦ ground arith
        | inr (session, loaded) ↦
            elim (Result-cases (normalize_turn_start_params json session.thread_id task)) [
              | inl (e, failed) ↦ ground arith
              | inr (params, normalized) ↦ elim (Result-cases (adapter.turn_start params)) [
                | inl (e, failed) ↦ ground arith
                | inr (result, started) ↦ elim (Option-cases (parse_result_turn_id json result)) [
                  | inl missing ↦ ground arith
                  | inr (found, parsed) ↦
                      let (there, owned, live) =
                        load_owned_session-ok state tenant_id session_id session loaded in
                      let (o, f, e) =
                        normalize_turn_start_params_lem session.thread_id task params normalized in
                      (
                        session,
                        params,
                        result,
                        there,
                        owned,
                        live,
                        rw
                            (
                              e,
                              get-insert_field "threadId" "threadId" (of_string session.thread_id)
                                  task o,
                            )
                            (as_str-of_string session.thread_id),
                        started,
                        ground arith,
                      )
                ]
              ]
            ]
      ]
