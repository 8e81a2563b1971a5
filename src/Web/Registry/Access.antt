-- ===== src/Web/Registry/Access.antt =====
-- Who reaches a session, and how a session closes: crates/codex-runtime/src/adapters/web/state.rs.
use coclai.Prelude.{
  ◌≡◌, refl, ◌≢◌, String, false, some, ◌==◌, lookup, arith, eq_iff, Option-cases, inl, inr,
  lookup-modify, modify-modify, modify_same, modify, ap, ◌∙◌,
}
use coclai.Json.{Json}
use coclai.Web.Types.{
  forbidden, session_closing, ok, err, SessionRecord, Topics, WebState, active, closing,
  Result-cases,
}
use coclai.Web.Registry.{
  load_owned_session, begin_close_owned_session, finalize_close_owned_session,
  rollback_close_owned_session, begin_closing, reopen, ensure_owned_session, drop_session,
}

module _ {json : Json} {topics : Topics} (state : WebState json topics)
    (tenant_id session_id : String) where
  -- A session that is loaded is one of the tenant's, is active, and is the record under its id.
  pub load_owned_session-ok :
      (session : SessionRecord)
      → load_owned_session state tenant_id session_id ≡ ok session
      → (lookup session_id state.sessions ≡ some session)
        × (session.tenant_id ≡ tenant_id)
        × (session.lifecycle ≡ active)
  unfolding load_owned_session
  load_owned_session-ok session h = elim (Option-cases (lookup session_id state.sessions)) [
    | inl e ↦ ground arith
    | inr (found, e) ↦ ground (arith, eq_iff found.tenant_id tenant_id)
  ]

  -- On a session of another tenant, loading, beginning a close, finalizing it and rolling it back are
  -- all forbidden and leave the registry as it was.
  pub tenant_isolation :
      (session : SessionRecord)
      → lookup session_id state.sessions ≡ some session
      → session.tenant_id ≢ tenant_id
      → (load_owned_session state tenant_id session_id ≡ err forbidden)
        × (begin_close_owned_session state tenant_id session_id ≡ (err forbidden, state))
        × (finalize_close_owned_session state tenant_id session_id ≡ (err forbidden, state))
        × (rollback_close_owned_session state tenant_id session_id ≡ (err forbidden, state))
  unfolding load_owned_session begin_close_owned_session finalize_close_owned_session
      rollback_close_owned_session
  tenant_isolation session e other =
      let foreign : (session.tenant_id == tenant_id) ≡ false =
        ground (arith, eq_iff session.tenant_id tenant_id) in
      (ground arith, ground arith, ground arith, ground arith)

  pub begin_close_lem :
      (session : SessionRecord) (closed : WebState json topics)
      → begin_close_owned_session state tenant_id session_id ≡ (ok session, closed)
      → (found : SessionRecord) × (lookup session_id state.sessions ≡ some found)
        × (found.tenant_id ≡ tenant_id)
        × (found.lifecycle ≡ active)
        × (session ≡ begin_closing found)
        × (closed ≡ record state { sessions = modify session_id begin_closing state.sessions })
  unfolding begin_close_owned_session
  begin_close_lem session closed h =
      elim (Result-cases (load_owned_session state tenant_id session_id)) [
        | inl (e, failed) ↦ absurd (cc (failed, h))
        | inr (found, loaded) ↦
            let (there, owned, live) = load_owned_session-ok found loaded in
            (found, there, owned, live, ground arith, ground arith)
      ]

module _ {json : Json} {topics : Topics} (state : WebState json topics)
    (tenant_id session_id : String) (session : SessionRecord) (closed : WebState json topics)
    (begun : begin_close_owned_session state tenant_id session_id ≡ (ok session, closed)) where
  -- What the registry holds of a session that has begun to close.
  begun_record :
      (lookup session_id closed.sessions ≡ some session)
      × (session.tenant_id ≡ tenant_id)
      × (session.lifecycle ≡ closing)
  begun_record =
      let (found, there, owned, live, s, c) =
        begin_close_lem state tenant_id session_id session closed begun in
      (
        rw (c, s)
            (lookup-modify session_id session_id begin_closing state.sessions
              ∙ ground (arith, eq_iff session_id session_id)),
        rw s owned,
        rw s refl,
      )

  -- A close that has begun shuts the session to its owner: it can be neither used nor closed again.
  pub close_begun_shuts :
      (load_owned_session closed tenant_id session_id ≡ err session_closing)
      × (begin_close_owned_session closed tenant_id session_id ≡ (err session_closing, closed))
  unfolding load_owned_session begin_close_owned_session
  close_begun_shuts =
      let (there, owned, live) = begun_record in
      (
        ground (arith, eq_iff session.tenant_id tenant_id),
        ground (arith, eq_iff session.tenant_id tenant_id),
      )

  -- The rollback of a close that has begun puts the whole registry back as it was.
  pub rollback_undoes_begin :
      rollback_close_owned_session closed tenant_id session_id ≡ (ok tt, state)
  unfolding rollback_close_owned_session
  rollback_undoes_begin =
      let (found, there, owned, live, s, c) =
        begin_close_lem state tenant_id session_id session closed begun in
      let (there', owned', live') = begun_record in
      let back : modify session_id reopen closed.sessions ≡ state.sessions = rw c (
        modify-modify session_id begin_closing reopen state.sessions
        ∙ modify_same session_id (λ r. reopen (begin_closing r)) state.sessions there
            (ground arith)) in
      let ensured : ensure_owned_session closed tenant_id session_id ≡ ok tt =
        unfold ensure_owned_session in ground (arith, eq_iff session.tenant_id tenant_id) in
      rw (ensured, rollback_close_owned_session, back)
        (ap (λ (w : WebState json topics). (ok tt, record w { sessions = state.sessions })) c)

  -- After a close has begun its finalization succeeds, and drops the session.
  pub finalize_after_begin :
      finalize_close_owned_session closed tenant_id session_id
      ≡ (ok session, drop_session closed session_id session.thread_id)
  unfolding finalize_close_owned_session
  finalize_after_begin =
      let (there, owned, live) = begun_record in ground (arith, eq_iff session.tenant_id tenant_id)
