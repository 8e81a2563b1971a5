-- ===== src/Web/Registry/Consistent.antt =====
-- The registry's maps agree with one another, and every operation of
-- crates/codex-runtime/src/adapters/web/state.rs keeps them so.
use coclai.Prelude.{
  ℕ, ◌≤◌, ◌≡◌, refl, String, true, not, none, some, ◌==◌, lookup, arith, eq_iff, Option-cases, inl,
  inr, lookup-remove, lookup-modify, lookup-insert, modify, lookup-retain, UniqueKeys, ◌>>=◌,
  is_some, length, ap, Entries, Entries-remove, retain-UniqueKeys,
}
use coclai.Json.{Json}
use coclai.Web.Types.{
  WebAdapterConfig, ok, SessionRecord, Topics, WebState, active, empty_state, Result-cases,
}
use coclai.Web.Registry.{
  register_session, begin_close_owned_session, finalize_close_owned_session,
  rollback_close_owned_session, new_session, begin_closing, reopen, add_session, drop_session,
  session_from_thread_index, load_owned_session, load_closing_session, ensure_owned_session,
}

reopen_same :
    (r : SessionRecord) → record (reopen r) { lifecycle = active } ≡ record r { lifecycle = active }
reopen_same r = ground arith

module _ {json : Json} {topics : Topics} (capacity : ℕ) where
  -- The thread index and the sessions are inverse to one another; every session has its topics and
  -- the configured capacity; every approval has a session; no queue is past the capacity.
  pub record Consistent (state : WebState json topics) : Type 0 where
    pub unique_approvals : UniqueKeys state.approval_to_session
    pub indexed :
        (thread_id session_id : String)
        → lookup thread_id state.thread_to_session ≡ some session_id
        → (lookup session_id state.sessions >>= λ session. some session.thread_id) ≡ some thread_id
    pub registered :
        (session_id : String) (session : SessionRecord)
        → lookup session_id state.sessions ≡ some session
        → (session.session_id ≡ session_id)
          × (lookup session.thread_id state.thread_to_session ≡ some session_id)
          × (is_some (lookup session_id state.event_topics) ≡ true)
          × (is_some (lookup session_id state.approval_topics) ≡ true)
          × (session.approval_queue_capacity ≡ capacity)
    pub owned :
        (approval_id session_id : String)
        → lookup approval_id state.approval_to_session ≡ some session_id
        → is_some (lookup session_id state.sessions) ≡ true
    pub queued : Entries (λ _ requests. length requests ≤ capacity) state.queued_approvals

  pub empty_state-Consistent : Consistent (empty_state json topics)
  unfolding lookup
  empty_state-Consistent = record {
    unique_approvals = tt;
    indexed = λ t s e. cc;
    registered = λ s r e. absurd (cc e);
    owned = λ a s e. cc;
    queued = tt;
  }

  -- A new session, under an id that no session has, for a thread that has none.
  add_session-Consistent :
      (state : WebState json topics) (config : WebAdapterConfig)
      (session_id tenant_id artifact_id thread_id : String)
      → config.session_approval_channel_capacity ≡ capacity
      → lookup session_id state.sessions ≡ none
      → lookup thread_id state.thread_to_session ≡ none
      → Consistent state
      → Consistent (add_session state config session_id tenant_id artifact_id thread_id)
  unfolding add_session
  add_session-Consistent state config session_id tenant_id artifact_id thread_id c fresh free h =
      let added = new_session config session_id tenant_id artifact_id thread_id in
      record {
        unique_approvals = h.unique_approvals;
        indexed = λ t s e. ground (
          arith,
          lookup-insert thread_id t session_id state.thread_to_session,
          lookup-insert session_id s added state.sessions,
          h.indexed t s,
          eq_iff thread_id t,
          eq_iff session_id s,
        );
        registered = λ s r e. ground (
          arith,
          lookup-insert session_id s added state.sessions,
          lookup-insert thread_id r.thread_id session_id state.thread_to_session,
          lookup-insert session_id s (topics.event_channel config.session_event_channel_capacity)
              state.event_topics,
          lookup-insert session_id s
              (topics.approval_channel config.session_approval_channel_capacity)
              state.approval_topics,
          h.registered s r,
          eq_iff thread_id r.thread_id,
          eq_iff session_id s,
        );
        owned =
            λ a s e. ground (arith, lookup-insert session_id s added state.sessions, h.owned a s);
        queued = h.queued;
      }

  -- A change of the lifecycle alone.
  modify-Consistent :
      (state : WebState json topics) (session_id : String) (change : SessionRecord → SessionRecord)
      → ((r : SessionRecord)
          → record (change r) { lifecycle = active } ≡ record r { lifecycle = active })
      → Consistent state
      → Consistent (record state { sessions = modify session_id change state.sessions })
  modify-Consistent state session_id change same h = record {
    unique_approvals = h.unique_approvals;
    indexed = λ t s e.
        let kept = h.indexed t s e in
        elim (Option-cases (lookup s state.sessions)) [
          | inl missing ↦ absurd (cc (kept, ap (λ o. o >>= λ r. some r.thread_id) missing))
          | inr (r, there) ↦
              let thread : (change r).thread_id ≡ r.thread_id =
                ap (λ (x : SessionRecord). x.thread_id) (same r) in
              ground (arith, lookup-modify session_id s change state.sessions, thread)
        ];
    registered = λ s r e. elim (Option-cases (lookup s state.sessions)) [
      | inl missing ↦ ground (arith, lookup-modify session_id s change state.sessions)
      | inr (old, there) ↦
          let id : (change old).session_id ≡ old.session_id =
            ap (λ (x : SessionRecord). x.session_id) (same old) in
          let thread : (change old).thread_id ≡ old.thread_id =
            ap (λ (x : SessionRecord). x.thread_id) (same old) in
          let cap : (change old).approval_queue_capacity ≡ old.approval_queue_capacity =
            ap (λ (x : SessionRecord). x.approval_queue_capacity) (same old) in
          ground (
            arith,
            lookup-modify session_id s change state.sessions,
            h.registered s old there,
            id,
            thread,
            cap,
          )
    ];
    owned = λ a s e. ground (arith, lookup-modify session_id s change state.sessions, h.owned a s);
    queued = h.queued;
  }

  drop_session-Consistent :
      (state : WebState json topics) (session_id : String) (session : SessionRecord)
      → lookup session_id state.sessions ≡ some session
      → Consistent state
      → Consistent (drop_session state session_id session.thread_id)
  unfolding drop_session
  drop_session-Consistent state session_id session there h = record {
    unique_approvals = retain-UniqueKeys _ state.approval_to_session h.unique_approvals;
    indexed = λ t s e. ground (
      arith,
      lookup-remove session.thread_id t state.thread_to_session,
      lookup-remove session_id s state.sessions,
      h.indexed t s,
      eq_iff session.thread_id t,
      eq_iff session_id s,
    );
    registered = λ s r e. ground (
      arith,
      lookup-remove session_id s state.sessions,
      lookup-remove session.thread_id r.thread_id state.thread_to_session,
      lookup-remove session_id s state.event_topics,
      lookup-remove session_id s state.approval_topics,
      h.registered s r,
      h.registered session_id session there,
      eq_iff session.thread_id r.thread_id,
      eq_iff session_id s,
    );
    owned = λ a s e. ground (
      arith,
      lookup-retain (λ _ owner. not (owner == session_id)) a state.approval_to_session
          h.unique_approvals,
      lookup-remove session_id s state.sessions,
      h.owned a s,
      eq_iff s session_id,
      eq_iff session_id s,
    );
    queued = Entries-remove _ session_id state.queued_approvals h.queued;
  }

  free_of_index :
      (state : WebState json topics) (thread_id : String)
      → session_from_thread_index state thread_id ≡ ok none
      → lookup thread_id state.thread_to_session ≡ none
  unfolding session_from_thread_index
  free_of_index state thread_id e = ground arith

  found_of_closing :
      (state : WebState json topics) (tenant_id session_id : String) (session : SessionRecord)
      → load_closing_session state tenant_id session_id ≡ ok session
      → lookup session_id state.sessions ≡ some session
  unfolding load_closing_session
  found_of_closing state tenant_id session_id session e = ground arith

  module _ (state : WebState json topics) (h : Consistent state) where
    -- `register_session` keeps the maps consistent, whether it adds a session or not.
    pub register_session-Consistent :
        (config : WebAdapterConfig) (session_id tenant_id artifact_id thread_id : String)
        → config.session_approval_channel_capacity ≡ capacity
        → lookup session_id state.sessions ≡ none
        → Consistent (register_session state config session_id tenant_id artifact_id thread_id).1
    unfolding register_session
    register_session-Consistent config session_id tenant_id artifact_id thread_id c fresh =
        elim (Result-cases (session_from_thread_index state thread_id)) [
          | inl (e, failed) ↦ rw (failed, register_session) h
          | inr (none, free) ↦
              rw (free, register_session)
                (add_session-Consistent state config session_id tenant_id artifact_id thread_id c
                  fresh (free_of_index state thread_id free) h)
          | inr (some existing, found) ↦ rw (found, register_session) h
        ]

    pub begin_close-Consistent :
        (tenant_id session_id : String)
        → Consistent (begin_close_owned_session state tenant_id session_id).1
    unfolding begin_close_owned_session
    begin_close-Consistent tenant_id session_id =
        elim (Result-cases (load_owned_session state tenant_id session_id)) [
          | inl (e, failed) ↦ rw (failed, begin_close_owned_session) h
          | inr (session, loaded) ↦
              rw (loaded, begin_close_owned_session)
                (modify-Consistent state session_id begin_closing (λ r. refl) h)
        ]

    pub finalize_close-Consistent :
        (tenant_id session_id : String)
        → Consistent (finalize_close_owned_session state tenant_id session_id).1
    unfolding finalize_close_owned_session
    finalize_close-Consistent tenant_id session_id =
        elim (Result-cases (load_closing_session state tenant_id session_id)) [
          | inl (e, failed) ↦ rw (failed, finalize_close_owned_session) h
          | inr (session, loaded) ↦
              rw (loaded, finalize_close_owned_session)
                (drop_session-Consistent state session_id session
                  (found_of_closing state tenant_id session_id session loaded) h)
        ]

    pub rollback_close-Consistent :
        (tenant_id session_id : String)
        → Consistent (rollback_close_owned_session state tenant_id session_id).1
    unfolding rollback_close_owned_session
    rollback_close-Consistent tenant_id session_id =
        elim (Result-cases (ensure_owned_session state tenant_id session_id)) [
          | inl (e, failed) ↦ rw (failed, rollback_close_owned_session) h
          | inr (_, owned) ↦
              rw (owned, rollback_close_owned_session)
                (modify-Consistent state session_id reopen reopen_same h)
        ]
