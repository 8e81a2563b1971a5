-- ===== src/Web/Registry/Dropped.antt =====
-- What is gone with a session: crates/codex-runtime/src/adapters/web/state.rs.
use coclai.Prelude.{
  ◌≡◌, refl, ◌≢◌, String, false, Option, none, some, ◌==◌, lookup, arith, eq_iff, lookup-modify,
  lookup-retain, lookup-remove_self, lookup-remove_ne, not, ◌>>=◌ as ◌|>◌, UniqueKeys,
  if◌then◌else◌, modify, retain, Map, subst, sym, ◌∙◌,
}
use coclai.Json.{Json}
use coclai.Web.Types.{ok, SessionRecord, Topics, WebState}
use coclai.Web.Registry.{begin_close_owned_session, begin_closing, drop_session}
use coclai.Web.Registry.Access.{begin_close_lem}

-- Who is reached through an approval, where the approvals of a session are given up.
abbrev pub except_owner : (session_id : String) → Option String → Option String
except_owner session_id owner = owner |> λ v. if v == session_id then none else some v

lookup-retain-except_owner :
    (session_id approval : String) (owners : Map String)
    → UniqueKeys owners
    → lookup approval (retain (λ _ owner. not (owner == session_id)) owners)
      ≡ except_owner session_id (lookup approval owners)
lookup-retain-except_owner session_id approval owners u =
    lookup-retain (λ _ owner. not (owner == session_id)) approval owners u
    ∙ same (lookup approval owners)
  where
    same :
        (owner : Option String)
        → (owner |> λ v. if not (v == session_id) then some v else none)
          ≡ except_owner session_id owner
    same none = refl
    same (some v) = ground arith

except_owner_ne :
    (session_id : String) (owner : Option String) → except_owner session_id owner ≢ some session_id
except_owner_ne session_id none e = cc
except_owner_ne session_id (some v) e = ground (arith, eq_iff v session_id)

module _ {json : Json} {topics : Topics} where
  -- What `left` holds once the session and its thread are gone from the registry: nothing of the
  -- session, everything of the other session and of the other thread, and every approval with its
  -- owner but those of the session.
  abbrev pub IsGone :
      (state left : WebState json topics)
      → (session_id thread_id other other_thread approval : String) → Type 0
  IsGone state left session_id thread_id other other_thread approval =
      (lookup session_id left.sessions ≡ none)
      × (lookup session_id left.event_topics ≡ none)
      × (lookup session_id left.approval_topics ≡ none)
      × (lookup session_id left.queued_approvals ≡ none)
      × (lookup thread_id left.thread_to_session ≡ none)
      × (lookup approval left.approval_to_session ≢ some session_id)
      × (lookup other left.sessions ≡ lookup other state.sessions)
      × (lookup other left.event_topics ≡ lookup other state.event_topics)
      × (lookup other left.approval_topics ≡ lookup other state.approval_topics)
      × (lookup other left.queued_approvals ≡ lookup other state.queued_approvals)
      × (lookup other_thread left.thread_to_session ≡ lookup other_thread state.thread_to_session)
      × (lookup approval left.approval_to_session
          ≡ except_owner session_id (lookup approval state.approval_to_session))

module _ {json : Json} {topics : Topics} (state : WebState json topics)
    (session_id thread_id : String) where
  -- Where no approval is indexed twice, a dropped session leaves nothing behind: no record, no topic,
  -- no queue, no entry of its thread and no approval that leads to it. The record, the topics and the
  -- queue of any other session stay, as does the entry of any other thread, and every approval of
  -- another session keeps its owner.
  pub drop_session_lem :
      (other other_thread approval : String)
      → UniqueKeys state.approval_to_session
      → (session_id == other) ≡ false
      → (thread_id == other_thread) ≡ false
      → IsGone state
          (drop_session state session_id thread_id)
          session_id
          thread_id
          other
          other_thread
          approval
  unfolding drop_session
  drop_session_lem other other_thread approval u apart apart_thread =
      let owner = lookup-retain-except_owner session_id approval state.approval_to_session u in
      (
        lookup-remove_self session_id state.sessions,
        lookup-remove_self session_id state.event_topics,
        lookup-remove_self session_id state.approval_topics,
        lookup-remove_self session_id state.queued_approvals,
        lookup-remove_self thread_id state.thread_to_session,
        λ found.
            except_owner_ne session_id (lookup approval state.approval_to_session)
              (sym owner ∙ found),
        lookup-remove_ne session_id other state.sessions apart,
        lookup-remove_ne session_id other state.event_topics apart,
        lookup-remove_ne session_id other state.approval_topics apart,
        lookup-remove_ne session_id other state.queued_approvals apart,
        lookup-remove_ne thread_id other_thread state.thread_to_session apart_thread,
        owner,
      )

module _ {json : Json} {topics : Topics} (state : WebState json topics)
    (tenant_id session_id : String) (session : SessionRecord) (closed : WebState json topics)
    (begun : begin_close_owned_session state tenant_id session_id ≡ (ok session, closed)) where
  -- What is gone when a session that has begun to close is dropped, of the registry before the begin.
  pub drop_closing :
      (other other_thread approval : String)
      → UniqueKeys state.approval_to_session
      → (session_id == other) ≡ false
      → (session.thread_id == other_thread) ≡ false
      → IsGone state
          (drop_session closed session_id session.thread_id)
          session_id
          session.thread_id
          other
          other_thread
          approval
  unfolding drop_session
  drop_closing other other_thread approval u apart apart_thread =
      let (found, there, owned, live, s, c) =
        begin_close_lem state tenant_id session_id session closed begun in
      let marked : WebState json topics = record state {
        sessions = modify session_id begin_closing state.sessions;
      } in
      let (
        record_gone, events_gone, topic_gone, queue_gone, thread_gone, owner_gone, kept, events,
        topic, queue, thread, owner,
      ) =
        drop_session_lem marked session_id session.thread_id other other_thread approval u apart
          apart_thread in
      let unmarked : lookup other marked.sessions ≡ lookup other state.sessions =
        lookup-modify session_id other begin_closing state.sessions ∙ ground (arith, apart) in
      subst
        (λ w.
          IsGone state (drop_session w session_id session.thread_id) session_id session.thread_id
            other other_thread approval)
        (sym c)
        (
          record_gone,
          events_gone,
          topic_gone,
          queue_gone,
          thread_gone,
          owner_gone,
          kept ∙ unmarked,
          events,
          topic,
          queue,
          thread,
          owner,
        )
