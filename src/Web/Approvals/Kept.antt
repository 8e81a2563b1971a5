-- ===== src/Web/Approvals/Kept.antt =====
-- The lock regions of the approval handlers, crates/codex-runtime/src/adapters/web/handlers.rs, keep
-- the registry consistent, also where they interleave with each other and with the registry's.
use coclai.Prelude.{
  ℕ, ◌≤◌, ◌≡◌, String, not, some, List, [], ◌∷◌, ◌==◌, lookup, arith, Option-cases, inl, inr,
  lookup-remove, lookup-insert, insert, remove, lookup-retain, length, insert-UniqueKeys,
  remove-UniqueKeys, retain-UniqueKeys, Entries-remove, Entries-retain, Entries-upsert_keep,
  Entries-map_values, length-append, length-filter-le, contains,
}
use coclai.Json.{Json}
use coclai.Web.Types.{SessionRecord, Topics, WebState, ServerRequest}
use coclai.Web.Registry.Consistent.{Consistent}
use coclai.Web.Approvals.{
  count_missing_session_mapping, count_missing_approval_topic, index_request, queue_request,
  prune_stale_approval_index, take_queued_approvals, forget_approval,
}

module _ {json : Json} {topics : Topics} (capacity : ℕ) (state : WebState json topics)
    (h : Consistent capacity state) where
  pub index_request-Consistent :
      (thread_id : String) (request : ServerRequest json.Value)
      → Consistent capacity (index_request state thread_id request).1
  unfolding index_request
  index_request-Consistent thread_id request =
      elim (Option-cases (lookup thread_id state.thread_to_session)) [
        | inl unmapped ↦ rw (unmapped, index_request) counted
        | inr (session_id, mapped) ↦ elim (Option-cases (lookup session_id state.sessions)) [
          | inl gone ↦ rw (mapped, index_request, gone) (unindexed session_id)
          | inr (session, there) ↦ elim (Option-cases (lookup session_id state.approval_topics)) [
            | inl closed ↦ rw (mapped, index_request, there, closed) (unindexed_counted session_id)
            | inr (sender, open_topic) ↦
                rw (mapped, index_request, there, open_topic) (indexed_to session_id session there)
          ]
        ]
      ]
    where
      counted : Consistent capacity (count_missing_session_mapping state)
      counted = record {
        unique_approvals = h.unique_approvals;
        indexed = h.indexed;
        registered = h.registered;
        owned = h.owned;
        queued = h.queued;
      }

      indexed_to :
          (session_id : String) (session : SessionRecord)
          → lookup session_id state.sessions ≡ some session
          → Consistent capacity (record state {
            approval_to_session = insert request.approval_id session_id state.approval_to_session;
          })
      indexed_to session_id session there = record {
        unique_approvals =
            insert-UniqueKeys request.approval_id session_id state.approval_to_session
              h.unique_approvals;
        indexed = h.indexed;
        registered = h.registered;
        owned = λ a s e. ground (
          arith,
          lookup-insert request.approval_id a session_id state.approval_to_session,
          h.owned a s,
        );
        queued = h.queued;
      }

      unindexed :
          (session_id : String)
          → Consistent capacity (record state {
            approval_to_session =
                remove request.approval_id
                  (insert request.approval_id session_id state.approval_to_session);
          })
      unindexed session_id = record {
        unique_approvals = remove-UniqueKeys request.approval_id _ (
            insert-UniqueKeys request.approval_id session_id state.approval_to_session
              h.unique_approvals);
        indexed = h.indexed;
        registered = h.registered;
        owned = λ a s e. ground (
          arith,
          lookup-remove request.approval_id a
              (insert request.approval_id session_id state.approval_to_session),
          lookup-insert request.approval_id a session_id state.approval_to_session,
          h.owned a s,
        );
        queued = h.queued;
      }

      unindexed_counted :
          (session_id : String)
          → Consistent capacity (
              count_missing_approval_topic (record state {
                approval_to_session =
                    remove request.approval_id
                      (insert request.approval_id session_id state.approval_to_session);
              }))
      unindexed_counted session_id =
          let kept = unindexed session_id in
          record {
            unique_approvals = kept.unique_approvals;
            indexed = h.indexed;
            registered = h.registered;
            owned = kept.owned;
            queued = h.queued;
          }

  -- The capacity that goes with a routed request is the configured one.
  index_request-capacity :
      (thread_id session_id : String) (request : ServerRequest json.Value)
      (sender : topics.ApprovalSender) (limit : ℕ)
      → (index_request state thread_id request).0 ≡ some (sender, session_id, limit)
      → limit ≡ capacity
  unfolding index_request
  index_request-capacity thread_id session_id request sender limit e =
      elim (Option-cases (lookup thread_id state.thread_to_session)) [
        | inl unmapped ↦ ground arith
        | inr (owner, mapped) ↦ elim (Option-cases (lookup owner state.sessions)) [
          | inl gone ↦ ground arith
          | inr (session, there) ↦ ground (arith, h.registered owner session there)
        ]
      ]

  pub queue_request-Consistent :
      (session_id : String) (limit : ℕ) (request : ServerRequest json.Value)
      → limit ≡ capacity
      → Consistent capacity (queue_request state session_id limit request)
  unfolding queue_request
  queue_request-Consistent session_id limit request e = record {
    unique_approvals = h.unique_approvals;
    indexed = h.indexed;
    registered = h.registered;
    owned = h.owned;
    queued =
        Entries-upsert_keep _ session_id [] _ state.queued_approvals (ground arith)
          (λ j queue fits. ground (arith, length-append queue (request ∷ []))) h.queued;
  }

  pub prune-Consistent :
      (active : List String) → Consistent capacity (prune_stale_approval_index state active)
  unfolding prune_stale_approval_index
  prune-Consistent active = record {
    unique_approvals = retain-UniqueKeys _ state.approval_to_session h.unique_approvals;
    indexed = h.indexed;
    registered = h.registered;
    owned = λ a s e. ground (
      arith,
      lookup-retain (λ approval_id _. contains active approval_id) a state.approval_to_session
          h.unique_approvals,
      h.owned a s,
    );
    queued = Entries-retain _ _ _ (
        Entries-map_values (λ _ queue. length queue ≤ capacity) (λ _ queue. length queue ≤ capacity)
          _ state.queued_approvals
          (λ k queue fits. omega (
            arith,
            length-filter-le (λ (r : ServerRequest json.Value). contains active r.approval_id)
                queue,
          ))
          h.queued);
  }

  pub forget_approval-Consistent :
      (approval_id : String) → Consistent capacity (forget_approval state approval_id)
  unfolding forget_approval
  forget_approval-Consistent approval_id = record {
    unique_approvals = remove-UniqueKeys approval_id state.approval_to_session h.unique_approvals;
    indexed = h.indexed;
    registered = h.registered;
    owned =
        λ a s e. ground (arith, lookup-remove approval_id a state.approval_to_session, h.owned a s);
    queued =
        Entries-map_values (λ _ queue. length queue ≤ capacity) (λ _ queue. length queue ≤ capacity)
          _ state.queued_approvals
          (λ k queue fits. omega (
            arith,
            length-filter-le (λ (r : ServerRequest json.Value). not (r.approval_id == approval_id))
                queue,
          ))
          h.queued;
  }

  pub take_queued-Consistent :
      (session_id : String) → Consistent capacity (take_queued_approvals state session_id).1
  unfolding take_queued_approvals
  take_queued-Consistent session_id =
      elim (Option-cases (lookup session_id state.approval_topics)) [
        | inl missing ↦ rw (missing, take_queued_approvals) h
        | inr (sender, found) ↦
            rw (found, take_queued_approvals)
              (record {
                unique_approvals = h.unique_approvals;
                indexed = h.indexed;
                registered = h.registered;
                owned = h.owned;
                queued = Entries-remove _ session_id state.queued_approvals h.queued;
              })
      ]
