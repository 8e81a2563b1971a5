-- ===== src/State/Within/Reduced.antt =====
-- The reducer keeps the state within the limits, over any sequence of events.
use coclai.Prelude.{List, [], ◌∷◌, Option-cases, Bool-cases, inl, inr, arith}
use coclai.Json.{Json}
use coclai.Events.{Envelope}
use coclai.State.{StateProjectionLimits, RuntimeState, default_state}
use coclai.State.Prune.{SelectNth}
use coclai.State.Reduce.{is_stale_thread_event, event_of_method, reduce_in_place_with_limits}
use coclai.State.Within.{StateWithin}
use coclai.State.Within.Touched.{handle_event-StateTouched}
use coclai.State.Within.Pruned.{prune_state-StateWithin}

module _ (json : Json) (select : SelectNth) where
  -- Every event keeps a state that is within the retention limits within them: at most `max_threads`
  -- threads, in each at most `max_turns_per_thread` turns (or one, where that is 0), in each at most
  -- `max_items_per_turn` items, in each no accumulator past its cap, and no key twice in a map.
  pub reduce-StateWithin :
      (limits : StateProjectionLimits) (state : RuntimeState json.Value)
      (envelope : Envelope json.Value)
      → StateWithin limits state
      → StateWithin limits (reduce_in_place_with_limits json select state envelope limits)
  unfolding reduce_in_place_with_limits
  reduce-StateWithin limits state envelope h = elim (Option-cases envelope.method) [
    | inl e ↦ rw (e, reduce_in_place_with_limits) h
    | inr (method, e) ↦
        elim (Bool-cases (is_stale_thread_event state envelope.thread_id envelope.seq)) [
          | inl stale ↦ rw (e, reduce_in_place_with_limits, stale) h
          | inr fresh ↦
              rw (e, reduce_in_place_with_limits, fresh)
                (prune_state-StateWithin select limits envelope.thread_id _
                  (handle_event-StateTouched json limits (event_of_method method) state envelope h))
        ]
  ]

  -- The runtime applies the reducer to one envelope after the other.
  pub reduce_all :
      StateProjectionLimits
      → RuntimeState json.Value
      → List (Envelope json.Value)
      → RuntimeState json.Value
  reduce_all limits state [] = state
  reduce_all limits state (envelope ∷ rest) =
      reduce_all limits (reduce_in_place_with_limits json select state envelope limits) rest

  reduce_all_from :
      (limits : StateProjectionLimits) (state : RuntimeState json.Value)
      (envelopes : List (Envelope json.Value))
      → StateWithin limits state
      → StateWithin limits (reduce_all limits state envelopes)
  unfolding reduce_all
  reduce_all_from limits state [] h = h
  reduce_all_from limits state (envelope ∷ rest) h =
      reduce_all_from limits (reduce_in_place_with_limits json select state envelope limits) rest
        (reduce-StateWithin limits state envelope h)

  -- From the default state, whatever events arrive, the state stays within the retention limits.
  pub reduce_all-StateWithin :
      (limits : StateProjectionLimits) (envelopes : List (Envelope json.Value))
      → StateWithin limits (reduce_all limits (default_state json.Value) envelopes)
  unfolding default_state
  reduce_all-StateWithin limits envelopes = reduce_all_from limits _ envelopes (tt, omega arith, tt)
