-- ===== src/Turn/Lifecycle/Bounds.antt =====
-- The loop that waits for the end of a turn keeps to its turn and to its budget.
use coclai.Prelude.{
  ℕ, ◌+◌, ◌≤◌, ◌<◌, leb, ◌≡◌, refl, sym, ap, ◌∙◌, true, false, not, ◌&&◌, none, some, List, [], ◌∷◌,
  filter, is_some, arith, Bool-cases, Option-cases, inl, inr,
}
use coclai.Json.{Json}
use coclai.Events.{Envelope}
use coclai.Checked.{Checked}
use coclai.Turn.Output.{TurnStreamCollector}
use coclai.Turn.Lifecycle.{
  Round, Collecting, Collected, round, collect_rounds, collect_turn_terminal_with_limits,
}
use coclai.Turn.Lifecycle.Rounds.{
  foreign, SameTurn, brings-SameTurn, targets, Keeps, round-Keeps, round-pays, round-foreign,
}

module _ (json : Json) {Hook E : Type 0}
    (on_target_envelope : Hook → Envelope json.Value → Hook × Checked E (Unit {0})) where
  open json use {Value}

  collect_rounds_next :
      (deadline : ℕ) (st : Collecting Hook) (r : Round Value E) (rs : List (Round Value E))
      → (round json on_target_envelope deadline st r).1 ≡ none
      → collect_rounds json on_target_envelope deadline st (r ∷ rs)
        ≡ collect_rounds json on_target_envelope deadline
            (round json on_target_envelope deadline st r).0
            rs
  unfolding collect_rounds
  collect_rounds_next deadline st r rs e = rw (collect_rounds, e) refl

  collect_rounds_done :
      (deadline : ℕ) (st : Collecting Hook) (r : Round Value E) (rs : List (Round Value E))
      (x : Collected json on_target_envelope)
      → (round json on_target_envelope deadline st r).1 ≡ some x
      → collect_rounds json on_target_envelope deadline st (r ∷ rs)
        ≡ ((round json on_target_envelope deadline st r).0, some x)
  unfolding collect_rounds
  collect_rounds_done deadline st r rs x e = rw (collect_rounds, e) refl

  collect_rounds_cong :
      (deadline : ℕ) (st : Collecting Hook) (r : Round Value E) (rs qs : List (Round Value E))
      → collect_rounds json on_target_envelope deadline
          (round json on_target_envelope deadline st r).0
          rs
        ≡ collect_rounds json on_target_envelope deadline
            (round json on_target_envelope deadline st r).0
            qs
      → collect_rounds json on_target_envelope deadline st (r ∷ rs)
        ≡ collect_rounds json on_target_envelope deadline st (r ∷ qs)
  collect_rounds_cong deadline st r rs qs same =
      elim (Option-cases (round json on_target_envelope deadline st r).1) [
        | inl more ↦
            collect_rounds_next deadline st r rs more
            ∙ same
            ∙ sym (collect_rounds_next deadline st r qs more)
        | inr (x, end) ↦
            collect_rounds_done deadline st r rs x end
            ∙ sym (collect_rounds_done deadline st r qs x end)
      ]

  collect_rounds-Keeps :
      (deadline : ℕ) (st : Collecting Hook) (rs : List (Round Value E))
      → Keeps json on_target_envelope st (collect_rounds json on_target_envelope deadline st rs)
  unfolding collect_rounds
  collect_rounds-Keeps deadline st [] = ((refl, refl), omega arith)
  collect_rounds-Keeps deadline st (r ∷ rs) =
      elim (Option-cases (round json on_target_envelope deadline st r).1) [
        | inl more ↦
            let one = round-Keeps json on_target_envelope deadline st r in
            let rest =
              collect_rounds-Keeps deadline (round json on_target_envelope deadline st r).0 rs in
            rw (collect_rounds_next deadline st r rs more)
              ((rest.0.0 ∙ one.0.0, rest.0.1 ∙ one.0.1), omega (arith, rest.1, one.1))
        | inr (x, end) ↦
            rw (collect_rounds_done deadline st r rs x end)
              (round-Keeps json on_target_envelope deadline st r)
      ]

  -- No more envelopes of the turn are pushed into the collector than `max_turn_event_scan`.
  pub collect_turn_terminal_with_limits-matching_le :
      (deadline : ℕ) (hook : Hook) (stream : TurnStreamCollector) (max_turn_event_scan : ℕ)
      (rs : List (Round Value E))
      → (collect_turn_terminal_with_limits json on_target_envelope deadline hook stream
          max_turn_event_scan rs).0.stream.matching_turn_events
        ≤ stream.matching_turn_events + max_turn_event_scan
  unfolding collect_turn_terminal_with_limits
  collect_turn_terminal_with_limits-matching_le deadline hook stream max_turn_event_scan rs =
      omega (
        arith,
        (collect_rounds-Keeps deadline
            (record { hook = hook; stream = stream; turn_event_budget = max_turn_event_scan })
            rs).1,
      )

  skips :
      (deadline : ℕ) (stream : TurnStreamCollector) (r : Round Value E) (rs : List (Round Value E))
      → foreign deadline stream r ≡ true
      → filter (λ r. not (foreign deadline stream r)) (r ∷ rs)
        ≡ filter (λ r. not (foreign deadline stream r)) rs
  unfolding filter
  skips deadline stream r rs h = rw (filter, h) refl

  keeps :
      (deadline : ℕ) (stream : TurnStreamCollector) (r : Round Value E) (rs : List (Round Value E))
      → foreign deadline stream r ≡ false
      → filter (λ r. not (foreign deadline stream r)) (r ∷ rs)
        ≡ r ∷ filter (λ r. not (foreign deadline stream r)) rs
  unfolding filter
  keeps deadline stream r rs h = rw (filter, h) refl

  -- Rounds of another turn that come before the deadline make no difference: the loop ends, or
  -- waits, exactly as it does without them, with the same text, budget and state of the callback.
  pub collect_rounds-filter :
      (deadline : ℕ) (stream : TurnStreamCollector) (st : Collecting Hook)
      (rs : List (Round Value E))
      → SameTurn st.stream stream
      → collect_rounds json on_target_envelope deadline st rs
        ≡ collect_rounds json on_target_envelope deadline st
            (filter (λ r. not (foreign deadline stream r)) rs)
  unfolding collect_rounds filter
  collect_rounds-filter deadline stream st [] h = refl
  collect_rounds-filter deadline stream st (r ∷ rs) h =
      elim (Bool-cases (foreign deadline stream r)) [
        | inl other ↦
            let here =
              ap (λ b. not (leb deadline r.now) && b) (brings-SameTurn st.stream stream false r h)
              ∙ other in
            let stays = round-foreign json on_target_envelope deadline st r here in
            collect_rounds_next deadline st r rs (ap (λ p. p.1) stays)
            ∙ ap (λ p. collect_rounds json on_target_envelope deadline p.0 rs) stays
            ∙ collect_rounds-filter deadline stream st rs h
            ∙ ap (collect_rounds json on_target_envelope deadline st)
                (sym (skips deadline stream r rs other))
        | inr kept ↦
            let (thread, turn) = (round-Keeps json on_target_envelope deadline st r).0 in
            collect_rounds_cong deadline st r rs (filter (λ r. not (foreign deadline stream r)) rs)
              (collect_rounds-filter deadline stream (round json on_target_envelope deadline st r).0
                rs (thread ∙ h.0, turn ∙ h.1))
            ∙ ap (collect_rounds json on_target_envelope deadline st)
                (sym (keeps deadline stream r rs kept))
      ]

  collect_rounds_ends :
      (deadline : ℕ) (stream : TurnStreamCollector) (st : Collecting Hook)
      (rs : List (Round Value E))
      → SameTurn st.stream stream
      → st.turn_event_budget < targets stream rs
      → is_some (collect_rounds json on_target_envelope deadline st rs).1 ≡ true
  collect_rounds_ends deadline stream st [] h more = absurd (omega (arith, more))
  collect_rounds_ends deadline stream st (r ∷ rs) h more =
      elim (Option-cases (round json on_target_envelope deadline st r).1) [
        | inl waits ↦
            let (thread, turn) = (round-Keeps json on_target_envelope deadline st r).0 in
            let paid = round-pays json on_target_envelope deadline st r (ap is_some waits) in
            let same = brings-SameTurn st.stream stream true r h in
            rw (collect_rounds_next deadline st r rs waits) (
              collect_rounds_ends deadline stream (round json on_target_envelope deadline st r).0 rs
                (thread ∙ h.0, turn ∙ h.1) (ground arith))
        | inr (x, end) ↦ rw (collect_rounds_done deadline st r rs x end) refl
      ]

  -- The loop ends: once more than `max_turn_event_scan` envelopes of the turn came in, there is a
  -- result, whatever else came in between and whatever the callback answers.
  pub collect_turn_terminal_with_limits_ends :
      (deadline : ℕ) (hook : Hook) (stream : TurnStreamCollector) (max_turn_event_scan : ℕ)
      (rs : List (Round Value E))
      → max_turn_event_scan < targets stream rs
      → is_some
          (collect_turn_terminal_with_limits json on_target_envelope deadline hook stream
            max_turn_event_scan rs).1
        ≡ true
  unfolding collect_turn_terminal_with_limits
  collect_turn_terminal_with_limits_ends deadline hook stream max_turn_event_scan rs more =
      collect_rounds_ends deadline stream
        (record { hook = hook; stream = stream; turn_event_budget = max_turn_event_scan }) rs
        (refl, refl) more
