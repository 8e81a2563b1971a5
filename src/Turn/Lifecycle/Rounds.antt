-- ===== src/Turn/Lifecycle/Rounds.antt =====
-- One round of the loop that waits for the end of a turn.
use coclai.Prelude.{
  ℕ, ◌+◌, ◌-◌, ◌≤◌, ◌<◌, leb, eqb, ◌≡◌, refl, Bool, true, false, not, ◌&&◌, Option, none, List, [],
  ◌∷◌, is_some, if◌then◌else◌, arith, Bool-cases, inl, inr,
}
use coclai.Json.{Json}
use coclai.Events.{Envelope}
use coclai.Checked.{Checked, Checked-cases}
use coclai.Turn.Output.{TurnStreamCollector, is_target_envelope, push_envelope}
use coclai.Turn.Lifecycle.{
  Received, received, lagged, closed, elapsed, Round, Collecting, Collected, on_envelope, round,
}

-- The round brings an envelope of the turn, or of another one.
unfoldable pub brings : {Value E : Type 0} → TurnStreamCollector → Bool → Round Value E → Bool
unfolding is_target_envelope
brings stream target r = elim r.event [
  | closed ↦ false
  | elapsed ↦ false
  | lagged now probe ↦ false
  | received envelope ↦
      if target
      then is_target_envelope stream envelope
      else not (is_target_envelope stream envelope)
]

-- The round is one of another turn that comes before the deadline.
abbrev pub foreign : {Value E : Type 0} → ℕ → TurnStreamCollector → Round Value E → Bool
foreign deadline stream r = not (leb deadline r.now) && brings stream false r

-- The streams are those of the same turn.
abbrev pub SameTurn : TurnStreamCollector → TurnStreamCollector → Type 0
SameTurn s t = (s.thread_id ≡ t.thread_id) × (s.turn_id ≡ t.turn_id)

abbrev pub targets : {Value E : Type 0} → TurnStreamCollector → List (Round Value E) → ℕ
targets stream [] = 0
targets stream (r ∷ rs) = (if brings stream true r then 1 else 0) + targets stream rs

pub brings-SameTurn :
    {Value E : Type 0} (s t : TurnStreamCollector) (target : Bool) (r : Round Value E)
    → SameTurn s t
    → brings s target r ≡ brings t target r
unfolding brings is_target_envelope
brings-SameTurn {Value} {E} s t target r (thread, turn) = go r.event refl
  where
    go : (event : Received Value E) → r.event ≡ event → brings s target r ≡ brings t target r
    go (received envelope) e = rw (brings, is_target_envelope, e, thread, turn) refl
    go (lagged now probe) e = rw (brings, e) refl
    go closed e = rw (brings, e) refl
    go elapsed e = rw (brings, e) refl

module _ (json : Json) {Hook E : Type 0}
    (on_target_envelope : Hook → Envelope json.Value → Hook × Checked E (Unit {0})) where
  open json use {Value}

  push_envelope-SameTurn :
      (stream : TurnStreamCollector) (envelope : Envelope Value)
      → SameTurn (push_envelope json stream envelope).0 stream
  unfolding push_envelope
  push_envelope-SameTurn stream envelope = elim (Bool-cases (is_target_envelope stream envelope)) [
    | inl mine ↦ rw (push_envelope, mine) (refl, refl)
    | inr other ↦ rw (push_envelope, other) (refl, refl)
  ]

  push_envelope-matching :
      (stream : TurnStreamCollector) (envelope : Envelope Value)
      → (push_envelope json stream envelope).0.matching_turn_events
        ≤ stream.matching_turn_events + 1
  unfolding push_envelope
  push_envelope-matching stream envelope = elim (Bool-cases (is_target_envelope stream envelope)) [
    | inl mine ↦ rw (push_envelope, mine) (omega arith)
    | inr other ↦ rw (push_envelope, other) (omega arith)
  ]

  -- What handling an envelope of the turn keeps.
  abbrev pub Keeps :
      Collecting Hook → Collecting Hook × Option (Collected json on_target_envelope) → Type 0
  Keeps st (next, result) =
      SameTurn next.stream st.stream
      × (next.stream.matching_turn_events + next.turn_event_budget
          ≤ st.stream.matching_turn_events + st.turn_event_budget)

  abbrev Pays :
      Collecting Hook → Collecting Hook × Option (Collected json on_target_envelope) → Type 0
  Pays st (next, result) =
      (is_some result ≡ false)
      → (0 < st.turn_event_budget) × (next.turn_event_budget ≡ st.turn_event_budget - 1)

  on_envelope-Keeps :
      (st : Collecting Hook) (envelope : Envelope Value)
      → Keeps st (on_envelope json on_target_envelope st envelope)
  unfolding on_envelope
  on_envelope-Keeps st envelope = elim (Bool-cases (eqb st.turn_event_budget 0)) [
    | inl spent ↦ rw (on_envelope, spent) ((refl, refl), omega arith)
    | inr left ↦ elim (Checked-cases ((on_target_envelope st.hook envelope).1)) [
      | inl (e, refused) ↦ rw (on_envelope, left, refused) ((refl, refl), omega arith)
      | inr (_, fine) ↦
          let count = push_envelope-matching st.stream envelope in
          rw (on_envelope, left, fine) (push_envelope-SameTurn st.stream envelope, ground arith)
    ]
  ]

  on_envelope-Pays :
      (st : Collecting Hook) (envelope : Envelope Value)
      → Pays st (on_envelope json on_target_envelope st envelope)
  unfolding on_envelope
  on_envelope-Pays st envelope h = ground arith

  pub round-foreign :
      (deadline : ℕ) (st : Collecting Hook) (r : Round Value E)
      → foreign deadline st.stream r ≡ true
      → round json on_target_envelope deadline st r ≡ (st, none)
  unfolding round brings
  round-foreign deadline st r h = go r.event refl
    where
      go :
          (event : Received Value E)
          → r.event ≡ event
          → round json on_target_envelope deadline st r ≡ (st, none)
      go (received envelope) e = ground arith
      go (lagged now probe) e = ground arith
      go closed e = ground arith
      go elapsed e = ground arith

  pub round-Keeps :
      (deadline : ℕ) (st : Collecting Hook) (r : Round Value E)
      → Keeps st (round json on_target_envelope deadline st r)
  unfolding round
  round-Keeps deadline st r = elim (Bool-cases (leb deadline r.now)) [
    | inl late ↦ rw (round, late) same
    | inr in_time ↦ go in_time r.event refl
  ]
    where
      same :
          SameTurn st.stream st.stream
          × (st.stream.matching_turn_events + st.turn_event_budget
              ≤ st.stream.matching_turn_events + st.turn_event_budget)
      same = ((refl, refl), omega arith)

      go :
          leb deadline r.now ≡ false
          → (event : Received Value E) → r.event ≡ event
          → Keeps st (round json on_target_envelope deadline st r)
      go in_time (received envelope) e = elim (Bool-cases (is_target_envelope st.stream envelope)) [
        | inl mine ↦ rw (round, in_time, e, mine) (on_envelope-Keeps st envelope)
        | inr other ↦ rw (round, in_time, e, other) same
      ]
      go in_time (lagged now probe) e = rw (round, in_time, e) same
      go in_time closed e = rw (round, in_time, e) same
      go in_time elapsed e = rw (round, in_time, e) same

  -- A round that goes on has paid for an envelope of the turn, and for no other.
  pub round-pays :
      (deadline : ℕ) (st : Collecting Hook) (r : Round Value E)
      → is_some (round json on_target_envelope deadline st r).1 ≡ false
      → (round json on_target_envelope deadline st r).0.turn_event_budget
          + (if brings st.stream true r then 1 else 0)
        ≡ st.turn_event_budget
  unfolding round brings
  round-pays deadline st r h = go r.event refl
    where
      go :
          (event : Received Value E)
          → r.event ≡ event
          → (round json on_target_envelope deadline st r).0.turn_event_budget
              + (if brings st.stream true r then 1 else 0)
            ≡ st.turn_event_budget
      go (received envelope) e = ground (arith, on_envelope-Pays st envelope)
      go (lagged now probe) e = ground arith
      go closed e = ground arith
      go elapsed e = ground arith
