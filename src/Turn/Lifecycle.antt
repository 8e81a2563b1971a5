-- ===== src/Turn/Lifecycle.antt =====
-- Waiting for the end of a turn: `collect_turn_terminal_with_limits`,
-- crates/codex-runtime/src/runtime/turn_lifecycle.rs. One element of the list is one round of the
-- loop: the clock at its start, what `recv` under the timeout gave, and, where the receiver lagged,
-- the clock and what the probe `on_lagged` answered. The callback `on_target_envelope` has a state
-- of its own, of type `Hook`.
pub mod Rounds
pub mod Bounds
use coclai.Prelude.{
  ℕ, ◌-◌, leb, eqb, String, Bool, true, false, not, Option, none, some, List, [], ◌∷◌,
  if◌then◌else◌,
}
use coclai.Json.{Json}
use coclai.Events.{Envelope}
use coclai.Checked.{Checked, ok, err}
use coclai.Turn.Output.{
  TurnTerminalEvent, completed, failed, cancelled, interrupted, TurnStreamCollector,
  is_target_envelope, push_envelope,
}

pub data LaggedTurnTerminal : Type 0 where
  lag_completed : (assistant_text : Option String) → LaggedTurnTerminal
  lag_failed : (message : Option String) → LaggedTurnTerminal
  lag_cancelled lag_interrupted : LaggedTurnTerminal

abbrev pub as_terminal_event : LaggedTurnTerminal → TurnTerminalEvent
as_terminal_event (lag_completed text) = completed
as_terminal_event (lag_failed message) = failed
as_terminal_event lag_cancelled = cancelled
as_terminal_event lag_interrupted = interrupted

pub data TurnCollectError (E : Type 0) : Type 0 where
  timed_out stream_closed event_budget_exceeded : TurnCollectError E
  target_envelope : E → TurnCollectError E
  lag_probe : E → TurnCollectError E

-- What `timeout(remaining, live_rx.recv())` gives.
pub data Received (Value E : Type 0) : Type 0 where
  received : Envelope Value → Received Value E
  lagged : (now : ℕ) → (probe : Checked E (Option LaggedTurnTerminal)) → Received Value E
  closed elapsed : Received Value E

pub record Round (Value E : Type 0) : Type 0 where
  pub now : ℕ
  pub event : Received Value E

pub record Collecting (Hook : Type 0) : Type 0 where
  pub hook : Hook
  pub stream : TurnStreamCollector
  pub turn_event_budget : ℕ

module _ (json : Json) {Hook E : Type 0}
    (on_target_envelope : Hook → Envelope json.Value → Hook × Checked E (Unit {0})) where
  open json use {Value}

  abbrev pub Collected : Type 0
  Collected = Checked (TurnCollectError E) (TurnTerminalEvent × Option LaggedTurnTerminal)

  -- The part of a round that handles an envelope of the turn.
  unfoldable pub on_envelope : Collecting Hook → Envelope Value → Collecting Hook × Option Collected
  unfolding push_envelope
  on_envelope st envelope =
      if eqb st.turn_event_budget 0
      then (st, some (err event_budget_exceeded))
      else let (hook, answer) = on_target_envelope st.hook envelope in
        let paid = record st { hook = hook; turn_event_budget = st.turn_event_budget - 1 } in
        elim answer [
          | err e ↦ (paid, some (err (target_envelope e)))
          | ok _ ↦
              let (stream, end) = push_envelope json st.stream envelope in
              (
                record paid { stream = stream },
                elim end [ none ↦ none | some terminal ↦ some (ok (terminal, none)) ],
              )
        ]

  -- `Err(RecvError::Lagged(_))`.
  unfoldable pub on_lag :
      (deadline now : ℕ) → Checked E (Option LaggedTurnTerminal) → Option Collected
  on_lag deadline now probe = if eqb (deadline - now) 0 then some (err timed_out) else elim probe [
    | err e ↦ some (err (lag_probe e))
    | ok answer ↦ elim answer [
      | none ↦ none
      | some snapshot ↦ some (ok (as_terminal_event snapshot, some snapshot))
    ]
  ]

  -- One round of the loop; no result means `continue`.
  unfoldable pub round :
      (deadline : ℕ) → Collecting Hook → Round Value E → Collecting Hook × Option Collected
  unfolding on_envelope on_lag is_target_envelope
  round deadline st r = if leb deadline r.now then (st, some (err timed_out)) else elim r.event [
    | closed ↦ (st, some (err stream_closed))
    | elapsed ↦ (st, some (err timed_out))
    | lagged now probe ↦ (st, on_lag deadline now probe)
    | received envelope ↦
        if not (is_target_envelope st.stream envelope) then (st, none) else on_envelope st envelope
  ]

  -- The loop, as far as the rounds that happened; no result means that it still waits.
  unfoldable pub collect_rounds :
      (deadline : ℕ) → Collecting Hook → List (Round Value E) → Collecting Hook × Option Collected
  unfolding round
  collect_rounds deadline st [] = (st, none)
  collect_rounds deadline st (r ∷ rs) =
      let (next, result) = round deadline st r in
      elim result [ some x ↦ (next, some x) | none ↦ collect_rounds deadline next rs ]

  unfoldable pub collect_turn_terminal_with_limits :
      (deadline : ℕ)
      → Hook
      → TurnStreamCollector
      → (max_turn_event_scan : ℕ) → List (Round Value E)
      → Collecting Hook × Option Collected
  unfolding collect_rounds
  collect_turn_terminal_with_limits deadline hook stream max_turn_event_scan rs =
      collect_rounds deadline
        (record { hook = hook; stream = stream; turn_event_budget = max_turn_event_scan }) rs
