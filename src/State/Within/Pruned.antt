-- ===== src/State/Within/Pruned.antt =====
-- Pruning brings a touched state back within the limits.
use coclai.Prelude.{
  ℕ, suc, ◌-◌, ◌≤◌, ◌≡◌, String, Option, none, some, Map, UniqueKeys, Entries, length,
  Entries-map_values, Entries-modify, modify-UniqueKeys, map_values-UniqueKeys, length-map_values,
  length-modify, arith, ap, [], take, inl, inr,
}
use coclai.State.{StateProjectionLimits, ItemState, TurnState, ThreadState, RuntimeState}
use coclai.State.Prune.{
  SelectNth, remove_all, candidates, prune_threads, prune_turns, prune_items, prune_thread,
  prune_state,
}
use coclai.State.Prune.Eviction.{remove_all-UniqueKeys, Entries-remove_all}
use coclai.State.Prune.Sizes.{
  length-prune_threads, length-prune_items, length-prune_turns, prune_threads_within,
  prune_threads_over, prune_items_within, prune_items_over, prune_turns_within, prune_turns_over,
  others,
}
use coclai.State.Within.{
  ItemFits, TurnFits, TurnWithin, ThreadFits, ThreadWithin, StateWithin, ThreadTouched,
  StateTouched,
}
use native.Mathlib.Decide.{dec_lt}

module _ {Value : Type 0} (select : SelectNth) where
  prune_threads_removes :
      (max_threads : ℕ) (threads : Map (ThreadState Value))
      → (c : Map ℕ) × (prune_threads select max_threads threads ≡ remove_all c threads)
  unfolding remove_all
  prune_threads_removes max_threads threads = elim (dec_lt max_threads (length threads)) [
    | yes over ↦
        let (i, inside, count, e) = prune_threads_over select max_threads threads over in
        (take (suc i) (select.run i (candidates (λ t. t.last_seq) none threads)), e)
    | no within ↦ ([], prune_threads_within select max_threads threads (omega arith))
  ]

  prune_items_removes :
      (max_items : ℕ) (items : Map (ItemState Value))
      → (c : Map ℕ) × (prune_items select max_items items ≡ remove_all c items)
  unfolding remove_all
  prune_items_removes max_items items = elim (dec_lt max_items (length items)) [
    | yes over ↦
        let (i, inside, count, e) = prune_items_over select max_items items over in
        (take (suc i) (select.run i (candidates (λ t. t.last_seq) none items)), e)
    | no within ↦ ([], prune_items_within select max_items items (omega arith))
  ]

  prune_turns_removes :
      (max_turns : ℕ) (thread : ThreadState Value)
      → (c : Map ℕ) × ((prune_turns select max_turns thread).turns ≡ remove_all c thread.turns)
  unfolding remove_all
  prune_turns_removes max_turns thread = elim (dec_lt max_turns (length thread.turns)) [
    | yes over ↦ elim (prune_turns_over select max_turns thread over) [
      | inl (none_left, e) ↦ ([], ap (λ (t : ThreadState Value). t.turns) e)
      | inr (i, inside, cut, e) ↦ (
        take (length thread.turns - max_turns) (select.run i (others select thread)),
        ap (λ (t : ThreadState Value). t.turns) e,
      )
    ]
    | no within ↦ (
      [],
      ap (λ (t : ThreadState Value). t.turns)
          (prune_turns_within select max_turns thread (omega arith)),
    )
  ]

  module _ (limits : StateProjectionLimits) where
    prune_turn :
        (k : String) (turn : TurnState Value)
        → TurnFits limits k turn
        → TurnWithin limits k
            (record turn { items = prune_items select limits.max_items_per_turn turn.items })
    prune_turn k turn (u, h) =
        let (c, e) = prune_items_removes limits.max_items_per_turn turn.items in
        (
          (
            rw e (remove_all-UniqueKeys c turn.items u),
            rw e (Entries-remove_all (ItemFits limits) c turn.items h),
          ),
          omega (arith, length-prune_items select limits.max_items_per_turn turn.items u),
        )

    pub prune_thread-ThreadWithin :
        (k : String) (thread : ThreadState Value)
        → ThreadFits limits k thread
        → ThreadWithin limits k (prune_thread select limits thread)
    unfolding prune_thread
    prune_thread-ThreadWithin k thread (u, h) =
        let kept = prune_turns select limits.max_turns_per_thread thread in
        let (c, e) = prune_turns_removes limits.max_turns_per_thread thread in
        let keys : UniqueKeys kept.turns = rw e (remove_all-UniqueKeys c thread.turns u) in
        let fits : Entries (TurnFits limits) kept.turns =
          rw e (Entries-remove_all (TurnFits limits) c thread.turns h) in
        (
          map_values-UniqueKeys _ kept.turns keys,
          rw (length-map_values _ kept.turns)
              (length-prune_turns select limits.max_turns_per_thread thread u).0,
          Entries-map_values (TurnFits limits) (TurnWithin limits) _ kept.turns prune_turn fits,
        )

    Threads-pruned :
        (P : String → ThreadState Value → Type 0) (threads : Map (ThreadState Value))
        → UniqueKeys threads
        → Entries P threads
        → let left = prune_threads select limits.max_threads threads in
          UniqueKeys left × (length left ≤ limits.max_threads) × Entries P left
    Threads-pruned P threads u h =
        let (c, e) = prune_threads_removes limits.max_threads threads in
        (
          rw e (remove_all-UniqueKeys c threads u),
          omega (arith, length-prune_threads select limits.max_threads threads u),
          rw e (Entries-remove_all P c threads h),
        )

    pub prune_state-StateWithin :
        (touched : Option String) (state : RuntimeState Value)
        → StateTouched limits touched state
        → StateWithin limits (prune_state select state limits touched)
    unfolding prune_state
    prune_state-StateWithin none state (u, n, h) =
        Threads-pruned (ThreadWithin limits) state.threads u h
    prune_state-StateWithin (some touched) state (u, h) =
        let left = prune_threads select limits.max_threads state.threads in
        let (keys, few, kept) = Threads-pruned (ThreadTouched limits touched) state.threads u h in
        (
          modify-UniqueKeys touched (prune_thread select limits) left keys,
          rw (length-modify touched (prune_thread select limits) left) few,
          Entries-modify (ThreadTouched limits touched) (ThreadWithin limits) touched
              (prune_thread select limits)
              (λ thread fits. prune_thread-ThreadWithin touched thread fits.0)
              (λ k thread away fits. fits.1 away) left keys kept,
        )
