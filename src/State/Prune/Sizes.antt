-- ===== src/State/Prune/Sizes.antt =====
-- The sizes and the ages of what `prune_threads`, `prune_items` and `prune_turns` keep.
use coclai.Prelude.{
  ℕ, suc, ◌+◌, ◌-◌, ◌≤◌, ◌<◌, ◌≡◌, refl, ap, String, true, false, not, none, some, List, [], ◌∷◌,
  eq_iff, length, take, Map, lookup, UniqueKeys, arith, inl, inr, min, max, ltb, leb, Option-cases,
  ◌⊎◌, take-nil, is_empty,
}
use native.Mathlib.Decide.{dec_lt}
use coclai.State.{ThreadState, ItemState, TurnState}
use coclai.State.Prune.{
  SelectNth, remove_all, candidates, is_active, prune_threads, prune_turns, prune_items,
}
use coclai.State.Prune.Limits.{
  length-candidates, length-candidates-active, length-selected, dropped_le_kept,
  lookup-selected-active,
}

List-cases {ℓ} : {A : Type ℓ} (xs : List A) → (xs ≡ []) ⊎ ((x : A) × (r : List A) × (xs ≡ x ∷ r))
List-cases [] = inl refl
List-cases (x ∷ xs) = inr (x, xs, refl)

module _ {Value : Type 0} (select : SelectNth) where
  -- `prune_threads` at work: how many threads go, and where the selection cuts.
  pub prune_threads_over :
      (max_threads : ℕ) (threads : Map (ThreadState Value))
      → max_threads < length threads
      → (i : ℕ) × (i < length (candidates (λ t. t.last_seq) none threads))
        × (suc i + max_threads ≡ length threads)
        × (prune_threads select max_threads threads
            ≡ remove_all
                (take (suc i) (select.run i (candidates (λ t. t.last_seq) none threads)))
                threads)
  unfolding prune_threads
  prune_threads_over max_threads threads h =
      let i : ℕ = length threads - max_threads - 1 in
      let count : length threads - max_threads ≡ suc i = omega arith in
      (
        i,
        omega (arith, length-candidates (λ (t : ThreadState Value). t.last_seq) threads),
        omega arith,
        ground arith,
      )

  pub prune_threads_within :
      (max_threads : ℕ) (threads : Map (ThreadState Value))
      → length threads ≤ max_threads
      → prune_threads select max_threads threads ≡ threads
  unfolding prune_threads
  prune_threads_within max_threads threads h = ground arith

  -- The threads, under keys that are all different, are cut down to the limit and to no fewer.
  pub length-prune_threads :
      (max_threads : ℕ) (threads : Map (ThreadState Value))
      → UniqueKeys threads
      → length (prune_threads select max_threads threads) ≡ min max_threads (length threads)
  length-prune_threads max_threads threads u = elim (dec_lt max_threads (length threads)) [
    | yes over ↦
        let (i, inside, count, e) = prune_threads_over max_threads threads over in
        rw e (
          omega (
            arith,
            length-candidates (λ (t : ThreadState Value). t.last_seq) threads,
            length-selected select (λ (t : ThreadState Value). t.last_seq) none threads i (suc i) u
                inside,
          ))
    | no within ↦ rw (prune_threads_within max_threads threads (omega arith)) (omega arith)
  ]

  -- No thread that is dropped was touched later than one that is kept.
  pub prune_threads_oldest :
      (max_threads : ℕ) (threads : Map (ThreadState Value)) (k j : String)
      (kept dropped : ThreadState Value)
      → UniqueKeys threads
      → lookup k (prune_threads select max_threads threads) ≡ some kept
      → lookup j threads ≡ some dropped
      → lookup j (prune_threads select max_threads threads) ≡ none
      → dropped.last_seq ≤ kept.last_seq
  prune_threads_oldest max_threads threads k j kept dropped u p q r =
      elim (dec_lt max_threads (length threads)) [
        | yes over ↦
            let (i, inside, count, e) = prune_threads_over max_threads threads over in
            dropped_le_kept select (λ (t : ThreadState Value). t.last_seq) none threads i u inside k
              j kept dropped refl (rw e at p) q (rw e at r)
        | no within ↦
            let e = prune_threads_within max_threads threads (omega arith) in absurd (cc (e, q, r))
      ]

  pub prune_items_over :
      (max_items : ℕ) (items : Map (ItemState Value))
      → max_items < length items
      → (i : ℕ) × (i < length (candidates (λ t. t.last_seq) none items))
        × (suc i + max_items ≡ length items)
        × (prune_items select max_items items
            ≡ remove_all
                (take (suc i) (select.run i (candidates (λ t. t.last_seq) none items)))
                items)
  unfolding prune_items
  prune_items_over max_items items h =
      let i : ℕ = length items - max_items - 1 in
      let ages : Map ℕ = candidates (λ t. t.last_seq) none items in
      let all = length-candidates (λ (t : ItemState Value). t.last_seq) items in
      let over : leb (length items) max_items ≡ false = ground arith in
      let some_go : ltb 0 (length items - max_items) ≡ true = ground arith in
      let cut : min (length items - max_items - 1) (length ages - 1) ≡ i = omega (arith, all) in
      let count : length items - max_items ≡ suc i = omega arith in
      (
        i,
        omega (arith, all),
        omega arith,
        rw (over, some_go, cut) (ap (λ n. remove_all (take n (select.run i ages)) items) count),
      )

  pub prune_items_within :
      (max_items : ℕ) (items : Map (ItemState Value))
      → length items ≤ max_items
      → prune_items select max_items items ≡ items
  unfolding prune_items
  prune_items_within max_items items h = ground arith

  -- The items of a turn, under keys that are all different, are cut down to the limit and to no fewer.
  pub length-prune_items :
      (max_items : ℕ) (items : Map (ItemState Value))
      → UniqueKeys items
      → length (prune_items select max_items items) ≡ min max_items (length items)
  length-prune_items max_items items u = elim (dec_lt max_items (length items)) [
    | yes over ↦
        let (i, inside, count, e) = prune_items_over max_items items over in
        rw e (
          omega (
            arith,
            length-candidates (λ (t : ItemState Value). t.last_seq) items,
            length-selected select (λ (t : ItemState Value). t.last_seq) none items i (suc i) u
                inside,
          ))
    | no within ↦ rw (prune_items_within max_items items (omega arith)) (omega arith)
  ]

  -- No item that is dropped was touched later than one that is kept.
  pub prune_items_oldest :
      (max_items : ℕ) (items : Map (ItemState Value)) (k j : String)
      (kept dropped : ItemState Value)
      → UniqueKeys items
      → lookup k (prune_items select max_items items) ≡ some kept
      → lookup j items ≡ some dropped
      → lookup j (prune_items select max_items items) ≡ none
      → dropped.last_seq ≤ kept.last_seq
  prune_items_oldest max_items items k j kept dropped u p q r =
      elim (dec_lt max_items (length items)) [
        | yes over ↦
            let (i, inside, count, e) = prune_items_over max_items items over in
            dropped_le_kept select (λ (t : ItemState Value). t.last_seq) none items i u inside k j
              kept dropped refl (rw e at p) q (rw e at r)
        | no within ↦
            let e = prune_items_within max_items items (omega arith) in absurd (cc (e, q, r))
      ]

  abbrev pub others : ThreadState Value → Map ℕ
  others thread = candidates (λ t. t.last_seq) thread.active_turn thread.turns

  -- Every turn that is not the active one can be chosen.
  length-others :
      (thread : ThreadState Value)
      → UniqueKeys thread.turns
      → length thread.turns ≤ suc (length (others thread))
  length-others thread u = elim (Option-cases thread.active_turn) [
    | inl e ↦
        rw e (omega (arith, length-candidates (λ (t : TurnState Value). t.last_seq) thread.turns))
    | inr (a, e) ↦
        rw e (length-candidates-active (λ (t : TurnState Value). t.last_seq) a thread.turns u)
  ]

  pub prune_turns_within :
      (max_turns : ℕ) (thread : ThreadState Value)
      → length thread.turns ≤ max_turns
      → prune_turns select max_turns thread ≡ thread
  unfolding prune_turns
  prune_turns_within max_turns thread h = ground arith

  -- `prune_turns` at work: nothing to choose from, or a selection among the other turns.
  pub prune_turns_over :
      (max_turns : ℕ) (thread : ThreadState Value)
      → max_turns < length thread.turns
      → ((others thread ≡ []) × (prune_turns select max_turns thread ≡ thread))
        ⊎ ((i : ℕ) × (i < length (others thread))
            × (suc i ≡ min (length thread.turns - max_turns) (length (others thread)))
            × (prune_turns select max_turns thread ≡ record thread {
              turns =
                  remove_all
                    (take (length thread.turns - max_turns) (select.run i (others thread)))
                    thread.turns;
            }))
  unfolding prune_turns
  prune_turns_over max_turns thread h =
      let over : leb (length thread.turns) max_turns ≡ false = ground arith in
      let some_go : ltb 0 (length thread.turns - max_turns) ≡ true = ground arith in
      elim (List-cases (others thread)) [
        | inl e ↦ inl (e, rw (over, some_go, e, take-nil) refl)
        | inr (x, xs, e) ↦
            let chosen : not (is_empty (others thread)) ≡ true = rw e refl in
            let found : 0 < length (others thread) = rw e (omega arith) in
            inr (
              min (length thread.turns - max_turns - 1) (length (others thread) - 1),
              omega arith,
              omega arith,
              rw (over, some_go, chosen) refl,
            )
      ]

  -- The turns of a thread, under keys that are all different, are cut down to the limit and to no
  -- fewer; where the limit is 0, one turn may stay.
  pub length-prune_turns :
      (max_turns : ℕ) (thread : ThreadState Value)
      → UniqueKeys thread.turns
      → (length (prune_turns select max_turns thread).turns ≤ max 1 max_turns)
        × (min max_turns (length thread.turns) ≤ length (prune_turns select max_turns thread).turns)
  length-prune_turns max_turns thread u = elim (dec_lt max_turns (length thread.turns)) [
    | yes over ↦ elim (prune_turns_over max_turns thread over) [
      | inl (none_left, e) ↦
          rw e (omega (arith, length-others thread u, ap length none_left), omega arith)
      | inr (i, inside, cut, e) ↦
          let sizes =
            length-selected select (λ (t : TurnState Value). t.last_seq) thread.active_turn
              thread.turns i (length thread.turns - max_turns) u inside in
          rw e (omega (arith, sizes, length-others thread u), omega (arith, sizes))
    ]
    | no within ↦ rw (prune_turns_within max_turns thread (omega arith)) (omega arith, omega arith)
  ]

  -- The active turn stays, as it was, whatever the limit.
  pub prune_turns-active :
      (max_turns : ℕ) (thread : ThreadState Value) (turn_id : String)
      → UniqueKeys thread.turns
      → thread.active_turn ≡ some turn_id
      → lookup turn_id (prune_turns select max_turns thread).turns ≡ lookup turn_id thread.turns
  prune_turns-active max_turns thread turn_id u a = elim (dec_lt max_turns (length thread.turns)) [
    | yes over ↦ elim (prune_turns_over max_turns thread over) [
      | inl (none_left, e) ↦ rw e refl
      | inr (i, inside, cut, e) ↦ rw e (
          lookup-selected-active select (λ (t : TurnState Value). t.last_seq) thread.active_turn
            thread.turns i (length thread.turns - max_turns) u inside turn_id
            (rw a (ground (arith, eq_iff turn_id turn_id))))
    ]
    | no within ↦ rw (prune_turns_within max_turns thread (omega arith)) refl
  ]

  -- Where the limit is not 0, no turn that is dropped was touched later than one that is kept, the
  -- active turn aside.
  pub prune_turns_oldest :
      (max_turns : ℕ) (thread : ThreadState Value) (k j : String) (kept dropped : TurnState Value)
      → UniqueKeys thread.turns
      → 0 < max_turns
      → is_active thread.active_turn k ≡ false
      → lookup k (prune_turns select max_turns thread).turns ≡ some kept
      → lookup j thread.turns ≡ some dropped
      → lookup j (prune_turns select max_turns thread).turns ≡ none
      → dropped.last_seq ≤ kept.last_seq
  prune_turns_oldest max_turns thread k j kept dropped u pos a p q r =
      elim (dec_lt max_turns (length thread.turns)) [
        | yes over ↦ elim (prune_turns_over max_turns thread over) [
          | inl (none_left, e) ↦
              absurd (cc (ap (λ (t : ThreadState Value). lookup j t.turns) e, q, r))
          | inr (i, inside, cut, e) ↦
              let count : length thread.turns - max_turns ≡ suc i =
                omega (arith, length-others thread u) in
              dropped_le_kept select (λ (t : TurnState Value). t.last_seq) thread.active_turn
                thread.turns i u inside k j kept dropped a (rw (e, count) at p) q
                (rw (e, count) at r)
        ]
        | no within ↦
            let e = prune_turns_within max_turns thread (omega arith) in
            absurd (cc (ap (λ (t : ThreadState Value). lookup j t.turns) e, q, r))
      ]
