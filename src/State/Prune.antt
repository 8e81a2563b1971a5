-- ===== src/State/Prune.antt =====
-- Retention: `prune_state`, `prune_turns` and `prune_items` of
-- crates/codex-runtime/src/runtime/state.rs. `select_nth_unstable_by_key` of the standard library
-- leaves the order of its result open, so it is a parameter with its documented contract.
pub mod Selection
pub mod Eviction
pub mod Limits
pub mod Sizes
use mathlib.Core.List.{Perm}
use coclai.Prelude.{
  ℕ, suc, ◌-◌, ◌<◌, ◌≤◌, String, Bool, true, false, not, ◌&&◌, Option, none, some, List, [], ◌∷◌,
  map, ltb, leb, ◌==◌, if◌then◌else◌, length, take, drop, All, Map, lookup, insert, remove, modify,
  map_values, min, is_empty,
}
use coclai.State.{StateProjectionLimits, ItemState, TurnState, ThreadState, RuntimeState}

pub record SelectNth : Type 0 where
  pub run : ℕ → Map ℕ → Map ℕ
  pub run-perm : (n : ℕ) (xs : Map ℕ) → n < length xs → Perm xs (run n xs)
  pub run_partitions :
      (n : ℕ) (xs : Map ℕ)
      → n < length xs
      → All (λ x. All (λ y. x.1 ≤ y.1) (drop (suc n) (run n xs))) (take (suc n) (run n xs))

module _ {ℓ} {V : Type ℓ} where
  -- `for (id, _) in candidates { map.remove(&id); }`.
  unfoldable pub remove_all : Map ℕ → Map V → Map V
  remove_all [] m = m
  remove_all ((k, age) ∷ c) m = remove_all c (remove k m)

-- `Some(id.as_str()) != active`, negated.
abbrev pub is_active : Option String → String → Bool
is_active none k = false
is_active (some a) k = a == k

module _ {ℓ} {V : Type ℓ} (age : V → ℕ) where
  -- `.iter().filter(…).map(|(id, v)| (id.clone(), v.last_seq)).collect()`.
  unfoldable pub candidates : Option String → Map V → Map ℕ
  candidates active [] = []
  candidates active ((k, v) ∷ m) =
      let rest = candidates active m in if is_active active k then rest else (k, age v) ∷ rest

module _ {Value : Type 0} (select : SelectNth) where
  -- The first block of `prune_state`.
  unfoldable pub prune_threads : ℕ → Map (ThreadState Value) → Map (ThreadState Value)
  unfolding candidates remove_all
  prune_threads max_threads threads =
      let remove_count = length threads - max_threads in
      let by_age = candidates (λ t. t.last_seq) none threads in
      if ltb max_threads (length threads)
      then remove_all
          (take remove_count
            (if ltb 0 remove_count then select.run (remove_count - 1) by_age else by_age))
          threads
      else threads

  unfoldable pub prune_items : ℕ → Map (ItemState Value) → Map (ItemState Value)
  unfolding candidates remove_all
  prune_items max_items items =
      let remove_count = length items - max_items in
      let by_age = candidates (λ i. i.last_seq) none items in
      let partition_idx = min (remove_count - 1) (length by_age - 1) in
      if leb (length items) max_items
      then items
      else remove_all
          (take remove_count
            (if ltb 0 remove_count then select.run partition_idx by_age else by_age))
          items

  unfoldable pub prune_turns : ℕ → ThreadState Value → ThreadState Value
  unfolding candidates remove_all
  prune_turns max_turns thread =
      let removable = length thread.turns - max_turns in
      let others = candidates (λ t. t.last_seq) thread.active_turn thread.turns in
      let partition_idx = min (removable - 1) (length others - 1) in
      if leb (length thread.turns) max_turns then thread else record thread {
        turns =
            remove_all
              (take removable (
                if ltb 0 removable && not (is_empty others)
                then select.run partition_idx others
                else others))
              thread.turns;
      }

  -- `prune_turns`, then `prune_items` on every turn that is left.
  unfoldable pub prune_thread : StateProjectionLimits → ThreadState Value → ThreadState Value
  prune_thread limits thread =
      let kept = prune_turns limits.max_turns_per_thread thread in
      record kept {
        turns =
            map_values
              (λ (turn : TurnState Value). record turn {
                items = prune_items limits.max_items_per_turn turn.items;
              })
              kept.turns;
      }

  unfoldable pub prune_state :
      RuntimeState Value → StateProjectionLimits → Option String → RuntimeState Value
  unfolding prune_threads prune_thread prune_turns prune_items
  prune_state state limits none = record state {
    threads = prune_threads limits.max_threads state.threads;
  }
  prune_state state limits (some thread_id) = record state {
    threads =
        modify thread_id (prune_thread limits) (prune_threads limits.max_threads state.threads);
  }
