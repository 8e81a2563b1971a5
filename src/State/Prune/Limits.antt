-- ===== src/State/Prune/Limits.antt =====
-- What the retention limits promise: the sizes after pruning, and that what is dropped is never
-- newer than what is kept.
use coclai.Prelude.{
  ℕ, suc, ◌+◌, ◌≤◌, ◌<◌, ◌≡◌, refl, String, true, false, Option, none, some, [], ◌∷◌, eq_iff,
  length, take, drop, Map, lookup, Absent, UniqueKeys, arith, length-take, min,
}
use coclai.State.Prune.{SelectNth, remove_all, candidates, is_active}
use coclai.State.Prune.Selection.{SameEntries, SameEntries-of_perm}
use coclai.State.Prune.Eviction.{
  KeysIn, length-remove_all, lookup-remove_all, take-UniqueKeys, lookup_cut, partition_le,
  candidates-UniqueKeys, lookup-candidates,
}

module _ {ℓ} {V : Type ℓ} (age : V → ℕ) where
  pub length-candidates : (m : Map V) → length (candidates age none m) ≡ length m
  unfolding candidates
  length-candidates [] = refl
  length-candidates ((k, v) ∷ m) = omega (arith, length-candidates m)

  length-candidates_away :
      (a : String) (m : Map V) → Absent a m → length (candidates age (some a) m) ≡ length m
  unfolding candidates
  length-candidates_away a [] h = refl
  length-candidates_away a ((k, v) ∷ m) h =
      ground (arith, length-candidates_away a m, eq_iff a k, eq_iff k a)

  -- Only the active entry is no candidate.
  pub length-candidates-active :
      (a : String) (m : Map V) → UniqueKeys m → length m ≤ suc (length (candidates age (some a) m))
  unfolding candidates
  length-candidates-active a [] u = omega arith
  length-candidates-active a ((k, v) ∷ m) u =
      ground (arith, length-candidates-active a m, length-candidates_away a m, eq_iff a k)

module _ {ℓ} {V : Type ℓ} (select : SelectNth) (age : V → ℕ) (active : Option String) (m : Map V)
    (i n : ℕ) (u : UniqueKeys m) (inside : i < length (candidates age active m)) where
  abbrev pub selected : Map ℕ
  selected = select.run i (candidates age active m)

  same : SameEntries (candidates age active m) selected
  same = SameEntries-of_perm (candidates-UniqueKeys age active m u) (select.run-perm i _ inside)

  selected-KeysIn : KeysIn (take n selected) m
  selected-KeysIn k h =
      ground (arith, same.lookup_eq k, lookup-candidates age active k m, lookup_cut n k selected)

  -- The first `n` of the selection go.
  pub length-selected :
      length (remove_all (take n selected) m) + min n (length (candidates age active m)) ≡ length m
  length-selected = omega (
    arith,
    length-remove_all (take n selected) m (take-UniqueKeys n selected same.unique) u
        selected-KeysIn,
    length-take n selected,
    same.length_eq,
  )

  -- The active entry is never chosen.
  pub lookup-selected-active :
      (k : String)
      → is_active active k ≡ true
      → lookup k (remove_all (take n selected) m) ≡ lookup k m
  lookup-selected-active k a = ground (
    arith,
    same.lookup_eq k,
    lookup-candidates age active k m,
    lookup_cut n k selected,
    lookup-remove_all k (take n selected) m,
  )

module _ {ℓ} {V : Type ℓ} (select : SelectNth) (age : V → ℕ) (active : Option String) (m : Map V)
    (i : ℕ) (u : UniqueKeys m) (inside : i < length (candidates age active m)) where
  abbrev pub oldest : Map ℕ
  oldest = take (suc i) (select.run i (candidates age active m))

  abbrev pub later : Map ℕ
  later = drop (suc i) (select.run i (candidates age active m))

  -- A dropped entry is among the first of the selection.
  dropped_oldest :
      (j : String) (w : V)
      → lookup j m ≡ some w
      → lookup j (remove_all oldest m) ≡ none
      → lookup j oldest ≡ some (age w)
  dropped_oldest j w e g =
      let entries =
        SameEntries-of_perm (candidates-UniqueKeys age active m u) (select.run-perm i _ inside) in
      ground (
        arith,
        entries.lookup_eq j,
        lookup-candidates age active j m,
        lookup-remove_all j oldest m,
        lookup_cut (suc i) j (select.run i (candidates age active m)),
      )

  -- A kept entry that could have been chosen is among the later ones.
  kept_later :
      (k : String) (v : V)
      → is_active active k ≡ false
      → lookup k (remove_all oldest m) ≡ some v
      → lookup k later ≡ some (age v)
  kept_later k v a e =
      let entries =
        SameEntries-of_perm (candidates-UniqueKeys age active m u) (select.run-perm i _ inside) in
      ground (
        arith,
        entries.lookup_eq k,
        lookup-candidates age active k m,
        lookup-remove_all k oldest m,
        lookup_cut (suc i) k (select.run i (candidates age active m)),
      )

  pub dropped_le_kept :
      (k j : String) (v w : V)
      → is_active active k ≡ false
      → lookup k (remove_all oldest m) ≡ some v
      → lookup j m ≡ some w
      → lookup j (remove_all oldest m) ≡ none
      → age w ≤ age v
  dropped_le_kept k j v w a kept there gone =
      partition_le (suc i) j k (select.run i (candidates age active m))
        (select.run_partitions i _ inside) (dropped_oldest j w there gone) (kept_later k v a kept)
