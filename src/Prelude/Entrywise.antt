-- ===== src/Prelude/Entrywise.antt =====
-- Predicates on all the entries of a dictionary, and the operations that keep them.
use Prim.Native.String.{String}
use mathlib.Core.Path.{◌≡◌, subst, sym}
use mathlib.Core.Logic.{inl, inr}
use mathlib.Core.Bool.{Bool, true, false}
use mathlib.Core.Option.{some}
use mathlib.Core.List.{[], ◌∷◌}
use native.Mathlib.Omega.{arith}
use text.Mathlib.TextEquality.{eq_iff}
use coclai.Prelude.Tests.{◌==◌, Bool-cases}
use coclai.Prelude.Maps.{
  Map, lookup, insert, upsert, retain, modify, remove, map_values, Absent, UniqueKeys,
}

-- Every entry satisfies `P`.
abbrev pub Entries {ℓ} : {V : Type ℓ} → (String → V → Type 0) → Map V → Type 0
Entries P [] = Unit {0}
Entries P ((k, v) ∷ m) = P k v × Entries P m

module _ {ℓ} {V : Type ℓ} (P : String → V → Type 0) where
  pub Entries-lookup : (k : String) (m : Map V) {v : V} → Entries P m → lookup k m ≡ some v → P k v
  unfolding lookup
  Entries-lookup k [] h e = cc
  Entries-lookup k ((j, w) ∷ m) {v} h e = elim (Bool-cases (j == k)) [
    | inl hit ↦
        let key : j ≡ k = ground (arith, eq_iff j k) in
        let value : w ≡ v = ground arith in subst (λ x. P x v) key (subst (P j) value h.0)
    | inr miss ↦ Entries-lookup k m h.1 (ground arith)
  ]

  pub Entries-remove : (k : String) (m : Map V) → Entries P m → Entries P (remove k m)
  unfolding remove
  Entries-remove k [] h = tt
  Entries-remove k ((j, w) ∷ m) h = elim (Bool-cases (j == k)) [
    | inl hit ↦ rw hit (Entries-remove k m h.1)
    | inr miss ↦ rw miss (h.0, Entries-remove k m h.1)
  ]

  pub Entries-insert :
      (k : String) (v : V) (m : Map V) → P k v → Entries P m → Entries P (insert k v m)
  unfolding insert
  Entries-insert k v [] p h = (p, tt)
  Entries-insert k v ((j, w) ∷ m) p h = elim (Bool-cases (j == k)) [
    | inl hit ↦ rw hit (p, h.1)
    | inr miss ↦ rw miss (h.0, Entries-insert k v m p h.1)
  ]

  -- What a lemma on lookups gives entry by entry.
  pub Entries-of_all : (m : Map V) → ((k : String) (v : V) → P k v) → Entries P m
  Entries-of_all [] h = tt
  Entries-of_all ((k, v) ∷ m) h = (h k v, Entries-of_all m h)

module _ {ℓ} {V : Type ℓ} (P : String → V → Type 0) where
  pub Entries-retain :
      (keep : String → V → Bool) (m : Map V) → Entries P m → Entries P (retain keep m)
  unfolding retain
  Entries-retain keep [] h = tt
  Entries-retain keep ((j, w) ∷ m) h = elim (Bool-cases (keep j w)) [
    | inl e ↦ rw e (h.0, Entries-retain keep m h.1)
    | inr e ↦ rw e (Entries-retain keep m h.1)
  ]

  -- A change that keeps `P` at every key.
  pub Entries-upsert_keep :
      (k : String) (d : V) (f : V → V) (m : Map V)
      → P k (f d)
      → ((j : String) (v : V) → P j v → P j (f v))
      → Entries P m
      → Entries P (upsert k d f m)
  unfolding upsert
  Entries-upsert_keep k d f [] fresh keep h = (fresh, tt)
  Entries-upsert_keep k d f ((j, w) ∷ m) fresh keep h = elim (Bool-cases (j == k)) [
    | inl e ↦ rw e (keep j w h.0, h.1)
    | inr e ↦ rw e (h.0, Entries-upsert_keep k d f m fresh keep h.1)
  ]

module _ {ℓ} {V : Type ℓ} {P Q : String → V → Type 0} where
  pub Entries-imp : ((k : String) (v : V) → P k v → Q k v) → (m : Map V) → Entries P m → Entries Q m
  Entries-imp f [] h = tt
  Entries-imp f ((k, v) ∷ m) h = (f k v h.0, Entries-imp f m h.1)

-- A change at the key `k`: there `Q` comes from the change, elsewhere from `P`.
module _ {ℓ} {V : Type ℓ} (P Q : String → V → Type 0) (k : String) (f : V → V)
    (hit : (v : V) → P k v → Q k (f v))
    (miss : (j : String) (v : V) → (k == j) ≡ false → P j v → Q j v) where
  Entries-away : (m : Map V) → Absent k m → Entries P m → Entries Q m
  Entries-away [] a h = tt
  Entries-away ((j, w) ∷ m) a h =
      (miss j w (ground (arith, eq_iff j k, eq_iff k j, a.0)) h.0, Entries-away m a.1 h.1)

  Entries-at :
      (j : String) (w : V) (m : Map V)
      → (j == k) ≡ true
      → UniqueKeys ((j, w) ∷ m)
      → Entries P ((j, w) ∷ m)
      → Entries Q ((j, f w) ∷ m)
  Entries-at j w m e u h =
      let key : k ≡ j = ground (arith, eq_iff j k) in
      (
        subst (λ x. Q x (f w)) key (hit w (subst (λ x. P x w) (sym key) h.0)),
        Entries-away m (subst (λ x. Absent x m) (sym key) u.0) h.1,
      )

  pub Entries-upsert :
      (d : V) (m : Map V) → Q k (f d) → UniqueKeys m → Entries P m → Entries Q (upsert k d f m)
  unfolding upsert
  Entries-upsert d [] fresh u h = (fresh, tt)
  Entries-upsert d ((j, w) ∷ m) fresh u h = elim (Bool-cases (j == k)) [
    | inl e ↦ rw e (Entries-at j w m e u h)
    | inr e ↦
        rw e
          (miss j w (ground (arith, eq_iff j k, eq_iff k j)) h.0, Entries-upsert d m fresh u.1 h.1)
  ]

  pub Entries-modify : (m : Map V) → UniqueKeys m → Entries P m → Entries Q (modify k f m)
  unfolding modify
  Entries-modify [] u h = tt
  Entries-modify ((j, w) ∷ m) u h = elim (Bool-cases (j == k)) [
    | inl e ↦ rw e (Entries-at j w m e u h)
    | inr e ↦ rw e (miss j w (ground (arith, eq_iff j k, eq_iff k j)) h.0, Entries-modify m u.1 h.1)
  ]

module _ {ℓ κ} {V : Type ℓ} {W : Type κ} (P : String → V → Type 0) (Q : String → W → Type 0) where
  pub Entries-map_values :
      (f : V → W) (m : Map V)
      → ((k : String) (v : V) → P k v → Q k (f v))
      → Entries P m
      → Entries Q (map_values f m)
  unfolding map_values
  Entries-map_values f [] step h = tt
  Entries-map_values f ((k, v) ∷ m) step h = (step k v h.0, Entries-map_values f m step h.1)
