-- ===== src/Prelude/Maps.antt =====
-- Dictionaries with text keys, as association lists. The order of the entries stands for the
-- unspecified order in which a hash map is walked.
use Prim.Native.Nat.{suc, ◌≤◌}
use Prim.Native.String.{String}
use mathlib.Core.Path.{◌≡◌, refl, subst}
use mathlib.Core.Logic.{inl, inr}
use mathlib.Core.Bool.{Bool, true, false}
use mathlib.Core.Option.{Option, none, some}
use mathlib.Core.List.{List, [], ◌∷◌}
use native.Mathlib.Omega.{arith}
use text.Mathlib.TextEquality.{eq_iff}
use coclai.Prelude.Tests.{◌==◌, ◌>>=◌, if◌then◌else◌, unwrap_or, is_some, Bool-cases}
use coclai.Prelude.Lists.{length}

abbrev pub Map {ℓ} : Type ℓ → Type ℓ
Map V = List (String × V)

module _ {ℓ} {V : Type ℓ} where
  -- `get`.
  unfoldable pub lookup : String → Map V → Option V
  lookup k [] = none
  lookup k ((j, v) ∷ m) = if j == k then some v else lookup k m

  -- `insert`: the value of a key that is there is replaced.
  unfoldable pub insert : String → V → Map V → Map V
  insert key new [] = (key, new) ∷ []
  insert key new ((at, old) ∷ entries) =
      let later = insert key new entries in
      if at == key then (key, new) ∷ entries else (at, old) ∷ later

  -- `entry(k).or_insert_with(d)` followed by the change `f` through the reference.
  unfoldable pub upsert : String → V → (V → V) → Map V → Map V
  upsert k d f [] = (k, f d) ∷ []
  upsert k d f ((j, v) ∷ m) = if j == k then (j, f v) ∷ m else (j, v) ∷ upsert k d f m

  -- `get_mut(k)` followed by the change `f`; nothing where the key is missing.
  unfoldable pub modify : String → (V → V) → Map V → Map V
  modify k f [] = []
  modify k f ((j, v) ∷ m) = if j == k then (j, f v) ∷ m else (j, v) ∷ modify k f m

  -- `remove`.
  unfoldable pub remove : String → Map V → Map V
  remove k [] = []
  remove k ((j, v) ∷ m) = let rest = remove k m in if j == k then rest else (j, v) ∷ rest

  -- `retain`.
  unfoldable pub retain : (String → V → Bool) → Map V → Map V
  retain keep [] = []
  retain keep ((j, v) ∷ m) = let rest = retain keep m in if keep j v then (j, v) ∷ rest else rest

  -- `values_mut` followed by the change `f` of each.
  unfoldable pub map_values {κ} : {W : Type κ} → (V → W) → Map V → Map W
  map_values f [] = []
  map_values f ((j, v) ∷ m) = (j, f v) ∷ map_values f m

  pub lookup-insert :
      (key asked : String) (new : V) (entries : Map V)
      → lookup asked (insert key new entries)
        ≡ (if key == asked then some new else lookup asked entries)
  unfolding insert lookup
  lookup-insert key asked new [] = refl
  lookup-insert key asked new ((at, old) ∷ entries) =
      ground (
        arith,
        lookup-insert key asked new entries,
        eq_iff at asked,
        eq_iff at key,
        eq_iff key asked,
      )

  pub lookup-upsert :
      (k j : String) (d : V) (f : V → V) (m : Map V)
      → lookup j (upsert k d f m)
        ≡ (if k == j then some (f (unwrap_or (lookup k m) d)) else lookup j m)
  unfolding lookup upsert
  lookup-upsert k j d f [] = refl
  lookup-upsert k j d f ((i, w) ∷ m) =
      ground (arith, eq_iff k j, eq_iff i k, eq_iff i j, lookup-upsert k j d f m)

  pub lookup-remove :
      (k j : String) (m : Map V) → lookup j (remove k m) ≡ (if k == j then none else lookup j m)
  unfolding lookup remove
  lookup-remove k j [] = ground arith
  lookup-remove k j ((i, v) ∷ m) =
      ground (arith, lookup-remove k j m, eq_iff i k, eq_iff i j, eq_iff k j)

  pub lookup-remove_self : (k : String) (m : Map V) → lookup k (remove k m) ≡ none
  lookup-remove_self k m = ground (arith, lookup-remove k k m, eq_iff k k)

  pub lookup-remove_ne :
      (k j : String) (m : Map V) → (k == j) ≡ false → lookup j (remove k m) ≡ lookup j m
  lookup-remove_ne k j m h = ground (arith, lookup-remove k j m)

  pub lookup-insert_self : (k : String) (v : V) (m : Map V) → lookup k (insert k v m) ≡ some v
  lookup-insert_self k v m = ground (arith, lookup-insert k k v m, eq_iff k k)

  pub lookup-modify :
      (k j : String) (f : V → V) (m : Map V)
      → lookup j (modify k f m) ≡ (if k == j then (lookup j m >>= λ v. some (f v)) else lookup j m)
  unfolding lookup modify
  lookup-modify k j f [] = ground arith
  lookup-modify k j f ((i, v) ∷ m) =
      ground (arith, lookup-modify k j f m, eq_iff i k, eq_iff i j, eq_iff k j)

module _ {ℓ κ} {V : Type ℓ} {W : Type κ} (f : V → W) where
  pub lookup-map_values :
      (k : String) (m : Map V) → lookup k (map_values f m) ≡ (lookup k m >>= λ v. some (f v))
  unfolding lookup map_values
  lookup-map_values k [] = refl
  lookup-map_values k ((j, v) ∷ m) = elim (Bool-cases (j == k)) [
    | inl e ↦ rw e refl
    | inr e ↦ rw e (lookup-map_values k m)
  ]

  pub length-map_values : (m : Map V) → length (map_values f m) ≡ length m
  unfolding map_values
  length-map_values [] = refl
  length-map_values ((j, v) ∷ m) = omega (arith, length-map_values m)

module _ {ℓ} {V : Type ℓ} where
  -- The key `k` does not occur.
  abbrev pub Absent : String → Map V → Type 0
  Absent k [] = Unit {0}
  Absent k ((j, v) ∷ m) = ((j == k) ≡ false) × Absent k m

  -- No key occurs twice: what makes an association list a dictionary.
  abbrev pub UniqueKeys : Map V → Type 0
  UniqueKeys [] = Unit {0}
  UniqueKeys ((k, v) ∷ m) = Absent k m × UniqueKeys m

  pub lookup-Absent : (k : String) (m : Map V) → Absent k m → lookup k m ≡ none
  unfolding lookup
  lookup-Absent k [] h = refl
  lookup-Absent k ((j, v) ∷ m) h = ground (arith, lookup-Absent k m)

  pub Absent-of_lookup : (k : String) (m : Map V) → lookup k m ≡ none → Absent k m
  unfolding lookup
  Absent-of_lookup k [] h = tt
  Absent-of_lookup k ((j, v) ∷ m) h = ground (arith, Absent-of_lookup k m)

  pub upsert-Absent :
      (k j : String) (d : V) (f : V → V) (m : Map V)
      → (k == j) ≡ false
      → Absent j m
      → Absent j (upsert k d f m)
  unfolding upsert
  upsert-Absent k j d f [] e h = (e, tt)
  upsert-Absent k j d f ((i, w) ∷ m) e h = ground (arith, upsert-Absent k j d f m)

  pub upsert-UniqueKeys :
      (k : String) (d : V) (f : V → V) (m : Map V) → UniqueKeys m → UniqueKeys (upsert k d f m)
  unfolding upsert
  upsert-UniqueKeys k d f [] h = (tt, tt)
  upsert-UniqueKeys k d f ((i, w) ∷ m) h =
      ground (arith, upsert-UniqueKeys k d f m, upsert-Absent k i d f m, eq_iff i k, eq_iff k i)

  pub insert-Absent :
      (k j : String) (v : V) (m : Map V) → (k == j) ≡ false → Absent j m → Absent j (insert k v m)
  unfolding insert
  insert-Absent k j v [] e h = (e, tt)
  insert-Absent k j v ((i, w) ∷ m) e h = ground (arith, insert-Absent k j v m)

  pub insert-UniqueKeys :
      (k : String) (v : V) (m : Map V) → UniqueKeys m → UniqueKeys (insert k v m)
  unfolding insert
  insert-UniqueKeys k v [] h = (tt, tt)
  insert-UniqueKeys k v ((i, w) ∷ m) h =
      ground (arith, insert-UniqueKeys k v m, insert-Absent k i v m, eq_iff i k, eq_iff k i)

  pub remove-Absent : (k j : String) (m : Map V) → Absent j m → Absent j (remove k m)
  unfolding remove
  remove-Absent k j [] h = tt
  remove-Absent k j ((i, w) ∷ m) h = ground (arith, remove-Absent k j m)

  pub remove-UniqueKeys : (k : String) (m : Map V) → UniqueKeys m → UniqueKeys (remove k m)
  unfolding remove
  remove-UniqueKeys k [] h = tt
  remove-UniqueKeys k ((i, w) ∷ m) h = ground (arith, remove-UniqueKeys k m, remove-Absent k i m)

  pub remove_of_Absent : (k : String) (m : Map V) → Absent k m → remove k m ≡ m
  unfolding remove
  remove_of_Absent k [] h = refl
  remove_of_Absent k ((i, w) ∷ m) h = ground (arith, remove_of_Absent k m)

  pub length-remove :
      (k : String) (m : Map V)
      → UniqueKeys m
      → is_some (lookup k m) ≡ true
      → suc (length (remove k m)) ≡ length m
  unfolding remove lookup
  length-remove k [] u h = cc
  length-remove k ((i, w) ∷ m) u h =
      ground (arith, length-remove k m, remove_of_Absent k m, eq_iff i k)

  pub length-upsert-le :
      (k : String) (d : V) (f : V → V) (m : Map V) → length (upsert k d f m) ≤ suc (length m)
  unfolding upsert
  length-upsert-le k d f [] = omega arith
  length-upsert-le k d f ((i, w) ∷ m) = ground (arith, length-upsert-le k d f m)

  pub length-modify : (k : String) (f : V → V) (m : Map V) → length (modify k f m) ≡ length m
  unfolding modify
  length-modify k f [] = refl
  length-modify k f ((i, w) ∷ m) = ground (arith, length-modify k f m)

  pub modify-Absent : (k j : String) (f : V → V) (m : Map V) → Absent j m → Absent j (modify k f m)
  unfolding modify
  modify-Absent k j f [] h = tt
  modify-Absent k j f ((i, w) ∷ m) h = ground (arith, modify-Absent k j f m)

  pub modify-UniqueKeys :
      (k : String) (f : V → V) (m : Map V) → UniqueKeys m → UniqueKeys (modify k f m)
  unfolding modify
  modify-UniqueKeys k f [] h = tt
  modify-UniqueKeys k f ((i, w) ∷ m) h =
      ground (arith, modify-UniqueKeys k f m, modify-Absent k i f m)

  pub lookup-retain :
      (keep : String → V → Bool) (k : String) (m : Map V)
      → UniqueKeys m
      → lookup k (retain keep m) ≡ (lookup k m >>= λ v. if keep k v then some v else none)
  unfolding lookup retain
  lookup-retain keep k [] u = refl
  lookup-retain keep k ((j, v) ∷ m) u = elim (Bool-cases (j == k)) [
    | inl hit ↦
        let key : j ≡ k = ground (arith, eq_iff j k) in
        let none_left = lookup-Absent k m (subst (λ x. Absent x m) key u.0) in
        let rest : lookup k (retain keep m) ≡ none =
          rw (lookup-retain keep k m u.1, none_left) refl in
        elim (Bool-cases (keep j v)) [
          | inl e ↦ ground (arith, subst (λ x. keep x v ≡ true) key e)
          | inr e ↦ ground (arith, rest, subst (λ x. keep x v ≡ false) key e)
        ]
    | inr miss ↦ ground (arith, lookup-retain keep k m u.1)
  ]

  pub retain-Absent :
      (keep : String → V → Bool) (k : String) (m : Map V) → Absent k m → Absent k (retain keep m)
  unfolding retain
  retain-Absent keep k [] h = tt
  retain-Absent keep k ((j, v) ∷ m) h = ground (arith, retain-Absent keep k m)

  pub retain-UniqueKeys :
      (keep : String → V → Bool) (m : Map V) → UniqueKeys m → UniqueKeys (retain keep m)
  unfolding retain
  retain-UniqueKeys keep [] u = tt
  retain-UniqueKeys keep ((j, v) ∷ m) u =
      ground (arith, retain-UniqueKeys keep m, retain-Absent keep j m)

  -- Two changes through a reference are one.
  pub modify-modify :
      (k : String) (f g : V → V) (m : Map V) → modify k g (modify k f m) ≡ modify k (λ v. g (f v)) m
  unfolding modify
  modify-modify k f g [] = refl
  modify-modify k f g ((j, v) ∷ m) = ground (arith, modify-modify k f g m)

  pub modify_same :
      (k : String) (f : V → V) (m : Map V) {v : V}
      → lookup k m ≡ some v
      → f v ≡ v
      → modify k f m ≡ m
  unfolding modify lookup
  modify_same k f [] e h = refl
  modify_same k f ((j, w) ∷ m) {v} e h = elim (Bool-cases (j == k)) [
    | inl hit ↦ ground arith
    | inr miss ↦ ground (arith, modify_same k f m {v = v})
  ]

module _ {ℓ κ} {V : Type ℓ} {W : Type κ} (f : V → W) where
  map_values-Absent : (k : String) (m : Map V) → Absent k m → Absent k (map_values f m)
  unfolding map_values
  map_values-Absent k [] h = tt
  map_values-Absent k ((j, v) ∷ m) h = (h.0, map_values-Absent k m h.1)

  pub map_values-UniqueKeys : (m : Map V) → UniqueKeys m → UniqueKeys (map_values f m)
  unfolding map_values
  map_values-UniqueKeys [] h = tt
  map_values-UniqueKeys ((j, v) ∷ m) h = (map_values-Absent j m h.0, map_values-UniqueKeys m h.1)
