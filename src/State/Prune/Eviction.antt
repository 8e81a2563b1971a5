-- ===== src/State/Prune/Eviction.antt =====
-- Removing the oldest entries of a dictionary, whatever order the selection leaves open.
use coclai.Prelude.{
  ℕ, zero, suc, ◌+◌, ◌≤◌, ◌≡◌, refl, String, true, Option, none, some, [], ◌∷◌, ◌==◌, eq_iff,
  if◌then◌else◌, length, take, drop, All, Map, lookup, remove, Absent, UniqueKeys, lookup-Absent,
  arith, is_some, length-remove, remove-UniqueKeys, lookup-remove, Bool-cases, inl, inr, subst,
  ◌>>=◌, Entries, Entries-remove,
}
use coclai.State.Prune.{remove_all, candidates, is_active}

-- Every key of `c` is a key of `m`.
abbrev pub KeysIn {ℓ} : {V : Type ℓ} → Map ℕ → Map V → Type 0
KeysIn c m = (k : String) → is_some (lookup k c) ≡ true → is_some (lookup k m) ≡ true

module _ {ℓ} {V : Type ℓ} where
  KeysIn-remove :
      (k : String) (a : ℕ) (c : Map ℕ) (m : Map V)
      → Absent k c
      → KeysIn ((k, a) ∷ c) m
      → KeysIn c (remove k m)
  unfolding lookup
  KeysIn-remove k a c m h s j p =
      ground (arith, lookup-remove k j m, s j, eq_iff k j, lookup-Absent k c h)

  -- Each key of `c` takes one entry away.
  pub length-remove_all :
      (c : Map ℕ) (m : Map V)
      → UniqueKeys c
      → UniqueKeys m
      → KeysIn c m
      → length (remove_all c m) + length c ≡ length m
  unfolding remove_all
  length-remove_all [] m u v s = omega arith
  length-remove_all ((k, a) ∷ c) m u v s = omega (
    arith,
    length-remove_all c (remove k m) u.1 (remove-UniqueKeys k m v) (KeysIn-remove k a c m u.0 s),
    length-remove k m v (s k (unfold lookup in ground (arith, eq_iff k k))),
  )

  pub remove_all-UniqueKeys : (c : Map ℕ) (m : Map V) → UniqueKeys m → UniqueKeys (remove_all c m)
  unfolding remove_all
  remove_all-UniqueKeys [] m v = v
  remove_all-UniqueKeys ((k, a) ∷ c) m v =
      remove_all-UniqueKeys c (remove k m) (remove-UniqueKeys k m v)

  -- What is left is what was there, less the keys of `c`.
  pub lookup-remove_all :
      (k : String) (c : Map ℕ) (m : Map V)
      → lookup k (remove_all c m) ≡ (if is_some (lookup k c) then none else lookup k m)
  unfolding remove_all lookup
  lookup-remove_all k [] m = refl
  lookup-remove_all k ((j, a) ∷ c) m =
      ground (arith, lookup-remove_all k c (remove j m), lookup-remove j k m)

module _ {ℓ} {V : Type ℓ} (P : String → V → Type 0) where
  pub Entries-remove_all : (c : Map ℕ) (m : Map V) → Entries P m → Entries P (remove_all c m)
  unfolding remove_all
  Entries-remove_all [] m h = h
  Entries-remove_all ((k, a) ∷ c) m h = Entries-remove_all c (remove k m) (Entries-remove P k m h)

take-Absent : (n : ℕ) (k : String) (c : Map ℕ) → Absent k c → Absent k (take n c)
take-Absent zero k c h = tt
take-Absent (suc n) k [] h = tt
take-Absent (suc n) k ((j, a) ∷ c) h = (h.0, take-Absent n k c h.1)

pub take-UniqueKeys : (n : ℕ) (c : Map ℕ) → UniqueKeys c → UniqueKeys (take n c)
take-UniqueKeys zero c h = tt
take-UniqueKeys (suc n) [] h = tt
take-UniqueKeys (suc n) ((j, a) ∷ c) h = (take-Absent n j c h.0, take-UniqueKeys n c h.1)

-- An entry of a list is found before the cut or after it.
pub lookup_cut :
    (n : ℕ) (k : String) (c : Map ℕ)
    → lookup k c
      ≡ (if is_some (lookup k (take n c)) then lookup k (take n c) else lookup k (drop n c))
unfolding lookup
lookup_cut zero k c = refl
lookup_cut (suc n) k [] = refl
lookup_cut (suc n) k ((j, a) ∷ c) = ground (arith, lookup_cut n k c)

-- What holds of all the entries holds of the one that is found.
All_lookup :
    (P : ℕ → Type 0) (k : String) (c : Map ℕ) {a : ℕ}
    → All (λ x. P x.1) c
    → lookup k c ≡ some a
    → P a
unfolding lookup
All_lookup P k [] h e = cc
All_lookup P k ((j, b) ∷ c) {a} h e = elim (Bool-cases (j == k)) [
  | inl hit ↦ let same : b ≡ a = ground arith in subst P same h.0
  | inr miss ↦ All_lookup P k c h.1 (ground arith)
]

-- Across the cut of a partition, the left value is at most the right one.
pub partition_le :
    (n : ℕ) (k j : String) (c : Map ℕ) {a b : ℕ}
    → All (λ x. All (λ y. x.1 ≤ y.1) (drop n c)) (take n c)
    → lookup k (take n c) ≡ some a
    → lookup j (drop n c) ≡ some b
    → a ≤ b
partition_le n k j c {a} {b} h p q =
    All_lookup (λ y. a ≤ y) j (drop n c)
      (All_lookup (λ x. All (λ y. x ≤ y.1) (drop n c)) k (take n c) h p) q

module _ {ℓ} {V : Type ℓ} (age : V → ℕ) (active : Option String) where
  candidates-Absent : (k : String) (m : Map V) → Absent k m → Absent k (candidates age active m)
  unfolding candidates
  candidates-Absent k [] h = tt
  candidates-Absent k ((j, v) ∷ m) h = ground (arith, candidates-Absent k m)

  pub candidates-UniqueKeys : (m : Map V) → UniqueKeys m → UniqueKeys (candidates age active m)
  unfolding candidates
  candidates-UniqueKeys [] h = tt
  candidates-UniqueKeys ((j, v) ∷ m) h =
      ground (arith, candidates-UniqueKeys m, candidates-Absent j m)

  pub lookup-candidates :
      (k : String) (m : Map V)
      → lookup k (candidates age active m)
        ≡ (if is_active active k then none else (lookup k m >>= λ v. some (age v)))
  unfolding candidates lookup
  lookup-candidates k [] = ground arith
  lookup-candidates k ((j, v) ∷ m) = ground (arith, lookup-candidates k m, eq_iff j k)
