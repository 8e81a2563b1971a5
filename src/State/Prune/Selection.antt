-- ===== src/State/Prune/Selection.antt =====
-- Dictionaries that are permutations of one another: they have the same keys and the same values.
use mathlib.Core.List.{Perm, Permᴰ}
use mathlib.Core.Logic.{∥∥₁_elim}
use coclai.Prelude.{
  ℕ, ◌≡◌, refl, ◌∙◌, subst, String, false, [], ◌∷◌, ◌==◌, eq_iff, length, Map, lookup, Absent,
  UniqueKeys, arith,
}

Absent-prop : (k : String) (m : Map ℕ) → IsProp (Absent k m)
Absent-prop k [] = hlevel
Absent-prop k ((j, v) ∷ m) = hlevel (Absent-prop k m)

UniqueKeys-prop : (m : Map ℕ) → IsProp (UniqueKeys m)
UniqueKeys-prop [] = hlevel
UniqueKeys-prop ((j, v) ∷ m) = hlevel (Absent-prop j m, UniqueKeys-prop m)

ne_symm : (j k : String) → (j == k) ≡ false → (k == j) ≡ false
ne_symm j k h = ground (arith, eq_iff j k, eq_iff k j)

Absent-permᴰ : (k : String) {xs ys : Map ℕ} → Permᴰ xs ys → Absent k xs → Absent k ys
Absent-permᴰ k Permᴰ.nil h = tt
Absent-permᴰ k (Permᴰ.cons e p) h = (rw (← e) h.0, Absent-permᴰ k p h.1)
Absent-permᴰ k (Permᴰ.swap e f) h = (rw (← f) h.1.0, (rw (← e) h.0, h.1.1))
Absent-permᴰ k (Permᴰ.trans p q) h = Absent-permᴰ k q (Absent-permᴰ k p h)

UniqueKeys-permᴰ : {xs ys : Map ℕ} → Permᴰ xs ys → UniqueKeys xs → UniqueKeys ys
UniqueKeys-permᴰ Permᴰ.nil h = tt
UniqueKeys-permᴰ (Permᴰ.cons e p) h = (rw (← e) (Absent-permᴰ _ p h.0), UniqueKeys-permᴰ p h.1)
UniqueKeys-permᴰ (Permᴰ.swap {a} {b} {l} e f) h = (
  (rw (← e, ← f) (ne_symm b.0 a.0 h.0.0), subst (λ (p : String × ℕ). Absent p.0 l) f h.1.0),
  (subst (λ (p : String × ℕ). Absent p.0 l) e h.0.1, h.1.1),
)
UniqueKeys-permᴰ (Permᴰ.trans p q) h = UniqueKeys-permᴰ q (UniqueKeys-permᴰ p h)

lookup-permᴰ :
    (k : String) {xs ys : Map ℕ} → Permᴰ xs ys → UniqueKeys xs → lookup k xs ≡ lookup k ys
unfolding lookup
lookup-permᴰ k Permᴰ.nil h = refl
lookup-permᴰ k (Permᴰ.cons e p) h = rw (← e) (ground (arith, lookup-permᴰ k p h.1))
lookup-permᴰ k (Permᴰ.swap {a} {b} e f) h =
    rw (← e, ← f) (ground (arith, eq_iff a.0 k, eq_iff b.0 k, eq_iff b.0 a.0))
lookup-permᴰ k (Permᴰ.trans p q) h = lookup-permᴰ k p h ∙ lookup-permᴰ k q (UniqueKeys-permᴰ p h)

-- What a permutation `ys` of the dictionary `xs` has in common with it.
pub record SameEntries (xs ys : Map ℕ) : Type 0 where
  pub unique : UniqueKeys ys
  pub lookup_eq : (k : String) → lookup k xs ≡ lookup k ys
  pub length_eq : length xs ≡ length ys

length-permᴰ : {xs ys : Map ℕ} → Permᴰ xs ys → length xs ≡ length ys
length-permᴰ Permᴰ.nil = refl
length-permᴰ (Permᴰ.cons e p) = omega (arith, length-permᴰ p)
length-permᴰ (Permᴰ.swap e f) = refl
length-permᴰ (Permᴰ.trans p q) = length-permᴰ p ∙ length-permᴰ q

pub SameEntries-of_perm : {xs ys : Map ℕ} → UniqueKeys xs → Perm xs ys → SameEntries xs ys
SameEntries-of_perm {xs} {ys} u p = record {
  unique = ∥∥₁_elim p (UniqueKeys-prop ys) (λ d. UniqueKeys-permᴰ d u);
  lookup_eq = λ k. ∥∥₁_elim p (hlevel) (λ d. lookup-permᴰ k d u);
  length_eq = ∥∥₁_elim p (hlevel) (λ d. length-permᴰ d);
}
