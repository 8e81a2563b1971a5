-- ===== src/Tests/Sorting.antt =====
-- A selection that meets the contract of `select_nth_unstable_by_key`: it sorts by age.
use mathlib.Core.List.{Perm}
use mathlib.Core.List.Perm.{rfl, swap, cons, trans}
use coclai.Prelude.{
  ℕ, zero, suc, ◌≤◌, String, [], ◌∷◌, leb, if◌then◌else◌, take, drop, All, Map, arith, Bool-cases,
  inl, inr, leb→le,
}
use coclai.State.Prune.{SelectNth}

abbrev pub insert_by : String × ℕ → Map ℕ → Map ℕ
insert_by x [] = x ∷ []
insert_by x (y ∷ ys) = let rest = insert_by x ys in if leb x.1 y.1 then x ∷ y ∷ ys else y ∷ rest

abbrev pub sort_by : Map ℕ → Map ℕ
sort_by [] = []
sort_by (x ∷ xs) = insert_by x (sort_by xs)

insert_by-perm : (x : String × ℕ) (ys : Map ℕ) → Perm (x ∷ ys) (insert_by x ys)
insert_by-perm x [] = rfl
insert_by-perm x (y ∷ ys) = elim (Bool-cases (leb x.1 y.1)) [
  | inl e ↦ rw e rfl
  | inr e ↦ rw e (trans (swap y x ys) (cons y (insert_by-perm x ys)))
]

pub sort_by-perm : (xs : Map ℕ) → Perm xs (sort_by xs)
sort_by-perm [] = rfl
sort_by-perm (x ∷ xs) = trans (cons x (sort_by-perm xs)) (insert_by-perm x (sort_by xs))

abbrev pub AtLeast : ℕ → Map ℕ → Type 0
AtLeast n = All (λ (y : String × ℕ). n ≤ y.1)

abbrev pub Sorted : Map ℕ → Type 0
Sorted [] = Unit
Sorted (x ∷ xs) = AtLeast x.1 xs × Sorted xs

AtLeast-le : (n m : ℕ) (xs : Map ℕ) → n ≤ m → AtLeast m xs → AtLeast n xs
AtLeast-le n m [] h a = tt
AtLeast-le n m (x ∷ xs) h a = (omega (arith, a.0), AtLeast-le n m xs h a.1)

insert_by-AtLeast :
    (n : ℕ) (x : String × ℕ) (ys : Map ℕ) → n ≤ x.1 → AtLeast n ys → AtLeast n (insert_by x ys)
insert_by-AtLeast n x [] h a = (h, tt)
insert_by-AtLeast n x (y ∷ ys) h a = elim (Bool-cases (leb x.1 y.1)) [
  | inl e ↦ rw e (h, a)
  | inr e ↦ rw e (a.0, insert_by-AtLeast n x ys h a.1)
]

insert_by-Sorted : (x : String × ℕ) (ys : Map ℕ) → Sorted ys → Sorted (insert_by x ys)
insert_by-Sorted x [] s = (tt, tt)
insert_by-Sorted x (y ∷ ys) s = elim (Bool-cases (leb x.1 y.1)) [
  | inl e ↦ rw e ((leb→le x.1 y.1 e, AtLeast-le x.1 y.1 ys (leb→le x.1 y.1 e) s.0), s)
  | inr e ↦ rw e (insert_by-AtLeast y.1 x ys (ground arith) s.0, insert_by-Sorted x ys s.1)
]

pub sort_by-Sorted : (xs : Map ℕ) → Sorted (sort_by xs)
sort_by-Sorted [] = tt
sort_by-Sorted (x ∷ xs) = insert_by-Sorted x (sort_by xs) (sort_by-Sorted xs)

drop-AtLeast : (n m : ℕ) (xs : Map ℕ) → AtLeast m xs → AtLeast m (drop n xs)
drop-AtLeast zero m xs a = a
drop-AtLeast (suc n) m [] a = tt
drop-AtLeast (suc n) m (x ∷ xs) a = drop-AtLeast n m xs a.1

pub Sorted-partitions :
    (n : ℕ) (xs : Map ℕ) → Sorted xs → All (λ x. AtLeast x.1 (drop n xs)) (take n xs)
Sorted-partitions zero xs s = tt
Sorted-partitions (suc n) [] s = tt
Sorted-partitions (suc n) (x ∷ xs) s = (drop-AtLeast n x.1 xs s.0, Sorted-partitions n xs s.1)

abbrev pub sorting : SelectNth
sorting = record {
  run = λ _ xs. sort_by xs;
  run-perm = λ n xs h. sort_by-perm xs;
  run_partitions = λ n xs h. Sorted-partitions (suc n) (sort_by xs) (sort_by-Sorted xs);
}
