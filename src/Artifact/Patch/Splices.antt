-- ===== src/Artifact/Patch/Splices.antt =====
-- Splicing from the last edit to the first, against one pass over the lines from the first edit to
-- the last.
use mathlib.Core.List.{append_assoc}
use coclai.Prelude.{
  ℕ, zero, suc, ◌-◌, ◌≤◌, ◌≡◌, refl, ap, sym, ◌∙◌, some, List, [], ◌∷◌, ◌++◌, arith, length, take,
  drop, take-append-drop, length-append, length-take, take-nil, drop-nil, leb, ◌&&◌, true,
}
use coclai.Artifact.Patch.{DocEdit, splice, split_lines, apply_edits}
use coclai.Artifact.Patch.Ordered.{InOrder}

-- One pass: `rest` are the lines from number `from` on (counted from 0). Each edit keeps the lines
-- in front of it, puts its replacement, and skips the lines that it replaces.
unfoldable pub merged : ℕ → List (List ℕ) → List DocEdit → List (List ℕ)
merged from rest [] = rest
merged from rest (edit ∷ edits) =
    take (edit.start_line - 1 - from) rest
    ++ (split_lines edit.replacement
        ++ merged (edit.end_line - 1) (drop (edit.end_line - 1 - from) rest) edits)

module _ {ℓ} {A : Type ℓ} where
  take-append_le : (n : ℕ) (xs ys : List A) → n ≤ length xs → take n (xs ++ ys) ≡ take n xs
  take-append_le zero xs ys h = refl
  take-append_le (suc n) [] ys h = absurd (omega arith)
  take-append_le (suc n) (x ∷ xs) ys h = ap (◌∷◌ x) (take-append_le n xs ys (omega arith))

  drop-append_eq : (n : ℕ) (xs ys : List A) → length xs ≡ n → drop n (xs ++ ys) ≡ ys
  drop-append_eq zero [] ys h = refl
  drop-append_eq zero (x ∷ xs) ys h = absurd (omega arith)
  drop-append_eq (suc n) [] ys h = absurd (omega arith)
  drop-append_eq (suc n) (x ∷ xs) ys h = drop-append_eq n xs ys (omega arith)

  take-take_le : (n m : ℕ) (xs : List A) → n ≤ m → take n (take m xs) ≡ take n xs
  take-take_le zero m xs h = refl
  take-take_le (suc n) zero xs h = absurd (omega arith)
  take-take_le (suc n) (suc m) [] h = refl
  take-take_le (suc n) (suc m) (x ∷ xs) h = ap (◌∷◌ x) (take-take_le n m xs (omega arith))

  -- The first `m` are the first `n` and the next `m - n`.
  take_split : (n m : ℕ) (xs : List A) → n ≤ m → take m xs ≡ take n xs ++ take (m - n) (drop n xs)
  take_split zero m xs h = ap (λ k. take k xs) (omega arith)
  take_split (suc n) zero xs h = absurd (omega arith)
  take_split (suc n) (suc m) [] h = sym (take-nil (suc m - suc n))
  take_split (suc n) (suc m) (x ∷ xs) h =
      ap (◌∷◌ x)
        (take_split n m xs (omega arith) ∙ ap (λ k. take n xs ++ take k (drop n xs)) (omega arith))

  drop_split : (n m : ℕ) (xs : List A) → n ≤ m → drop m xs ≡ drop (m - n) (drop n xs)
  drop_split zero m xs h = ap (λ k. drop k xs) (omega arith)
  drop_split (suc n) zero xs h = absurd (omega arith)
  drop_split (suc n) (suc m) [] h = sym (drop-nil (suc m - suc n))
  drop_split (suc n) (suc m) (x ∷ xs) h =
      drop_split n m xs (omega arith) ∙ ap (λ k. drop k (drop n xs)) (omega arith)

  -- A splice in front of a part that is kept whole.
  splice_front :
      (start end : ℕ) (new xs ys : List A)
      → start ≤ end
      → end ≤ length xs
      → splice start end new (take end xs ++ ys) ≡ some (take start xs ++ (new ++ ys))
  unfolding splice
  splice_front start end new xs ys p q =
      let size : length (take end xs) ≡ end = omega (arith, length-take end xs) in
      let fits : (leb start end && leb end (length (take end xs ++ ys))) ≡ true =
        ground (arith, length-append (take end xs) ys) in
      rw
        (
          fits,
          take-append_le start (take end xs) ys (omega arith),
          take-take_le start end xs p,
          drop-append_eq end (take end xs) ys size,
        )
        refl

-- The lines before `from` stay, and the rest is one pass of the edits.
apply_edits-merged :
    (lines : List (List ℕ)) (from : ℕ) (edits : List DocEdit)
    → from ≤ length lines
    → InOrder (length lines) from edits
    → apply_edits edits lines ≡ some (take from lines ++ merged from (drop from lines) edits)
unfolding apply_edits merged
apply_edits-merged lines from [] h o = rw (take-append-drop from lines) refl
apply_edits-merged lines from (edit ∷ edits) h (positive, after, range, inside, o) =
    let start : ℕ = edit.start_line - 1 in
    let end : ℕ = edit.end_line - 1 in
    let new = split_lines edit.replacement in
    let tail = merged end (drop end lines) edits in
    rw
      (
        apply_edits-merged lines end edits (omega arith) o,
        splice_front start end new lines tail (omega arith) (omega arith),
        take_split from start lines (omega arith),
        ← drop_split from end lines (omega arith),
        append_assoc,
      )
      refl

pub apply_edits_lem :
    (lines : List (List ℕ)) (edits : List DocEdit)
    → InOrder (length lines) 0 edits
    → apply_edits edits lines ≡ some (merged 0 lines edits)
apply_edits_lem lines edits o = apply_edits-merged lines 0 edits (omega arith) o
