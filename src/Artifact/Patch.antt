-- ===== src/Artifact/Patch.antt =====
-- Document patches: crates/codex-runtime/src/domain/artifact/models.rs. A text is its UTF-8 bytes.
-- The digest (`sha2` and `hex`) is a parameter. `usize` stays a natural number: a line count is at
-- most the length of a text, so `saturating_add(1)` never saturates.
pub mod Lines
pub mod Ordered
pub mod Splices
pub mod Laws
use Prim.Native.String.{◌++◌ as append}
use coclai.Prelude.{
  ℕ, suc, ◌+◌, ◌-◌, ◌≤◌, String, Bool, true, false, ◌&&◌, ◌||◌, not, Option, none, some, List, [],
  ◌∷◌, ◌++◌, eqb, ltb, leb, ◌==◌, if◌then◌else◌, length, take, drop, ◌>>=◌, concat,
}

pub record DocEdit : Type 0 where
  pub start_line : ℕ
  pub end_line : ℕ
  pub replacement : List ℕ

pub record DocPatch : Type 0 where
  pub format : String
  pub expected_revision : String
  pub edits : List DocEdit
  pub notes : Option String

pub data PatchConflict : Type 0 where
  -- expected, actual
  revision_mismatch : String → String → PatchConflict
  -- index, start_line, end_line, line_count
  invalid_range : ℕ → ℕ → ℕ → ℕ → PatchConflict
  -- index, prev_start, start
  not_sorted : ℕ → ℕ → ℕ → PatchConflict
  -- index, prev_end, start
  overlap : ℕ → ℕ → ℕ → PatchConflict

pub record ValidatedPatch : Type 0 where
  pub edits : List DocEdit

pub data Validation (A : Type 0) : Type 0 where
  ok : A → Validation A
  err : PatchConflict → Validation A

-- A character put in front of the first line.
abbrev pub push_front : ℕ → List (List ℕ) → List (List ℕ)
push_front c [] = (c ∷ []) ∷ []
push_front c (line ∷ lines) = (c ∷ line) ∷ lines

-- `split_inclusive('\n')`: each line keeps its line feed, the last one may have none.
unfoldable pub split_lines : List ℕ → List (List ℕ)
split_lines [] = []
split_lines (c ∷ text) =
    let lines = split_lines text in if eqb c 10 then (c ∷ []) ∷ lines else push_front c lines

unfoldable pub line_count : List ℕ → ℕ
unfolding split_lines
line_count text = length (split_lines text)

-- The loop of `validate_doc_patch`, from the edit number `index` on.
unfoldable pub validate_edits : ℕ → ℕ → ℕ → ℕ → List DocEdit → Option PatchConflict
validate_edits lines index prev_start prev_end [] = none
validate_edits lines index prev_start prev_end (edit ∷ edits) =
    let rest = validate_edits lines (suc index) edit.start_line edit.end_line edits in
    if eqb edit.start_line 0 || ltb edit.end_line edit.start_line || ltb (lines + 1) edit.end_line
    then some (invalid_range index edit.start_line edit.end_line lines)
    else if ltb 0 index && ltb edit.start_line prev_start
    then some (not_sorted index prev_start edit.start_line)
    else if ltb 0 index && ltb edit.start_line prev_end
    then some (overlap index prev_end edit.start_line)
    else rest

-- `Vec::splice(start..end, lines)`, then dropped: `none` is the panic on a range out of bounds.
unfoldable pub splice {ℓ} : {A : Type ℓ} → ℕ → ℕ → List A → List A → Option (List A)
splice start end new lines =
    if leb start end && leb end (length lines)
    then some (take start lines ++ (new ++ drop end lines))
    else none

-- The loop of `apply_doc_patch`, over `edits.iter().rev()`: the last edit is applied first.
unfoldable pub apply_edits : List DocEdit → List (List ℕ) → Option (List (List ℕ))
unfolding splice split_lines
apply_edits [] lines = some lines
apply_edits (edit ∷ edits) lines = apply_edits edits lines >>= λ changed.
    splice (edit.start_line - 1) (edit.end_line - 1) (split_lines edit.replacement) changed

unfoldable pub apply_doc_patch : List ℕ → ValidatedPatch → Option (List ℕ)
unfolding apply_edits
apply_doc_patch text patch =
    apply_edits patch.edits (split_lines text) >>= λ lines. some (concat lines)

module _ (sha256_hex : List ℕ → String) where
  unfoldable pub compute_revision : List ℕ → String
  compute_revision text = append "sha256:" (sha256_hex text)

  unfoldable pub validate_doc_patch : List ℕ → DocPatch → Validation ValidatedPatch
  unfolding compute_revision validate_edits line_count
  validate_doc_patch text patch =
      let current_revision = compute_revision text in
      if not (current_revision == patch.expected_revision)
      then err (revision_mismatch patch.expected_revision current_revision)
      else elim (validate_edits (line_count text) 0 0 0 patch.edits) [
        | none ↦ ok (record { edits = patch.edits })
        | some conflict ↦ err conflict
      ]
