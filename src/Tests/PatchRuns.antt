-- ===== src/Tests/PatchRuns.antt =====
-- Patches at work: crates/codex-runtime/src/domain/artifact/models.rs.
use coclai.Prelude.{
  ℕ, ◌≡◌, refl, String, none, some, List, [], ◌∷◌, is_empty, if◌then◌else◌, concat, arith,
}
use coclai.Artifact.Patch.{
  DocPatch, ValidatedPatch, ok, split_lines, line_count, compute_revision, validate_doc_patch,
  apply_doc_patch,
}
use coclai.Artifact.Patch.Ordered.{InOrder}
use coclai.Artifact.Patch.Splices.{merged}
use coclai.Artifact.Patch.Laws.{
  validate_doc_patch-ok, validate_doc_patch_sound, apply_doc_patch-merged,
}

-- A digest that tells the empty text from the others.
abbrev digest : List ℕ → String
digest text = if is_empty text then "e3b0" else "5e88"

-- Three lines, the last without a line feed.
abbrev doc : List ℕ
doc = 97 ∷ 10 ∷ 98 ∷ 10 ∷ 99 ∷ []

-- The first line is replaced by two, the third is deleted.
abbrev patch : DocPatch
patch = record {
  format = "doc_patch/v1";
  expected_revision = "sha256:5e88";
  edits =
      record { start_line = 1; end_line = 2; replacement = 120 ∷ 10 ∷ 121 ∷ 10 ∷ [] }
      ∷ record { start_line = 3; end_line = 4; replacement = [] }
      ∷ [];
  notes = none;
}

abbrev validated : ValidatedPatch
validated = record { edits = patch.edits }

validate_doc_patch-ok_example : validate_doc_patch digest doc patch ≡ ok validated
unfolding compute_revision line_count
validate_doc_patch-ok_example = validate_doc_patch-ok digest doc patch refl (
  omega arith,
  omega arith,
  omega arith,
  omega arith,
  (omega arith, omega arith, omega arith, omega arith, tt),
)

validate_doc_patch_sound_example :
    (compute_revision digest doc ≡ patch.expected_revision)
    × InOrder (line_count doc) 0 patch.edits
    × (validated.edits ≡ patch.edits)
unfolding validate_doc_patch
validate_doc_patch_sound_example = validate_doc_patch_sound digest doc patch validated refl

apply_doc_patch-merged_example :
    apply_doc_patch doc validated ≡ some (concat (merged 0 (split_lines doc) patch.edits))
unfolding validate_doc_patch
apply_doc_patch-merged_example = apply_doc_patch-merged digest doc patch validated refl

-- The run of the code on it.
apply_doc_patch_run : apply_doc_patch doc validated ≡ some (120 ∷ 10 ∷ 121 ∷ 10 ∷ 98 ∷ 10 ∷ [])
unfolding apply_doc_patch
apply_doc_patch_run = refl
