-- ===== src/Artifact/Patch/Laws.antt =====
-- What the validation of a patch and its application promise: crates/codex-runtime/src/domain/artifact/models.rs.
use coclai.Prelude.{ℕ, ◌≡◌, refl, String, some, List, arith, Option-cases, inl, inr, concat, eq_iff}
use coclai.Artifact.Patch.{
  DocPatch, ValidatedPatch, ok, validate_edits, validate_doc_patch, compute_revision,
  apply_doc_patch, split_lines, line_count,
}
use coclai.Artifact.Patch.Ordered.{InOrder, validate_edits-InOrder, validate_edits-none}
use coclai.Artifact.Patch.Splices.{merged, apply_edits_lem}

module _ (sha256_hex : List ℕ → String) where
  -- A patch that was made for this text's revision, and whose edits are ranges of the text's lines, in
  -- order and apart, is accepted with all its edits.
  pub validate_doc_patch-ok :
      (text : List ℕ) (patch : DocPatch)
      → (compute_revision sha256_hex text ≡ patch.expected_revision)
      → InOrder (line_count text) 0 patch.edits
      → validate_doc_patch sha256_hex text patch ≡ ok (record { edits = patch.edits })
  unfolding validate_doc_patch
  validate_doc_patch-ok text patch r o = ground (
    arith,
    validate_edits-none (line_count text) patch.edits o,
    eq_iff (compute_revision sha256_hex text) patch.expected_revision,
  )

  -- A patch that is accepted was made for this text's revision, its edits are ranges of the text's
  -- lines, in order and apart, and the accepted edits are the patch's own.
  pub validate_doc_patch_sound :
      (text : List ℕ) (patch : DocPatch) (validated : ValidatedPatch)
      → validate_doc_patch sha256_hex text patch ≡ ok validated
      → (compute_revision sha256_hex text ≡ patch.expected_revision)
        × InOrder (line_count text) 0 patch.edits
        × (validated.edits ≡ patch.edits)
  unfolding validate_doc_patch
  validate_doc_patch_sound text patch validated h =
      elim (Option-cases (validate_edits (line_count text) 0 0 0 patch.edits)) [
        | inl e ↦ (
          ground (arith, eq_iff (compute_revision sha256_hex text) patch.expected_revision),
          validate_edits-InOrder (line_count text) patch.edits e,
          ground arith,
        )
        | inr (conflict, e) ↦ ground arith
      ]

  -- Whatever patch the validation accepts, its application from the last edit to the first does not
  -- panic, and gives the text that one pass from the first edit to the last gives.
  pub apply_doc_patch-merged :
      (text : List ℕ) (patch : DocPatch) (validated : ValidatedPatch)
      → validate_doc_patch sha256_hex text patch ≡ ok validated
      → apply_doc_patch text validated ≡ some (concat (merged 0 (split_lines text) patch.edits))
  unfolding apply_doc_patch
  apply_doc_patch-merged text patch validated h =
      let (r, o, e) = validate_doc_patch_sound text patch validated h in
      rw (e, apply_edits_lem (split_lines text) patch.edits (unfold line_count in o)) refl
