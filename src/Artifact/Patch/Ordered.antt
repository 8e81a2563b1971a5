-- ===== src/Artifact/Patch/Ordered.antt =====
-- What `validate_doc_patch` checks, stated without its loop.
use coclai.Prelude.{ℕ, suc, ◌+◌, ◌-◌, ◌≤◌, ◌<◌, ◌≡◌, refl, none, List, [], ◌∷◌, arith}
use coclai.Artifact.Patch.{DocEdit, validate_edits}

-- The edits are ranges of the lines 1 to `lines`, with exclusive ends, from left to right, none
-- beginning before the line `from` (counted from 0).
abbrev pub InOrder : ℕ → ℕ → List DocEdit → Type 0
InOrder lines from [] = Unit {0}
InOrder lines from (edit ∷ edits) =
    (0 < edit.start_line)
    × (from ≤ edit.start_line - 1)
    × (edit.start_line ≤ edit.end_line)
    × (edit.end_line ≤ lines + 1)
    × InOrder lines (edit.end_line - 1) edits

validate_edits-next :
    (lines index prev_start prev_end : ℕ) (edits : List DocEdit)
    → 0 < prev_start
    → prev_start ≤ prev_end
    → validate_edits lines (suc index) prev_start prev_end edits ≡ none
    → InOrder lines (prev_end - 1) edits
unfolding validate_edits
validate_edits-next lines index prev_start prev_end [] p q h = tt
validate_edits-next lines index prev_start prev_end (edit ∷ edits) p q h =
    ground (arith, validate_edits-next lines (suc index) edit.start_line edit.end_line edits)

pub validate_edits-InOrder :
    (lines : ℕ) (edits : List DocEdit)
    → validate_edits lines 0 0 0 edits ≡ none
    → InOrder lines 0 edits
unfolding validate_edits
validate_edits-InOrder lines [] h = tt
validate_edits-InOrder lines (edit ∷ edits) h =
    ground (arith, validate_edits-next lines 0 edit.start_line edit.end_line edits)

validate_edits_complete :
    (lines index prev_start prev_end : ℕ) (edits : List DocEdit)
    → prev_start ≤ prev_end
    → InOrder lines (prev_end - 1) edits
    → validate_edits lines index prev_start prev_end edits ≡ none
unfolding validate_edits
validate_edits_complete lines index prev_start prev_end [] q h = refl
validate_edits_complete lines index prev_start prev_end (edit ∷ edits) q h =
    ground (arith, validate_edits_complete lines (suc index) edit.start_line edit.end_line edits)

pub validate_edits-none :
    (lines : ℕ) (edits : List DocEdit)
    → InOrder lines 0 edits
    → validate_edits lines 0 0 0 edits ≡ none
validate_edits-none lines edits h = validate_edits_complete lines 0 0 0 edits (omega arith) h
