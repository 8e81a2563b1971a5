-- ===== src/Artifact/Patch/Lines.antt =====
-- Lines and texts: splitting loses nothing.
use coclai.Prelude.{ℕ, ◌≡◌, refl, ap, List, [], ◌∷◌, eqb, Bool-cases, inl, inr, concat}
use coclai.Artifact.Patch.{push_front, split_lines}

concat-push_front : (c : ℕ) (lines : List (List ℕ)) → concat (push_front c lines) ≡ c ∷ concat lines
concat-push_front c [] = refl
concat-push_front c (line ∷ lines) = refl

-- The lines of a text, put together again, are the text.
pub concat-split_lines : (text : List ℕ) → concat (split_lines text) ≡ text
unfolding split_lines
concat-split_lines [] = refl
concat-split_lines (c ∷ text) = elim (Bool-cases (eqb c 10)) [
  | inl e ↦ rw e (ap (◌∷◌ c) (concat-split_lines text))
  | inr e ↦ rw (e, concat-push_front c (split_lines text)) (ap (◌∷◌ c) (concat-split_lines text))
]
