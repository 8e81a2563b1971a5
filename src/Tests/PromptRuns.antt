-- ===== src/Tests/PromptRuns.antt =====
-- A prompt with attachments: crates/codex-runtime/src/runtime/api/wire.rs.
use coclai.Prelude.{List, [], ◌∷◌, ◌≡◌, refl, some, none}
use coclai.Prompt.{
  PromptAttachment, at_path, image_url, InputItem, build_prompt_inputs, image_url_item,
  text_with_elements,
}
use coclai.Prompt.Mentioned.{Mentions, mentioned, read_text, build_prompt_inputs-Mentions}

-- Two paths around an image.
abbrev attachments : List PromptAttachment
attachments = at_path "src/a" none ∷ image_url "u" ∷ at_path "b" (some "B") ∷ []

-- The second path starts on a line of its own, after `ab`, a line end, `@src/a` and a line end.
two_mentions : build_prompt_inputs "ab" attachments ≡ (
    text_with_elements (97 ∷ 98 ∷ 10 ∷ 64 ∷ 115 ∷ 114 ∷ 99 ∷ 47 ∷ 97 ∷ 10 ∷ 64 ∷ 98 ∷ []) (
      record { byte_range = record { start = 3; end = 9 }; placeholder = none }
      ∷ record { byte_range = record { start = 10; end = 12 }; placeholder = some "B" }
      ∷ [])
    ∷ image_url_item "u"
    ∷ [])
unfolding build_prompt_inputs
two_mentions = refl

build_prompt_inputs-Mentions_example :
    (first : InputItem) × (tail : List InputItem) × (build_prompt_inputs "ab" attachments
      ≡ first ∷ tail)
    × Mentions (read_text first).0 (mentioned attachments) (read_text first).1
build_prompt_inputs-Mentions_example = build_prompt_inputs-Mentions "ab" attachments
