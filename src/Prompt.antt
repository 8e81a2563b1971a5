-- ===== src/Prompt.antt =====
-- The input of one prompt: `build_prompt_inputs`, crates/codex-runtime/src/runtime/api/wire.rs. A text
-- that is built is the list of its UTF-8 bytes.
pub mod Mentioned
use coclai.Prelude.{
  ℕ, String, Bool, true, false, not, ◌&&◌, Option, List, [], ◌∷◌, ◌++◌, eqb, is_empty, length, utf8,
  if◌then◌else◌,
}

pub record ByteRange : Type 0 where
  pub start : ℕ
  pub end : ℕ

pub record TextElement : Type 0 where
  pub byte_range : ByteRange
  pub placeholder : Option String

pub data PromptAttachment : Type 0 where
  at_path : (path : String) (placeholder : Option String) → PromptAttachment
  image_url : (url : String) → PromptAttachment
  local_image : (path : String) → PromptAttachment
  skill : (name path : String) → PromptAttachment

pub data InputItem : Type 0 where
  text_item : List ℕ → InputItem
  text_with_elements : List ℕ → List TextElement → InputItem
  image_url_item : (url : String) → InputItem
  local_image_item : (path : String) → InputItem
  skill_item : (name path : String) → InputItem

-- `text.ends_with('\n')`.
abbrev ends_line : List ℕ → Bool
ends_line [] = false
ends_line (b ∷ []) = eqb b 10
ends_line (b ∷ c ∷ bs) = ends_line (c ∷ bs)

-- The text, the elements and the other items, as far as the loop has built them.
pub record Building : Type 0 where
  pub text : List ℕ
  pub text_elements : List TextElement
  pub tail_items : List InputItem

-- A line end before a mention, unless the text is empty or has one.
abbrev pub new_line : List ℕ → List ℕ
new_line text = if not (is_empty text) && not (ends_line text) then text ++ (10 ∷ []) else text

unfoldable pub append_at_path_mention : Building → (path : String) → Option String → Building
append_at_path_mention b path placeholder = record b {
  text = new_line b.text ++ (64 ∷ utf8 path);
  text_elements =
      b.text_elements
      ++ (record {
        byte_range = record {
          start = length (new_line b.text);
          end = length (new_line b.text ++ (64 ∷ utf8 path));
        };
        placeholder = placeholder;
      }
          ∷ []);
}

-- The body of the loop over the attachments.
unfoldable pub attach : Building → PromptAttachment → Building
unfolding append_at_path_mention
attach b (at_path path placeholder) = append_at_path_mention b path placeholder
attach b (image_url url) = record b { tail_items = b.tail_items ++ (image_url_item url ∷ []) }
attach b (local_image path) = record b { tail_items = b.tail_items ++ (local_image_item path ∷ []) }
attach b (skill name path) = record b { tail_items = b.tail_items ++ (skill_item name path ∷ []) }

unfoldable pub attach_all : Building → List PromptAttachment → Building
unfolding attach
attach_all b [] = b
attach_all b (a ∷ attachments) = attach_all (attach b a) attachments

-- What stands before the loop.
abbrev pub start_building : (prompt : String) → Building
start_building prompt = record { text = utf8 prompt; text_elements = []; tail_items = [] }

-- The first item of the input.
abbrev pub text_input : Building → InputItem
text_input b =
    if is_empty b.text_elements then text_item b.text else text_with_elements b.text b.text_elements

unfoldable pub build_prompt_inputs : (prompt : String) → List PromptAttachment → List InputItem
unfolding attach_all
build_prompt_inputs prompt attachments =
    let built = attach_all (start_building prompt) attachments in
    text_input built ∷ built.tail_items
