-- ===== src/Prompt/Mentioned.antt =====
-- The byte ranges of a prompt cover what they mention: crates/codex-runtime/src/runtime/api/wire.rs.
use coclai.Prelude.{
  ℕ, ◌+◌, String, ◌≡◌, refl, sym, ap, ◌∙◌, subst, Option, List, [], ◌∷◌, ◌++◌, length,
  length-append, utf8, if_both,
}
use mathlib.Core.List.{append_assoc}
use coclai.Turn.Output.Merge.{append_nil}
use coclai.Prompt.{
  TextElement, PromptAttachment, at_path, image_url, local_image, skill, InputItem, text_item,
  text_with_elements, image_url_item, local_image_item, skill_item, Building, new_line,
  append_at_path_mention, attach, attach_all, start_building, text_input, build_prompt_inputs,
}

-- The range of the element covers `@path` in the text.
abbrev pub Covers : List ℕ → String → TextElement → Type 0
Covers text path e =
    (front : List ℕ) × (back : List ℕ) × (text ≡ front ++ ((64 ∷ utf8 path) ++ back))
    × (length front ≡ e.byte_range.start)
    × (e.byte_range.end ≡ e.byte_range.start + length (64 ∷ utf8 path))

-- The elements mention these paths, in this order, with these placeholders.
abbrev pub Mentions : List ℕ → List (String × Option String) → List TextElement → Type 0
Mentions text [] [] = Unit {0}
Mentions text [] (e ∷ es) = ⊥
Mentions text (p ∷ ps) [] = ⊥
Mentions text ((path, placeholder) ∷ ps) (e ∷ es) =
    Covers text path e × (e.placeholder ≡ placeholder) × Mentions text ps es

-- The mentions among the attachments.
abbrev pub mentioned : List PromptAttachment → List (String × Option String)
mentioned [] = []
mentioned (at_path path placeholder ∷ rest) = (path, placeholder) ∷ mentioned rest
mentioned (image_url url ∷ rest) = mentioned rest
mentioned (local_image path ∷ rest) = mentioned rest
mentioned (skill name path ∷ rest) = mentioned rest

append_no_more : (ps : List (String × Option String)) → ps ++ [] ≡ ps
append_no_more [] = refl
append_no_more (p ∷ ps) = rw (append_no_more ps) refl

append-Covers :
    (text more : List ℕ) (path : String) (e : TextElement)
    → Covers text path e
    → Covers (text ++ more) path e
append-Covers text more path e (front, back, same, at, end) = (
  front,
  back ++ more,
  ap (λ t. t ++ more) same
      ∙ append_assoc front ((64 ∷ utf8 path) ++ back) more
      ∙ ap (λ t. front ++ t) (append_assoc (64 ∷ utf8 path) back more),
  at,
  end,
)

append-Mentions :
    (text more : List ℕ) (ps : List (String × Option String)) (es : List TextElement)
    → Mentions text ps es
    → Mentions (text ++ more) ps es
append-Mentions text more [] [] h = tt
append-Mentions text more [] (e ∷ es) h = elim h [ ]
append-Mentions text more (p ∷ ps) [] h = elim h [ ]
append-Mentions text more (p ∷ ps) (e ∷ es) (covers, same, rest) =
    (append-Covers text more p.0 e covers, same, append-Mentions text more ps es rest)

snoc-Mentions :
    (text : List ℕ) (ps : List (String × Option String)) (es : List TextElement) (path : String)
    (placeholder : Option String) (e : TextElement)
    → Mentions text ps es
    → Covers text path e
    → e.placeholder ≡ placeholder
    → Mentions text (ps ++ ((path, placeholder) ∷ [])) (es ++ (e ∷ []))
snoc-Mentions text [] [] path placeholder e h covers same = (covers, same, tt)
snoc-Mentions text [] (f ∷ es) path placeholder e h covers same = elim h [ ]
snoc-Mentions text (p ∷ ps) [] path placeholder e h covers same = elim h [ ]
snoc-Mentions text (p ∷ ps) (f ∷ es) path placeholder e (first, mark, rest) covers same =
    (first, mark, snoc-Mentions text ps es path placeholder e rest covers same)

new_line-Mentions :
    (text : List ℕ) (ps : List (String × Option String)) (es : List TextElement)
    → Mentions text ps es
    → Mentions (new_line text) ps es
new_line-Mentions text ps es h =
    if_both (λ t. Mentions t ps es) _ (text ++ (10 ∷ [])) text
      (append-Mentions text (10 ∷ []) ps es h) h

mention-Mentions :
    (b : Building) (ps : List (String × Option String)) (path : String)
    (placeholder : Option String)
    → Mentions b.text ps b.text_elements
    → Mentions
        (append_at_path_mention b path placeholder).text
        (ps ++ ((path, placeholder) ∷ []))
        (append_at_path_mention b path placeholder).text_elements
unfolding append_at_path_mention
mention-Mentions b ps path placeholder h =
    let line = new_line b.text in
    snoc-Mentions (line ++ (64 ∷ utf8 path)) ps b.text_elements path placeholder _
      (append-Mentions line (64 ∷ utf8 path) ps b.text_elements
        (new_line-Mentions b.text ps b.text_elements h))
      (
        line,
        [],
        ap (λ t. line ++ t) (sym (append_nil (64 ∷ utf8 path))),
        refl,
        length-append line (64 ∷ utf8 path),
      )
      refl

attach_all-Mentions :
    (attachments : List PromptAttachment) (b : Building) (ps : List (String × Option String))
    → Mentions b.text ps b.text_elements
    → Mentions
        (attach_all b attachments).text
        (ps ++ mentioned attachments)
        (attach_all b attachments).text_elements
unfolding attach_all attach
attach_all-Mentions [] b ps h =
    subst (λ qs. Mentions b.text qs b.text_elements) (sym (append_no_more ps)) h
attach_all-Mentions (at_path path placeholder ∷ rest) b ps h =
    let next = append_at_path_mention b path placeholder in
    subst (λ qs. Mentions (attach_all next rest).text qs (attach_all next rest).text_elements)
      (append_assoc ps ((path, placeholder) ∷ []) (mentioned rest))
      (attach_all-Mentions rest next (ps ++ ((path, placeholder) ∷ []))
        (mention-Mentions b ps path placeholder h))
attach_all-Mentions (image_url url ∷ rest) b ps h = attach_all-Mentions rest _ ps h
attach_all-Mentions (local_image path ∷ rest) b ps h = attach_all-Mentions rest _ ps h
attach_all-Mentions (skill name path ∷ rest) b ps h = attach_all-Mentions rest _ ps h

-- The text and the elements of an item.
abbrev pub read_text : InputItem → List ℕ × List TextElement
read_text (text_item text) = (text, [])
read_text (text_with_elements text elements) = (text, elements)
read_text (image_url_item url) = ([], [])
read_text (local_image_item path) = ([], [])
read_text (skill_item name path) = ([], [])

read-text_input : (b : Building) → read_text (text_input b) ≡ (b.text, b.text_elements)
read-text_input b = go b.text_elements refl
  where
    go :
        (elements : List TextElement)
        → b.text_elements ≡ elements
        → read_text (text_input b) ≡ (b.text, b.text_elements)
    go [] e = rw e refl
    go (f ∷ elements) e = rw e refl

-- The input of a prompt starts with a text whose elements are, in order, the paths that the
-- attachments mention, with their placeholders, and the byte range of each covers exactly its
-- `@path` in that text.
pub build_prompt_inputs-Mentions :
    (prompt : String) (attachments : List PromptAttachment)
    → (first : InputItem) × (tail : List InputItem) × (build_prompt_inputs prompt attachments
        ≡ first ∷ tail)
      × Mentions (read_text first).0 (mentioned attachments) (read_text first).1
unfolding build_prompt_inputs
build_prompt_inputs-Mentions prompt attachments =
    let built = attach_all (start_building prompt) attachments in
    (
      text_input built,
      built.tail_items,
      refl,
      subst (λ r. Mentions r.0 (mentioned attachments) r.1) (sym (read-text_input built))
          (attach_all-Mentions attachments (start_building prompt) [] tt),
    )
