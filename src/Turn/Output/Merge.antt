-- ===== src/Turn/Output/Merge.antt =====
-- Nothing that was collected or that `turn/completed` brings is lost or doubled by the merge.
use coclai.Prelude.{
  ℕ, ◌≡◌, ◌⊎◌, refl, ap, sym, ◌∙◌, true, false, List, [], ◌∷◌, ◌++◌, ◌===◌, starts_with, ends_with,
  arith, Bool-cases, inl, inr, length, length-append,
}
use coclai.Turn.Output.{merge_turn_completed_text}
use mathlib.Core.List.{append_assoc}

-- The text begins with `front`, and it ends with `back`.
abbrev pub BeginsWith : List ℕ → List ℕ → Type 0
BeginsWith front text = (rest : List ℕ) × (text ≡ front ++ rest)

abbrev pub EndsIn : List ℕ → List ℕ → Type 0
EndsIn back text = (front : List ℕ) × (text ≡ front ++ back)

pub append_nil : (cs : List ℕ) → cs ++ [] ≡ cs
append_nil [] = refl
append_nil (c ∷ cs) = rw (append_nil cs) refl

pub same-eq : (cs ds : List ℕ) → (cs === ds) ≡ true → cs ≡ ds
same-eq [] [] h = refl
same-eq [] (d ∷ ds) h = ground arith
same-eq (c ∷ cs) [] h = ground arith
same-eq (c ∷ cs) (d ∷ ds) h = ground (arith, same-eq cs ds)

pub same_refl : (cs : List ℕ) → (cs === cs) ≡ true
same_refl [] = refl
same_refl (c ∷ cs) = ground (arith, same_refl cs)

starts_with-BeginsWith :
    (text front : List ℕ) → starts_with text front ≡ true → BeginsWith front text
starts_with-BeginsWith text [] h = (text, refl)
starts_with-BeginsWith [] (d ∷ ds) h = ground arith
starts_with-BeginsWith (c ∷ cs) (d ∷ ds) h =
    let (rest, e) = starts_with-BeginsWith cs ds (ground arith) in (rest, ground arith)

ends_with-EndsIn : (text back : List ℕ) → ends_with text back ≡ true → EndsIn back text
ends_with-EndsIn [] back h = ([], same-eq [] back h)
ends_with-EndsIn (c ∷ cs) back h = elim (Bool-cases ((c ∷ cs) === back)) [
  | inl same ↦ ([], same-eq (c ∷ cs) back same)
  | inr other ↦
      let (front, e) = ends_with-EndsIn cs back (ground arith) in (c ∷ front, ground arith)
]

EndsIn-ends_with : (front back : List ℕ) → ends_with (front ++ back) back ≡ true
EndsIn-ends_with [] [] = refl
EndsIn-ends_with [] (c ∷ cs) = rw (same_refl (c ∷ cs)) refl
EndsIn-ends_with (d ∷ front) back = ground (arith, EndsIn-ends_with front back)

-- The three ways to merge: what is there stays, the text takes its place, or a line is added.
abbrev Merged : List ℕ → List ℕ → List ℕ → Type 0
Merged out text result =
    ((result ≡ out) × EndsIn text out)
    ⊎ (((result ≡ text) × BeginsWith out text)
        ⊎ ((result ≡ out ++ (10 ∷ text)) × (ends_with out text ≡ false)))

merge_turn_completed_text-cases :
    (out text : List ℕ) → Merged out text (merge_turn_completed_text out text)
unfolding merge_turn_completed_text
merge_turn_completed_text-cases out [] = inl (refl, (out, sym (append_nil out)))
merge_turn_completed_text-cases [] (c ∷ cs) = inr (inl (refl, (c ∷ cs, refl)))
merge_turn_completed_text-cases (d ∷ ds) (c ∷ cs) = elim (Bool-cases ((d ∷ ds) === (c ∷ cs))) [
  | inl same ↦ inl (rw (merge_turn_completed_text, same) refl, ([], same-eq (d ∷ ds) (c ∷ cs) same))
  | inr other ↦ elim (Bool-cases (starts_with (c ∷ cs) (d ∷ ds))) [
    | inl starts ↦ inr (
        inl (
          rw (merge_turn_completed_text, other, starts) refl,
          starts_with-BeginsWith (c ∷ cs) (d ∷ ds) starts,
        ))
    | inr apart ↦ elim (Bool-cases (ends_with (d ∷ ds) (c ∷ cs))) [
      | inl ends ↦ inl (ground arith, ends_with-EndsIn (d ∷ ds) (c ∷ cs) ends)
      | inr new ↦ inr (inr (ground arith, new))
    ]
  ]
]

-- The text that `turn/completed` leaves begins with what was collected before and ends with the
-- text of the event: what was streamed is never lost, and the final text is there in full.
pub merge_turn_completed_text-keeps_both :
    (out text : List ℕ)
    → BeginsWith out (merge_turn_completed_text out text)
      × EndsIn text (merge_turn_completed_text out text)
merge_turn_completed_text-keeps_both out text = elim (merge_turn_completed_text-cases out text) [
  | inl (e, (front, f)) ↦ (([], e ∙ sym (append_nil out)), (front, e ∙ f))
  | inr (inl (e, (rest, f))) ↦ ((rest, e ∙ f), ([], e))
  | inr (inr (e, new)) ↦
      ((10 ∷ text, e), (out ++ (10 ∷ []), e ∙ sym (append_assoc out (10 ∷ []) text)))
]

nothing_more : (rest : List ℕ) → length rest ≡ 0 → rest ≡ []
nothing_more [] h = refl
nothing_more (c ∷ rest) h = ground arith

-- A text that lies at the start and at the end of another is that other one.
both_ends : (out text front rest : List ℕ) → out ≡ front ++ text → text ≡ out ++ rest → text ≡ out
both_ends out text front rest ends starts =
    let none_left = nothing_more rest (
      omega (
        arith,
        ap length ends,
        ap length starts,
        length-append front text,
        length-append out rest,
      )) in
    starts ∙ ap (λ cs. out ++ cs) none_left ∙ append_nil out

-- What already ends in the text stays as it is.
merge_turn_completed_text-EndsIn :
    (out text : List ℕ) → EndsIn text out → merge_turn_completed_text out text ≡ out
merge_turn_completed_text-EndsIn out text (front, e) =
    elim (merge_turn_completed_text-cases out text) [
      | inl (same, _) ↦ same
      | inr (inl (taken, (rest, starts))) ↦ taken ∙ both_ends out text front rest e starts
      | inr (inr (_, new)) ↦
          let ends = ap (λ cs. ends_with cs text) e ∙ EndsIn-ends_with front text in
          absurd (ground arith)
    ]

-- A second `turn/completed` with the same text changes nothing.
pub merge_turn_completed_text_twice :
    (out text : List ℕ)
    → merge_turn_completed_text (merge_turn_completed_text out text) text
      ≡ merge_turn_completed_text out text
merge_turn_completed_text_twice out text =
    merge_turn_completed_text-EndsIn (merge_turn_completed_text out text) text
      ((merge_turn_completed_text-keeps_both out text).1)
