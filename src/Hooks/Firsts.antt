-- ===== src/Hooks/Firsts.antt =====
-- The first hook of each name, and the loop that takes the hooks whose name is new:
-- crates/codex-runtime/src/runtime/hooks.rs.
use coclai.Prelude.{
  String, ◌≡◌, refl, sym, ap, ◌∙◌, Bool, true, false, not, ◌&&◌, ◌||◌, List, [], ◌∷◌, ◌++◌, ◌==◌,
  contains, filter, if◌then◌else◌, Bool-cases, inl, inr, arith, eq_iff, subst,
}
use mathlib.Core.List.{append_assoc}
use coclai.Hooks.{push_new}

module _ {A : Type 0} (p q r : A → Bool) (same : (x : A) → (q x && p x) ≡ r x) where
  -- Two filters are one.
  filter-filter : (xs : List A) → filter p (filter q xs) ≡ filter r xs
  unfolding filter
  filter-filter [] = refl
  filter-filter (x ∷ xs) = ground (arith, same x, filter-filter xs)

pub append_none : {A : Type 0} (xs : List A) → xs ++ [] ≡ xs
append_none [] = refl
append_none (x ∷ xs) = ap (λ ys. x ∷ ys) (append_none xs)

module _ {H : Type 0} (name : H → String) where
  -- The first hook of each name, in their order.
  unfoldable pub firsts : List H → List H
  unfolding filter
  firsts [] = []
  firsts (hook ∷ hooks) = hook ∷ filter (λ other. not (name hook == name other)) (firsts hooks)

  -- The first hook of each name that is none of these.
  unfoldable pub first_new : List String → List H → List H
  unfolding filter firsts
  first_new names hooks = filter (λ hook. not (contains names (name hook))) (firsts hooks)

  first_new-known :
      (names : List String) (hook : H) (hooks : List H)
      → contains names (name hook) ≡ true
      → first_new names (hook ∷ hooks) ≡ first_new names hooks
  unfolding first_new firsts filter
  first_new-known names hook hooks known =
      let skips : not (contains names (name hook)) ≡ false = rw known refl in
      ap
        (λ b.
          let later =
            filter (λ h. not (contains names (name h)))
              (filter (λ other. not (name hook == name other)) (firsts hooks)) in
          if b then hook ∷ later else later)
        skips
      ∙ filter-filter (λ h. not (contains names (name h))) (λ other. not (name hook == name other))
          (λ h. not (contains names (name h))) (λ x. already x (name hook == name x) refl)
          (firsts hooks)
    where
      already :
          (x : H) (b : Bool)
          → (name hook == name x) ≡ b
          → (not b && not (contains names (name x))) ≡ not (contains names (name x))
      already x true e =
          let key : name hook ≡ name x = ground (arith, eq_iff (name hook) (name x)) in
          let there : contains names (name x) ≡ true =
            subst (λ n. contains names n ≡ true) key known in
          rw there refl
      already x false e = refl

  first_new-fresh :
      (names : List String) (hook : H) (hooks : List H)
      → contains names (name hook) ≡ false
      → first_new names (hook ∷ hooks) ≡ hook ∷ first_new (name hook ∷ names) hooks
  unfolding first_new firsts filter contains
  first_new-fresh names hook hooks fresh =
      let keeps : not (contains names (name hook)) ≡ true = rw fresh refl in
      ap
        (λ b.
          let later =
            filter (λ h. not (contains names (name h)))
              (filter (λ other. not (name hook == name other)) (firsts hooks)) in
          if b then hook ∷ later else later)
        keeps
      ∙ ap (λ later. hook ∷ later)
          (filter-filter (λ h. not (contains names (name h)))
            (λ other. not (name hook == name other))
            (λ h. not (name hook == name h || contains names (name h)))
            (λ x. neither (name hook == name x) (contains names (name x))) (firsts hooks))
    where
      neither : (a b : Bool) → (not a && not b) ≡ not (a || b)
      neither true b = refl
      neither false b = refl

  first_new-nil : (names : List String) → first_new names [] ≡ []
  unfolding first_new firsts filter
  first_new-nil names = refl

  -- The loop appends the first new hook of each name.
  pub push_new-first_new :
      (incoming hooks : List H) (names : List String)
      → push_new name names hooks incoming ≡ hooks ++ first_new names incoming
  unfolding push_new
  push_new-first_new [] hooks names =
      sym (ap (λ more. hooks ++ more) (first_new-nil names) ∙ append_none hooks)
  push_new-first_new (hook ∷ incoming) hooks names =
      elim (Bool-cases (contains names (name hook))) [
        | inl known ↦ rw known (
            push_new-first_new incoming hooks names
            ∙ ap (λ more. hooks ++ more) (sym (first_new-known names hook incoming known)))
        | inr fresh ↦ rw fresh (
            push_new-first_new incoming (hooks ++ (hook ∷ [])) (name hook ∷ names)
            ∙ append_assoc hooks (hook ∷ []) (first_new (name hook ∷ names) incoming)
            ∙ ap (λ more. hooks ++ more) (sym (first_new-fresh names hook incoming fresh)))
      ]

  pub first_new-none : (hooks : List H) → first_new [] hooks ≡ firsts hooks
  unfolding first_new contains filter
  first_new-none hooks = every (firsts hooks)
    where
      every : (xs : List H) → filter (λ x. true) xs ≡ xs
      every [] = refl
      every (x ∷ xs) = ap (λ ys. x ∷ ys) (every xs)
