-- ===== src/Hooks/Merged.antt =====
-- Which hooks stand in a merged list, and what an approval that passes has asked:
-- crates/codex-runtime/src/runtime/hooks.rs.
use coclai.Prelude.{
  String, ◌≡◌, refl, sym, ap, ◌∙◌, Bool, true, false, Option, none, some, List, [], ◌∷◌, ◌++◌, ◌==◌,
  map, contains, if◌then◌else◌, or_else, is_some, Bool-cases, inl, inr, ◌||◌, unwrap_or, All,
  lookup, lookup-upsert, upsert, arith, subst,
}
use text.Mathlib.TextEquality.{eq_iff}
use coclai.Checked.{Checked, ok, err}
use coclai.Hooks.{
  push_new, merge_preferred_hooks, merge_owned_with_overlay, PreHook, HookKernel, HookContext,
  HookIssue, HookAction, BlockReason, block, noop, mutate, run_tool_use_hooks,
  run_pre_tool_use_with, register_thread_scoped_pre_tool_use_hooks, tool_use_hooks, normalize_issue,
}

pub or_else-none : {H : Type 0} (o : Option H) → or_else o none ≡ o
or_else-none none = refl
or_else-none (some x) = refl

or_else_assoc : {H : Type 0} (o p q : Option H) → or_else o (or_else p q) ≡ or_else (or_else o p) q
or_else_assoc none p q = refl
or_else_assoc (some x) p q = refl

same_key : (k : String) → (k == k) ≡ true
same_key k = ground (arith, eq_iff k k)

module _ {H : Type 0} (name : H → String) where
  -- The first hook of a name.
  unfoldable pub find : String → List H → Option H
  find asked [] = none
  find asked (hook ∷ hooks) = if name hook == asked then some hook else find asked hooks

  find-append :
      (asked : String) (hooks more : List H)
      → find asked (hooks ++ more) ≡ or_else (find asked hooks) (find asked more)
  unfolding find
  find-append asked [] more = refl
  find-append asked (hook ∷ hooks) more = elim (Bool-cases (name hook == asked)) [
    | inl e ↦ rw e refl
    | inr e ↦ rw e (find-append asked hooks more)
  ]

  -- The set has the names of the hooks.
  abbrev Names : List String → List H → Type 0
  Names names hooks = (asked : String) → contains names asked ≡ is_some (find asked hooks)

  map-Names : (hooks : List H) → Names (map name hooks) hooks
  unfolding find contains
  map-Names [] asked = refl
  map-Names (hook ∷ hooks) asked = elim (Bool-cases (name hook == asked)) [
    | inl e ↦ rw e refl
    | inr e ↦ rw e (map-Names hooks asked)
  ]

  snoc-Names :
      (names : List String) (hooks : List H) (hook : H)
      → contains names (name hook) ≡ false
      → Names names hooks
      → Names (name hook ∷ names) (hooks ++ (hook ∷ []))
  unfolding find contains
  snoc-Names names hooks hook new same asked =
      ap (λ b. (name hook == asked) || b) (same asked)
      ∙ go (find asked hooks) (name hook == asked)
      ∙ sym (ap is_some (find-append asked hooks (hook ∷ [])))
    where
      go :
          (found : Option H) (b : Bool)
          → (b || is_some found) ≡ is_some (or_else found (if b then some hook else none))
      go none true = refl
      go none false = refl
      go (some x) true = refl
      go (some x) false = refl

  -- A hook whose name the list has does not change what is found in the list and behind it.
  find-skipped :
      (asked : String) (hooks incoming : List H) (hook : H)
      → is_some (find (name hook) hooks) ≡ true
      → or_else (find asked hooks) (find asked incoming)
        ≡ or_else (find asked hooks) (find asked (hook ∷ incoming))
  unfolding find
  find-skipped asked hooks incoming hook h = elim (Bool-cases (name hook == asked)) [
    | inl e ↦
        let key : name hook ≡ asked = ground (arith, eq_iff (name hook) asked) in
        is_found (find asked hooks) (subst (λ n. is_some (find n hooks) ≡ true) key h)
    | inr e ↦ rw e refl
  ]
    where
      is_found :
          (o : Option H)
          → is_some o ≡ true
          → or_else o (find asked incoming)
            ≡ or_else o (if name hook == asked then some hook else find asked incoming)
      is_found none h = ground arith
      is_found (some x) h = refl

  -- By its name, the loop finds the hook that stands first in the list and what is pushed to it.
  find-push_new :
      (asked : String) (incoming hooks : List H) (names : List String)
      → Names names hooks
      → find asked (push_new name names hooks incoming)
        ≡ or_else (find asked hooks) (find asked incoming)
  unfolding push_new find
  find-push_new asked [] hooks names same = sym (or_else-none (find asked hooks))
  find-push_new asked (hook ∷ incoming) hooks names same =
      elim (Bool-cases (contains names (name hook))) [
        | inl e ↦ rw e (
            find-push_new asked incoming hooks names same
            ∙ find-skipped asked hooks incoming hook (sym (same (name hook)) ∙ e))
        | inr e ↦ rw e (
            find-push_new asked incoming (hooks ++ (hook ∷ [])) (name hook ∷ names)
              (snoc-Names names hooks hook e same)
            ∙ ap (λ o. or_else o (find asked incoming)) (find-append asked hooks (hook ∷ []))
            ∙ or_else-if (find asked hooks) (name hook == asked) (find asked incoming))
      ]
    where
      or_else-if :
          (o : Option H) (b : Bool) (p : Option H)
          → or_else (or_else o (if b then some hook else none)) p
            ≡ or_else o (if b then some hook else p)
      or_else-if none true p = refl
      or_else-if none false p = refl
      or_else-if (some x) b p = refl

  pub find-merge_preferred_hooks :
      (asked : String) (preferred fallback : List H)
      → find asked (merge_preferred_hooks name preferred fallback)
        ≡ or_else (find asked preferred) (find asked fallback)
  unfolding merge_preferred_hooks find
  find-merge_preferred_hooks asked preferred fallback =
      find-push_new asked (preferred ++ fallback) [] [] (map-Names [])
      ∙ find-append asked preferred fallback

  find-merge_owned_with_overlay :
      (asked : String) (base : List H) (overlay : Option (List H))
      → find asked (merge_owned_with_overlay name base overlay)
        ≡ or_else (find asked base) (find asked (unwrap_or overlay []))
  unfolding merge_owned_with_overlay
  find-merge_owned_with_overlay asked base none =
      find-push_new asked [] base (map name base) (map-Names base)
  find-merge_owned_with_overlay asked base (some []) =
      find-push_new asked [] base (map name base) (map-Names base)
  find-merge_owned_with_overlay asked base (some (hook ∷ hooks)) =
      find-push_new asked (hook ∷ hooks) base (map name base) (map-Names base)

module _ {H : Type 0} (name : H → String) (P : H → Type 0) where
  -- What holds of every hook holds of the one that is found.
  find-All :
      (asked : String) (hooks : List H) (hook : H)
      → All P hooks
      → find name asked hooks ≡ some hook
      → P hook
  unfolding find
  find-All asked [] hook every found = ground arith
  find-All asked (first ∷ hooks) hook every found = elim (Bool-cases (name first == asked)) [
    | inl e ↦ let here : first ≡ hook = ground (arith, e, found) in subst P here every.0
    | inr e ↦ find-All asked hooks hook every.1 (ground (arith, e, found))
  ]

module _ (Value : Type 0) (ctx : HookContext Value) where
  -- The hook does not block in this context.
  abbrev pub Lets : PreHook Value → Type 0
  Lets hook = (reason : BlockReason) → ¬ (hook.call ctx ≡ ok (block reason))

  run_tool_use_hooks-ok :
      (hooks : List (PreHook Value)) (report after : List HookIssue)
      → run_tool_use_hooks Value ctx report hooks ≡ (ok tt, after)
      → All Lets hooks
  unfolding run_tool_use_hooks
  run_tool_use_hooks-ok [] report after passed = tt
  run_tool_use_hooks-ok (hook ∷ hooks) report after passed =
      go (hook.call ctx) refl (λ noted. run_tool_use_hooks-ok hooks noted after)
    where
      go :
          (answer : Checked HookIssue (HookAction Value))
          → hook.call ctx ≡ answer
          → ((noted : List HookIssue)
              → run_tool_use_hooks Value ctx noted hooks ≡ (ok tt, after)
              → All Lets hooks)
          → All Lets (hook ∷ hooks)
      go (ok noop) e later =
          (λ reason blocks. ground (arith, e, blocks), later report (ground (arith, e, passed)))
      go (ok (mutate patch)) e later =
          (λ reason blocks. ground (arith, e, blocks), later report (ground (arith, e, passed)))
      go (ok (block reason)) e later = let never : ⊥ = ground (arith, e, passed) in elim never [ ]
      go (err issue) e later = (
        λ reason blocks. ground (arith, e, blocks),
        later (report ++ (normalize_issue issue hook.name ctx.phase ∷ []))
            (ground (arith, e, passed)),
      )

  abbrev pub named : PreHook Value → String
  named hook = hook.name

  -- The hook of a name that an approval on this thread asks: the global one, and otherwise the one
  -- that is scoped to the thread.
  abbrev pub asked_hook : HookKernel Value → (thread_id asked : String) → Option (PreHook Value)
  asked_hook k thread_id asked =
      or_else (find named asked k.pre_tool_use_hooks)
        (find named asked (unwrap_or (lookup thread_id k.thread_scoped_pre_tool_use_hooks) []))

  find-tool_use_hooks :
      (k : HookKernel Value) (thread_id asked : String)
      → ctx.thread_id ≡ some thread_id
      → find named asked (tool_use_hooks Value k ctx) ≡ asked_hook k thread_id asked
  unfolding tool_use_hooks
  find-tool_use_hooks k thread_id asked on = rw on (
      find-merge_owned_with_overlay named asked k.pre_tool_use_hooks
        (lookup thread_id k.thread_scoped_pre_tool_use_hooks))

  -- An approval that passes on a thread has asked the hook of every name, the global one first and
  -- otherwise the one scoped to the thread, and none of them blocks.
  pub run_pre_tool_use_with-ok :
      (k : HookKernel Value) (report after : List HookIssue) (thread_id asked : String)
      (hook : PreHook Value) (reason : BlockReason)
      → ctx.thread_id ≡ some thread_id
      → run_pre_tool_use_with Value k ctx report ≡ (ok tt, after)
      → asked_hook k thread_id asked ≡ some hook
      → ¬ (hook.call ctx ≡ ok (block reason))
  unfolding run_pre_tool_use_with
  run_pre_tool_use_with-ok k report after thread_id asked hook reason on passed found =
      find-All named Lets asked (tool_use_hooks Value k ctx) hook
        (run_tool_use_hooks-ok (tool_use_hooks Value k ctx) report after passed)
        (find-tool_use_hooks k thread_id asked on ∙ found) reason

  -- What a registration for a thread adds to the hooks that an approval on it asks.
  pub asked_hook-register_thread_scoped_pre_tool_use_hooks :
      (k : HookKernel Value) (thread_id asked : String) (hooks : List (PreHook Value))
      → asked_hook
          (register_thread_scoped_pre_tool_use_hooks Value thread_id hooks k)
          thread_id
          asked
        ≡ or_else (asked_hook k thread_id asked) (find named asked hooks)
  unfolding register_thread_scoped_pre_tool_use_hooks find
  asked_hook-register_thread_scoped_pre_tool_use_hooks k thread_id asked [] =
      sym (or_else-none (asked_hook k thread_id asked))
  asked_hook-register_thread_scoped_pre_tool_use_hooks k thread_id asked (first ∷ rest) =
      let hooks = first ∷ rest in
      let scoped = unwrap_or (lookup thread_id k.thread_scoped_pre_tool_use_hooks) [] in
      let add : List (PreHook Value) → List (PreHook Value) =
        λ entry. push_new named (map named entry) entry hooks in
      let kept : lookup thread_id (upsert thread_id [] add k.thread_scoped_pre_tool_use_hooks)
          ≡ some (add scoped) =
        lookup-upsert thread_id thread_id [] add k.thread_scoped_pre_tool_use_hooks
        ∙ ap
            (λ b.
              if b then some (add scoped) else lookup thread_id k.thread_scoped_pre_tool_use_hooks)
            (same_key thread_id) in
      ap (λ o. or_else (find named asked k.pre_tool_use_hooks) (find named asked (unwrap_or o [])))
        kept
      ∙ ap (or_else (find named asked k.pre_tool_use_hooks))
          (find-push_new named asked hooks scoped (map named scoped) (map-Names named scoped))
      ∙ or_else_assoc (find named asked k.pre_tool_use_hooks) (find named asked scoped)
          (find named asked hooks)
