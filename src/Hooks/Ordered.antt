-- ===== src/Hooks/Ordered.antt =====
-- The order in which merged hooks run, and whose hooks win: crates/codex-runtime/src/runtime/hooks.rs.
use coclai.Prelude.{
  String, ◌≡◌, refl, sym, ◌∙◌, Bool, true, false, some, List, [], ◌∷◌, ◌++◌, map, filter, is_empty,
  if◌then◌else◌, or_else, arith,
}
use coclai.Hooks.{
  merge_preferred_hooks, merge_owned_with_overlay, register_dedup_hooks, PreHook, RuntimeHookConfig,
  config_is_empty, merge_hook_configs,
}
use coclai.Hooks.Merged.{find, find-merge_preferred_hooks, or_else-none}
use coclai.Hooks.Firsts.{append_none, firsts, first_new, push_new-first_new, first_new-none}

module _ {H : Type 0} (name : H → String) where
  merge_preferred_hooks-firsts :
      (preferred fallback : List H)
      → merge_preferred_hooks name preferred fallback ≡ firsts name (preferred ++ fallback)
  unfolding merge_preferred_hooks
  merge_preferred_hooks-firsts preferred fallback =
      push_new-first_new name (preferred ++ fallback) [] []
      ∙ first_new-none name (preferred ++ fallback)

  merge_owned_with_overlay-first_new :
      (base overlay : List H)
      → merge_owned_with_overlay name base (some overlay)
        ≡ base ++ first_new name (map name base) overlay
  unfolding merge_owned_with_overlay first_new firsts filter
  merge_owned_with_overlay-first_new base [] = sym (append_none base)
  merge_owned_with_overlay-first_new base (hook ∷ hooks) =
      push_new-first_new name (hook ∷ hooks) base (map name base)

  -- The three ways to merge two lists of hooks, in order.
  merged-ordered :
      (first second : List H)
      → (merge_preferred_hooks name first second ≡ firsts name (first ++ second))
        × (merge_owned_with_overlay name first (some second)
            ≡ first ++ first_new name (map name first) second)
        × (register_dedup_hooks name first second ≡ first ++ first_new name (map name first) second)
  unfolding register_dedup_hooks
  merged-ordered first second = (
    merge_preferred_hooks-firsts first second,
    merge_owned_with_overlay-first_new first second,
    push_new-first_new name second first (map name first),
  )

  -- By its name, the choice of `merge_hook_configs` finds the overlay's hook before the default.
  find-preferred :
      (asked : String) (overlay defaults merged : List H) (no_defaults no_overlay : Bool)
      → (no_defaults ≡ true → is_empty defaults ≡ true)
      → (no_overlay ≡ true → is_empty overlay ≡ true)
      → merged ≡ (
          if no_defaults
          then overlay
          else if no_overlay
          then defaults
          else merge_preferred_hooks name overlay defaults)
      → find name asked merged ≡ or_else (find name asked overlay) (find name asked defaults)
  unfolding find
  find-preferred asked overlay [] merged true no_overlay d o e =
      rw e (sym (or_else-none (find name asked overlay)))
  find-preferred asked overlay (h ∷ hs) merged true no_overlay d o e = ground (arith, d refl)
  find-preferred asked [] defaults merged false true d o e = rw e refl
  find-preferred asked (h ∷ hs) defaults merged false true d o e = ground (arith, o refl)
  find-preferred asked overlay defaults merged false false d o e =
      rw e (find-merge_preferred_hooks name asked overlay defaults)

module _ (Value : Type 0) (defaults overlay : RuntimeHookConfig Value) where
  -- In merged configurations, a name finds the hook of the overlay before that of the defaults.
  merge_hook_configs-find :
      (asked : String)
      → let merged = merge_hook_configs Value defaults overlay in
        (find (λ h. h.name) asked merged.pre_hooks
          ≡ or_else
              (find (λ h. h.name) asked overlay.pre_hooks)
              (find (λ h. h.name) asked defaults.pre_hooks))
        × (find (λ h. h.name) asked merged.post_hooks
            ≡ or_else
                (find (λ h. h.name) asked overlay.post_hooks)
                (find (λ h. h.name) asked defaults.post_hooks))
        × (find (λ h. h.name) asked merged.pre_tool_use_hooks
            ≡ or_else
                (find (λ h. h.name) asked overlay.pre_tool_use_hooks)
                (find (λ h. h.name) asked defaults.pre_tool_use_hooks))
  unfolding config_is_empty merge_hook_configs
  merge_hook_configs-find asked =
      let no_defaults = config_is_empty Value defaults in
      let no_overlay = config_is_empty Value overlay in
      (
        find-preferred (λ h. h.name) asked overlay.pre_hooks defaults.pre_hooks _ no_defaults
            no_overlay (λ e. ground arith) (λ e. ground arith) (ground arith),
        find-preferred (λ h. h.name) asked overlay.post_hooks defaults.post_hooks _ no_defaults
            no_overlay (λ e. ground arith) (λ e. ground arith) (ground arith),
        find-preferred (λ h. h.name) asked overlay.pre_tool_use_hooks defaults.pre_tool_use_hooks _
            no_defaults no_overlay (λ e. ground arith) (λ e. ground arith) (ground arith),
      )

  -- In merged configurations, of each of the three kinds of hooks, a name finds the hook of the
  -- overlay, and where the overlay has none of that name the hook of the defaults. As lists, a merge
  -- with preferred hooks is the first hook of each name in the preferred and then the other hooks, in
  -- their order; an overlay and a registration keep the list as it is and append to it, in their
  -- order, the first hook of each name that it does not have.
  pub merge_hook_configs-ordered :
      (asked : String) (first second : List (PreHook Value))
      → let merged = merge_hook_configs Value defaults overlay in
        (find (λ h. h.name) asked merged.pre_hooks
          ≡ or_else
              (find (λ h. h.name) asked overlay.pre_hooks)
              (find (λ h. h.name) asked defaults.pre_hooks))
        × (find (λ h. h.name) asked merged.post_hooks
            ≡ or_else
                (find (λ h. h.name) asked overlay.post_hooks)
                (find (λ h. h.name) asked defaults.post_hooks))
        × (find (λ h. h.name) asked merged.pre_tool_use_hooks
            ≡ or_else
                (find (λ h. h.name) asked overlay.pre_tool_use_hooks)
                (find (λ h. h.name) asked defaults.pre_tool_use_hooks))
        × (merge_preferred_hooks (λ h. h.name) first second
            ≡ firsts (λ h. h.name) (first ++ second))
        × (merge_owned_with_overlay (λ h. h.name) first (some second)
            ≡ first ++ first_new (λ h. h.name) (map (λ h. h.name) first) second)
        × (register_dedup_hooks (λ h. h.name) first second
            ≡ first ++ first_new (λ h. h.name) (map (λ h. h.name) first) second)
  merge_hook_configs-ordered asked first second =
      let (pre, post, tool) = merge_hook_configs-find asked in
      let (preferred, scoped, registered) = merged-ordered (λ h. h.name) first second in
      (pre, post, tool, preferred, scoped, registered)
