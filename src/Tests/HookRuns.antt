-- ===== src/Tests/HookRuns.antt =====
-- An approval that runs hooks: crates/codex-runtime/src/runtime/hooks.rs.
use coclai.Prelude.{pos, String, [], ◌∷◌, ◌++◌, ◌≡◌, refl, none, some, or_else, contains, lookup}
use coclai.Checked.{ok, err}
use coclai.Hooks.{
  RuntimeHookConfig, merge_hook_configs, HookContext, HookKernel, PreHook, HookIssue, BlockReason,
  pre_tool_use, execution, noop, block, run_pre_tool_use_with, merge_preferred_hooks,
  merge_owned_with_overlay, register_dedup_hooks,
}
use coclai.Hooks.Merged.{find, run_pre_tool_use_with-ok}
use coclai.Hooks.Firsts.{firsts, first_new}
use coclai.Hooks.Ordered.{merge_hook_configs-ordered}
use coclai.Tests.Values.{Value, empty}

abbrev ctx : HookContext Value
ctx = record {
  phase = pre_tool_use;
  thread_id = some "t";
  turn_id = none;
  cwd = none;
  model = none;
  main_status = none;
  correlation_id = "c";
  ts_ms = pos 0;
  metadata = empty;
  tool_name = none;
  tool_input = none;
}

abbrev named : PreHook Value → String
named h = h.name

abbrev reason : BlockReason
reason = record { hook_name = "b"; phase = pre_tool_use; message = "no" }

-- A hook that lets, one that fails, and one that blocks.
abbrev letting : PreHook Value
letting = record { name = "a"; call = λ c. ok noop }

abbrev failing : PreHook Value
failing = record {
  name = "f";
  call =
      λ c. err (record { hook_name = ""; phase = pre_tool_use; class = execution; message = "oh" });
}

abbrev blocking : PreHook Value
blocking = record { name = "b"; call = λ c. ok (block reason) }

abbrev kernel : HookKernel Value
kernel = record {
  pre_hooks = [];
  post_hooks = [];
  pre_tool_use_hooks = letting ∷ [];
  thread_scoped_pre_tool_use_hooks = ("t", failing ∷ []) ∷ ("u", blocking ∷ []) ∷ [];
  latest_report = [];
}

abbrev issue : HookIssue
issue = record { hook_name = "f"; phase = pre_tool_use; class = execution; message = "oh" }

passes : run_pre_tool_use_with Value kernel ctx [] ≡ (ok tt, issue ∷ [])
unfolding run_pre_tool_use_with contains
passes = refl

blocked :
    run_pre_tool_use_with Value kernel (record ctx { thread_id = some "u" }) [] ≡ (err reason, [])
unfolding run_pre_tool_use_with contains
blocked = refl

run_pre_tool_use_with-ok_example : ¬ (failing.call ctx ≡ ok (block reason))
unfolding find lookup
run_pre_tool_use_with-ok_example =
    run_pre_tool_use_with-ok Value ctx kernel [] (issue ∷ []) "t" "f" failing reason refl passes
      refl

-- A hook that overrides the failing one.
abbrev calm : PreHook Value
calm = record { name = "f"; call = λ c. ok noop }

abbrev defaults : RuntimeHookConfig Value
defaults = record {
  pre_hooks = failing ∷ letting ∷ [];
  post_hooks = [];
  pre_tool_use_hooks = blocking ∷ [];
}

abbrev overlay : RuntimeHookConfig Value
overlay = record { pre_hooks = calm ∷ []; post_hooks = []; pre_tool_use_hooks = [] }

-- The overlay's hook runs first, in place of the default of its name.
overlay_first : (merge_hook_configs Value defaults overlay).pre_hooks ≡ (calm ∷ letting ∷ [])
unfolding merge_hook_configs contains
overlay_first = refl

merge_hook_configs-ordered_example :
    let merged = merge_hook_configs Value defaults overlay in
    (find named "f" merged.pre_hooks
      ≡ or_else (find named "f" overlay.pre_hooks) (find named "f" defaults.pre_hooks))
    × (find (λ h. h.name) "f" merged.post_hooks
        ≡ or_else
            (find (λ h. h.name) "f" overlay.post_hooks)
            (find (λ h. h.name) "f" defaults.post_hooks))
    × (find named "f" merged.pre_tool_use_hooks
        ≡ or_else
            (find named "f" overlay.pre_tool_use_hooks)
            (find named "f" defaults.pre_tool_use_hooks))
    × (merge_preferred_hooks named (calm ∷ []) (failing ∷ letting ∷ [])
        ≡ firsts named (calm ∷ failing ∷ letting ∷ []))
    × (merge_owned_with_overlay named (calm ∷ []) (some (failing ∷ letting ∷ []))
        ≡ (calm ∷ []) ++ first_new named ("f" ∷ []) (failing ∷ letting ∷ []))
    × (register_dedup_hooks named (calm ∷ []) (failing ∷ letting ∷ [])
        ≡ (calm ∷ []) ++ first_new named ("f" ∷ []) (failing ∷ letting ∷ []))
merge_hook_configs-ordered_example =
    merge_hook_configs-ordered Value defaults overlay "f" (calm ∷ []) (failing ∷ letting ∷ [])
