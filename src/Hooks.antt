-- ===== src/Hooks.antt =====
-- The hooks of a runtime: crates/codex-runtime/src/runtime/hooks.rs, with the types of
-- plugin/mod.rs. A hook is its name and what its call gives for a context; the lock of a list and its
-- poisoning are left out, since every access takes the list either way.
pub mod Merged
pub mod Firsts
pub mod Ordered
use coclai.Prelude.{
  ℤ, String, Bool, true, false, not, ◌&&◌, Option, none, some, List, [], ◌∷◌, ◌++◌, Map, lookup,
  upsert, remove, map, contains, is_blank, is_empty, if◌then◌else◌,
}
use coclai.Checked.{Checked, ok, err}

pub data HookPhase : Type 0 where
  pre_run post_run pre_session_start post_session_start pre_turn post_turn pre_tool_use
        post_tool_use :
      HookPhase

pub data HookIssueClass : Type 0 where
  validation execution timeout internal : HookIssueClass

pub data HookAttachment : Type 0 where
  at_path : (path : String) (placeholder : Option String) → HookAttachment
  image_url : (url : String) → HookAttachment
  local_image : (path : String) → HookAttachment
  skill : (name path : String) → HookAttachment

pub record HookIssue : Type 0 where
  pub hook_name : String
  pub phase : HookPhase
  pub class : HookIssueClass
  pub message : String

pub record BlockReason : Type 0 where
  pub hook_name : String
  pub phase : HookPhase
  pub message : String

-- The names of a set, and the hooks, of a loop that takes the hooks whose name is new.
unfoldable pub push_new :
    {H : Type 0} → (H → String) → (names : List String) → (hooks incoming : List H) → List H
push_new name names hooks [] = hooks
push_new name names hooks (hook ∷ incoming) =
    let skipped = push_new name names hooks incoming in
    let pushed = push_new name (name hook ∷ names) (hooks ++ (hook ∷ [])) incoming in
    if contains names (name hook) then skipped else pushed

-- Two loops with one set of names.
unfoldable pub merge_preferred_hooks :
    {H : Type 0} → (H → String) → (preferred fallback : List H) → List H
unfolding push_new
merge_preferred_hooks name preferred fallback = push_new name [] [] (preferred ++ fallback)

unfoldable pub merge_owned_with_overlay :
    {H : Type 0} → (H → String) → (base : List H) → (overlay : Option (List H)) → List H
unfolding push_new
merge_owned_with_overlay name base none = base
merge_owned_with_overlay name base (some overlay) =
    if is_empty overlay then base else push_new name (map name base) base overlay

unfoldable pub register_dedup_hooks :
    {H : Type 0} → (H → String) → (target incoming : List H) → List H
unfolding push_new
register_dedup_hooks name target incoming = push_new name (map name target) target incoming

-- An issue that a hook raised, with the name of the hook where it has none.
unfoldable pub normalize_issue : HookIssue → (fallback_name : String) → HookPhase → HookIssue
normalize_issue issue fallback_name phase = record issue {
  hook_name = if is_blank issue.hook_name then fallback_name else issue.hook_name;
  phase = phase;
}

-- What the hooks pass on: `Value` is the type of JSON values.
module _ (Value : Type 0) where
  pub record HookContext : Type 0 where
    pub phase : HookPhase
    pub thread_id : Option String
    pub turn_id : Option String
    pub cwd : Option String
    pub model : Option String
    pub main_status : Option String
    pub correlation_id : String
    pub ts_ms : ℤ
    pub metadata : Value
    pub tool_name : Option String
    pub tool_input : Option Value

  pub record HookPatch : Type 0 where
    pub prompt_override : Option String
    pub model_override : Option String
    pub add_attachments : List HookAttachment
    pub metadata_delta : Value

  pub data HookAction : Type 0 where
    noop : HookAction
    mutate : HookPatch → HookAction
    block : BlockReason → HookAction

  pub record PreHook : Type 0 where
    pub name : String
    pub call : HookContext → Checked HookIssue HookAction

  pub record PostHook : Type 0 where
    pub name : String
    pub call : HookContext → Checked HookIssue (Unit {0})

  pub record RuntimeHookConfig : Type 0 where
    pub pre_hooks : List PreHook
    pub post_hooks : List PostHook
    pub pre_tool_use_hooks : List PreHook

  pub record HookKernel : Type 0 where
    pub pre_hooks : List PreHook
    pub post_hooks : List PostHook
    pub pre_tool_use_hooks : List PreHook
    pub thread_scoped_pre_tool_use_hooks : Map (List PreHook)
    pub latest_report : List HookIssue

  unfoldable pub config_is_empty : RuntimeHookConfig → Bool
  config_is_empty c = is_empty c.pre_hooks && is_empty c.post_hooks && is_empty c.pre_tool_use_hooks

  unfoldable pub merge_hook_configs : (defaults overlay : RuntimeHookConfig) → RuntimeHookConfig
  unfolding config_is_empty merge_preferred_hooks
  merge_hook_configs defaults overlay =
      if config_is_empty defaults
      then overlay
      else if config_is_empty overlay
      then defaults
      else record {
        pre_hooks = merge_preferred_hooks (λ h. h.name) overlay.pre_hooks defaults.pre_hooks;
        post_hooks = merge_preferred_hooks (λ h. h.name) overlay.post_hooks defaults.post_hooks;
        pre_tool_use_hooks =
            merge_preferred_hooks (λ h. h.name) overlay.pre_tool_use_hooks
              defaults.pre_tool_use_hooks;
      }

  unfoldable pub register_thread_scoped_pre_tool_use_hooks :
      (thread_id : String) → List PreHook → HookKernel → HookKernel
  unfolding upsert push_new
  register_thread_scoped_pre_tool_use_hooks thread_id hooks k =
      if is_empty hooks then k else record k {
        thread_scoped_pre_tool_use_hooks =
            upsert thread_id []
              (λ entry. push_new (λ h. h.name) (map (λ h. h.name) entry) entry hooks)
              k.thread_scoped_pre_tool_use_hooks;
      }

  unfoldable pub clear_thread_scoped_pre_tool_use_hooks :
      (thread_id : String) → HookKernel → HookKernel
  unfolding remove
  clear_thread_scoped_pre_tool_use_hooks thread_id k = record k {
    thread_scoped_pre_tool_use_hooks = remove thread_id k.thread_scoped_pre_tool_use_hooks;
  }

  unfoldable pub register_config : RuntimeHookConfig → HookKernel → HookKernel
  unfolding config_is_empty register_dedup_hooks
  register_config config k = if config_is_empty config then k else record k {
    pre_hooks = register_dedup_hooks (λ h. h.name) k.pre_hooks config.pre_hooks;
    post_hooks = register_dedup_hooks (λ h. h.name) k.post_hooks config.post_hooks;
    pre_tool_use_hooks =
        register_dedup_hooks (λ h. h.name) k.pre_tool_use_hooks config.pre_tool_use_hooks;
  }

  -- The hooks that an approval request runs.
  unfoldable pub tool_use_hooks : HookKernel → HookContext → List PreHook
  unfolding merge_owned_with_overlay lookup
  tool_use_hooks k ctx = elim ctx.thread_id [
    | none ↦ k.pre_tool_use_hooks
    | some thread_id ↦
        merge_owned_with_overlay (λ h. h.name) k.pre_tool_use_hooks
          (lookup thread_id k.thread_scoped_pre_tool_use_hooks)
  ]

  -- The loop over the hooks, with the issues of the report.
  unfoldable pub run_tool_use_hooks :
      HookContext → List HookIssue → List PreHook → Checked BlockReason (Unit {0}) × List HookIssue
  unfolding normalize_issue
  run_tool_use_hooks ctx report [] = (ok tt, report)
  run_tool_use_hooks ctx report (hook ∷ hooks) = elim (hook.call ctx) [
    | ok noop ↦ run_tool_use_hooks ctx report hooks
    | ok (mutate patch) ↦ run_tool_use_hooks ctx report hooks
    | ok (block reason) ↦ (err reason, report)
    | err issue ↦
        run_tool_use_hooks ctx (report ++ (normalize_issue issue hook.name ctx.phase ∷ [])) hooks
  ]

  unfoldable pub run_pre_tool_use_with :
      HookKernel
      → HookContext
      → (report : List HookIssue) → Checked BlockReason (Unit {0}) × List HookIssue
  unfolding tool_use_hooks run_tool_use_hooks
  run_pre_tool_use_with k ctx report = run_tool_use_hooks ctx report (tool_use_hooks k ctx)
