-- ===== src/Policy.antt =====
-- Sandbox policies: crates/codex-runtime/src/runtime/api/types/policies.rs and the check of privileged
-- sandboxes in crates/codex-runtime/src/runtime/api/wire.rs. A trimmed text is the list of its
-- characters, and a message is a value that keeps what is formatted.
pub mod Classified
pub mod Privileged
use coclai.Prelude.{
  ℕ, String, Bool, true, false, not, Option, none, some, List, [], ◌∷◌, map, codes, trim, is_blank,
  is_empty, ◌===◌, if◌then◌else◌, ◌>>=◌, unwrap_or,
}
use coclai.Checked.{Checked, ok, err}
use coclai.Json.{Json}

pub data ApprovalPolicy : Type 0 where
  untrusted on_failure on_request never : ApprovalPolicy

pub data ExternalNetworkAccess : Type 0 where
  restricted enabled : ExternalNetworkAccess

pub data SandboxPreset : Type 0 where
  read_only : SandboxPreset
  workspace_write : (writable_roots : List String) (network_access : Bool) → SandboxPreset
  danger_full_access : SandboxPreset
  external_sandbox : ExternalNetworkAccess → SandboxPreset

pub data SandboxPolicy (Value : Type 0) : Type 0 where
  preset : SandboxPreset → SandboxPolicy Value
  raw : Value → SandboxPolicy Value

pub data SandboxPolicyKind : Type 0 where
  read_only_kind workspace_write_kind danger_full_access_kind : SandboxPolicyKind
  external_sandbox_kind unknown_kind : SandboxPolicyKind

pub record SandboxPolicySummary : Type 0 where
  pub kind : SandboxPolicyKind
  pub has_non_empty_writable_roots : Bool

pub data SandboxPolicyParseViolation : Type 0 where
  not_object missing_type : SandboxPolicyParseViolation

pub record SandboxPolicyParseError : Type 0 where
  pub field_path : String
  pub violation : SandboxPolicyParseViolation

abbrev pub as_wire : ExternalNetworkAccess → String
as_wire restricted = "restricted"
as_wire enabled = "enabled"

abbrev pub as_type_wire : SandboxPreset → String
as_type_wire read_only = "readOnly"
as_type_wire (workspace_write roots access) = "workspaceWrite"
as_type_wire danger_full_access = "dangerFullAccess"
as_type_wire (external_sandbox access) = "externalSandbox"

-- `is_privileged`: every kind but the read-only one.
abbrev pub is_privileged : SandboxPolicySummary → Bool
is_privileged summary = elim summary.kind [ read_only_kind ↦ false | _ ↦ true ]

-- `.any(|root| !root.trim().is_empty())`.
abbrev pub any_root : List String → Bool
any_root [] = false
any_root (root ∷ roots) = let rest = any_root roots in if is_blank root then rest else true

unfoldable pub summarize_sandbox_preset : SandboxPreset → SandboxPolicySummary
summarize_sandbox_preset read_only = record {
  kind = read_only_kind;
  has_non_empty_writable_roots = false;
}
summarize_sandbox_preset (workspace_write writable_roots network_access) = record {
  kind = workspace_write_kind;
  has_non_empty_writable_roots = any_root writable_roots;
}
summarize_sandbox_preset danger_full_access = record {
  kind = danger_full_access_kind;
  has_non_empty_writable_roots = false;
}
summarize_sandbox_preset (external_sandbox network_access) = record {
  kind = external_sandbox_kind;
  has_non_empty_writable_roots = false;
}

unfoldable pub sandbox_policy_kind_from_wire : List ℕ → SandboxPolicyKind
sandbox_policy_kind_from_wire policy_type =
    if policy_type === codes "readOnly"
    then read_only_kind
    else if policy_type === codes "workspaceWrite"
    then workspace_write_kind
    else if policy_type === codes "dangerFullAccess"
    then danger_full_access_kind
    else if policy_type === codes "externalSandbox"
    then external_sandbox_kind
    else unknown_kind

pub data PrivilegedSandboxViolation : Type 0 where
  explicit_approval_required non_never_approval_policy_required : PrivilegedSandboxViolation
  explicit_scope_required : PrivilegedSandboxViolation

pub data PrivilegedSandboxSecurityError : Type 0 where
  invalid_policy : SandboxPolicyParseError → PrivilegedSandboxSecurityError
  violated : PrivilegedSandboxViolation → PrivilegedSandboxSecurityError

abbrev pub is_never : Option ApprovalPolicy → Bool
is_never none = true
is_never (some p) = elim p [ never ↦ true | _ ↦ false ]

abbrev pub has_explicit_scope : Option String → Bool → Bool
has_explicit_scope none roots = roots
has_explicit_scope (some cwd) roots = if is_blank cwd then roots else true

module _ (json : Json) where
  open json use {
    Value, get, as_str, as_array, is_object, of_string, of_bool, of_array, empty_object,
    insert_field,
  }

  -- `.filter_map(Value::as_str)`.
  abbrev pub texts : List Value → List String
  texts [] = []
  texts (v ∷ vs) = let rest = texts vs in elim (as_str v) [ none ↦ rest | some s ↦ s ∷ rest ]

  unfoldable pub writable_roots_non_empty : Value → Bool
  writable_roots_non_empty policy = elim (get "writableRoots" policy >>= as_array) [
    | none ↦ false
    | some roots ↦ any_root (texts roots)
  ]

  unfoldable pub parse_sandbox_policy_type :
      Value → String → Checked SandboxPolicyParseError (List ℕ)
  parse_sandbox_policy_type policy field_path =
      let missing : Checked SandboxPolicyParseError (List ℕ) =
        err (record { field_path = field_path; violation = missing_type }) in
      elim (get "type" policy >>= as_str) [
        | none ↦ missing
        | some policy_type ↦
            if is_empty (trim (codes policy_type)) then missing else ok (trim (codes policy_type))
      ]

  unfoldable pub summarize_sandbox_policy_wire_value :
      Value → String → Checked SandboxPolicyParseError SandboxPolicySummary
  unfolding parse_sandbox_policy_type sandbox_policy_kind_from_wire writable_roots_non_empty
  summarize_sandbox_policy_wire_value value field_path =
      if not (is_object value)
      then err (record { field_path = field_path; violation = not_object })
      else elim (parse_sandbox_policy_type value field_path) [
        | err e ↦ err e
        | ok policy_type ↦ ok (record {
          kind = sandbox_policy_kind_from_wire policy_type;
          has_non_empty_writable_roots = writable_roots_non_empty value;
        })
      ]

  unfoldable pub summarize_sandbox_policy :
      SandboxPolicy Value → Checked SandboxPolicyParseError SandboxPolicySummary
  unfolding summarize_sandbox_policy_wire_value summarize_sandbox_preset
  summarize_sandbox_policy (preset p) = ok (summarize_sandbox_preset p)
  summarize_sandbox_policy (raw value) = summarize_sandbox_policy_wire_value value "sandboxPolicy"

  unfoldable pub sandbox_preset_to_wire_value : SandboxPreset → Value
  sandbox_preset_to_wire_value p =
      let value = insert_field "type" (of_string (as_type_wire p)) empty_object in
      elim p [
        | read_only ↦ value
        | danger_full_access ↦ value
        | workspace_write writable_roots network_access ↦
            insert_field "networkAccess" (of_bool network_access)
              (insert_field "writableRoots" (of_array (map of_string writable_roots)) value)
        | external_sandbox network_access ↦
            insert_field "networkAccess" (of_string (as_wire network_access)) value
      ]

  unfoldable pub sandbox_policy_to_wire_value : SandboxPolicy Value → Value
  unfolding sandbox_preset_to_wire_value
  sandbox_policy_to_wire_value (preset p) = sandbox_preset_to_wire_value p
  sandbox_policy_to_wire_value (raw value) = value

  -- `validate_thread_start_security` and `validate_turn_start_security` pass their fields on.
  unfoldable pub check_privileged_sandbox_security :
      Option (SandboxPolicy Value)
      → Bool
      → Option ApprovalPolicy
      → Option String
      → Checked PrivilegedSandboxSecurityError (Unit {0})
  unfolding summarize_sandbox_policy
  check_privileged_sandbox_security none approved approval_policy cwd = ok tt
  check_privileged_sandbox_security (some sandbox_policy) approved approval_policy cwd =
      elim (summarize_sandbox_policy sandbox_policy) [
        | err e ↦ err (invalid_policy e)
        | ok summary ↦
            if not (is_privileged summary)
            then ok tt
            else if not approved
            then err (violated explicit_approval_required)
            else if is_never approval_policy
            then err (violated non_never_approval_policy_required)
            else if not (has_explicit_scope cwd summary.has_non_empty_writable_roots)
            then err (violated explicit_scope_required)
            else ok tt
      ]
