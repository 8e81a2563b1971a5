-- ===== src/Policy/Privileged.antt =====
-- What the check of privileged sandboxes lets through: crates/codex-runtime/src/runtime/api/wire.rs.
use coclai.Prelude.{
  String, ◌≡◌, ◌≢◌, refl, Bool, true, false, Option, none, some, arith, ◌⊎◌, inl, inr, is_blank,
  Bool-cases,
}
use coclai.Checked.{ok, Checked-cases}
use coclai.Json.{Json}
use coclai.Policy.{
  SandboxPolicy, SandboxPolicySummary, SandboxPolicyKind, read_only_kind, workspace_write_kind,
  danger_full_access_kind, external_sandbox_kind, unknown_kind, ApprovalPolicy, never, untrusted,
  on_failure, on_request, summarize_sandbox_policy, is_privileged, has_explicit_scope, is_never,
  check_privileged_sandbox_security,
}

privileged-cases :
    (k : SandboxPolicyKind) (roots : Bool)
    → (k ≡ read_only_kind)
      ⊎ (is_privileged (record { kind = k; has_non_empty_writable_roots = roots }) ≡ true)
privileged-cases read_only_kind roots = inl refl
privileged-cases workspace_write_kind roots = inr refl
privileged-cases danger_full_access_kind roots = inr refl
privileged-cases external_sandbox_kind roots = inr refl
privileged-cases unknown_kind roots = inr refl

is_never-false :
    (policy : Option ApprovalPolicy)
    → is_never policy ≡ false
    → (p : ApprovalPolicy) × (policy ≡ some p) × (p ≢ never)
is_never-false none h = absurd (cc h)
is_never-false (some untrusted) h = (untrusted, refl, λ e. cc)
is_never-false (some on_failure) h = (on_failure, refl, λ e. cc)
is_never-false (some on_request) h = (on_request, refl, λ e. cc)
is_never-false (some never) h = absurd (cc h)

scope-true :
    (cwd : Option String) (roots : Bool)
    → has_explicit_scope cwd roots ≡ true
    → (roots ≡ true) ⊎ ((dir : String) × (cwd ≡ some dir) × (is_blank dir ≡ false))
scope-true none roots h = inl h
scope-true (some dir) roots h = elim (Bool-cases (is_blank dir)) [
  | inl blank ↦ inl (rw blank at h)
  | inr scoped ↦ inr (dir, refl, scoped)
]

module _ (json : Json) where
  -- A policy that passes the check is well-formed, and is either read-only or was approved
  -- explicitly, under an approval policy that is given and not `never`, and with a scope: a working
  -- directory that is not blank, or a writable root that is not.
  pub check_privileged_sandbox_security-ok :
      (policy : SandboxPolicy json.Value) (approved : Bool)
      (approval_policy : Option ApprovalPolicy) (cwd : Option String)
      → check_privileged_sandbox_security json (some policy) approved approval_policy cwd ≡ ok tt
      → (summary : SandboxPolicySummary) × (summarize_sandbox_policy json policy ≡ ok summary)
        × ((summary.kind ≡ read_only_kind)
            ⊎ ((approved ≡ true)
                × ((p : ApprovalPolicy) × (approval_policy ≡ some p) × (p ≢ never))
                × ((summary.has_non_empty_writable_roots ≡ true)
                    ⊎ ((dir : String) × (cwd ≡ some dir) × (is_blank dir ≡ false)))))
  unfolding check_privileged_sandbox_security
  check_privileged_sandbox_security-ok policy approved approval_policy cwd h =
      elim (Checked-cases (summarize_sandbox_policy json policy)) [
        | inl (e, failed) ↦ ground arith
        | inr (summary, found) ↦ (
          summary,
          found,
          elim (privileged-cases summary.kind summary.has_non_empty_writable_roots) [
            | inl safe ↦ inl safe
            | inr risky ↦ inr (
              ground arith,
              is_never-false approval_policy (ground arith),
              scope-true cwd summary.has_non_empty_writable_roots (ground arith),
            )
          ],
        )
      ]
