-- ===== src/RpcContract/Accepted/Sound.antt =====
-- An accepted request is as the protocol asks: crates/codex-runtime/src/runtime/rpc_contract.rs.
use coclai.Prelude.{
  ◌≡◌, refl, String, Bool, true, false, ◌&&◌, Option, none, some, List, [], ◌∷◌, is_some, ◌⊎◌, inl,
  inr, arith, All, Option-cases, ◌>>=◌ as ◌|>◌,
}
use coclai.Checked.{Checked, ok, err, ◌>>◌, Checked-cases}
use coclai.Json.{Json}
use coclai.Policy.{summarize_sandbox_policy_wire_value}
use coclai.RpcContract.Validate.{
  get_bool, require_object_on, validate_command, validate_process_id, validate_limits,
  validate_terminal_size, validate_command_exec_size, validate_sandbox_policy,
  validate_command_exec_request, any_not_text, get_optional_non_empty_string, on_request,
}
use coclai.RpcContract.Accepted.{
  CommandOk, ProcessIdOk, LimitsOk, TerminalOk, SandboxOk, CommandExecOk,
}

then-ok : {E : Type 0} (m k : Checked E (Unit {0})) → (m >> k) ≡ ok tt → (m ≡ ok tt) × (k ≡ ok tt)
then-ok (ok tt) k h = (refl, h)
then-ok (err e) k h = ground arith

-- Six checks in a row.
chain-ok :
    {E : Type 0} (a b c d e f : Checked E (Unit {0}))
    → (do a; b; c; d; e; f) ≡ ok tt
    → (a ≡ ok tt) × (b ≡ ok tt) × (c ≡ ok tt) × (d ≡ ok tt) × (e ≡ ok tt) × (f ≡ ok tt)
chain-ok a b c d e f h =
    let (on_a, h1) = then-ok a (b >> (c >> (d >> (e >> f)))) h in
    let (on_b, h2) = then-ok b (c >> (d >> (e >> f))) h1 in
    let (on_c, h3) = then-ok c (d >> (e >> f)) h2 in
    let (on_d, h4) = then-ok d (e >> f) h3 in
    let (on_e, on_f) = then-ok e f h4 in (on_a, on_b, on_c, on_d, on_e, on_f)

module _ (json : Json) where
  open json use {Value, get, as_str, as_array, as_u64, as_i64, is_object}

  cap_free {ℓ} :
      {A : Type ℓ} (b : Bool) (o : Option A) → (b && is_some o) ≡ false → (b ≡ false) ⊎ (o ≡ none)
  cap_free false o h = inl refl
  cap_free true none h = inr refl
  cap_free true (some a) h = ground arith

  any_not_text-false :
      (vs : List Value) → any_not_text json vs ≡ false → All (λ v. is_some (as_str v) ≡ true) vs
  any_not_text-false [] h = tt
  any_not_text-false (v ∷ vs) h = (ground arith, any_not_text-false vs (ground arith))

  validate_command-ok :
      (params : Value) (method : String)
      → validate_command json params method ≡ ok tt
      → CommandOk json params
  unfolding validate_command
  validate_command-ok params method h = elim (Option-cases (get "command" params |> as_array)) [
    | inl missing ↦ ground arith
    | inr (command, found) ↦
        (command, found, λ e. ground arith, any_not_text-false command (ground arith))
  ]

  validate_process_id-ok :
      (params : Value) (method : String)
      → validate_process_id json params method ≡ ok tt
      → ProcessIdOk json params
  unfolding validate_process_id get_optional_non_empty_string
  validate_process_id-ok params method h = elim (Option-cases (get "processId" params)) [
    | inl missing ↦ inr (missing, ground arith, ground arith, ground arith)
    | inr (v, found) ↦ elim (Option-cases (as_str v)) [
      | inl other ↦ absurd (ground arith)
      | inr (id, s) ↦ inl (id, ground arith, ground arith)
    ]
  ]

  validate_limits-ok :
      (params : Value) (method : String)
      → validate_limits json params method ≡ ok tt
      → LimitsOk json params
  unfolding validate_limits
  validate_limits-ok params method h = (
    cap_free (get_bool json params "disableOutputCap") (get "outputBytesCap" params) (ground arith),
    cap_free (get_bool json params "disableTimeout") (get "timeoutMs" params) (ground arith),
    ground arith,
    λ e. ground arith,
  )

  validate_terminal_size-ok :
      (params : Value) (method : String)
      → validate_terminal_size json params method ≡ ok tt
      → TerminalOk json params
  unfolding validate_terminal_size validate_command_exec_size
  validate_terminal_size-ok params method h = elim (Option-cases (get "size" params)) [
    | inl missing ↦ inl missing
    | inr (size, found) ↦
        inr (size, found, ground arith, (ground arith, ground arith, ground arith))
  ]

  validate_sandbox_policy-ok :
      (params : Value) (method : String)
      → validate_sandbox_policy json params method ≡ ok tt
      → SandboxOk json params
  unfolding validate_sandbox_policy
  validate_sandbox_policy-ok params method h = elim (Option-cases (get "sandboxPolicy" params)) [
    | inl missing ↦ inl missing
    | inr (policy, found) ↦
        elim (Checked-cases
          (summarize_sandbox_policy_wire_value json policy "params.sandboxPolicy")) [
            | inl (e, failed) ↦ absurd (ground arith)
            | inr (summary, read) ↦ inr (policy, summary, found, read)
          ]
  ]

  -- A request of `command/exec` that is accepted is what the protocol asks for.
  pub validate_command_exec_request_sound :
      (params : Value) (method : String)
      → validate_command_exec_request json params method ≡ ok tt
      → CommandExecOk json params
  unfolding validate_command_exec_request require_object_on
  validate_command_exec_request_sound params method h =
      let (o, command, id, limits, size, sandbox) =
        chain-ok (require_object_on json on_request params method "params")
          (validate_command json params method) (validate_process_id json params method)
          (validate_limits json params method) (validate_terminal_size json params method)
          (validate_sandbox_policy json params method) h in
      (
        ground arith,
        validate_command-ok params method command,
        validate_process_id-ok params method id,
        validate_limits-ok params method limits,
        validate_terminal_size-ok params method size,
        validate_sandbox_policy-ok params method sandbox,
      )
