-- ===== src/RpcContract/Accepted/Complete.antt =====
-- A request as the protocol asks is accepted: crates/codex-runtime/src/runtime/rpc_contract.rs.
use coclai.Prelude.{
  ℕ, ◌≡◌, ◌≢◌, refl, String, Bool, true, false, ◌&&◌, Option, none, some, List, [], ◌∷◌, is_some,
  eqb, ◌⊎◌, inl, inr, arith, All, Option-cases, Bool-cases, ◌>>=◌ as ◌|>◌,
}
use coclai.Checked.{ok}
use coclai.Json.{Json}
use coclai.RpcContract.Validate.{
  get_bool, require_object_on, validate_command, validate_process_id, validate_limits,
  validate_terminal_size, validate_command_exec_size, validate_sandbox_policy,
  validate_command_exec_request, any_not_text, is_zero, get_optional_non_empty_string,
}
use coclai.RpcContract.Accepted.{
  CommandOk, ProcessIdOk, LimitsOk, TerminalOk, SandboxOk, CommandExecOk,
}
use coclai.RpcContract.Accepted.Sound.{validate_command_exec_request_sound}

module _ (json : Json) where
  open json use {Value, get, as_str, as_array, as_u64, as_i64, is_object}

  any_not_text_of_All :
      (vs : List Value) → All (λ v. is_some (as_str v) ≡ true) vs → any_not_text json vs ≡ false
  any_not_text_of_All [] h = refl
  any_not_text_of_All (v ∷ vs) h = ground (arith, h.0, any_not_text_of_All vs h.1)

  free_cap {ℓ} :
      {A : Type ℓ} (b : Bool) (o : Option A) → (b ≡ false) ⊎ (o ≡ none) → (b && is_some o) ≡ false
  free_cap b o (inl h) = ground arith
  free_cap true o (inr h) = ground arith
  free_cap false o (inr h) = refl

  not_zero : (o : Option ℕ) → o ≢ some 0 → is_zero o ≡ false
  not_zero none h = refl
  not_zero (some n) h = elim (Bool-cases (eqb n 0)) [
    | inl zero ↦ absurd (h (ground arith))
    | inr more ↦ more
  ]

  validate_command_complete :
      (params : Value) (method : String)
      → CommandOk json params
      → validate_command json params method ≡ ok tt
  unfolding validate_command
  validate_command_complete params method (command, found, some_word, words) =
      let texts = any_not_text_of_All command words in ground arith

  validate_process_id_complete :
      (params : Value) (method : String)
      → ProcessIdOk json params
      → validate_process_id json params method ≡ ok tt
  unfolding validate_process_id get_optional_non_empty_string
  validate_process_id_complete params method (inl (id, found, filled)) =
      elim (Option-cases (get "processId" params)) [
        | inl missing ↦ absurd (ground arith)
        | inr (v, there) ↦ ground arith
      ]
  validate_process_id_complete params method (inr (missing, t, i, o)) = ground arith

  validate_limits_complete :
      (params : Value) (method : String)
      → LimitsOk json params
      → validate_limits json params method ≡ ok tt
  unfolding validate_limits
  validate_limits_complete params method (caps, times, late, cap) =
      let caps_free =
        free_cap (get_bool json params "disableOutputCap") (get "outputBytesCap" params) caps in
      let times_free =
        free_cap (get_bool json params "disableTimeout") (get "timeoutMs" params) times in
      let positive = not_zero (get "outputBytesCap" params |> as_u64) cap in
      rw (validate_limits, caps_free, times_free, late, positive) refl

  validate_terminal_size_complete :
      (params : Value) (method : String)
      → TerminalOk json params
      → validate_terminal_size json params method ≡ ok tt
  unfolding validate_terminal_size validate_command_exec_size
  validate_terminal_size_complete params method (inl missing) = ground arith
  validate_terminal_size_complete params method (inr (size, found, tty, (o, rows, cols))) =
      ground arith

  validate_sandbox_policy_complete :
      (params : Value) (method : String)
      → SandboxOk json params
      → validate_sandbox_policy json params method ≡ ok tt
  unfolding validate_sandbox_policy
  validate_sandbox_policy_complete params method (inl missing) = ground arith
  validate_sandbox_policy_complete params method (inr (policy, summary, found, read)) = ground arith

  -- Whatever the protocol allows as a request of `command/exec` is accepted.
  pub validate_command_exec_request_complete :
      (params : Value) (method : String)
      → CommandExecOk json params
      → validate_command_exec_request json params method ≡ ok tt
  unfolding validate_command_exec_request require_object_on
  validate_command_exec_request_complete params method (o, command, id, limits, terminal, sandbox) =
      rw
        (
          validate_command_exec_request,
          require_object_on,
          o,
          validate_command_complete params method command,
          validate_process_id_complete params method id,
          validate_limits_complete params method limits,
          validate_terminal_size_complete params method terminal,
          validate_sandbox_policy_complete params method sandbox,
        )
        refl

  -- A request of `command/exec` is accepted exactly when its params are an object in which the
  -- command is a list of texts that is not empty, the process id is a text that is not blank or is
  -- missing where nothing streams, the limits do not contradict each other, the size of the
  -- terminal is positive and comes with a tty, and the sandbox policy parses.
  pub validate_command_exec_request-CommandExecOk :
      (params : Value) (method : String)
      → ((validate_command_exec_request json params method ≡ ok tt) → CommandExecOk json params)
        × (CommandExecOk json params → validate_command_exec_request json params method ≡ ok tt)
  validate_command_exec_request-CommandExecOk params method = (
    validate_command_exec_request_sound json params method,
    validate_command_exec_request_complete params method,
  )
