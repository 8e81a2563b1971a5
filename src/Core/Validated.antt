-- ===== src/Core/Validated.antt =====
-- Calls that are validated on both sides: crates/codex-runtime/src/runtime/core/rpc.rs,
-- `call_validated_with_mode_and_timeout` and `call_raw_internal`, cut where the call waits. The
-- text of a contract violation is an argument.
use coclai.Prelude.{
  ℕ, String, ◌≡◌, refl, Bool, true, false, not, some, ◌∷◌, if◌then◌else◌, arith, Bool-cases, inl,
  inr, subst, ap,
}
use coclai.Json.{Json}
use coclai.Checked.{Checked, ok, err, Checked-cases}
use coclai.RpcContract.Descriptors.{
  RpcValidationMode, known_methods, RpcContractDescriptor, rpc_contract_descriptor,
}
use coclai.RpcContract.Validate.{InvalidRequest, validate_rpc_request, validate_rpc_response}
use coclai.RpcContract.Accepted.{HasContent}
use coclai.RpcContract.Accepted.Responses.{validate_rpc_response-ok}
use coclai.Core.{RpcError, invalid_request, RuntimeInner, rpc_request}
use coclai.Core.Calls.{start_call, finish_call, Waited, answer, sender_dropped, elapsed}

module _ (json : Json) (describe : InvalidRequest json.Value → String) where
  open json use {Value}

  -- `call_raw_internal` with `require_initialized`, before the wait.
  unfoldable pub start_initialized_call :
      (initialized : Bool)
      → RuntimeInner Value
      → (method : String) → (params : Value) → RuntimeInner Value × Checked (RpcError Value) ℕ
  unfolding start_call
  start_initialized_call initialized inner method params =
      if not initialized
      then (inner, err (invalid_request "runtime is not initialized"))
      else start_call inner method params

  unfoldable pub start_validated_call :
      RpcValidationMode
      → (initialized : Bool) → RuntimeInner Value
      → (method : String) → (params : Value) → RuntimeInner Value × Checked (RpcError Value) ℕ
  unfolding start_initialized_call
  start_validated_call mode initialized inner method params =
      elim (validate_rpc_request json method params mode) [
        | err e ↦ (inner, err (invalid_request (describe e)))
        | ok _ ↦ start_initialized_call initialized inner method params
      ]

  unfoldable pub finish_validated_call :
      RpcValidationMode
      → RuntimeInner Value
      → (rpc_id : ℕ) → (method : String) → Waited Value
      → RuntimeInner Value × Checked (RpcError Value) Value
  unfolding finish_call
  finish_validated_call mode inner rpc_id method waited =
      let (next, result) = finish_call inner rpc_id waited in
      elim result [
        | err e ↦ (next, err e)
        | ok value ↦ elim (validate_rpc_response json method value mode) [
          | err e ↦ (next, err (invalid_request (describe e)))
          | ok _ ↦ (next, ok value)
        ]
      ]

  start_call-sent :
      (inner : RuntimeInner Value) (method : String) (params : Value) (id : ℕ)
      → (start_call inner method params).1 ≡ ok id
      → (start_call inner method params).0.sent ≡ rpc_request id method params ∷ inner.sent
  unfolding start_call
  start_call-sent inner method params id h = elim (Bool-cases inner.outbound_set) [
    | inr unset ↦ absurd (ground arith)
    | inl set ↦ elim (Bool-cases inner.outbound_alive) [
      | inl alive ↦ ground arith
      | inr dead ↦ absurd (ground arith)
    ]
  ]

  start_validated_call-ok :
      (initialized : Bool) (inner : RuntimeInner Value) (method : String) (params : Value) (id : ℕ)
      → (start_validated_call known_methods initialized inner method params).1 ≡ ok id
      → (validate_rpc_request json method params known_methods ≡ ok tt)
        × (initialized ≡ true)
        × ((start_validated_call known_methods initialized inner method params).0.sent
            ≡ rpc_request id method params ∷ inner.sent)
  unfolding start_validated_call start_initialized_call
  start_validated_call-ok false inner method params id h =
      elim (Checked-cases (validate_rpc_request json method params known_methods)) [
        | inl (e, refused) ↦ absurd (ground arith)
        | inr (_, fine) ↦ absurd (ground arith)
      ]
  start_validated_call-ok true inner method params id h =
      elim (Checked-cases (validate_rpc_request json method params known_methods)) [
        | inl (e, refused) ↦ absurd (ground arith)
        | inr (_, fine) ↦ (
          fine,
          refl,
          rw (start_validated_call, fine)
              (start_call-sent inner method params id (rw (start_validated_call, fine) at h)),
        )
      ]

  finish_validated_call_answer :
      (later : RuntimeInner Value) (method : String) (id : ℕ) (waited : Waited Value)
      (value : Value)
      → (finish_validated_call known_methods later id method waited).1 ≡ ok value
      → (waited ≡ answer (ok value))
        × (validate_rpc_response json method value known_methods ≡ ok tt)
  unfolding finish_validated_call finish_call
  finish_validated_call_answer later method id (answer (ok v)) value h =
      elim (Checked-cases (validate_rpc_response json method v known_methods)) [
        | inl (e, refused) ↦ absurd (ground arith)
        | inr (_, fine) ↦
            let same : v ≡ value = ground arith in
            (
              ap (λ x. answer (ok x)) same,
              subst (λ x. validate_rpc_response json method x known_methods ≡ ok tt) same fine,
            )
      ]
  finish_validated_call_answer later method id (answer (err e)) value h = absurd (ground arith)
  finish_validated_call_answer later method id sender_dropped value h = absurd (ground arith)
  finish_validated_call_answer later method id elapsed value h = absurd (ground arith)

  -- A validated call of a known method that succeeds was accepted as a request, was sent under the
  -- id that it waited for, and returns what the server answered, which has the content that the
  -- contract of the method promises.
  pub finish_validated_call-ok :
      (initialized : Bool) (inner later : RuntimeInner Value) (method : String) (params : Value)
      (id : ℕ) (waited : Waited Value) (value : Value) (d : RpcContractDescriptor)
      → rpc_contract_descriptor method ≡ some d
      → (start_validated_call known_methods initialized inner method params).1 ≡ ok id
      → (finish_validated_call known_methods later id method waited).1 ≡ ok value
      → (validate_rpc_request json method params known_methods ≡ ok tt)
        × (initialized ≡ true)
        × ((start_validated_call known_methods initialized inner method params).0.sent
            ≡ rpc_request id method params ∷ inner.sent)
        × (waited ≡ answer (ok value))
        × HasContent json d.response value
  finish_validated_call-ok initialized inner later method params id waited value d known begun
        done =
      let (fine, ready, sent) = start_validated_call-ok initialized inner method params id begun in
      let (answered, accepted) = finish_validated_call_answer later method id waited value done in
      (fine, ready, sent, answered, validate_rpc_response-ok json method value d known accepted)
