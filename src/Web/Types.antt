-- ===== src/Web/Types.antt =====
-- The data of the web adapter: crates/codex-runtime/src/adapters/web/types.rs and the records of
-- state.rs. A formatted message of an internal error is a value that keeps what is formatted.
use coclai.Prelude.{ℕ, ◌≡◌, refl, ◌⊎◌, inl, inr, String, Bool, Option, List, [], Map}
use coclai.Json.{Json}

pub record WebAdapterConfig : Type 0 where
  pub session_event_channel_capacity : ℕ
  pub session_approval_channel_capacity : ℕ

mutual
  pub data WebError : Type 0 where
    invalid_session already_bound invalid_approval invalid_turn_payload : WebError
    invalid_approval_payload forbidden session_closing : WebError
    invalid_config : String → WebError
    -- expected major and minor, actual major and minor
    incompatible_contract : ℕ → ℕ → ℕ → ℕ → WebError
    -- thread_id, existing_artifact_id, requested_artifact_id
    session_thread_conflict : String → String → String → WebError
    internal : Message → WebError

  pub data Message : Type 0 where
    thread_index_inconsistent close_requires_closing missing_turn_id : Message
    -- requested, actual
    resume_mismatch : String → String → Message
    -- session_id, the error of the archive call
    archive_failed : String → WebError → Message
    -- session_id, the error of the archive call, the error of the rollback
    archive_and_rollback_failed : String → WebError → WebError → Message
    adapter_error : String → Message

pub data Result {ℓ} (A : Type ℓ) : Type ℓ where
  ok : A → Result A
  err : WebError → Result A

-- The operator `?`.
infixl 5 ◌>>=◌ ◌>>◌
abbrev pub ◌>>=◌ {ℓ κ} : {A : Type ℓ} {B : Type κ} → Result A → (A → Result B) → Result B
err e >>= next = err e
ok value >>= next = next value

-- A check whose value is not used.
abbrev pub ◌>>◌ {ℓ} : {A : Type ℓ} → Result (Unit {0}) → Result A → Result A
err e >> next = err e
ok _ >> next = next

pub Result-cases {ℓ} :
    {A : Type ℓ} (r : Result A) → ((e : WebError) × (r ≡ err e)) ⊎ ((a : A) × (r ≡ ok a))
Result-cases (ok a) = inr (a, refl)
Result-cases (err e) = inl (e, refl)

pub data SessionLifecycle : Type 0 where
  active closing : SessionLifecycle

pub record SessionRecord : Type 0 where
  pub session_id : String
  pub tenant_id : String
  pub artifact_id : String
  pub thread_id : String
  pub lifecycle : SessionLifecycle
  pub approval_queue_capacity : ℕ

pub record RouteMissMetrics : Type 0 where
  pub missing_thread_id : ℕ
  pub missing_session_mapping : ℕ
  pub missing_approval_topic : ℕ

-- crates/codex-runtime/src/runtime/approvals.rs
pub record ServerRequest (Value : Type 0) : Type 0 where
  pub approval_id : String
  pub method : String
  pub params : Value

-- The broadcast channels of `tokio`: a sender is made with a capacity.
pub record Topics : Type 1 where
  pub EventSender : Type 0
  pub ApprovalSender : Type 0
  pub event_channel : ℕ → EventSender
  pub approval_channel : ℕ → ApprovalSender

pub record WebState (json : Json) (topics : Topics) : Type 0 where
  pub sessions : Map SessionRecord
  pub thread_to_session : Map String
  pub event_topics : Map topics.EventSender
  pub approval_topics : Map topics.ApprovalSender
  pub approval_to_session : Map String
  pub queued_approvals : Map (List (ServerRequest json.Value))
  pub server_request_route_miss : RouteMissMetrics

-- `WebState::default`.
abbrev pub empty_state : (json : Json) (topics : Topics) → WebState json topics
empty_state json topics = record {
  sessions = [];
  thread_to_session = [];
  event_topics = [];
  approval_topics = [];
  approval_to_session = [];
  queued_approvals = [];
  server_request_route_miss = record {
    missing_thread_id = 0;
    missing_session_mapping = 0;
    missing_approval_topic = 0;
  };
}

pub record CreateSessionResponse : Type 0 where
  pub session_id : String
  pub thread_id : String

pub record CloseSessionResponse : Type 0 where
  pub thread_id : String
  pub archived : Bool

pub record CreateSessionRequest : Type 0 where
  pub artifact_id : String
  pub model : Option String
  pub thread_id : Option String

pub record ApprovalResponsePayload (Value : Type 0) : Type 0 where
  pub decision : Option Value
  pub result : Option Value
