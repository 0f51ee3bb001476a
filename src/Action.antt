-- ===== src/Action.antt =====
-- The data of session actions (internal/sessiondata/model.go, action types): what an operator asks
-- of one session, the state that the dashboard keeps of it and what the agent reports.
-- A Go string type with named constants is a data type with one more constructor for any other text.
pub mod Store
pub mod Outbox
pub mod Lifecycle
pub mod Effects
pub mod Valid
pub mod History
pub mod Final
pub mod Idempotent
pub mod Delivery
pub mod Tests
use lisstech_drain_ctl.Prelude.{ℕ, String, Bool, true, false, Option, List}
use lisstech_drain_ctl.Prelude.Int.{ℤ}

pub data ActionType : Type 0 where
  logoff message disconnect : ActionType
  other_type : String → ActionType

pub data ActionState : Type 0 where
  queued delivered completed failed expired session_changed unsupported : ActionState
  other_state : String → ActionState

pub data Outcome : Type 0 where
  completed failed expired session_changed unsupported duplicate : Outcome
  other_outcome : String → Outcome

abbrev pub is_message : ActionType → Bool
is_message message = true
is_message _ = false

abbrev pub is_known_type : ActionType → Bool
is_known_type (other_type _) = false
is_known_type _ = true

abbrev pub is_queued : ActionState → Bool
is_queued queued = true
is_queued _ = false

abbrev pub is_delivered : ActionState → Bool
is_delivered delivered = true
is_delivered _ = false

-- `state IN ('queued','delivered')` of the SQL.
abbrev pub is_active : ActionState → Bool
is_active queued = true
is_active delivered = true
is_active _ = false

-- SessionActionOutcome.Valid
abbrev pub outcome_valid : Outcome → Bool
outcome_valid (other_outcome _) = false
outcome_valid _ = true

abbrev pub is_duplicate : Outcome → Bool
is_duplicate duplicate = true
is_duplicate _ = false

-- `SessionActionState(outcome)`: the same text, read as a state.
abbrev pub state_of_outcome : Outcome → ActionState
state_of_outcome Outcome.completed = ActionState.completed
state_of_outcome Outcome.failed = ActionState.failed
state_of_outcome Outcome.expired = ActionState.expired
state_of_outcome Outcome.session_changed = ActionState.session_changed
state_of_outcome Outcome.unsupported = ActionState.unsupported
state_of_outcome duplicate = other_state "duplicate"
state_of_outcome (other_outcome t) = other_state t

-- `string(outcome)`
abbrev pub outcome_text : Outcome → String
outcome_text Outcome.completed = "completed"
outcome_text Outcome.failed = "failed"
outcome_text Outcome.expired = "expired"
outcome_text Outcome.session_changed = "session_changed"
outcome_text Outcome.unsupported = "unsupported"
outcome_text duplicate = "duplicate"
outcome_text (other_outcome t) = t

-- SessionAction
pub record SessionAction : Type 0 where
  pub action_id : String
  pub canonical_host : String
  pub session_id : ℕ
  pub expected_logon_at_ms : ℤ
  pub action_type : ActionType
  pub state : ActionState
  pub created_at_ms : ℤ
  pub expires_at_ms : ℤ
  pub requested_by : String
  pub idempotency_key : String
  pub request_fingerprint : List ℕ

-- SessionActionStatus: what the dashboard shows of an action. It has no message.
pub record ActionStatus : Type 0 where
  pub action_id : String
  pub action_type : ActionType
  pub canonical_host : String
  pub session_id : ℕ
  pub expected_logon_at_ms : ℤ
  pub state : ActionState
  pub created_at_ms : ℤ
  pub expires_at_ms : ℤ
  pub completed_at_ms : Option ℤ
  pub result_code : Option String
