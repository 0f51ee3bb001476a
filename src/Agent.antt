-- ===== src/Agent.antt =====
-- The agent's side of session actions: internal/sessiondata/action_command.go and model.go, and the
-- world in which sessions_actions_windows.go and internal/svc/check.go run.
pub mod Ledger
pub mod Executor
pub mod Effects
pub mod Runtime
pub mod Once
pub mod Replay
pub mod Queue
pub mod Tests
use lisstech_drain_ctl.Prelude.{ℕ, suc, String, Bool, true, false, Option, List, str_eq}
use lisstech_drain_ctl.Prelude.Int.{ℤ}
use lisstech_drain_ctl.Action.{ActionType, Outcome}

-- SessionActionLedgerState
pub data LedgerState : Type 0 where
  claimed terminal : LedgerState

-- SessionActionLedgerEntry, a row of session_action_ledger.
pub record LedgerEntry : Type 0 where
  pub action_id : String
  pub state : LedgerState
  pub outcome : Option Outcome
  pub claimed_at_ms : ℤ
  pub completed_at_ms : Option ℤ
  pub expires_at_ms : ℤ

-- PendingSessionAction
pub record PendingAction : Type 0 where
  pub action_id : String
  pub action_type : ActionType
  pub session_id : ℕ
  pub expected_logon_at_ms : ℤ
  pub expires_at_ms : ℤ
  pub message : Option String

-- CompletedSessionAction
pub record CompletedAction : Type 0 where
  pub action_id : String
  pub outcome : Outcome

-- What the agent asks of Windows Terminal Services.
pub data WtsCall : Type 0 where
  disconnect_session logoff_session : ℕ → WtsCall
  send_message : ℕ → String → WtsCall

-- A call as the log keeps it: with the action on whose behalf it was made.
pub record LoggedCall : Type 0 where
  pub on_behalf_of : String
  pub call : WtsCall

-- The answer of a session lookup: an error, no such session or no logon time, or its logon time.
pub data Lookup : Type 0 where
  lookup_error no_logon : Lookup
  logon_at : ℤ → Lookup

-- The seams of the executor and the database below the ledger, each indexed by how often it was
-- used: the clock, whether a statement fails (without an effect), the lookup, and whether a WTS call
-- succeeds.
pub record Env : Type 0 where
  pub clock : ℕ → ℤ
  pub broken : ℕ → Bool
  pub lookup : ℕ → ℕ → Lookup
  pub wts : ℕ → WtsCall → Bool

-- The durable ledger, the uses of the seams so far, and every WTS call made, the last one first.
pub record World : Type 0 where
  pub ledger : List LedgerEntry
  pub ticks : ℕ
  pub statements : ℕ
  pub lookups : ℕ
  pub calls : List LoggedCall

-- `WHERE action_id = ?`
abbrev pub has_entry : String → LedgerEntry → Bool
has_entry id x = str_eq x.action_id id

abbrev pub is_claimed : LedgerState → Bool
is_claimed claimed = true
is_claimed terminal = false

abbrev pub is_terminal : LedgerState → Bool
is_terminal claimed = false
is_terminal terminal = true

abbrev pub after_statement : World → World
after_statement w = record w { statements = suc w.statements }
