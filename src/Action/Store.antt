-- ===== src/Action/Store.antt =====
-- The tables that the session action store writes (internal/telemetry/session_action_store.go and
-- migrate_sessions.go), and the reads and writes that its transactions share.
-- A committed transaction returns the new store. Every statement but an INSERT into the outbox
-- succeeds: a database that fails is not modelled. `uuid n` is the n-th fresh event id.
use lisstech_drain_ctl.Prelude.{
  ℕ, suc, String, Bool, true, ◌&&◌, Option, none, some, List, [], ◌∷◌, ◌++◌, map, str_eq,
  if◌then◌else◌,
}
use lisstech_drain_ctl.Prelude.Int.{ℤ, leb_ℤ}
use lisstech_drain_ctl.Prelude.Rows.{select, update_where}
use lisstech_drain_ctl.Action.{
  ActionType, ActionState, expired, is_active, SessionAction, ActionStatus,
}

-- A row of session_action_outbox.
pub record Row : Type 0 where
  pub action : SessionAction
  pub endpoint : String
  pub ciphertext : Option (List ℕ)
  pub protection : Option String
  pub delivered_at_ms : Option ℤ
  pub completed_at_ms : Option ℤ
  pub result_code : Option String

-- The `transition` column of session_action_audit.
pub data Transition : Type 0 where
  entered : ActionState → Transition
  protocol_invalid : Transition

-- A row of session_action_audit, SessionActionAuditEvent.
pub record AuditEvent : Type 0 where
  pub event_id : String
  pub event_at_ms : ℤ
  pub action_id : String
  pub action_type : ActionType
  pub canonical_host : String
  pub session_id : ℕ
  pub expected_logon_at_ms : ℤ
  pub transition : Transition
  pub result_code : Option String
  pub requested_by : Option String

-- The columns of session_snapshots that validateActionTarget reads.
pub record SnapshotRow : Type 0 where
  pub canonical_host : String
  pub latest_attempt_error_code : Option String
  pub last_success_received_at_ms : Option ℤ
  pub capability_actions : Option ℕ

-- The columns of session_latest that validateActionTarget reads.
pub record LatestRow : Type 0 where
  pub canonical_host : String
  pub session_id : ℕ
  pub logon_at_ms : Option ℤ

pub record Store : Type 0 where
  pub outbox : List Row
  pub audit : List AuditEvent
  pub snapshots : List SnapshotRow
  pub latest : List LatestRow
  pub issued : ℕ  -- event ids drawn so far

abbrev pub row_id : Row → String
row_id r = r.action.action_id

abbrev pub row_active : Row → Bool
row_active r = is_active r.action.state

abbrev pub has_id : String → Row → Bool
has_id id r = str_eq (row_id r) id

-- actionStatus
abbrev pub action_status : SessionAction → Option ℤ → Option String → ActionStatus
action_status a completed result = record {
  action_id = a.action_id;
  action_type = a.action_type;
  canonical_host = a.canonical_host;
  session_id = a.session_id;
  expected_logon_at_ms = a.expected_logon_at_ms;
  state = a.state;
  created_at_ms = a.created_at_ms;
  expires_at_ms = a.expires_at_ms;
  completed_at_ms = completed;
  result_code = result;
}

-- sessionActionRow.status
abbrev pub row_status : Row → ActionStatus
row_status r = action_status r.action r.completed_at_ms r.result_code

-- actionAuditFrom with its EventAtMS, then appendActionAudit.
unfoldable pub append_audit :
    (ℕ → String) → SessionAction → ℤ → Transition → Option String → Option String → Store → Store
append_audit uuid a at transition code requested_by s = record s {
  audit = s.audit ++ event ∷ [];
  issued = suc s.issued;
}
  where
    event : AuditEvent
    event = record {
      event_id = uuid s.issued;
      event_at_ms = at;
      action_id = a.action_id;
      action_type = a.action_type;
      canonical_host = a.canonical_host;
      session_id = a.session_id;
      expected_logon_at_ms = a.expected_logon_at_ms;
      transition = transition;
      result_code = code;
      requested_by = requested_by;
    }

-- `COALESCE(delivered_at_ms, ?)`
abbrev pub coalesce : Option ℤ → ℤ → Option ℤ
coalesce none now = some now
coalesce (some t) now = some t

-- The UPDATE of transitionMatchingActive; its callers give the state 'expired'.
unfoldable pub expire_row : ℤ → String → Row → Row
expire_row now code r = record r {
  action = record r.action { state = expired };
  delivered_at_ms = coalesce r.delivered_at_ms now;
  completed_at_ms = some now;
  result_code = some code;
  ciphertext = none;
  protection = none;
}

-- The SELECT of transitionMatchingActive.
unfoldable pub is_due : ℤ → Bool → Row → Bool
is_due now expired_only r =
    row_active r && (if expired_only then leb_ℤ r.action.expires_at_ms now else true)

-- The loop of transitionMatchingActive over the selected rows.
unfoldable pub expire_rows : (ℕ → String) → ℤ → String → List Row → Store → Store
unfolding append_audit
expire_rows uuid now code [] s = s
expire_rows uuid now code (r ∷ rs) s =
    let written = record s {
      outbox = update_where (has_id (row_id r)) (expire_row now code) s.outbox;
    } in
    expire_rows uuid now code rs
      (append_audit uuid r.action now (entered expired) (some code) none written)

-- transitionMatchingActive
unfoldable pub transition_matching_active :
    (ℕ → String) → ℤ → String → Bool → Store → Store × List ActionStatus
transition_matching_active uuid now code expired_only s =
    let rows = select (is_due now expired_only) s.outbox in
    (expire_rows uuid now code rows s, map (λ r. row_status (expire_row now code r)) rows)

-- expireActions
unfoldable pub expire_actions : (ℕ → String) → ℤ → Store → Store
unfolding transition_matching_active
expire_actions uuid now s = (transition_matching_active uuid now "expired" true s).0
