-- ===== src/Action/Valid.antt =====
-- The constraints that the schema declares for session_action_outbox and session_action_audit
-- (internal/telemetry/migrate_sessions.go), as an invariant of the store.
pub mod Rows
pub mod Audit
pub mod Steps
pub mod Enqueue
use lisstech_drain_ctl.Prelude.{
  ℕ, ◌<◌, ◌^◌, String, Bool, true, false, not, ◌≡◌, Option, none, some, List, [], ◌∷◌, map,
}
use lisstech_drain_ctl.Prelude.Int.{ℤ, pos, ◌≤ℤ◌, ◌+ℤ◌}
use lisstech_drain_ctl.Prelude.Rows.{All}
use lisstech_drain_ctl.Prelude.Distinct.{Distinct}
use lisstech_drain_ctl.Action.{
  ActionType, ActionState, queued, delivered, is_message, is_known_type, is_queued, is_active,
  other_state,
}
use lisstech_drain_ctl.Action.Store.{
  Row, Transition, entered, protocol_invalid, AuditEvent, Store, row_id, row_active,
}
use lisstech_drain_ctl.Action.Effects.{ids}

abbrev pub is_null {ℓ} : {A : Type ℓ} → Option A → Bool
is_null none = true
is_null (some a) = false

-- `CHECK (t IS NULL OR t >= 0)`
abbrev pub NullOrPast : Option ℤ → Type 0
NullOrPast none = Unit {0}
NullOrPast (some t) = pos 0 ≤ℤ t

-- `CHECK (state IN (…))`
abbrev pub is_known_state : ActionState → Bool
is_known_state (other_state t) = false
is_known_state _ = true

-- The row constraints of session_action_outbox. That the expiry is not negative follows from `created` and
-- `expiry`. `erased` is stronger than the schema, which lets a terminal row keep a message as long as both
-- of its columns are kept.
pub record IsValidRow (r : Row) : Type 0 where
  pub session : r.action.session_id < 2 ^ 32
  pub logon : pos 0 ≤ℤ r.action.expected_logon_at_ms
  pub created : pos 0 ≤ℤ r.action.created_at_ms
  pub expiry : r.action.expires_at_ms ≡ r.action.created_at_ms +ℤ pos 300000
  pub known_type : is_known_type r.action.action_type ≡ true
  pub known_state : is_known_state r.action.state ≡ true
  pub delivered_past : NullOrPast r.delivered_at_ms
  pub completed_past : NullOrPast r.completed_at_ms
  pub queued_undelivered : is_null r.delivered_at_ms ≡ is_queued r.action.state
  pub active_unfinished : is_null r.completed_at_ms ≡ is_active r.action.state
  pub active_no_result : is_null r.result_code ≡ is_active r.action.state
  pub plain :
      is_message r.action.action_type ≡ false → (r.ciphertext ≡ none) × (r.protection ≡ none)
  pub sealed :
      is_message r.action.action_type ≡ true
      → is_active r.action.state ≡ true
      → (is_null r.ciphertext ≡ false) × (is_null r.protection ≡ false)
  pub erased : is_active r.action.state ≡ false → (r.ciphertext ≡ none) × (r.protection ≡ none)

-- `transition IN (…)`, and the two sets that the other constraints name.
abbrev pub is_known_transition : Transition → Bool
is_known_transition (entered s) = is_known_state s
is_known_transition protocol_invalid = true

abbrev pub is_queued_entry : Transition → Bool
is_queued_entry (entered s) = is_queued s
is_queued_entry protocol_invalid = false

abbrev pub is_active_entry : Transition → Bool
is_active_entry (entered s) = is_active s
is_active_entry protocol_invalid = false

-- The row constraints of session_action_audit.
pub record IsValidEvent (e : AuditEvent) : Type 0 where
  pub at : pos 0 ≤ℤ e.event_at_ms
  pub session : e.session_id < 2 ^ 32
  pub logon : pos 0 ≤ℤ e.expected_logon_at_ms
  pub known_type : is_known_type e.action_type ≡ true
  pub known_transition : is_known_transition e.transition ≡ true
  pub requester : is_null e.requested_by ≡ (not (is_queued_entry e.transition))
  pub result : is_null e.result_code ≡ is_active_entry e.transition

-- The columns of the unique index on the idempotency key.
abbrev pub row_key : Row → String × String × String
row_key r = (r.action.requested_by, r.endpoint, r.action.idempotency_key)

abbrev pub keys : List Row → List (String × String × String)
keys = map row_key

-- Every CHECK, the primary key and the unique index of the outbox, and every CHECK of the audit.
pub record IsValid (s : Store) : Type 0 where
  pub rows : All IsValidRow s.outbox
  pub one_id : Distinct (ids s.outbox)
  pub one_key : Distinct (keys s.outbox)
  pub events : All IsValidEvent s.audit
