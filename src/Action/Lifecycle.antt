-- ===== src/Action/Lifecycle.antt =====
-- Delivery, completion, expiry, privacy purges and retention of session actions
-- (internal/telemetry/session_action_store.go). Each function is one committed transaction.
use lisstech_drain_ctl.Prelude.{
  ℕ, zero, suc, String, Bool, true, false, not, ◌&&◌, ◌||◌, Option, none, some, List, [], ◌∷◌, map,
  str_eq, str_le, if◌then◌else◌, length, take,
}
use lisstech_drain_ctl.Prelude.Int.{ℤ, ltb_ℤ, eqb_ℤ}
use lisstech_drain_ctl.Prelude.Rows.{
  select, update_where, delete_where, find_row, any_row, order_by,
}
use lisstech_drain_ctl.Action.{
  Outcome, delivered, is_queued, is_delivered, is_active, outcome_valid, is_duplicate,
  state_of_outcome, outcome_text, SessionAction, ActionStatus,
}
use lisstech_drain_ctl.Action.Store.{
  Row, entered, protocol_invalid, Store, AuditEvent, row_id, row_active, has_id, row_status,
  append_audit, transition_matching_active, expire_actions,
}

-- SessionActionDelivery; a NULL column is read as its empty value.
pub record Delivery : Type 0 where
  pub action : SessionAction
  pub ciphertext : List ℕ
  pub protection : String

abbrev pub or_empty : Option (List ℕ) → List ℕ
or_empty none = []
or_empty (some bytes) = bytes

abbrev pub or_blank : Option String → String
or_blank none = ""
or_blank (some t) = t

-- sessionActionRow.delivery
abbrev pub row_delivery : Row → Delivery
row_delivery r = record {
  action = r.action;
  ciphertext = or_empty r.ciphertext;
  protection = or_blank r.protection;
}

abbrev pub delivery_limit : ℕ
delivery_limit = 20

-- `ORDER BY created_at_ms, action_id`
unfoldable pub older : Row → Row → Bool
older r q =
    ltb_ℤ r.action.created_at_ms q.action.created_at_ms
    || (eqb_ℤ r.action.created_at_ms q.action.created_at_ms && str_le (row_id r) (row_id q))

-- The WHERE of the delivery query.
unfoldable pub is_deliverable : String → ℤ → Row → Bool
is_deliverable host now r =
    str_eq r.action.canonical_host host && row_active r && ltb_ℤ now r.action.expires_at_ms

-- `SET state = 'delivered', delivered_at_ms = ?`
unfoldable pub deliver_row : ℤ → Row → Row
deliver_row now r = record r {
  action = record r.action { state = delivered };
  delivered_at_ms = some now;
}

-- `WHERE action_id = ? AND state = 'queued'`
unfoldable pub is_queued_id : String → Row → Bool
is_queued_id id r = has_id id r && is_queued r.action.state

-- One pass of the loop that marks the selected rows: a row that is delivered already is left.
unfoldable pub mark_delivered : (ℕ → String) → ℤ → Row → Store → Store
unfolding append_audit is_queued_id deliver_row
mark_delivered uuid now r s =
    if is_queued r.action.state
    then append_audit uuid (deliver_row now r).action now (entered delivered) none none
        (record s { outbox = update_where (is_queued_id (row_id r)) (deliver_row now) s.outbox })
    else s

unfoldable pub mark_all : (ℕ → String) → ℤ → List Row → Store → Store
unfolding mark_delivered
mark_all uuid now [] s = s
mark_all uuid now (r ∷ rs) s = mark_all uuid now rs (mark_delivered uuid now r s)

-- `result[i].Action.State = SessionActionDelivered`
unfoldable pub delivered_copy : Row → Delivery
delivered_copy r = row_delivery (record r {
  action = record r.action {
    state = if is_queued r.action.state then delivered else r.action.state;
  };
})

-- The rows that one report carries.
unfoldable pub selected : String → ℤ → Store → List Row
unfolding is_deliverable older
selected host now s =
    take delivery_limit (order_by older (select (is_deliverable host now) s.outbox))

-- Deliver
unfoldable pub deliver : (ℕ → String) → String → ℤ → Store → Store × List Delivery
unfolding expire_actions selected mark_all delivered_copy
deliver uuid host now s =
    let swept = expire_actions uuid now s in
    let rows = selected host now swept in (mark_all uuid now rows swept, map delivered_copy rows)

-- What Complete returns: a status, a status with ErrSessionActionProtocolInvalid, or that error alone.
pub data Reply : Type 0 where
  accepted refused : ActionStatus → Reply
  missing : Reply

-- `SET state, completed_at_ms, result_code`, and the message erased.
unfoldable pub finish_row : Outcome → ℤ → Row → Row
finish_row outcome now r = record r {
  action = record r.action { state = state_of_outcome outcome };
  completed_at_ms = some now;
  result_code = some (outcome_text outcome);
  ciphertext = none;
  protection = none;
}

-- The two tests of Complete: a replay of a row that has ended, and a report that is refused.
abbrev pub is_replay : String → Outcome → Row → Bool
is_replay host outcome r =
    str_eq r.action.canonical_host host && outcome_valid outcome && not (is_active r.action.state)

abbrev pub is_refused : String → Outcome → Row → Bool
is_refused host outcome r =
    not (str_eq r.action.canonical_host host)
    || not (outcome_valid outcome)
    || is_duplicate outcome
    || not (is_delivered r.action.state)

-- Complete past its SELECT, on the row found in the swept store.
unfoldable pub complete_row : (ℕ → String) → String → Outcome → ℤ → Row → Store → Store × Reply
unfolding append_audit finish_row
complete_row uuid host outcome now r s =
    let a = r.action in
    if is_replay host outcome r
    then (s, accepted (row_status r))
    else if is_refused host outcome r
    then (
      append_audit uuid a now protocol_invalid (some "protocol_invalid") none s,
      refused (row_status r),
    )
    else (
      append_audit uuid (finish_row outcome now r).action now (entered (state_of_outcome outcome))
          (some (outcome_text outcome)) none
          (record s {
            outbox = update_where (has_id (row_id r)) (finish_row outcome now) s.outbox;
          }),
      accepted (row_status (finish_row outcome now r)),
    )

-- Complete: due rows expire first. An id that is not there rolls the transaction back.
unfoldable pub complete : (ℕ → String) → String → String → Outcome → ℤ → Store → Store × Reply
unfolding expire_actions complete_row
complete uuid host id outcome now s =
    let swept = expire_actions uuid now s in
    elim (find_row (has_id id) swept.outbox) [
      | none ↦ (s, missing)
      | some r ↦ complete_row uuid host outcome now r swept
    ]

-- Expire
unfoldable pub expire : (ℕ → String) → ℤ → Store → Store × List ActionStatus
unfolding transition_matching_active
expire uuid now s = transition_matching_active uuid now "expired" true s

-- CancelForPrivacy
unfoldable pub cancel_for_privacy : (ℕ → String) → ℤ → Store → Store × List ActionStatus
unfolding transition_matching_active
cancel_for_privacy uuid now s = transition_matching_active uuid now "privacy_policy_changed" false s

-- PurgeSnapshotsForPrivacy: the rows of session_latest go by ON DELETE CASCADE.
unfoldable pub purge_snapshots_for_privacy : (ℕ → String) → ℤ → Store → Store × List ActionStatus
unfolding transition_matching_active
purge_snapshots_for_privacy uuid now s =
    transition_matching_active uuid now "privacy_policy_changed" false
      (record s { snapshots = []; latest = [] })

-- `completed_at_ms < ?`: false on a NULL.
abbrev pub done_before : Option ℤ → ℤ → Bool
done_before none t = false
done_before (some c) t = ltb_ℤ c t

abbrev pub done_order : Option ℤ → Option ℤ → String → String → Bool
done_order none q i j = true
done_order (some c) none i j = false
done_order (some c) (some d) i j = ltb_ℤ c d || (eqb_ℤ c d && str_le i j)

unfoldable pub is_stale : ℤ → Row → Bool
is_stale terminal_before r = not (row_active r) && done_before r.completed_at_ms terminal_before

abbrev pub ended_first : Row → Row → Bool
ended_first r q = done_order r.completed_at_ms q.completed_at_ms (row_id r) (row_id q)

abbrev pub logged_first : AuditEvent → AuditEvent → Bool
logged_first e d =
    ltb_ℤ e.event_at_ms d.event_at_ms
    || (eqb_ℤ e.event_at_ms d.event_at_ms && str_le e.event_id d.event_id)

-- Retain: at most `limit` terminal rows and at most `limit` audit events, oldest first.
-- A limit of 0 or less is an error, `none`.
unfoldable pub retain : ℤ → ℤ → ℕ → Store → Option (Store × ℕ × ℕ)
unfolding is_stale
retain terminal_before audit_before zero s = none
retain terminal_before audit_before (suc n) s =
    let rows = take (suc n) (order_by ended_first (select (is_stale terminal_before) s.outbox)) in
    let events =
      take (suc n)
        (order_by logged_first (select (λ e. ltb_ℤ e.event_at_ms audit_before) s.audit)) in
    some (
      record s {
        outbox = delete_where (λ r. any_row (has_id (row_id r)) rows) s.outbox;
        audit = delete_where (λ e. any_row (λ d. str_eq d.event_id e.event_id) events) s.audit;
      },
      length rows,
      length events,
    )
