-- ===== src/Action/Outbox.antt =====
-- SessionActionStore (internal/telemetry/session_action_store.go): the dashboard's durable outbox of
-- session actions. Times are Unix milliseconds. A `Result` that is an error is a transaction that is
-- rolled back, so the caller keeps its store.
pub mod Target
use lisstech_drain_ctl.Prelude.{
  ℕ, zero, suc, String, Bool, true, false, not, ◌&&◌, ◌||◌, Option, none, some, List, [], ◌∷◌, map,
  str_eq, str_le, if◌then◌else◌, length, take, ◌==◌, ltb,
}
use lisstech_drain_ctl.Prelude.Int.{ℤ, pos, ltb_ℤ, leb_ℤ, eqb_ℤ, ◌+ℤ◌}
use lisstech_drain_ctl.Prelude.Bytes.{bytes_equal}
use lisstech_drain_ctl.Prelude.Rows.{
  select, update_where, delete_where, find_row, any_row, order_by,
}
use lisstech_drain_ctl.Action.{
  ActionType, ActionState, Outcome, queued, delivered, is_message, is_known_type, is_queued,
  is_delivered, is_active, outcome_valid, is_duplicate, state_of_outcome, outcome_text,
  SessionAction, ActionStatus,
}
use lisstech_drain_ctl.Action.Store.{
  Row, Transition, entered, protocol_invalid, SnapshotRow, LatestRow, Store, AuditEvent, row_id,
  row_active, has_id, action_status, row_status, append_audit, coalesce, transition_matching_active,
  expire_actions,
}
use Target.{Error, Result, ok, err, ◌>>=◌, ◌>>◌, guard, validate_action_target}

-- SessionActionEnqueue
pub record EnqueueInput : Type 0 where
  pub action : SessionAction
  pub endpoint : String
  pub ciphertext : List ℕ
  pub protection : String
  pub validate_target : Bool
  pub enabled : Bool
  pub fresh_since_ms : ℤ

abbrev pub five_minutes_ms : ℤ
five_minutes_ms = pos 300000

-- validAction
unfoldable pub valid_action : SessionAction → Bool
valid_action a =
    not (str_eq a.action_id "")
    && not (str_eq a.canonical_host "")
    && not (str_eq a.requested_by "")
    && not (str_eq a.idempotency_key "")
    && is_known_type a.action_type
    && is_queued a.state
    && leb_ℤ (pos 0) a.expected_logon_at_ms
    && leb_ℤ (pos 0) a.created_at_ms
    && eqb_ℤ a.expires_at_ms (a.created_at_ms +ℤ five_minutes_ms)

abbrev pub is_empty {ℓ} : {A : Type ℓ} → List A → Bool
is_empty [] = true
is_empty (x ∷ xs) = false

-- nullableBytes, nullableString
abbrev pub nullable_bytes : List ℕ → Option (List ℕ)
nullable_bytes [] = none
nullable_bytes (b ∷ bs) = some (b ∷ bs)

abbrev pub nullable_string : String → Option String
nullable_string t = if str_eq t "" then none else some t

-- The WHERE of the idempotency query.
unfoldable pub same_key : EnqueueInput → Row → Bool
same_key input r =
    str_eq r.action.requested_by input.action.requested_by
    && str_eq r.endpoint input.endpoint
    && str_eq r.action.idempotency_key input.action.idempotency_key

-- The row that the INSERT writes: its state is 'queued'.
unfoldable pub new_row : EnqueueInput → Row
new_row input = record {
  action = record input.action { state = queued };
  endpoint = input.endpoint;
  ciphertext = nullable_bytes input.ciphertext;
  protection = nullable_string input.protection;
  delivered_at_ms = none;
  completed_at_ms = none;
  result_code = none;
}

-- Enqueue past the idempotency query. The INSERT fails on a primary key that is taken.
unfoldable pub insert_action :
    (ℕ → String) → EnqueueInput → Store → Result (ActionStatus × Bool × Store)
unfolding new_row append_audit validate_action_target
insert_action uuid input s = do
  guard (not input.validate_target || input.enabled) Error.disabled
  (if input.validate_target
      then validate_action_target s input.action input.fresh_since_ms
      else ok tt)
  guard (not (any_row (has_id input.action.action_id) s.outbox)) Error.insert_failed
  let written = record s { outbox = new_row input ∷ s.outbox }
  let a = input.action
  let audited =
      append_audit uuid a a.created_at_ms (entered queued) none (some a.requested_by) written
  ok (action_status a none none, false, audited)

-- The checks of Enqueue before its transaction.
unfoldable pub check_enqueue : EnqueueInput → Result (Unit {0})
unfolding valid_action
check_enqueue input = do
  guard (valid_action input.action) Error.invalid_action
  guard (not (str_eq input.endpoint "" || is_empty input.action.request_fingerprint))
      Error.incomplete_idempotency
  guard
      (not (
        is_message input.action.action_type
        && (is_empty input.ciphertext || str_eq input.protection "")))
      Error.missing_protected_message
  guard
      (is_message input.action.action_type
        || (is_empty input.ciphertext && str_eq input.protection ""))
      Error.has_protected_message

-- Enqueue: the status, whether it is a replay, and the store after the commit.
unfoldable pub enqueue : (ℕ → String) → EnqueueInput → Store → Result (ActionStatus × Bool × Store)
enqueue uuid input s = do
  check_enqueue input
  elim (find_row (same_key input) s.outbox) [
    | some existing ↦
        (if bytes_equal existing.action.request_fingerprint input.action.request_fingerprint
          then ok (row_status existing, true, s)
          else err Error.idempotency_conflict)
    | none ↦ insert_action uuid input s
  ]
