-- ===== src/Action/Outbox/Target.antt =====
-- The errors of the session action store, and validateActionTarget, the guard that an enqueue runs
-- against the host's session snapshot (internal/telemetry/session_action_store.go).
use lisstech_drain_ctl.Prelude.{
  ℕ, String, Bool, true, false, not, ◌&&◌, Option, none, some, str_eq, ◌==◌,
}
use lisstech_drain_ctl.Prelude.Int.{ℤ, ltb_ℤ, eqb_ℤ}
use lisstech_drain_ctl.Prelude.Rows.{find_row}
use lisstech_drain_ctl.Action.{SessionAction}
use lisstech_drain_ctl.Action.Store.{Store}

pub data Error : Type 0 where
  invalid_action incomplete_idempotency missing_protected_message has_protected_message : Error
  idempotency_conflict insert_failed disabled snapshot_not_found host_not_fresh unsupported : Error
  session_not_found identity_changed protocol_invalid limit_not_positive : Error

-- What a call of the store returns: an error, and then no write of it stays, or its value.
pub data Result {ℓ} (A : Type ℓ) : Type ℓ where
  err : Error → Result A
  ok : A → Result A

-- `if !test { return e }`
abbrev pub guard : Bool → Error → Result (Unit {0})
guard false e = err e
guard true e = ok tt

-- A query that must find its row.
abbrev pub or_err {ℓ} : {A : Type ℓ} → Option A → Error → Result A
or_err none e = err e
or_err (some a) e = ok a

infixl 5 ◌>>=◌ ◌>>◌
abbrev pub ◌>>=◌ {ℓ κ} : {A : Type ℓ} {B : Type κ} (m : Result A) (next : A → Result B) → Result B
(err e) >>= next = err e
(ok a) >>= next = next a

abbrev pub ◌>>◌ {ℓ} : {B : Type ℓ} (m : Result (Unit {0})) (next : Result B) → Result B
(err e) >> next = err e
(ok a) >> next = next

-- `latestError.Valid || !lastSuccess.Valid || lastSuccess.Int64 < freshSinceMS`, negated.
abbrev pub is_fresh : Option String → Option ℤ → ℤ → Bool
is_fresh (some code) last fresh_since = false
is_fresh none none fresh_since = false
is_fresh none (some t) fresh_since = not (ltb_ℤ t fresh_since)

-- `capabilityActions.Int64 == 0`, negated: a NULL is read as 0.
abbrev pub is_capable : Option ℕ → Bool
is_capable none = false
is_capable (some n) = not (n == 0)

-- `!logon.Valid || logon.Int64 != action.ExpectedLogonAtMS`, negated.
abbrev pub is_same_logon : Option ℤ → ℤ → Bool
is_same_logon none expected = false
is_same_logon (some t) expected = eqb_ℤ t expected

unfoldable pub validate_action_target : Store → SessionAction → ℤ → Result (Unit {0})
validate_action_target s a fresh_since = do
  snapshot ←
      or_err (find_row (λ r. str_eq r.canonical_host a.canonical_host) s.snapshots)
        Error.snapshot_not_found
  guard
      (is_fresh snapshot.latest_attempt_error_code snapshot.last_success_received_at_ms fresh_since)
      Error.host_not_fresh
  guard (is_capable snapshot.capability_actions) Error.unsupported
  session ←
      or_err
        (find_row (λ r. str_eq r.canonical_host a.canonical_host && (r.session_id == a.session_id))
          s.latest)
        Error.session_not_found
  guard (is_same_logon session.logon_at_ms a.expected_logon_at_ms) Error.identity_changed
