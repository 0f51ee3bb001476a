-- ===== src/Action/Final/Reports.antt =====
-- What the table, the audit and the reply have after a report of the agent.
use lisstech_drain_ctl.Prelude.{
  ℕ, String, true, false, ◌≡◌, ◌≢◌, ◌⊎◌, refl, ap, ◌∙◌, inl, inr, none, some, [], ◌∷◌, ◌++◌, arith,
  Bool-cases, str_eq, str_eq→eq, str_eq_refl,
}
use lisstech_drain_ctl.Prelude.Int.{ℤ, ◌≤ℤ◌, ◌<ℤ◌}
use lisstech_drain_ctl.Action.{
  ActionState, delivered, Outcome, duplicate, other_outcome, outcome_valid, is_active, is_duplicate,
  state_of_outcome, outcome_text, ActionStatus,
}
use lisstech_drain_ctl.Action.Store.{
  Row, Store, AuditEvent, protocol_invalid, row_status, append_audit, expire_row, expire_actions,
}
use lisstech_drain_ctl.Action.Lifecycle.{Reply, accepted, refused, is_refused, finish_row, complete}
use lisstech_drain_ctl.Action.Valid.{IsValid}
use lisstech_drain_ctl.Action.Final.{row_of}
use lisstech_drain_ctl.Action.Final.Due.{complete_late, complete_in_time, complete_refused}

-- `q` is the row `r` after its action ended at `now`: it has the state and the result, no message, and is
-- otherwise as it was, but for the time of its delivery.
pub record IsEnded (state : ActionState) (result : String) (now : ℤ) (r q : Row) : Type 0 where
  pub action : q.action ≡ record r.action { state = state }
  pub endpoint : q.endpoint ≡ r.endpoint
  pub completed_at : q.completed_at_ms ≡ some now
  pub result_code : q.result_code ≡ some result
  pub ciphertext : q.ciphertext ≡ none
  pub protection : q.protection ≡ none

-- The status shows the row.
pub record IsShown (q : Row) (status : ActionStatus) : Type 0 where
  pub action_id : status.action_id ≡ q.action.action_id
  pub canonical_host : status.canonical_host ≡ q.action.canonical_host
  pub session_id : status.session_id ≡ q.action.session_id
  pub state : status.state ≡ q.action.state
  pub completed_at : status.completed_at_ms ≡ q.completed_at_ms
  pub result_code : status.result_code ≡ q.result_code

row_status-IsShown : (q : Row) → IsShown q (row_status q)
row_status-IsShown q = record {
  action_id = refl;
  canonical_host = refl;
  session_id = refl;
  state = refl;
  completed_at = refl;
  result_code = refl;
}

-- The reports that end an action, with the state and the result that they stand for.
pub data Reports : Outcome → ActionState → String → Type 0 where
  reports_completed : Reports Outcome.completed ActionState.completed "completed"
  reports_failed : Reports Outcome.failed ActionState.failed "failed"
  reports_expired : Reports Outcome.expired ActionState.expired "expired"
  reports_changed : Reports Outcome.session_changed ActionState.session_changed "session_changed"
  reports_unsupported : Reports Outcome.unsupported ActionState.unsupported "unsupported"

report_parts :
    {o : Outcome} {state : ActionState} {result : String}
    → Reports o state result
    → (outcome_valid o ≡ true)
      × (is_duplicate o ≡ false)
      × (state_of_outcome o ≡ state)
      × (outcome_text o ≡ result)
report_parts reports_completed = (refl, refl, refl, refl)
report_parts reports_failed = (refl, refl, refl, refl)
report_parts reports_expired = (refl, refl, refl, refl)
report_parts reports_changed = (refl, refl, refl, refl)
report_parts reports_unsupported = (refl, refl, refl, refl)

valid_known : (o : Outcome) → ((t : String) → o ≢ other_outcome t) → outcome_valid o ≡ true
valid_known (other_outcome t) h = absurd (h t refl)
valid_known Outcome.completed h = refl
valid_known Outcome.failed h = refl
valid_known Outcome.expired h = refl
valid_known Outcome.session_changed h = refl
valid_known Outcome.unsupported h = refl
valid_known duplicate h = refl

other_host : (a b : String) → a ≢ b → str_eq a b ≡ false
other_host a b h = elim (Bool-cases (str_eq a b)) [
  | inl e ↦ absurd (h (str_eq→eq a b e))
  | inr e ↦ e
]

-- Why a report is refused while the action is active and in time: it comes from another host, its outcome
-- is "duplicate" or unknown, or the action was not delivered.
abbrev pub IsBarred : String → Outcome → Row → Type 0
IsBarred host o r =
    (r.action.canonical_host ≢ host)
    ⊎ (o ≡ duplicate)
    ⊎ ((t : String) × (o ≡ other_outcome t))
    ⊎ (r.action.state ≡ ActionState.queued)

IsBarred-refused :
    (host : String) (o : Outcome) (r : Row) → IsBarred host o r → is_refused host o r ≡ true
IsBarred-refused host o r (inl other) = rw (other_host r.action.canonical_host host other)
IsBarred-refused host o r (inr (inl e)) = rw e (ground arith)
IsBarred-refused host o r (inr (inr (inl (t, e)))) = rw e (ground arith)
IsBarred-refused host o r (inr (inr (inr e))) = rw e (ground arith)

-- The event that a refused report leaves in the audit.
abbrev protocol_event : (ℕ → String) → ℤ → Row → Store → AuditEvent
protocol_event uuid now r s = record {
  event_id = uuid s.issued;
  event_at_ms = now;
  action_id = r.action.action_id;
  action_type = r.action.action_type;
  canonical_host = r.action.canonical_host;
  session_id = r.action.session_id;
  expected_logon_at_ms = r.action.expected_logon_at_ms;
  transition = protocol_invalid;
  result_code = some "protocol_invalid";
  requested_by = none;
}

expire_row-IsEnded :
    (now : ℤ) (r : Row) → IsEnded ActionState.expired "expired" now r (expire_row now "expired" r)
unfolding expire_row
expire_row-IsEnded now r = record {
  action = refl;
  endpoint = refl;
  completed_at = refl;
  result_code = refl;
  ciphertext = refl;
  protection = refl;
}

expire_row-delivered :
    (now : ℤ) (r : Row)
    → ((t : ℤ) → r.delivered_at_ms ≡ some t → (expire_row now "expired" r).delivered_at_ms ≡ some t)
      × (r.delivered_at_ms ≡ none → (expire_row now "expired" r).delivered_at_ms ≡ some now)
unfolding expire_row
expire_row-delivered now r = (λ t e. rw e, λ e. rw e)

finish_row-IsEnded :
    {o : Outcome} {state : ActionState} {result : String} (now : ℤ) (r : Row)
    → Reports o state result
    → IsEnded state result now r (finish_row o now r)
unfolding finish_row
finish_row-IsEnded now r report =
    let (valid, fresh, same_state, same_text) = report_parts report in
    record {
      action = ap (λ x. record r.action { state = x }) same_state;
      endpoint = refl;
      completed_at = refl;
      result_code = ap some same_text;
      ciphertext = refl;
      protection = refl;
    }

module _ (uuid : ℕ → String) (host id : String) (o : Outcome) (now : ℤ) (s : Store) where
  abbrev after : Store × Reply
  after = complete uuid host id o now s

  -- A report on an active action that is due finds it expired, whatever it reports: the row has the state
  -- and the result "expired", the time of the report and no message; its first delivery stays, and counts
  -- as now where there was none. The reply shows that row, as accepted when the host owns the action and
  -- the outcome is a known one, and as refused otherwise.
  pub late_report_expires :
      {r : Row}
      → IsValid s
      → row_of id s ≡ some r
      → is_active r.action.state ≡ true
      → r.action.expires_at_ms ≤ℤ now
      → (q : Row) × (status : ActionStatus) × (row_of id after.0 ≡ some q)
        × IsEnded ActionState.expired "expired" now r q
        × ((t : ℤ) → r.delivered_at_ms ≡ some t → q.delivered_at_ms ≡ some t)
        × (r.delivered_at_ms ≡ none → q.delivered_at_ms ≡ some now)
        × IsShown q status
        × (r.action.canonical_host ≡ host
            → ((t : String) → o ≢ other_outcome t)
            → after.1 ≡ accepted status)
        × (r.action.canonical_host ≢ host → after.1 ≡ refused status)
        × ((t : String) → o ≡ other_outcome t → after.1 ≡ refused status)
  late_report_expires {r} v found active due =
      let q = expire_row now "expired" r in
      let (row, reply) = complete_late uuid host id o now s v found active due in
      let (delivered_before, undelivered) = expire_row-delivered now r in
      (
        q,
        row_status q,
        row,
        expire_row-IsEnded now r,
        delivered_before,
        undelivered,
        row_status-IsShown q,
        (λ own known. reply ∙ rw (own, str_eq_refl host, valid_known o known)),
        (λ other. reply ∙ rw (other_host r.action.canonical_host host other)),
        λ t e. reply ∙ rw e (ground arith),
      )

  -- A report in time, on a delivered action and from its own host, of one of the five outcomes that end an
  -- action, is stored: the row has the state and the result that the outcome stands for, the time of the
  -- report and no message. The reply shows that row.
  pub report_in_time_stored :
      {r : Row} {state : ActionState} {result : String}
      → IsValid s
      → row_of id s ≡ some r
      → r.action.state ≡ delivered
      → now <ℤ r.action.expires_at_ms
      → r.action.canonical_host ≡ host
      → Reports o state result
      → (q : Row) × (status : ActionStatus) × (row_of id after.0 ≡ some q)
        × IsEnded state result now r q
        × (q.delivered_at_ms ≡ r.delivered_at_ms)
        × IsShown q status
        × (after.1 ≡ accepted status)
  report_in_time_stored {r} v found sent in_time own report =
      let (valid, fresh, same_state, same_text) = report_parts report in
      let (row, reply, no_text, no_protection) =
        complete_in_time uuid host id o now s v found (rw sent) in_time own valid fresh in
      let q = finish_row o now r in
      (
        q,
        row_status q,
        row,
        finish_row-IsEnded now r report,
        unfold finish_row in refl,
        row_status-IsShown q,
        reply,
      )

  -- A report in time on an active action that is barred leaves the row of the action as it was and is
  -- refused with its status, and the audit has one more event, which says so.
  pub barred_report_refused :
      {r : Row}
      → IsValid s
      → row_of id s ≡ some r
      → is_active r.action.state ≡ true
      → now <ℤ r.action.expires_at_ms
      → IsBarred host o r
      → (status : ActionStatus) × (event : AuditEvent) × (row_of id after.0 ≡ some r)
        × IsShown r status
        × (after.1 ≡ refused status)
        × (after.0.audit ≡ (expire_actions uuid now s).audit ++ (event ∷ []))
        × (event.action_id ≡ r.action.action_id)
        × (event.event_at_ms ≡ now)
        × (event.transition ≡ protocol_invalid)
  barred_report_refused {r} v found active in_time barred =
      let (row, reply, written) =
        complete_refused uuid host id o now s v found active in_time
          (IsBarred-refused host o r barred) in
      (
        row_status r,
        protocol_event uuid now r (expire_actions uuid now s),
        row,
        row_status-IsShown r,
        reply,
        ap (λ (t : Store). t.audit) written ∙ unfold append_audit in refl,
        refl,
        refl,
        refl,
      )
