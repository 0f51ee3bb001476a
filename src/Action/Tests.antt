-- ===== src/Action/Tests.antt =====
-- A store with two actions on one host, and the theorems of this part at it.
use lisstech_drain_ctl.Prelude.{
  ℕ, String, true, false, ◌≡◌, refl, ap, map, ◌⊎◌, none, some, List, [], ◌∷◌, arith, length, ◌+◌,
  min, str_eq, if◌then◌else◌,
}
use mathlib.Core.Bool.{false≢true, true≢false}
use lisstech_drain_ctl.Prelude.Int.{pos, ◌+ℤ◌, leb_ℤ, eqb_ℤ}
use lisstech_drain_ctl.Prelude.Bytes.{bytes_equal}
use lisstech_drain_ctl.Prelude.Rows.{All, find_row, any_row, select}
use lisstech_drain_ctl.Prelude.Sorted.{Sorted}
use lisstech_drain_ctl.Action.{
  SessionAction, ActionState, queued, delivered, logoff, message, Outcome,
}
use lisstech_drain_ctl.Action.Store.{Row, Store, action_status}
use lisstech_drain_ctl.Action.Outbox.{
  EnqueueInput, check_enqueue, enqueue, insert_action, valid_action,
}
use lisstech_drain_ctl.Action.Outbox.Target.{ok, err, Error}
use lisstech_drain_ctl.Action.Valid.Enqueue.{inserted}
use lisstech_drain_ctl.Action.Idempotent.{enqueue_again}
use lisstech_drain_ctl.Action.Valid.{IsValidRow, IsValid}
use lisstech_drain_ctl.Action.Lifecycle.{
  complete, deliver, accepted, refused, selected, delivered_copy, is_deliverable, expire,
  purge_snapshots_for_privacy,
}
use lisstech_drain_ctl.Action.Final.{row_of}
use lisstech_drain_ctl.Action.History.{
  Step, Reach, here, next, expires, delivers, purges, Reach-IsValid,
}
use lisstech_drain_ctl.Action.Final.Keeps.{Retires, Step-ended}
use lisstech_drain_ctl.Action.Delivery.{
  deliver_list, deliver_count, deliver-Recorded, deliver_oldest_first, Recorded, NotYounger,
}
use lisstech_drain_ctl.Action.Final.Reports.{
  IsEnded, IsShown, reports_completed, late_report_expires, report_in_time_stored,
  barred_report_refused,
}
use lisstech_drain_ctl.Prelude.{◌≢◌, inr, ◌++◌}
use lisstech_drain_ctl.Prelude.Int.{ℤ}
use lisstech_drain_ctl.Action.{ActionStatus, other_outcome}
use lisstech_drain_ctl.Action.Store.{AuditEvent, protocol_invalid, expire_actions}

abbrev uuid : ℕ → String
uuid n = "0198f000-0000-7000-8000-000000000001"

abbrev fingerprint : List ℕ
fingerprint = 7 ∷ 11 ∷ []

abbrev send : SessionAction
send = record {
  action_id = "a1";
  canonical_host = "rds01";
  session_id = 3;
  expected_logon_at_ms = pos 500;
  action_type = message;
  state = delivered;
  created_at_ms = pos 1000;
  expires_at_ms = pos 301000;
  requested_by = "admin";
  idempotency_key = "k1";
  request_fingerprint = fingerprint;
}

abbrev sign_out : SessionAction
sign_out = record {
  action_id = "a2";
  canonical_host = "rds01";
  session_id = 4;
  expected_logon_at_ms = pos 600;
  action_type = logoff;
  state = queued;
  created_at_ms = pos 2000;
  expires_at_ms = pos 302000;
  requested_by = "admin";
  idempotency_key = "k2";
  request_fingerprint = fingerprint;
}

abbrev send_row : Row
send_row = record {
  action = send;
  endpoint = "/api/v1/sessions";
  ciphertext = some (1 ∷ 2 ∷ []);
  protection = some "dpapi";
  delivered_at_ms = some (pos 1500);
  completed_at_ms = none;
  result_code = none;
}

abbrev sign_out_row : Row
sign_out_row = record {
  action = sign_out;
  endpoint = "/api/v1/sessions";
  ciphertext = none;
  protection = none;
  delivered_at_ms = none;
  completed_at_ms = none;
  result_code = none;
}

abbrev two_actions : Store
two_actions = record {
  outbox = send_row ∷ sign_out_row ∷ [];
  audit = [];
  snapshots = [];
  latest = [];
  issued = 0;
}

expiry_after : (n : ℕ) → pos (n + 300000) ≡ pos n +ℤ pos 300000
unfolding ◌+ℤ◌
expiry_after n = ground arith

send_row-IsValidRow : IsValidRow send_row
send_row-IsValidRow = record {
  session = omega arith;
  logon = omega arith;
  created = omega arith;
  expiry = expiry_after 1000;
  known_type = refl;
  known_state = refl;
  delivered_past = omega arith;
  completed_past = tt;
  queued_undelivered = refl;
  active_unfinished = refl;
  active_no_result = refl;
  plain = λ e. absurd (true≢false e);
  sealed = λ e f. (refl, refl);
  erased = λ e. absurd (true≢false e);
}

sign_out_row-IsValidRow : IsValidRow sign_out_row
sign_out_row-IsValidRow = record {
  session = omega arith;
  logon = omega arith;
  created = omega arith;
  expiry = expiry_after 2000;
  known_type = refl;
  known_state = refl;
  delivered_past = tt;
  completed_past = tt;
  queued_undelivered = refl;
  active_unfinished = refl;
  active_no_result = refl;
  plain = λ e. (refl, refl);
  sealed = λ e. absurd (false≢true e);
  erased = λ e. absurd (true≢false e);
}

two_actions-IsValid : IsValid two_actions
two_actions-IsValid = record {
  rows = (send_row-IsValidRow, (sign_out_row-IsValidRow, tt));
  one_id = ((λ e. false≢true (ap (λ t. str_eq t "a1") e), tt), (tt, tt));
  one_key =
      ((λ e. false≢true (ap (λ (k : String × String × String). str_eq k.2 "k1") e), tt), (tt, tt));
  events = tt;
}

-- A late report of success: the action has expired.
late-late_report_expires :
    (q : Row) × (status : ActionStatus) × (row_of "a1"
        (complete uuid "rds01" "a1" Outcome.completed (pos 400000) two_actions).0
      ≡ some q)
    × IsEnded ActionState.expired "expired" (pos 400000) send_row q
    × ((t : ℤ) → some (pos 1500) ≡ some t → q.delivered_at_ms ≡ some t)
    × (some (pos 1500) ≡ none → q.delivered_at_ms ≡ some (pos 400000))
    × IsShown q status
    × (send.canonical_host ≡ "rds01"
        → ((t : String) → Outcome.completed ≢ other_outcome t)
        → (complete uuid "rds01" "a1" Outcome.completed (pos 400000) two_actions).1
          ≡ accepted status)
    × (send.canonical_host ≢ "rds01"
        → (complete uuid "rds01" "a1" Outcome.completed (pos 400000) two_actions).1
          ≡ refused status)
    × ((t : String)
        → Outcome.completed ≡ other_outcome t
        → (complete uuid "rds01" "a1" Outcome.completed (pos 400000) two_actions).1
          ≡ refused status)
late-late_report_expires =
    late_report_expires uuid "rds01" "a1" Outcome.completed (pos 400000) two_actions
      two_actions-IsValid (unfold find_row in refl) refl (omega arith)

in_time-report_in_time_stored :
    (q : Row) × (status : ActionStatus) × (row_of "a1"
        (complete uuid "rds01" "a1" Outcome.completed (pos 2000) two_actions).0
      ≡ some q)
    × IsEnded ActionState.completed "completed" (pos 2000) send_row q
    × (q.delivered_at_ms ≡ some (pos 1500))
    × IsShown q status
    × ((complete uuid "rds01" "a1" Outcome.completed (pos 2000) two_actions).1 ≡ accepted status)
in_time-report_in_time_stored =
    report_in_time_stored uuid "rds01" "a1" Outcome.completed (pos 2000) two_actions
      two_actions-IsValid (unfold find_row in refl) refl (omega arith) refl reports_completed

undelivered-barred_report_refused :
    (status : ActionStatus) × (event : AuditEvent) × (row_of "a2"
        (complete uuid "rds01" "a2" Outcome.completed (pos 2500) two_actions).0
      ≡ some sign_out_row)
    × IsShown sign_out_row status
    × ((complete uuid "rds01" "a2" Outcome.completed (pos 2500) two_actions).1 ≡ refused status)
    × ((complete uuid "rds01" "a2" Outcome.completed (pos 2500) two_actions).0.audit
        ≡ (expire_actions uuid (pos 2500) two_actions).audit ++ (event ∷ []))
    × (event.action_id ≡ "a2")
    × (event.event_at_ms ≡ pos 2500)
    × (event.transition ≡ protocol_invalid)
undelivered-barred_report_refused =
    barred_report_refused uuid "rds01" "a2" Outcome.completed (pos 2500) two_actions
      two_actions-IsValid (unfold find_row in refl) refl (omega arith) (inr (inr (inr refl)))

delivery-deliver_list :
    (deliver uuid "rds01" (pos 2500) two_actions).1
    ≡ map delivered_copy (selected "rds01" (pos 2500) two_actions)
delivery-deliver_list = deliver_list "rds01" (pos 2500) uuid two_actions two_actions-IsValid

delivery-deliver_count :
    length (deliver uuid "rds01" (pos 2500) two_actions).1
    ≡ min 20 (length (select (is_deliverable "rds01" (pos 2500)) two_actions.outbox))
delivery-deliver_count = deliver_count "rds01" (pos 2500) uuid two_actions two_actions-IsValid

delivery-deliver-Recorded :
    All
      (Recorded "rds01" (pos 2500) (deliver uuid "rds01" (pos 2500) two_actions).0)
      (deliver uuid "rds01" (pos 2500) two_actions).1
delivery-deliver-Recorded =
    deliver-Recorded "rds01" (pos 2500) uuid two_actions (omega arith) two_actions-IsValid

delivery-deliver_oldest_first : Sorted NotYounger (deliver uuid "rds01" (pos 2500) two_actions).1
delivery-deliver_oldest_first = deliver_oldest_first "rds01" (pos 2500) uuid two_actions

-- The late sweep, then a delivery.
history :
    Reach uuid two_actions
      (deliver uuid "rds01" (pos 301500) (expire uuid (pos 301200) two_actions).0).0
history =
    next (next here (expires (pos 301200) (omega arith) refl))
      (delivers "rds01" (pos 301500) (omega arith) refl)

history-Reach-IsValid :
    IsValid (deliver uuid "rds01" (pos 301500) (expire uuid (pos 301200) two_actions).0).0
history-Reach-IsValid = Reach-IsValid uuid history two_actions-IsValid

-- The sign-out has ended; the delivery that follows does not change its row.
abbrev ended_row : Row
ended_row = record sign_out_row {
  action = record sign_out { state = ActionState.completed };
  delivered_at_ms = some (pos 2100);
  completed_at_ms = some (pos 2200);
  result_code = some "completed";
}

abbrev ended_store : Store
ended_store = record {
  outbox = ended_row ∷ [];
  audit = [];
  snapshots = [];
  latest = [];
  issued = 0;
}

ended_store-IsValid : IsValid ended_store
ended_store-IsValid = record {
  rows = (
    record {
      session = omega arith;
      logon = omega arith;
      created = omega arith;
      expiry = expiry_after 2000;
      known_type = refl;
      known_state = refl;
      delivered_past = omega arith;
      completed_past = omega arith;
      queued_undelivered = refl;
      active_unfinished = refl;
      active_no_result = refl;
      plain = λ e. (refl, refl);
      sealed = λ e. absurd (false≢true e);
      erased = λ e. (refl, refl);
    },
    tt,
  );
  one_id = (tt, tt);
  one_key = (tt, tt);
  events = tt;
}

abbrev purge_step :
    Step uuid ended_store (purge_snapshots_for_privacy uuid (pos 3000) ended_store).0
purge_step = purges (pos 3000) (omega arith) refl

purge-Step-ended :
    (row_of "a2" (purge_snapshots_for_privacy uuid (pos 3000) ended_store).0 ≡ some ended_row)
    ⊎ (Retires ended_row purge_step
        × (row_of "a2" (purge_snapshots_for_privacy uuid (pos 3000) ended_store).0 ≡ none))
purge-Step-ended =
    Step-ended uuid "a2" refl purge_step ended_store-IsValid (unfold find_row in refl)

-- The sign-out is asked for twice.
abbrev ask : EnqueueInput
ask = record {
  action = sign_out;
  endpoint = "/api/v1/sessions";
  ciphertext = [];
  protection = "";
  validate_target = false;
  enabled = true;
  fresh_since_ms = pos 0;
}

abbrev no_actions : Store
no_actions = record { outbox = []; audit = []; snapshots = []; latest = []; issued = 0 }

ask_passes : check_enqueue ask ≡ ok tt
unfolding check_enqueue valid_action leb_ℤ eqb_ℤ ◌+ℤ◌
ask_passes = refl

asked :
    enqueue uuid ask no_actions
    ≡ ok (action_status sign_out none none, false, inserted uuid ask no_actions)
unfolding enqueue insert_action inserted find_row any_row
asked = rw ask_passes

asked_again-enqueue_again : enqueue uuid ask (inserted uuid ask no_actions) ≡ (
    if bytes_equal ask.action.request_fingerprint ask.action.request_fingerprint
    then ok (action_status sign_out none none, true, inserted uuid ask no_actions)
    else err Error.idempotency_conflict)
asked_again-enqueue_again =
    enqueue_again uuid ask ask (refl, refl, refl) no_actions asked ask_passes
