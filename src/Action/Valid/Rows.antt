-- ===== src/Action/Valid/Rows.antt =====
-- Each write to a row, and each audit event, meets the constraints.
use mathlib.Core.Bool.{false≢true}
use lisstech_drain_ctl.Prelude.{
  ◌<◌, ◌^◌, String, true, false, ◌≡◌, refl, sym, ◌∙◌, Option, none, some, arith,
}
use lisstech_drain_ctl.Prelude.Int.{ℤ, pos, ◌≤ℤ◌, ◌+ℤ◌, leb_ℤ→le, eqb_ℤ_iff}
use lisstech_drain_ctl.Action.{
  Outcome, is_active, is_queued, is_delivered, outcome_valid, is_duplicate, state_of_outcome,
}
use lisstech_drain_ctl.Action.Store.{Row, coalesce, expire_row}
use lisstech_drain_ctl.Action.Lifecycle.{deliver_row, finish_row}
use lisstech_drain_ctl.Action.Outbox.{EnqueueInput, check_enqueue, new_row}
use lisstech_drain_ctl.Action.Outbox.Target.{ok}
use lisstech_drain_ctl.Action.Valid.{IsValidRow, NullOrPast, is_null, is_known_state}

NullOrPast-coalesce :
    (t : Option ℤ) (now : ℤ) → pos 0 ≤ℤ now → NullOrPast t → NullOrPast (coalesce t now)
NullOrPast-coalesce none now p h = p
NullOrPast-coalesce (some t) now p h = h

not_null-coalesce : (t : Option ℤ) (now : ℤ) → is_null (coalesce t now) ≡ false
not_null-coalesce none now = refl
not_null-coalesce (some t) now = refl

pub expire_row-IsValidRow :
    (now : ℤ) (code : String) (r : Row)
    → pos 0 ≤ℤ now
    → IsValidRow r
    → IsValidRow (expire_row now code r)
unfolding expire_row
expire_row-IsValidRow now code r p v = record {
  session = v.session;
  logon = v.logon;
  created = v.created;
  expiry = v.expiry;
  known_type = v.known_type;
  known_state = refl;
  delivered_past = NullOrPast-coalesce r.delivered_at_ms now p v.delivered_past;
  completed_past = p;
  queued_undelivered = not_null-coalesce r.delivered_at_ms now;
  active_unfinished = refl;
  active_no_result = refl;
  plain = λ e. (refl, refl);
  sealed = λ e a. absurd (false≢true a);
  erased = λ e. (refl, refl);
}

pub deliver_row-IsValidRow :
    (now : ℤ) (r : Row)
    → pos 0 ≤ℤ now
    → is_queued r.action.state ≡ true
    → IsValidRow r
    → IsValidRow (deliver_row now r)
unfolding deliver_row
deliver_row-IsValidRow now r p q v = record {
  session = v.session;
  logon = v.logon;
  created = v.created;
  expiry = v.expiry;
  known_type = v.known_type;
  known_state = refl;
  delivered_past = p;
  completed_past = v.completed_past;
  queued_undelivered = refl;
  active_unfinished = ground (arith, v.active_unfinished);
  active_no_result = ground (arith, v.active_no_result);
  plain = v.plain;
  sealed = λ e a. v.sealed e (ground arith);
  erased = λ e. absurd (false≢true (sym e));
}

-- An outcome that Complete lets through names a known, terminal state.
pub outcome_state :
    (o : Outcome)
    → outcome_valid o ≡ true
    → is_duplicate o ≡ false
    → (is_known_state (state_of_outcome o) ≡ true)
      × (is_active (state_of_outcome o) ≡ false)
      × (is_queued (state_of_outcome o) ≡ false)
outcome_state o v d = ground arith

pub finish_row-IsValidRow :
    (o : Outcome) (now : ℤ) (r : Row)
    → pos 0 ≤ℤ now
    → outcome_valid o ≡ true
    → is_duplicate o ≡ false
    → is_delivered r.action.state ≡ true
    → IsValidRow r
    → IsValidRow (finish_row o now r)
unfolding finish_row
finish_row-IsValidRow o now r p ok_o fresh d v =
    let (known, done, unqueued) = outcome_state o ok_o fresh in
    record {
      session = v.session;
      logon = v.logon;
      created = v.created;
      expiry = v.expiry;
      known_type = v.known_type;
      known_state = known;
      delivered_past = v.delivered_past;
      completed_past = p;
      queued_undelivered = rw unqueued (ground (arith, v.queued_undelivered));
      active_unfinished = sym done;
      active_no_result = sym done;
      plain = λ e. (refl, refl);
      sealed = λ e a. absurd (false≢true (sym done ∙ a));
      erased = λ e. (refl, refl);
    }

pub new_row-IsValidRow :
    (input : EnqueueInput)
    → input.action.session_id < 2 ^ 32
    → check_enqueue input ≡ ok tt
    → IsValidRow (new_row input)
unfolding check_enqueue new_row
new_row-IsValidRow input small e = record {
  session = small;
  logon = ground (arith, leb_ℤ→le (pos 0) input.action.expected_logon_at_ms);
  created = ground (arith, leb_ℤ→le (pos 0) input.action.created_at_ms);
  expiry =
      (eqb_ℤ_iff input.action.expires_at_ms (input.action.created_at_ms +ℤ pos 300000)).0
        (ground arith);
  known_type = ground arith;
  known_state = refl;
  delivered_past = tt;
  completed_past = tt;
  queued_undelivered = refl;
  active_unfinished = refl;
  active_no_result = refl;
  plain = λ m. ground arith;
  sealed = λ m a. ground arith;
  erased = λ a. absurd (false≢true (sym a));
}
