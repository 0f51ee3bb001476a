-- ===== src/Action/Final/Due.antt =====
-- How one report of an outcome ends an action: expiry is processed first, then the report.
use lisstech_drain_ctl.Prelude.{
  ℕ, String, true, false, ◌&&◌, ◌≡◌, refl, ap, ◌∙◌, inl, inr, none, some, arith, Bool-cases,
  str_eq_refl, str_eq, if◌then◌else◌,
}
use lisstech_drain_ctl.Prelude.Int.{ℤ, ◌≤ℤ◌, ◌<ℤ◌, le→leb_ℤ, gt→leb_ℤ}
use lisstech_drain_ctl.Prelude.Find.{find_row-update_where}
use lisstech_drain_ctl.Action.{Outcome, is_active, is_delivered, outcome_valid, is_duplicate}
use lisstech_drain_ctl.Action.Store.{
  Row, Store, row_id, has_id, row_status, protocol_invalid, append_audit, is_due, expire_row,
  expire_actions,
}
use lisstech_drain_ctl.Action.Lifecycle.{
  accepted, refused, is_replay, is_refused, finish_row, complete_row, complete,
}
use lisstech_drain_ctl.Action.Valid.{IsValid}
use lisstech_drain_ctl.Action.Final.{row_of, row_of-transition}

module _ (uuid : ℕ → String) (host id : String) (o : Outcome) (now : ℤ) (s : Store) where
  swept_row :
      {r : Row}
      → IsValid s
      → row_of id s ≡ some r
      → row_of id (expire_actions uuid now s)
        ≡ some (if is_due now true r then expire_row now "expired" r else r)
  unfolding expire_actions
  swept_row v found = row_of-transition uuid id now "expired" true s v.one_id found

  swept_due :
      {r : Row}
      → IsValid s
      → row_of id s ≡ some r
      → is_active r.action.state ≡ true
      → r.action.expires_at_ms ≤ℤ now
      → row_of id (expire_actions uuid now s) ≡ some (expire_row now "expired" r)
  swept_due {r} v found active due = swept_row v found ∙ ap some taken
    where
      taken :
          (if is_due now true r then expire_row now "expired" r else r) ≡ expire_row now "expired" r
      taken = unfold is_due in rw (active, le→leb_ℤ r.action.expires_at_ms now due)

  pub swept_live :
      {r : Row}
      → IsValid s
      → row_of id s ≡ some r
      → now <ℤ r.action.expires_at_ms
      → row_of id (expire_actions uuid now s) ≡ some r
  swept_live {r} v found in_time = swept_row v found ∙ ap some left
    where
      left : (if is_due now true r then expire_row now "expired" r else r) ≡ r
      left = unfold is_due in rw (gt→leb_ℤ r.action.expires_at_ms now in_time) (ground arith)

  -- `complete` runs `complete_row` on the swept row.
  complete-row :
      (q : Row)
      → row_of id (expire_actions uuid now s) ≡ some q
      → complete uuid host id o now s ≡ complete_row uuid host o now q (expire_actions uuid now s)
  unfolding complete
  complete-row q e = rw (e, complete)

  -- A report on a row that has ended changes no row.
  ended_report :
      (q : Row) (t : Store)
      → is_active q.action.state ≡ false
      → row_of id t ≡ some q
      → (row_of id (complete_row uuid host o now q t).0 ≡ some q)
        × ((complete_row uuid host o now q t).1 ≡ (
            if str_eq q.action.canonical_host host && outcome_valid o
            then accepted (row_status q)
            else refused (row_status q)))
  unfolding complete_row append_audit
  ended_report q t ended e = elim (Bool-cases (is_replay host o q)) [
    | inl a ↦ rw a (e, ground arith)
    | inr a ↦ let b : is_refused host o q ≡ true = ground arith in rw (a, b) (e, ground arith)
  ]

  -- A report that comes when the action is due finds it expired: whatever the outcome that it
  -- reports and the host that it comes from, the stored row is the expired one, and the reply shows
  -- it, as accepted exactly when the host owns the action and the outcome is a known one.
  pub complete_late :
      {r : Row}
      → IsValid s
      → row_of id s ≡ some r
      → is_active r.action.state ≡ true
      → r.action.expires_at_ms ≤ℤ now
      → (row_of id (complete uuid host id o now s).0 ≡ some (expire_row now "expired" r))
        × ((complete uuid host id o now s).1 ≡ (
            if str_eq r.action.canonical_host host && outcome_valid o
            then accepted (row_status (expire_row now "expired" r))
            else refused (row_status (expire_row now "expired" r))))
  complete_late {r} v found active due =
      let e = swept_due v found active due in
      rw (complete-row (expire_row now "expired" r) e) (
        unfold expire_row in
        ended_report (expire_row now "expired" r) (expire_actions uuid now s) refl e)

  -- A report that Complete accepts writes the outcome to the one row.
  live_report :
      (q : Row) (t : Store)
      → is_replay host o q ≡ false
      → is_refused host o q ≡ false
      → row_of id t ≡ some q
      → (row_of id (complete_row uuid host o now q t).0 ≡ some (finish_row o now q))
        × ((complete_row uuid host o now q t).1 ≡ accepted (row_status (finish_row o now q)))
  unfolding complete_row append_audit
  live_report q t a b e =
      rw (a, b)
        (
          find_row-update_where (has_id id) (has_id (row_id q)) (finish_row o now) t.outbox
                (λ x. unfold finish_row in refl) e
              ∙ ap some hit,
          refl,
        )
    where
      hit : (if has_id (row_id q) q then finish_row o now q else q) ≡ finish_row o now q
      hit = rw (str_eq_refl (row_id q))

  -- A report in time on a delivered action, from its host and with a known outcome other than
  -- "duplicate", is accepted: the stored row has the reported outcome, and its message is erased.
  pub complete_in_time :
      {r : Row}
      → IsValid s
      → row_of id s ≡ some r
      → is_delivered r.action.state ≡ true
      → now <ℤ r.action.expires_at_ms
      → r.action.canonical_host ≡ host
      → outcome_valid o ≡ true
      → is_duplicate o ≡ false
      → (row_of id (complete uuid host id o now s).0 ≡ some (finish_row o now r))
        × ((complete uuid host id o now s).1 ≡ accepted (row_status (finish_row o now r)))
        × ((finish_row o now r).ciphertext ≡ none)
        × ((finish_row o now r).protection ≡ none)
  complete_in_time {r} v found sent in_time here valid fresh =
      let e = swept_live v found in_time in
      let own = str_eq_refl host in
      let a : is_replay host o r ≡ false = ground (arith, sent) in
      let b : is_refused host o r ≡ false = rw (here, own, valid, fresh, sent) in
      let (row, reply) = live_report r (expire_actions uuid now s) a b e in
      rw (complete-row r e) (row, reply, unfold finish_row in refl, unfold finish_row in refl)

  -- A report that is refused in time (another host, an unknown outcome, "duplicate", or an action that
  -- was not delivered yet) leaves the row as it was and says so.
  pub complete_refused :
      {r : Row}
      → IsValid s
      → row_of id s ≡ some r
      → is_active r.action.state ≡ true
      → now <ℤ r.action.expires_at_ms
      → is_refused host o r ≡ true
      → (row_of id (complete uuid host id o now s).0 ≡ some r)
        × ((complete uuid host id o now s).1 ≡ refused (row_status r))
        × ((complete uuid host id o now s).0
            ≡ append_audit uuid r.action now protocol_invalid
                (some "protocol_invalid")
                none
                (expire_actions uuid now s))
  complete_refused {r} v found active in_time barred =
      let e = swept_live v found in_time in
      let a : is_replay host o r ≡ false = ground arith in
      rw (complete-row r e) (unfold complete_row append_audit in rw (a, barred) (e, refl, refl))
