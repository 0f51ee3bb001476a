-- ===== src/Action/Valid/Steps.antt =====
-- Every operation of the store keeps the constraints.
use lisstech_drain_ctl.Prelude.{
  ℕ, String, Bool, true, false, ◌≡◌, refl, sym, inl, inr, none, some, List, arith, Bool-cases,
  Option-cases, str_eq→eq,
}
use mathlib.Core.Path.{subst}
use lisstech_drain_ctl.Prelude.Int.{ℤ, pos, ◌≤ℤ◌}
use lisstech_drain_ctl.Prelude.Rows.{
  All, All-update_where, All-update_with, All-select_keep, All-order_by, All-take, find_row-All,
  find_row, find_row-test, update_where,
}
use lisstech_drain_ctl.Prelude.Distinct.{Distinct, map-update_where, find_row_unique}
use lisstech_drain_ctl.Prelude.Batch.{seen}
use lisstech_drain_ctl.Action.{
  Outcome, is_delivered, outcome_valid, is_duplicate, state_of_outcome, outcome_text,
}
use lisstech_drain_ctl.Action.Store.{
  Row, Store, protocol_invalid, entered, row_id, has_id, append_audit, is_due, expire_row,
  expire_actions, transition_matching_active,
}
use lisstech_drain_ctl.Action.Lifecycle.{
  older, delivery_limit, is_deliverable, deliver_row, finish_row, mark_all, selected, deliver,
  complete_row, complete, is_replay, is_refused,
}
use lisstech_drain_ctl.Action.Effects.{
  ids, queued_both, outbox-transition, expire_row-id, deliver_row-id, mark_all-outbox, seen_queued,
}
use lisstech_drain_ctl.Action.Valid.{IsValidRow, IsValidEvent, IsValid, keys, row_key}
use lisstech_drain_ctl.Action.Valid.Rows.{
  outcome_state, expire_row-IsValidRow, deliver_row-IsValidRow, finish_row-IsValidRow,
}
use lisstech_drain_ctl.Action.Valid.Audit.{expire_rows-Events, mark_all-Events, append_audit-Events}

-- An UPDATE that leaves the keys alone, on rows that stay valid.
update-IsValid :
    (s t : Store) (p : Row → Bool) (f : Row → Row)
    → t.outbox ≡ update_where p f s.outbox
    → ((r : Row) → row_id (f r) ≡ row_id r)
    → ((r : Row) → row_key (f r) ≡ row_key r)
    → All IsValidRow (update_where p f s.outbox)
    → All IsValidEvent t.audit
    → IsValid s
    → IsValid t
update-IsValid s t p f e same_id same_key rows events v = record {
  rows = subst (All IsValidRow) (sym e) rows;
  one_id =
      subst (λ xs. Distinct (ids xs)) (sym e)
        (rw (map-update_where row_id p f s.outbox same_id) v.one_id);
  one_key =
      subst (λ xs. Distinct (keys xs)) (sym e)
        (rw (map-update_where row_key p f s.outbox same_key) v.one_key);
  events = events;
}

module _ (uuid : ℕ → String) (now : ℤ) (p : pos 0 ≤ℤ now) where
  pub transition-IsValid :
      (code : String) (expired_only : Bool) (s : Store)
      → IsValid s
      → IsValid (transition_matching_active uuid now code expired_only s).0
  transition-IsValid code expired_only s v =
      update-IsValid s _ (is_due now expired_only) (expire_row now code)
        (outbox-transition now code uuid expired_only s v.one_id) (expire_row-id now code)
        (λ r. unfold expire_row in refl)
        (All-update_where IsValidRow (is_due now expired_only) (expire_row now code) s.outbox
          (λ r _. expire_row-IsValidRow now code r p) v.rows)
        (unfold transition_matching_active in
          expire_rows-Events uuid now p code _ s
            (All-select_keep IsValidRow (is_due now expired_only) s.outbox v.rows) v.events)
        v

  pub expire_actions-IsValid : (s : Store) → IsValid s → IsValid (expire_actions uuid now s)
  unfolding expire_actions
  expire_actions-IsValid s v = transition-IsValid "expired" true s v

  mark_all-IsValid :
      (rs : List Row) (s : Store) → All IsValidRow rs → IsValid s → IsValid (mark_all uuid now rs s)
  mark_all-IsValid rs s valid v =
      update-IsValid s _ (seen queued_both (deliver_row now) rs) (deliver_row now)
        (mark_all-outbox uuid now rs s) (deliver_row-id uuid now) (λ r. unfold deliver_row in refl)
        (All-update_where IsValidRow _ (deliver_row now) s.outbox
          (λ r e. deliver_row-IsValidRow now r p (seen_queued uuid now rs r e)) v.rows)
        (mark_all-Events uuid now p rs s valid v.events) v

  pub deliver-IsValid :
      (host : String) (s : Store) → IsValid s → IsValid (deliver uuid host now s).0
  unfolding deliver selected
  deliver-IsValid host s v =
      let w = expire_actions-IsValid s v in
      mark_all-IsValid (selected host now (expire_actions uuid now s)) (expire_actions uuid now s)
        (All-take IsValidRow delivery_limit _ (
          All-order_by IsValidRow older _
            (All-select_keep IsValidRow (is_deliverable host now) _ w.rows)))
        w

  -- Only the row that was found has its id.
  finish-IsValid :
      (o : Outcome) (r : Row) (s t : Store)
      → outcome_valid o ≡ true
      → is_duplicate o ≡ false
      → is_delivered r.action.state ≡ true
      → find_row (has_id (row_id r)) s.outbox ≡ some r
      → t.outbox ≡ update_where (has_id (row_id r)) (finish_row o now) s.outbox
      → All IsValidEvent t.audit
      → IsValid s
      → IsValid t
  finish-IsValid o r s t valid fresh d found e events v =
      update-IsValid s t (has_id (row_id r)) (finish_row o now) e (λ x. unfold finish_row in refl)
        (λ x. unfold finish_row in refl)
        (All-update_with IsValidRow (λ x. has_id (row_id r) x ≡ true → x ≡ r) (has_id (row_id r))
          (finish_row o now) s.outbox
          (λ x t same w.
            finish_row-IsValidRow o now x p valid fresh
              (subst (λ y. is_delivered y.action.state ≡ true) (sym (same t)) d) w)
          (find_row_unique row_id (row_id r) (has_id (row_id r)) s.outbox
            (λ x. str_eq→eq (row_id x) (row_id r)) v.one_id found)
          v.rows)
        events v

  complete_row-IsValid :
      (host : String) (o : Outcome) (r : Row) (s : Store)
      → find_row (has_id (row_id r)) s.outbox ≡ some r
      → IsValid s
      → IsValid (complete_row uuid host o now r s).0
  unfolding complete_row
  complete_row-IsValid host o r s found v =
      let w : IsValidRow r = find_row-All IsValidRow (has_id (row_id r)) s.outbox v.rows found in
      elim (Bool-cases (is_replay host o r)) [
        | inl a ↦ rw a v
        | inr a ↦ elim (Bool-cases (is_refused host o r)) [
          | inl b ↦
              rw (a, b)
                (record {
                  rows = v.rows;
                  one_id = v.one_id;
                  one_key = v.one_key;
                  events =
                      append_audit-Events uuid r.action now protocol_invalid
                        (some "protocol_invalid") none s p w.session w.logon w.known_type refl refl
                        refl v.events;
                })
          | inr b ↦
              let valid : outcome_valid o ≡ true = ground arith in
              let fresh : is_duplicate o ≡ false = ground arith in
              let kept = outcome_state o valid fresh in
              rw (a, b)
                (finish-IsValid o r s _ valid fresh (ground arith) found
                  (unfold append_audit in refl)
                  (append_audit-Events uuid (unfold finish_row in (finish_row o now r).action) now
                    (entered (state_of_outcome o)) (some (outcome_text o)) none
                    (record s {
                      outbox = update_where (has_id (row_id r)) (finish_row o now) s.outbox;
                    })
                    p w.session w.logon w.known_type kept.0 (rw kept.2) (rw kept.1) v.events)
                  v)
        ]
      ]

  pub complete-IsValid :
      (host id : String) (o : Outcome) (s : Store)
      → IsValid s
      → IsValid (complete uuid host id o now s).0
  unfolding complete
  complete-IsValid host id o s v =
      let swept = expire_actions uuid now s in
      elim (Option-cases (find_row (has_id id) swept.outbox)) [
        | inl e ↦ rw (e, complete) v
        | inr (r, e) ↦
            let same : row_id r ≡ id =
              str_eq→eq (row_id r) id (find_row-test (has_id id) swept.outbox e) in
            rw (e, complete)
              (complete_row-IsValid host o r swept
                (subst (λ k. find_row (has_id k) swept.outbox ≡ some r) (sym same) e)
                (expire_actions-IsValid s v))
      ]
