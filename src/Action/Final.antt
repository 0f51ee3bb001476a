-- ===== src/Action/Final.antt =====
-- What each write of the store leaves of the row of one action.
pub mod Keeps
pub mod Due
pub mod Reports
use lisstech_drain_ctl.Prelude.{
  ℕ, zero, suc, String, Bool, true, false, not, ◌&&◌, ◌≡◌, refl, sym, ap, ◌∙◌, inl, inr, ◌⊎◌,
  Option, none, some, List, [], ◌∷◌, arith, Bool-cases, Option-cases, str_eq→eq, str_eq,
  if◌then◌else◌, some_inj,
}
use mathlib.Core.Path.{subst}
use mathlib.Core.Bool.{false≢true}
use lisstech_drain_ctl.Prelude.Int.{ℤ, pos, ◌≤ℤ◌, ◌<ℤ◌, le→leb_ℤ, gt→leb_ℤ}
use lisstech_drain_ctl.Prelude.Rows.{find_row, find_row-test, any_row, any_row-find_row}
use lisstech_drain_ctl.Prelude.Distinct.{Distinct}
use lisstech_drain_ctl.Prelude.Find.{
  find_row-update_where, find_row-none-update_where, find_row-delete_where,
}
use lisstech_drain_ctl.Prelude.Batch.{seen}
use lisstech_drain_ctl.Action.{
  ActionStatus, Outcome, is_active, is_queued, is_delivered, outcome_valid, is_duplicate,
}
use lisstech_drain_ctl.Action.Store.{
  Row, Store, row_id, has_id, row_status, row_active, append_audit, is_due, expire_row,
  transition_matching_active, expire_actions,
}
use lisstech_drain_ctl.Action.Outbox.{EnqueueInput, enqueue, new_row}
use lisstech_drain_ctl.Action.Outbox.Target.{ok}
use lisstech_drain_ctl.Action.Lifecycle.{
  deliver_row, finish_row, mark_all, selected, deliver, complete, complete_row, is_replay,
  is_refused, expire, cancel_for_privacy, purge_snapshots_for_privacy, retain, is_stale, Reply,
  accepted, refused,
}
use lisstech_drain_ctl.Action.Effects.{
  ids, queued_both, outbox-transition, outbox-expire_actions, mark_all-outbox, seen_queued,
}
use lisstech_drain_ctl.Action.Valid.{IsValid}
use lisstech_drain_ctl.Action.Valid.Steps.{expire_actions-IsValid}
use lisstech_drain_ctl.Action.Valid.Enqueue.{enqueue-ok, insert_action-ok, inserted}
use lisstech_drain_ctl.Action.History.{
  Step, enqueues, delivers, completes, expires, cancels, purges, retains,
}

-- The row that the table holds under an action's id.
abbrev pub row_of : String → Store → Option Row
row_of id s = find_row (has_id id) s.outbox

-- A terminal row: its action has ended.
abbrev pub Ended : Row → Type 0
Ended r = is_active r.action.state ≡ false

module _ (uuid : ℕ → String) (id : String) where
  pub row_of-transition :
      (now : ℤ) (code : String) (expired_only : Bool) (s : Store) {r : Row}
      → Distinct (ids s.outbox)
      → row_of id s ≡ some r
      → row_of id (transition_matching_active uuid now code expired_only s).0
        ≡ some (if is_due now expired_only r then expire_row now code r else r)
  row_of-transition now code expired_only s d e =
      ap (find_row (has_id id)) (outbox-transition now code uuid expired_only s d)
      ∙ find_row-update_where (has_id id) (is_due now expired_only) (expire_row now code) s.outbox
          (λ x. unfold expire_row in refl) e

  pub not_due :
      (now : ℤ) (expired_only : Bool) (r : Row) → Ended r → is_due now expired_only r ≡ false
  unfolding is_due
  not_due now expired_only r ended = rw ended

  pub transition-Ended :
      (now : ℤ) (code : String) (expired_only : Bool) (s : Store) {r : Row}
      → Distinct (ids s.outbox)
      → Ended r
      → row_of id s ≡ some r
      → row_of id (transition_matching_active uuid now code expired_only s).0 ≡ some r
  transition-Ended now code expired_only s {r} d ended e =
      row_of-transition now code expired_only s d e
      ∙ ap some (rw (not_due now expired_only r ended))

  pub swept-Ended :
      (now : ℤ) (s : Store) {r : Row}
      → Distinct (ids s.outbox)
      → Ended r
      → row_of id s ≡ some r
      → row_of id (expire_actions uuid now s) ≡ some r
  unfolding expire_actions
  swept-Ended now s d ended e = transition-Ended now "expired" true s d ended e

  pub mark_all-Ended :
      (now : ℤ) (rs : List Row) (s : Store) {r : Row}
      → Ended r
      → row_of id s ≡ some r
      → row_of id (mark_all uuid now rs s) ≡ some r
  mark_all-Ended now rs s {r} ended e =
      ap (find_row (has_id id)) (mark_all-outbox uuid now rs s)
      ∙ find_row-update_where (has_id id) (seen queued_both (deliver_row now) rs) (deliver_row now)
          s.outbox (λ x. unfold deliver_row in refl) e
      ∙ ap some unmoved
    where
      unmoved : (if seen queued_both (deliver_row now) rs r then deliver_row now r else r) ≡ r
      unmoved = elim (Bool-cases (seen queued_both (deliver_row now) rs r)) [
        | inl t ↦ absurd (ground (arith, seen_queued uuid now rs r t))
        | inr t ↦ rw t
      ]

  pub complete_row-Ended :
      (host : String) (o : Outcome) (now : ℤ) (q : Row) (s : Store) {r : Row}
      → Distinct (ids s.outbox)
      → row_of (row_id q) s ≡ some q
      → Ended r
      → row_of id s ≡ some r
      → row_of id (complete_row uuid host o now q s).0 ≡ some r
  unfolding complete_row append_audit
  complete_row-Ended host o now q s {r} d found ended e = elim (Bool-cases (is_replay host o q)) [
    | inl a ↦ rw a e
    | inr a ↦ elim (Bool-cases (is_refused host o q)) [
      | inl b ↦ rw (a, b) e
      | inr b ↦
          rw (a, b)
            (find_row-update_where (has_id id) (has_id (row_id q)) (finish_row o now) s.outbox
                (λ x. unfold finish_row in refl) e
              ∙ ap some (other b))
    ]
  ]
    where
      other :
          is_refused host o q ≡ false → (if has_id (row_id q) r then finish_row o now r else r) ≡ r
      other b = elim (Bool-cases (has_id (row_id q) r)) [
        | inl t ↦
            let here : row_id r ≡ id =
              str_eq→eq (row_id r) id (find_row-test (has_id id) s.outbox e) in
            let same : row_id r ≡ row_id q = str_eq→eq (row_id r) (row_id q) t in
            let both : row_of id s ≡ some q =
              subst (λ k. row_of k s ≡ some q) (sym same ∙ here) found in
            let one : q ≡ r = some_inj (sym both ∙ e) in
            let live : is_delivered r.action.state ≡ true =
              subst (λ x. is_delivered x.action.state ≡ true) one (ground arith) in
            absurd (ground arith)
        | inr t ↦ rw t
      ]

  pub inserted_kept :
      (input : EnqueueInput) (s : Store) {r : Row}
      → any_row (has_id input.action.action_id) s.outbox ≡ false
      → row_of id s ≡ some r
      → row_of id (inserted uuid input s) ≡ some r
  unfolding inserted append_audit find_row
  inserted_kept input s {r} free e = elim (Bool-cases (has_id id (new_row input))) [
    | inl t ↦
        let same : input.action.action_id ≡ id =
          str_eq→eq input.action.action_id id (unfold new_row in t) in
        absurd (
          false≢true (
            sym free
            ∙ any_row-find_row (has_id input.action.action_id) s.outbox
                (subst (λ k. row_of k s ≡ some r) (sym same) e)))
    | inr t ↦ rw t e
  ]
