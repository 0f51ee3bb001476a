-- ===== src/Action/Idempotent.antt =====
-- The idempotency key of an enqueue: asking twice is asking once.
use lisstech_drain_ctl.Prelude.{
  ℕ, String, Bool, true, false, ◌≡◌, refl, sym, inl, inr, none, some, arith, str_eq_refl,
  if◌then◌else◌,
}
use mathlib.Core.Path.{subst}
use lisstech_drain_ctl.Prelude.Bytes.{bytes_equal, bytes_equal→eq}
use lisstech_drain_ctl.Prelude.Rows.{find_row}
use lisstech_drain_ctl.Action.{ActionStatus}
use lisstech_drain_ctl.Action.Store.{Row, Store, row_status, action_status, append_audit}
use lisstech_drain_ctl.Action.Outbox.{EnqueueInput, check_enqueue, same_key, new_row, enqueue}
use lisstech_drain_ctl.Action.Outbox.Target.{ok, err, Error}
use lisstech_drain_ctl.Action.Valid.Enqueue.{
  enqueue-ok, insert_action-ok, inserted, is_queued_input,
}

-- The columns of the unique index, as two requests have them.
abbrev pub SameKey : EnqueueInput → EnqueueInput → Type 0
SameKey a b =
    (a.action.requested_by ≡ b.action.requested_by)
    × (a.endpoint ≡ b.endpoint)
    × (a.action.idempotency_key ≡ b.action.idempotency_key)

module _ (uuid : ℕ → String) (first again : EnqueueInput) (one_key : SameKey first again) where
  same_query : same_key first ≡ same_key again
  unfolding same_key
  same_query = rw (one_key.0, one_key.1, one_key.2)

  stored_status :
      check_enqueue first ≡ ok tt
      → row_status (new_row first) ≡ action_status first.action none none
  unfolding new_row
  stored_status passed = ground (arith, is_queued_input uuid first)

  sees_new : same_key again (new_row first) ≡ true
  unfolding same_key new_row
  sees_new =
      rw (one_key.0, one_key.1, one_key.2)
        (ground (
          arith,
          str_eq_refl again.action.requested_by,
          str_eq_refl again.endpoint,
          str_eq_refl again.action.idempotency_key,
        ))

  -- The table holds the answer of an enqueue under its key.
  abbrev Answered : ActionStatus × Bool × Store → Type 0
  Answered q =
      (x : Row) × (find_row (same_key again) q.2.outbox ≡ some x)
      × (x.action.request_fingerprint ≡ first.action.request_fingerprint)
      × (row_status x ≡ q.0)

  inserted-Answered :
      (s : Store)
      → check_enqueue first ≡ ok tt
      → Answered (action_status first.action none none, false, inserted uuid first s)
  unfolding inserted append_audit find_row
  inserted-Answered s passed =
      (new_row first, rw sees_new, unfold new_row in refl, stored_status passed)

  enqueue-Answered :
      (s : Store) {q : ActionStatus × Bool × Store} → enqueue uuid first s ≡ ok q → Answered q
  enqueue-Answered s e =
      let (passed, how) = enqueue-ok uuid first s e in
      elim how [
        | inl (x, found, equal, same) ↦
            subst Answered (sym same) (x, rw (← same_query) found, bytes_equal→eq _ _ equal, refl)
        | inr (_, done) ↦
            subst Answered (sym (insert_action-ok uuid first s done).1) (inserted-Answered s passed)
      ]

  -- A well-formed request that comes directly after one that was answered, under the same key, changes
  -- nothing: with the same fingerprint it gets the same status, marked as a replay, and with another
  -- one the conflict error.
  pub enqueue_again :
      (s : Store) {st : ActionStatus} {b : Bool} {t : Store}
      → enqueue uuid first s ≡ ok (st, b, t)
      → check_enqueue again ≡ ok tt
      → enqueue uuid again t ≡ (
          if bytes_equal first.action.request_fingerprint again.action.request_fingerprint
          then ok (st, true, t)
          else err Error.idempotency_conflict)
  unfolding enqueue
  enqueue_again s e passed =
      let (x, found, print, status) = enqueue-Answered s e in
      rw (passed, found, enqueue, print, status)
