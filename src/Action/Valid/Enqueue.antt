-- ===== src/Action/Valid/Enqueue.antt =====
-- An enqueue keeps the constraints: its INSERT meets the CHECKs, the primary key and the unique index.
use lisstech_drain_ctl.Prelude.{
  ℕ, ◌<◌, ◌^◌, String, Bool, true, false, ◌≡◌, refl, sym, ap, inl, inr, ◌⊎◌, none, some, ◌∷◌, arith,
  Bool-cases, Option-cases, str_eq_refl,
}
use mathlib.Core.Path.{subst}
use lisstech_drain_ctl.Prelude.Bytes.{bytes_equal}
use lisstech_drain_ctl.Prelude.Rows.{find_row, any_row}
use lisstech_drain_ctl.Prelude.Distinct.{find_row-Absent, any_row-Absent}
use lisstech_drain_ctl.Action.{ActionStatus, queued, is_queued}
use lisstech_drain_ctl.Action.Store.{
  Row, Store, row_id, has_id, row_status, entered, append_audit, action_status,
}
use lisstech_drain_ctl.Action.Outbox.{
  EnqueueInput, check_enqueue, same_key, new_row, insert_action, enqueue,
}
use lisstech_drain_ctl.Action.Outbox.Target.{Result, ok, err, Error}
use lisstech_drain_ctl.Action.Valid.{IsValidRow, IsValid, row_key}
use lisstech_drain_ctl.Action.Valid.Rows.{new_row-IsValidRow}
use lisstech_drain_ctl.Action.Valid.Audit.{append_audit-Events}

Unit_result-cases : (m : Result (Unit {0})) → (m ≡ ok tt) ⊎ ((e : Error) × (m ≡ err e))
Unit_result-cases (ok tt) = inl refl
Unit_result-cases (err e) = inr (e, refl)

module _ (uuid : ℕ → String) (input : EnqueueInput) (s : Store) where
  -- The store that the INSERT and its audit event leave.
  unfoldable pub inserted : Store
  inserted =
      append_audit uuid input.action input.action.created_at_ms (entered queued) none
        (some input.action.requested_by) (record s { outbox = new_row input ∷ s.outbox })

  -- A successful insertion: the id was free, and the guards on the target have passed.
  pub insert_action-ok :
      {r : ActionStatus × Bool × Store}
      → insert_action uuid input s ≡ ok r
      → (any_row (has_id input.action.action_id) s.outbox ≡ false)
        × (r ≡ (action_status input.action none none, false, inserted))
  unfolding insert_action inserted
  insert_action-ok e = ground arith

  -- A successful enqueue is a replay of an equal request or an insertion under a free key.
  pub enqueue-ok :
      {r : ActionStatus × Bool × Store}
      → enqueue uuid input s ≡ ok r
      → (check_enqueue input ≡ ok tt)
        × (((x : Row) × (find_row (same_key input) s.outbox ≡ some x)
              × (bytes_equal x.action.request_fingerprint input.action.request_fingerprint ≡ true)
              × (r ≡ (row_status x, true, s)))
            ⊎ ((find_row (same_key input) s.outbox ≡ none) × (insert_action uuid input s ≡ ok r)))
  unfolding enqueue
  enqueue-ok {r} e = elim (Unit_result-cases (check_enqueue input)) [
    | inl passed ↦ elim (Option-cases (find_row (same_key input) s.outbox)) [
      | inl free ↦ (passed, inr (free, rw (passed, free, enqueue) at e))
      | inr (x, taken) ↦
          elim (Bool-cases
            (bytes_equal x.action.request_fingerprint input.action.request_fingerprint)) [
              | inl same ↦ (passed, inl (x, taken, same, ground arith))
              | inr other ↦ absurd (ground arith)
            ]
    ]
    | inr (x, failed) ↦ absurd (ground arith)
  ]

  pub is_queued_input : check_enqueue input ≡ ok tt → is_queued input.action.state ≡ true
  unfolding check_enqueue
  is_queued_input passed = ground arith

  sees_key : (x : Row) → row_key x ≡ row_key (new_row input) → same_key input x ≡ true
  unfolding same_key new_row
  sees_key x e =
      rw (ap (λ k. k.0) e, ap (λ k. k.1) e, ap (λ k. k.2) e)
        (ground (
          arith,
          str_eq_refl input.action.requested_by,
          str_eq_refl input.endpoint,
          str_eq_refl input.action.idempotency_key,
        ))

  sees_id : (x : Row) → row_id x ≡ input.action.action_id → has_id input.action.action_id x ≡ true
  sees_id x e = rw e (str_eq_refl input.action.action_id)

  inserted-IsValid :
      input.action.session_id < 2 ^ 32
      → check_enqueue input ≡ ok tt
      → find_row (same_key input) s.outbox ≡ none
      → any_row (has_id input.action.action_id) s.outbox ≡ false
      → IsValid s
      → IsValid inserted
  unfolding inserted append_audit
  inserted-IsValid small passed new_key new_id v =
      let row : IsValidRow (new_row input) = new_row-IsValidRow input small passed in
      record {
        rows = (row, v.rows);
        one_id = (
          unfold new_row in any_row-Absent row_id input.action.action_id _ s.outbox sees_id new_id,
          v.one_id,
        );
        one_key = (find_row-Absent row_key _ (same_key input) s.outbox sees_key new_key, v.one_key);
        events =
            append_audit-Events uuid input.action input.action.created_at_ms (entered queued) none
              (some input.action.requested_by) s (unfold new_row in row.created)
              (unfold new_row in row.session) (unfold new_row in row.logon)
              (unfold new_row in row.known_type) refl refl refl v.events;
      }

  pub enqueue-IsValid :
      {r : ActionStatus × Bool × Store}
      → input.action.session_id < 2 ^ 32
      → enqueue uuid input s ≡ ok r
      → IsValid s
      → IsValid r.2
  enqueue-IsValid {r} small e v =
      let (passed, how) = enqueue-ok e in
      elim how [
        | inl (x, _, _, same) ↦
            subst (λ (q : ActionStatus × Bool × Store). IsValid q.2) (sym same) v
        | inr (new_key, done) ↦
            let (new_id, same) = insert_action-ok done in
            subst (λ (q : ActionStatus × Bool × Store). IsValid q.2) (sym same)
              (inserted-IsValid small passed new_key new_id v)
      ]
