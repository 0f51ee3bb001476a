-- ===== src/Action/Effects.antt =====
-- What the loops of Store and Lifecycle do to the outbox, as one UPDATE each.
use mathlib.Core.Path.{fun_ext}
use lisstech_drain_ctl.Prelude.{
  ℕ, String, Bool, true, false, ◌&&◌, ◌≡◌, refl, ap, ◌∙◌, List, [], ◌∷◌, map, str_eq→eq,
  str_eq_refl, arith, Bool-cases, inl, inr,
}
use lisstech_drain_ctl.Prelude.Int.{ℤ}
use lisstech_drain_ctl.Prelude.Rows.{select, update_where, any_row}
use lisstech_drain_ctl.Prelude.Distinct.{Distinct}
use lisstech_drain_ctl.Prelude.Batch.{seen, update_each, update_each-seen, update_seen-select}
use lisstech_drain_ctl.Action.{is_queued}
use lisstech_drain_ctl.Action.Store.{
  Row, Store, row_id, has_id, expire_row, is_due, expire_rows, expire_actions,
  transition_matching_active,
}
use lisstech_drain_ctl.Action.Lifecycle.{deliver_row, is_queued_id, mark_delivered, mark_all}

abbrev pub ids : List Row → List String
ids = map row_id

-- The UPDATE of one result row: by its id.
abbrev pub by_id : Row → Row → Bool
by_id r x = has_id (row_id r) x

-- The UPDATE that the delivery loop makes for one result row.
unfoldable pub queued_both : Row → Row → Bool
queued_both r x = is_queued r.action.state && is_queued_id (row_id r) x

module _ (now : ℤ) (code : String) where
  expire_row_twice : (x : Row) → expire_row now code (expire_row now code x) ≡ expire_row now code x
  unfolding expire_row
  expire_row_twice x = ground arith

  pub expire_row-id : (x : Row) → row_id (expire_row now code x) ≡ row_id x
  unfolding expire_row
  expire_row-id x = refl

  module _ (uuid : ℕ → String) where
    expire_rows-each :
        (rs : List Row) (s : Store)
        → (expire_rows uuid now code rs s).outbox
          ≡ update_each by_id (expire_row now code) rs s.outbox
    unfolding expire_rows update_each
    expire_rows-each [] s = refl
    expire_rows-each (r ∷ rs) s = expire_rows-each rs _

    -- With unique ids, the sweep is one UPDATE of the rows that its query takes.
    pub outbox-transition :
        (expired_only : Bool) (s : Store)
        → Distinct (ids s.outbox)
        → (transition_matching_active uuid now code expired_only s).0.outbox
          ≡ update_where (is_due now expired_only) (expire_row now code) s.outbox
    unfolding transition_matching_active
    outbox-transition expired_only s d =
        expire_rows-each (select (is_due now expired_only) s.outbox) s
        ∙ update_each-seen by_id (expire_row now code) expire_row_twice _ s.outbox
        ∙ update_seen-select by_id (expire_row now code) row_id
            (λ r x. str_eq→eq (row_id x) (row_id r)) (λ r. str_eq_refl (row_id r))
            (is_due now expired_only) s.outbox d

pub outbox-expire_actions :
    (uuid : ℕ → String) (now : ℤ) (s : Store)
    → Distinct (ids s.outbox)
    → (expire_actions uuid now s).outbox
      ≡ update_where (is_due now true) (expire_row now "expired") s.outbox
unfolding expire_actions
outbox-expire_actions uuid now s d = outbox-transition now "expired" uuid true s d

module _ (uuid : ℕ → String) (now : ℤ) where
  deliver_row_twice : (x : Row) → deliver_row now (deliver_row now x) ≡ deliver_row now x
  unfolding deliver_row
  deliver_row_twice x = refl

  pub deliver_row-id : (x : Row) → row_id (deliver_row now x) ≡ row_id x
  unfolding deliver_row
  deliver_row-id x = refl

  update_false : (f : Row → Row) (xs : List Row) → update_where (λ x. false) f xs ≡ xs
  unfolding update_where
  update_false f [] = refl
  update_false f (x ∷ xs) = rw (update_false f xs)

  unqueued_sees : (r : Row) → is_queued r.action.state ≡ false → queued_both r ≡ λ x. false
  unfolding queued_both
  unqueued_sees r e = fun_ext (λ x. rw e)

  queued_sees :
      (r : Row) → is_queued r.action.state ≡ true → queued_both r ≡ is_queued_id (row_id r)
  unfolding queued_both
  queued_sees r e = fun_ext (λ x. rw e)

  mark_delivered-outbox :
      (r : Row) (s : Store)
      → (mark_delivered uuid now r s).outbox
        ≡ update_where (queued_both r) (deliver_row now) s.outbox
  unfolding mark_delivered
  mark_delivered-outbox r s = elim (Bool-cases (is_queued r.action.state)) [
    | inl e ↦ rw (queued_sees r e, e)
    | inr e ↦ rw (unqueued_sees r e, e, update_false (deliver_row now) s.outbox)
  ]

  mark_all-each :
      (rs : List Row) (s : Store)
      → (mark_all uuid now rs s).outbox ≡ update_each queued_both (deliver_row now) rs s.outbox
  unfolding mark_all update_each
  mark_all-each [] s = refl
  mark_all-each (r ∷ rs) s =
      mark_all-each rs (mark_delivered uuid now r s)
      ∙ ap (update_each queued_both (deliver_row now) rs) (mark_delivered-outbox r s)

  -- The loop of a delivery is one UPDATE.
  pub mark_all-outbox :
      (rs : List Row) (s : Store)
      → (mark_all uuid now rs s).outbox
        ≡ update_where (seen queued_both (deliver_row now) rs) (deliver_row now) s.outbox
  mark_all-outbox rs s =
      mark_all-each rs s
      ∙ update_each-seen queued_both (deliver_row now) deliver_row_twice rs s.outbox

  pub seen_queued :
      (rs : List Row) (x : Row)
      → seen queued_both (deliver_row now) rs x ≡ true
      → is_queued x.action.state ≡ true
  unfolding queued_both is_queued_id any_row
  seen_queued [] x e = absurd (ground arith)
  seen_queued (r ∷ rs) x e = ground (arith, seen_queued rs x)
