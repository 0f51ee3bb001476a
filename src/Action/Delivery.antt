-- ===== src/Action/Delivery.antt =====
-- What a report carries to an agent (SessionActionStore.Deliver).
use lisstech_drain_ctl.Prelude.{
  ℕ, String, true, false, ◌≡◌, refl, ap, ◌∙◌, inl, inr, some, List, [], ◌∷◌, map, arith, Bool-cases,
  str_eq→eq, str_eq_refl, length, length-take, take, min, if◌then◌else◌,
}
use mathlib.Core.Path.{subst}
use lisstech_drain_ctl.Prelude.Int.{
  ℤ, pos, ◌≤ℤ◌, ◌<ℤ◌, ltb_ℤ, ltb_ℤ→lt, ltb_ℤ→ge, leb_ℤ→le, ge→ltb_ℤ, eqb_ℤ_iff,
}
use lisstech_drain_ctl.Prelude.Rows.{
  All, any_row, find_row, All-select, All-select_keep, All-order_by, All-take, select, order_by,
}
use lisstech_drain_ctl.Prelude.Find.{find_row-update_where}
use lisstech_drain_ctl.Prelude.Distinct.{Distinct}
use lisstech_drain_ctl.Prelude.Batch.{seen}
use lisstech_drain_ctl.Prelude.Sorted.{
  Sorted, All-impl, All-zip, All-map, Sorted-map, length-map, length-order_by, order_by-Sorted,
  take-Sorted, select-update_where, find_row_self,
}
use lisstech_drain_ctl.Action.{ActionState, delivered, is_active, is_queued}
use lisstech_drain_ctl.Action.Store.{Row, Store, row_id, has_id, is_due, expire_row, expire_actions}
use lisstech_drain_ctl.Action.Lifecycle.{
  Delivery, delivery_limit, older, is_deliverable, is_queued_id, deliver_row, delivered_copy,
  selected, deliver, mark_all,
}
use lisstech_drain_ctl.Action.Effects.{
  ids, queued_both, outbox-expire_actions, mark_all-outbox, seen_queued,
}
use lisstech_drain_ctl.Action.Valid.{IsValid}
use lisstech_drain_ctl.Action.Valid.Steps.{expire_actions-IsValid}
use lisstech_drain_ctl.Action.Final.{row_of}

module _ (host : String) (now : ℤ) where
  due_undeliverable : (x : Row) → is_due now true x ≡ true → is_deliverable host now x ≡ false
  unfolding is_due is_deliverable
  due_undeliverable x due =
      rw (ge→ltb_ℤ now x.action.expires_at_ms (leb_ℤ→le x.action.expires_at_ms now (ground arith)))
        (ground arith)

  expired_undeliverable :
      (x : Row)
      → is_due now true x ≡ true
      → is_deliverable host now (expire_row now "expired" x) ≡ false
  unfolding expire_row is_deliverable
  expired_undeliverable x due = ground arith

  selected_swept :
      (uuid : ℕ → String) (s : Store)
      → IsValid s
      → selected host now (expire_actions uuid now s) ≡ selected host now s
  unfolding selected
  selected_swept uuid s v =
      ap (λ rs. take delivery_limit (order_by older (select (is_deliverable host now) rs)))
        (outbox-expire_actions uuid now s v.one_id)
      ∙ ap (λ rs. take delivery_limit (order_by older rs))
          (select-update_where (is_deliverable host now) (is_due now true)
            (expire_row now "expired") s.outbox due_undeliverable expired_undeliverable)

  -- The sweep before a delivery does not change what is delivered: the reply lists the 20 oldest of
  -- the host's active rows that are not due, as the store had them, each shown as delivered.
  pub deliver_list :
      (uuid : ℕ → String) (s : Store)
      → IsValid s
      → (deliver uuid host now s).1 ≡ map delivered_copy (selected host now s)
  unfolding deliver
  deliver_list uuid s v = ap (map delivered_copy) (selected_swept uuid s v)

  -- A reply carries as many of the host's active rows that are not due as there are, up to 20.
  pub deliver_count :
      (uuid : ℕ → String) (s : Store)
      → IsValid s
      → length (deliver uuid host now s).1
        ≡ min 20 (length (select (is_deliverable host now) s.outbox))
  deliver_count uuid s v =
      ap length (deliver_list uuid s v)
      ∙ length-map delivered_copy (selected host now s)
      ∙ unfold selected in
        length-take 20 (order_by older (select (is_deliverable host now) s.outbox))
        ∙ ap (min 20) (length-order_by older (select (is_deliverable host now) s.outbox))

-- Oldest first, as the reply lists it.
abbrev pub NotYounger : Delivery → Delivery → Type 0
NotYounger d e = d.action.created_at_ms ≤ℤ e.action.created_at_ms

abbrev RowNotYounger : Row → Row → Type 0
RowNotYounger r q = r.action.created_at_ms ≤ℤ q.action.created_at_ms

older→NotYounger : (r q : Row) → older r q ≡ true → RowNotYounger r q
unfolding older
older→NotYounger r q e = elim (Bool-cases (ltb_ℤ r.action.created_at_ms q.action.created_at_ms)) [
  | inl t ↦ omega (arith, ltb_ℤ→lt r.action.created_at_ms q.action.created_at_ms t)
  | inr t ↦
      subst (λ z. r.action.created_at_ms ≤ℤ z)
        ((eqb_ℤ_iff r.action.created_at_ms q.action.created_at_ms).0 (ground arith)) (omega arith)
]

not_older→NotYounger : (r q : Row) → older r q ≡ false → RowNotYounger q r
unfolding older
not_older→NotYounger r q e = ltb_ℤ→ge r.action.created_at_ms q.action.created_at_ms (ground arith)

-- The reply lists the actions in the order of their creation.
pub deliver_oldest_first :
    (host : String) (now : ℤ) (uuid : ℕ → String) (s : Store)
    → Sorted NotYounger (deliver uuid host now s).1
unfolding deliver selected
deliver_oldest_first host now uuid s =
    Sorted-map NotYounger delivered_copy (selected host now (expire_actions uuid now s)) (
      unfold delivered_copy in
      take-Sorted RowNotYounger 20 _ (
        order_by-Sorted older RowNotYounger (λ x y z a b. omega arith) older→NotYounger
          not_older→NotYounger
          (select (is_deliverable host now) (expire_actions uuid now s).outbox)))

-- A delivered action: it belongs to the host and is not due, and the table holds it as delivered.
abbrev pub Recorded : String → ℤ → Store → Delivery → Type 0
Recorded host now t d =
    (d.action.canonical_host ≡ host)
    × (d.action.state ≡ delivered)
    × (now <ℤ d.action.expires_at_ms)
    × ((r : Row) × (row_of d.action.action_id t ≡ some r) × (r.action ≡ d.action))

delivered_state :
    (a : ActionState) → is_active a ≡ true → (if is_queued a then delivered else a) ≡ delivered
delivered_state a e = ground arith

module _ (host : String) (now : ℤ) (uuid : ℕ → String) where
  marked : Row → List Row → Row
  marked x rs = if seen queued_both (deliver_row now) rs x then deliver_row now x else x

  -- The row of a delivered action, as the loop leaves it, shows what the reply shows.
  marked-copy :
      (rs : List Row) (x : Row)
      → (is_queued x.action.state ≡ true → seen queued_both (deliver_row now) rs x ≡ true)
      → (marked x rs).action ≡ (delivered_copy x).action
  unfolding marked delivered_copy deliver_row
  marked-copy rs x taken = elim (Bool-cases (is_queued x.action.state)) [
    | inl e ↦ rw (taken e, e)
    | inr e ↦ elim (Bool-cases (seen queued_both (deliver_row now) rs x)) [
      | inl t ↦ absurd (ground (arith, seen_queued uuid now rs x t))
      | inr t ↦ rw (t, e)
    ]
  ]

  sees_itself :
      (rs : List Row)
      → All
          (λ x. is_queued x.action.state ≡ true → seen queued_both (deliver_row now) rs x ≡ true)
          rs
  unfolding any_row queued_both is_queued_id
  sees_itself [] = tt
  sees_itself (r ∷ rs) = (
    λ e. rw (e, str_eq_refl (row_id r)),
    All-impl (λ x h e. ground (arith, h e)) rs (sees_itself rs),
  )

  copy-Recorded :
      (s : Store) (rs : List Row) (x : Row)
      → (row_of (row_id x) s ≡ some x)
        × (is_queued x.action.state ≡ true → seen queued_both (deliver_row now) rs x ≡ true)
      → is_deliverable host now x ≡ true
      → Recorded host now (mark_all uuid now rs s) (delivered_copy x)
  unfolding delivered_copy is_deliverable
  copy-Recorded s rs x (found, taken) passed = (
    str_eq→eq x.action.canonical_host host (ground arith),
    delivered_state x.action.state (ground arith),
    ltb_ℤ→lt now x.action.expires_at_ms (ground arith),
    (
      marked x rs,
      ap (find_row (has_id (row_id x))) (mark_all-outbox uuid now rs s)
          ∙ unfold marked in
            find_row-update_where (has_id (row_id x)) (seen queued_both (deliver_row now) rs)
              (deliver_row now) s.outbox (λ y. unfold deliver_row in refl) found,
      marked-copy rs x taken,
    ),
  )

  -- Every action of a reply belongs to the host and is not due, and is stored as delivered.
  pub deliver-Recorded :
      (s : Store)
      → pos 0 ≤ℤ now
      → IsValid s
      → All (Recorded host now (deliver uuid host now s).0) (deliver uuid host now s).1
  unfolding deliver
  deliver-Recorded s p v =
      let swept = expire_actions uuid now s in
      let rs = selected host now swept in
      let d = (expire_actions-IsValid uuid now p s v).one_id in
      All-map (Recorded host now (mark_all uuid now rs swept)) delivered_copy rs (
        All-impl (λ x h. copy-Recorded swept rs x h.0 h.1) rs
          (All-zip _ _ rs (All-zip _ _ rs (rows-self swept d) (sees_itself rs))
            (rows-deliverable swept)))
    where
      rows-self :
          (t : Store)
          → Distinct (ids t.outbox)
          → All (λ x. row_of (row_id x) t ≡ some x) (selected host now t)
      rows-self t d =
          unfold selected in
          All-take _ 20 _ (
            All-order_by _ older _ (
              All-select_keep _ (is_deliverable host now) t.outbox (
                find_row_self row_id (λ r. has_id (row_id r))
                  (λ r x. str_eq→eq (row_id x) (row_id r)) (λ r. str_eq_refl (row_id r)) t.outbox
                  d)))

      rows-deliverable :
          (t : Store) → All (λ x. is_deliverable host now x ≡ true) (selected host now t)
      rows-deliverable t =
          unfold selected in
          All-take _ 20 _
            (All-order_by _ older _ (All-select _ (is_deliverable host now) t.outbox (λ x e. e)))
