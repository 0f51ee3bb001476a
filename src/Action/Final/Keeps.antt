-- ===== src/Action/Final/Keeps.antt =====
-- An action that has ended stays as it ended.
use lisstech_drain_ctl.Prelude.{
  ℕ, zero, suc, String, Bool, true, false, ◌≡◌, sym, ap, ◌∙◌, inl, inr, ◌⊎◌, none, some, arith,
  Option-cases, Bool-cases, str_eq→eq, some_inj, refl, Option, List, [], ◌∷◌, take,
}
use mathlib.Core.Path.{subst}
use lisstech_drain_ctl.Prelude.Int.{ℤ, pos, ◌≤ℤ◌, ◌<ℤ◌, ltb_ℤ→lt}
use lisstech_drain_ctl.Prelude.Rows.{
  find_row, find_row-test, any_row, select, order_by, All, All-take, All-order_by, All-select,
  All-select_keep,
}
use lisstech_drain_ctl.Prelude.Distinct.{find_row_unique}
use lisstech_drain_ctl.Prelude.Find.{find_row-delete_where}
use lisstech_drain_ctl.Action.{ActionStatus, Outcome}
use lisstech_drain_ctl.Action.Store.{Row, Store, row_id, has_id, expire_actions}
use lisstech_drain_ctl.Action.Outbox.{EnqueueInput, enqueue}
use lisstech_drain_ctl.Action.Outbox.Target.{ok}
use lisstech_drain_ctl.Action.Lifecycle.{
  deliver, complete, expire, cancel_for_privacy, purge_snapshots_for_privacy, retain, selected,
  is_stale, done_before, ended_first,
}
use lisstech_drain_ctl.Action.Valid.{IsValid}
use lisstech_drain_ctl.Action.Valid.Steps.{expire_actions-IsValid}
use lisstech_drain_ctl.Action.Valid.Enqueue.{enqueue-ok, insert_action-ok}
use lisstech_drain_ctl.Action.History.{
  Step, enqueues, delivers, completes, expires, cancels, purges, retains,
}
use lisstech_drain_ctl.Action.Final.{
  row_of, Ended, transition-Ended, swept-Ended, mark_all-Ended, complete_row-Ended, inserted_kept,
}

any_row-All :
    {P : Row → Type 0} (p : Row → Bool) (xs : List Row)
    → All P xs
    → any_row p xs ≡ true
    → (x : Row) × (p x ≡ true) × P x
unfolding any_row
any_row-All p [] h = λ e. absurd (ground arith)
any_row-All p (x ∷ xs) h = elim (Bool-cases (p x)) [
  | inl t ↦ rw t λ e. (x, t, h.0)
  | inr t ↦ rw t λ e. any_row-All p xs h.1 e
]

All-both : (P Q : Row → Type 0) (xs : List Row) → All P xs → All Q xs → All (λ x. P x × Q x) xs
All-both P Q [] h k = tt
All-both P Q (x ∷ xs) h k = ((h.0, k.0), All-both P Q xs h.1 k.1)

-- The action ended before the time.
abbrev pub DoneBefore : ℤ → Row → Type 0
DoneBefore tb r = (c : ℤ) × (r.completed_at_ms ≡ some c) × (c <ℤ tb)

done_before-lt :
    (c : Option ℤ) (tb : ℤ) → done_before c tb ≡ true → (d : ℤ) × (c ≡ some d) × (d <ℤ tb)
done_before-lt none tb h = absurd (ground arith)
done_before-lt (some c) tb h = (c, refl, ltb_ℤ→lt c tb h)

is_stale-DoneBefore : (tb : ℤ) (r : Row) → is_stale tb r ≡ true → DoneBefore tb r
unfolding is_stale
is_stale-DoneBefore tb r h = done_before-lt r.completed_at_ms tb (ground arith)

-- The transaction is a retention whose limit is after the end of the action of the row.
abbrev pub Retires : {uuid : ℕ → String} {s t : Store} → Row → Step uuid s t → Type 0
Retires r (retains tb ab n e) = DoneBefore tb r
Retires r (enqueues input small e same) = ⊥
Retires r (delivers host now p same) = ⊥
Retires r (completes host done o now p same) = ⊥
Retires r (expires now p same) = ⊥
Retires r (cancels now p same) = ⊥
Retires r (purges now p same) = ⊥

module _ (uuid : ℕ → String) (id : String) {r : Row} (ended : Ended r) where
  enqueue_keeps :
      (input : EnqueueInput) (s : Store) {q : ActionStatus × Bool × Store}
      → enqueue uuid input s ≡ ok q
      → row_of id s ≡ some r
      → row_of id q.2 ≡ some r
  enqueue_keeps input s e found = elim (enqueue-ok uuid input s e).1 [
    | inl (x, _, _, same) ↦
        subst (λ (q : ActionStatus × Bool × Store). row_of id q.2 ≡ some r) (sym same) found
    | inr (_, done) ↦
        let (free, same) = insert_action-ok uuid input s done in
        subst (λ (q : ActionStatus × Bool × Store). row_of id q.2 ≡ some r) (sym same)
          (inserted_kept uuid id input s free found)
  ]

  complete_keeps :
      (host done : String) (o : Outcome) (now : ℤ) (s : Store)
      → pos 0 ≤ℤ now
      → IsValid s
      → row_of id s ≡ some r
      → row_of id (complete uuid host done o now s).0 ≡ some r
  unfolding complete
  complete_keeps host done o now s p v found =
      let swept = expire_actions uuid now s in
      elim (Option-cases (find_row (has_id done) swept.outbox)) [
        | inl e ↦ rw (e, complete) found
        | inr (q, e) ↦
            let same : row_id q ≡ done =
              str_eq→eq (row_id q) done (find_row-test (has_id done) swept.outbox e) in
            rw (e, complete)
              (complete_row-Ended uuid id host o now q swept
                (expire_actions-IsValid uuid now p s v).one_id
                (subst (λ k. row_of k swept ≡ some q) (sym same) e) ended
                (swept-Ended uuid id now s v.one_id ended found))
      ]

  -- The rows that the retention selects and that have the id are `r`, which is stale then.
  retained_stale :
      (tb : ℤ) (n : ℕ) (s : Store)
      → IsValid s
      → row_of id s ≡ some r
      → any_row (has_id (row_id r)) (take n (order_by ended_first (select (is_stale tb) s.outbox)))
        ≡ true
      → is_stale tb r ≡ true
  retained_stale tb n s v found hit =
      let here : row_id r ≡ id =
        str_eq→eq (row_id r) id (find_row-test (has_id id) s.outbox found) in
      let only =
        find_row_unique row_id id (has_id id) s.outbox (λ x. str_eq→eq (row_id x) id) v.one_id
          found in
      let P : Row → Type 0 = λ x. (is_stale tb x ≡ true) × (has_id id x ≡ true → x ≡ r) in
      let (x, same, (stale, one)) =
        any_row-All (has_id id) _
          (All-take P n _ (
            All-order_by P ended_first _ (
              All-both _ _ (select (is_stale tb) s.outbox)
                (All-select (λ y. is_stale tb y ≡ true) (is_stale tb) s.outbox (λ y h. h))
                (All-select_keep (λ y. has_id id y ≡ true → y ≡ r) (is_stale tb) s.outbox only))))
          (subst
            (λ k.
              any_row (has_id k) (take n (order_by ended_first (select (is_stale tb) s.outbox)))
              ≡ true)
            here hit) in
      subst (λ y. is_stale tb y ≡ true) (one same) stale

  retain_keeps :
      (tb ab : ℤ) (n : ℕ) (s : Store) {t : Store} {i j : ℕ}
      → retain tb ab n s ≡ some (t, i, j)
      → IsValid s
      → row_of id s ≡ some r
      → (row_of id t ≡ some r) ⊎ (DoneBefore tb r × (row_of id t ≡ none))
  unfolding retain
  retain_keeps tb ab zero s e v found = absurd (ground arith)
  retain_keeps tb ab (suc n) s {t} e v found =
      let rows = take (suc n) (order_by ended_first (select (is_stale tb) s.outbox)) in
      let taken : Row → Bool = λ x. any_row (has_id (row_id x)) rows in
      let after =
        find_row-delete_where row_id id (has_id id) taken s.outbox (λ x. str_eq→eq (row_id x) id)
          v.one_id found in
      subst (λ u. (row_of id u ≡ some r) ⊎ (DoneBefore tb r × (row_of id u ≡ none)))
        (ap (λ (q : Store × ℕ × ℕ). q.0) (some_inj e))
        (elim (Bool-cases (taken r)) [
          | inl h ↦
              inr (is_stale-DoneBefore tb r (retained_stale tb (suc n) s v found h), after ∙ rw h)
          | inr h ↦ inl (after ∙ rw h)
        ])

  -- Whatever transaction comes next, the row of an action that has ended is the same row after it, unless
  -- the transaction is a retention whose limit is after the end of the action, which may delete the row.
  pub Step-ended :
      {s t : Store} (step : Step uuid s t)
      → IsValid s
      → row_of id s ≡ some r
      → (row_of id t ≡ some r) ⊎ (Retires r step × (row_of id t ≡ none))
  Step-ended {s} (enqueues input small e same) v found =
      inl (ap (row_of id) same ∙ enqueue_keeps input s e found)
  Step-ended {s} (delivers host now p same) v found = inl (
      ap (row_of id) same
      ∙ unfold deliver in
        mark_all-Ended uuid id now (selected host now (expire_actions uuid now s)) _ ended
          (swept-Ended uuid id now s v.one_id ended found))
  Step-ended {s} (completes host done o now p same) v found =
      inl (ap (row_of id) same ∙ complete_keeps host done o now s p v found)
  Step-ended {s} (expires now p same) v found = inl (
      ap (row_of id) same
      ∙ unfold expire in transition-Ended uuid id now "expired" true s v.one_id ended found)
  Step-ended {s} (cancels now p same) v found = inl (
      ap (row_of id) same
      ∙ unfold cancel_for_privacy in
        transition-Ended uuid id now "privacy_policy_changed" false s v.one_id ended found)
  Step-ended {s} (purges now p same) v found = inl (
      ap (row_of id) same
      ∙ unfold purge_snapshots_for_privacy in
        transition-Ended uuid id now "privacy_policy_changed" false _ v.one_id ended found)
  Step-ended {s} (retains tb ab n e) v found = retain_keeps tb ab n s e v found
