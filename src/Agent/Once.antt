-- ===== src/Agent/Once.antt =====
-- A delivered action is carried out at most once, over redeliveries, faults, restarts and cleanups.
use lisstech_drain_ctl.Prelude.{
  ℕ, zero, suc, String, Bool, true, false, ◌≡◌, ◌≢◌, ◌≤◌, refl, sym, ap, ◌∙◌, inl, inr, ◌⊎◌, List,
  ◌∷◌, arith, Bool-cases, str_eq, str_eq→eq, length,
}
use mathlib.Core.Path.{subst}
use mathlib.Core.Bool.{false≢true}
use lisstech_drain_ctl.Prelude.Int.{ℤ, pos, ◌≤ℤ◌, ◌<ℤ◌, ltb_ℤ, leb_ℤ, leb_ℤ→le, ◌-ℤ◌, -ℤ_parts}
use lisstech_drain_ctl.Prelude.Rows.{
  All, All-delete_where, All-select, All-select_keep, All-order_by, All-take, select, any_row,
  delete_where,
}
use lisstech_drain_ctl.Prelude.Sorted.{All-zip}
use lisstech_drain_ctl.Prelude.Distinct.{any_row-All, any_row-deleted}
use lisstech_drain_ctl.Agent.{
  LedgerEntry, PendingAction, WtsCall, LoggedCall, Env, World, has_entry, after_statement,
}
use lisstech_drain_ctl.Agent.Ledger.{
  acknowledge, cleanup, cleanup_rows, is_closed_entry, expires_first,
}
use lisstech_drain_ctl.Agent.Executor.{execute, tick}
use lisstech_drain_ctl.Agent.Effects.{present, Expiry, execute-Executed, logged}

-- The number of WTS calls made on behalf of an action.
unfoldable pub calls_of : String → List LoggedCall → ℕ
calls_of i cs = length (select (λ c. str_eq c.on_behalf_of i) cs)

module _ (env : Env) (i : String) (e : ℤ) where
  -- What can happen to the agent while `i` is not acknowledged: an execution, of `i` always with the
  -- expiry `e`; the acknowledgement of another action; a cleanup. A restart loses nothing of this.
  pub data Turn (w t : World) : Type 0 where
    executes :
        (p : PendingAction)
        → (p.action_id ≡ i → p.expires_at_ms ≡ e)
        → t ≡ (execute env p w).0
        → Turn w t
    acknowledges : (id : String) → id ≢ i → t ≡ (acknowledge env id w).0 → Turn w t
    cleans :
        (retention : ℤ) (limit : ℕ)
        → pos 0 ≤ℤ retention
        → t ≡ (cleanup env (env.clock w.ticks) retention limit (tick w)).0
        → Turn w t

  pub data Turns (w : World) : World → Type 0 where
    here : Turns w w
    next : {t u : World} → Turns w t → Turn t u → Turns w u

  -- No call yet, or one, and then the ledger remembers the action or its time is over.
  abbrev pub Once : World → Type 0
  Once w =
      Expiry i e w
      × ((calls_of i w.calls ≡ 0)
          ⊎ ((calls_of i w.calls ≡ 1) × ((present i w ≡ true) ⊎ (e ≤ℤ env.clock w.ticks))))

  module _ (forward : (m n : ℕ) → m ≤ n → env.clock m ≤ℤ env.clock n) where
    -- The same log, and a ledger that may have lost the action once its time is over.
    Once-quiet :
        (w t : World)
        → Expiry i e t
        → calls_of i t.calls ≡ calls_of i w.calls
        → w.ticks ≤ t.ticks
        → (present i w ≡ true → (present i t ≡ true) ⊎ (e ≤ℤ env.clock w.ticks))
        → Once w
        → Once t
    Once-quiet w t known same later stays (_, counted) = (
      known,
      elim counted [
        | inl none_yet ↦ inl (same ∙ none_yet)
        | inr (one, why) ↦ inr (
          same ∙ one,
          elim why [
            | inl there ↦ elim (stays there) [
              | inl kept ↦ inl kept
              | inr over ↦ inr (omega (arith, over, forward w.ticks t.ticks later))
            ]
            | inr over ↦ inr (omega (arith, over, forward w.ticks t.ticks later))
          ],
        )
      ],
    )

    counts_mine :
        (id : String) (c : WtsCall) (cs : List LoggedCall)
        → str_eq id i ≡ true
        → calls_of i (logged id c ∷ cs) ≡ suc (calls_of i cs)
    unfolding calls_of select
    counts_mine id c cs t = rw t

    counts_other :
        (id : String) (c : WtsCall) (cs : List LoggedCall)
        → str_eq id i ≡ false
        → calls_of i (logged id c ∷ cs) ≡ calls_of i cs
    unfolding calls_of select
    counts_other id c cs t = rw t

    -- A call in time on behalf of an action with no entry is the first one.
    first_call :
        (w : World)
        → Once w
        → present i w ≡ false
        → {x : ℤ} → x ≡ e
        → env.clock w.ticks <ℤ x
        → calls_of i w.calls ≡ 0
    first_call w once free {x} is early = elim once.1 [
      | inl none_yet ↦ none_yet
      | inr (one, inl there) ↦ absurd (false≢true (sym free ∙ there))
      | inr (one, inr over) ↦
          let late : env.clock w.ticks <ℤ e = subst (λ z. env.clock w.ticks <ℤ z) is early in
          absurd (omega arith)
    ]

    execute-Once :
        (p : PendingAction) (w : World)
        → (p.action_id ≡ i → p.expires_at_ms ≡ e)
        → Once w
        → Once (execute env p w).0
    execute-Once p w same once =
        let (kept, made) = execute-Executed env i e p w same in
        elim made [
          | inl quiet ↦
              Once-quiet w (execute env p w).0 (kept.0 once.0) (ap (calls_of i) quiet) kept.2
                (λ h. inl (kept.1 h)) once
          | inr (free, there, early, (c, log)) ↦ elim (Bool-cases (str_eq p.action_id i)) [
            | inl mine ↦
                let id_eq = str_eq→eq p.action_id i mine in
                (
                  kept.0 once.0,
                  inr (
                    ap (calls_of i) log
                        ∙ counts_mine p.action_id c w.calls mine
                        ∙ ap suc (
                            first_call w once (subst (λ j. present j w ≡ false) id_eq free)
                              (same id_eq) early),
                    inl (subst (λ j. present j (execute env p w).0 ≡ true) id_eq there),
                  ),
                )
            | inr other ↦
                Once-quiet w (execute env p w).0 (kept.0 once.0)
                  (ap (calls_of i) log ∙ counts_other p.action_id c w.calls other) kept.2
                  (λ h. inl (kept.1 h)) once
          ]
        ]

    acknowledge-Once : (id : String) (w : World) → id ≢ i → Once w → Once (acknowledge env id w).0
    unfolding acknowledge
    acknowledge-Once id w other once = elim (Bool-cases (env.broken w.statements)) [
      | inl b ↦
          rw (acknowledge, b)
            (Once-quiet w (after_statement w) once.0 refl (omega arith) (λ h. inl h) once)
      | inr b ↦
          rw (acknowledge, b)
            (Once-quiet w
              (record (after_statement w) { ledger = delete_where (is_closed_entry id) w.ledger })
              (All-delete_where (λ x. x.action_id ≡ i → x.expires_at_ms ≡ e) (is_closed_entry id)
                w.ledger once.0)
              refl (omega arith) (λ h. inl (others_stay h)) once)
    ]
      where
        others_stay :
            present i w ≡ true
            → any_row (has_entry i) (delete_where (is_closed_entry id) w.ledger) ≡ true
        others_stay h =
            elim (Bool-cases (any_row (has_entry i) (delete_where (is_closed_entry id) w.ledger))) [
              | inl kept ↦ kept
              | inr lost ↦
                  let (x, a, b) =
                    any_row-deleted (has_entry i) (is_closed_entry id) w.ledger h lost in
                  absurd (
                    other
                      (sym (str_eq→eq x.action_id id (ground arith)) ∙ str_eq→eq x.action_id i a))
            ]

    -- A cleanup takes only actions whose time is over.
    cleaned :
        (n : ℕ) (retention : ℤ) (w : World)
        → pos 0 ≤ℤ retention
        → Expiry i e w
        → present i w ≡ true
        → (any_row (has_entry i) (
              delete_where
                (λ x.
                  any_row
                    (has_entry x.action_id)
                    (cleanup_rows (env.clock w.ticks -ℤ retention) (suc n) w.ledger))
                w.ledger)
            ≡ true)
          ⊎ (e ≤ℤ env.clock w.ticks)
    cleaned n retention w positive known there =
        elim (Bool-cases (any_row (has_entry i) (delete_where gone w.ledger))) [
          | inl kept ↦ inl kept
          | inr lost ↦
              let (x, a, b) = any_row-deleted (has_entry i) gone w.ledger there lost in
              let (y, c, (early, its)) =
                any_row-All
                  (λ y.
                    (leb_ℤ y.expires_at_ms cutoff ≡ true) × (y.action_id ≡ i → y.expires_at_ms ≡ e))
                  (has_entry x.action_id) (cleanup_rows cutoff (suc n) w.ledger) rows b in
              let is : y.expires_at_ms ≡ e =
                its (str_eq→eq y.action_id x.action_id c ∙ str_eq→eq x.action_id i a) in
              inr (over (subst (λ z. z ≤ℤ cutoff) is (leb_ℤ→le y.expires_at_ms cutoff early)))
        ]
      where
        cutoff : ℤ
        cutoff = env.clock w.ticks -ℤ retention

        gone : LedgerEntry → Bool
        gone x = any_row (has_entry x.action_id) (cleanup_rows cutoff (suc n) w.ledger)

        rows :
            All
              (λ y. (leb_ℤ y.expires_at_ms cutoff ≡ true) × (y.action_id ≡ i → y.expires_at_ms ≡ e))
              (cleanup_rows cutoff (suc n) w.ledger)
        rows =
            unfold cleanup_rows in
            All-take _ (suc n) _ (
              All-order_by _ expires_first _ (
                All-zip _ _ (select (λ y. leb_ℤ y.expires_at_ms cutoff) w.ledger)
                  (All-select _ (λ y. leb_ℤ y.expires_at_ms cutoff) w.ledger (λ y t. t))
                  (All-select_keep _ (λ y. leb_ℤ y.expires_at_ms cutoff) w.ledger known)))

        over : e ≤ℤ cutoff → e ≤ℤ env.clock w.ticks
        over h = omega (arith, h, positive, -ℤ_parts (env.clock w.ticks) retention)

    cleanup-Once :
        (retention : ℤ) (limit : ℕ) (w : World)
        → pos 0 ≤ℤ retention
        → Once w
        → Once (cleanup env (env.clock w.ticks) retention limit (tick w)).0
    unfolding cleanup
    cleanup-Once retention zero w positive once =
        Once-quiet w (tick w) once.0 refl (omega arith) (λ h. inl h) once
    cleanup-Once retention (suc n) w positive once = elim (Bool-cases (ltb_ℤ retention (pos 0))) [
      | inl a ↦ rw (cleanup, a) (Once-quiet w (tick w) once.0 refl (omega arith) (λ h. inl h) once)
      | inr a ↦ elim (Bool-cases (env.broken w.statements)) [
        | inl b ↦
            rw (cleanup, a, b)
              (Once-quiet w (after_statement (tick w)) once.0 refl (omega arith) (λ h. inl h) once)
        | inr b ↦
            rw (cleanup, a, b)
              (Once-quiet w
                (record (after_statement (tick w)) { ledger = delete_where gone w.ledger })
                (All-delete_where (λ x. x.action_id ≡ i → x.expires_at_ms ≡ e) gone w.ledger once.0)
                refl (omega arith) (cleaned n retention w positive once.0) once)
      ]
    ]
      where
        gone : LedgerEntry → Bool
        gone x =
            any_row (has_entry x.action_id)
              (cleanup_rows (env.clock w.ticks -ℤ retention) (suc n) w.ledger)

    pub Turn-Once : {w t : World} → Turn w t → Once w → Once t
    Turn-Once {w} (executes p same is) once = subst Once (sym is) (execute-Once p w same once)
    Turn-Once {w} (acknowledges id other is) once =
        subst Once (sym is) (acknowledge-Once id w other once)
    Turn-Once {w} (cleans retention limit positive is) once =
        subst Once (sym is) (cleanup-Once retention limit w positive once)

    Turns-Once : {w t : World} → Turns w t → Once w → Once t
    Turns-Once here once = once
    Turns-Once (next before turn) once = Turn-Once turn (Turns-Once before once)

    -- Where the clock does not run back, no call was made for the action before, and the ledger and
    -- every delivery have the same expiry for it, no sequence of executions, cleanups and
    -- acknowledgements of other actions makes more than one WTS call on its behalf.
    pub at_most_once :
        {w t : World} → Turns w t → Expiry i e w → calls_of i w.calls ≡ 0 → calls_of i t.calls ≤ 1
    at_most_once turns known none_yet = elim (Turns-Once turns (known, inl none_yet)).1 [
      | inl zero_calls ↦ omega (arith, zero_calls)
      | inr (one, why) ↦ omega (arith, one)
    ]
