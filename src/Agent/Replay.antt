-- ===== src/Agent/Replay.antt =====
-- A redelivered action is answered with its first outcome.
use lisstech_drain_ctl.Prelude.{
  ℕ, suc, true, false, ◌||◌, not, ◌≡◌, ◌≤◌, refl, sym, ap, ◌∙◌, inl, inr, Option, none, some, List,
  ◌∷◌, arith, Bool-cases, str_eq, str_eq_refl, some_inj,
}
use mathlib.Core.Path.{subst}
use mathlib.Core.Bool.{false≢true}
use lisstech_drain_ctl.Prelude.Int.{ℤ, pos, ltb_ℤ}
use lisstech_drain_ctl.Prelude.Rows.{find_row, any_row, any_row-find_row, update_where}
use lisstech_drain_ctl.Action.{Outcome, outcome_valid}
use lisstech_drain_ctl.Agent.{
  LedgerEntry, terminal, PendingAction, CompletedAction, Env, World, has_entry, after_statement,
}
use lisstech_drain_ctl.Agent.Ledger.{
  bad_claim, claim, Claim, claimed_now, entry, complete, is_open_entry, close_entry,
  retained_or_error, new_entry,
}
use lisstech_drain_ctl.Agent.Executor.{
  tick, execute, after_claim, record_terminal, attempt, completed_action,
}
use lisstech_drain_ctl.Agent.Effects.{
  present, claimed_world, claim-absent, claim-present, attempt-Attempted,
}

module _ (env : Env) (p : PendingAction) where
  -- The ledger holds the outcome `o` of the action.
  abbrev pub Settled : Outcome → World → Type 0
  Settled o w =
      (x : LedgerEntry) × (find_row (has_entry p.action_id) w.ledger ≡ some x)
      × (x.state ≡ terminal)
      × (x.outcome ≡ some o)

  abbrev own_entry : ℤ → ℤ → LedgerEntry
  own_entry expires made = new_entry p.action_id expires made

  head_opened :
      (xs rest : List LedgerEntry) (expires made : ℤ)
      → xs ≡ own_entry expires made ∷ rest
      → any_row (is_open_entry p.action_id) xs ≡ true
  unfolding any_row
  head_opened xs rest expires made is = rw (is, str_eq_refl p.action_id)

  head_closed :
      (o : Outcome) (at : ℤ) (xs rest : List LedgerEntry) (expires made : ℤ)
      → xs ≡ own_entry expires made ∷ rest
      → find_row
          (has_entry p.action_id)
          (update_where (is_open_entry p.action_id) (close_entry o at) xs)
        ≡ some (close_entry o at (own_entry expires made))
  unfolding find_row update_where
  head_closed o at xs rest expires made is =
      rw (is, str_eq_refl p.action_id, str_eq_refl p.action_id)

  complete-Settled :
      (o : Outcome) (at : ℤ) (w : World) (rest : List LedgerEntry) (expires made : ℤ)
      → w.ledger ≡ own_entry expires made ∷ rest
      → (complete env p.action_id o at w).1 ≡ true
      → Settled o (complete env p.action_id o at w).0
  unfolding complete
  complete-Settled o at w rest expires made is stored =
      elim (Bool-cases (str_eq p.action_id "" || not (outcome_valid o) || ltb_ℤ at (pos 0))) [
        | inl a ↦ absurd (false≢true (rw (complete, a) at stored))
        | inr a ↦ elim (Bool-cases (env.broken w.statements)) [
          | inl b ↦ absurd (false≢true (rw (complete, a, b) at stored))
          | inr b ↦
              rw (complete, a, b, head_opened w.ledger rest expires made is)
                (
                  close_entry o at (own_entry expires made),
                  head_closed o at w.ledger rest expires made is,
                  refl,
                  refl,
                )
        ]
      ]

  -- What a report says is in the ledger.
  abbrev Reported : CompletedAction → World × Option CompletedAction → Type 0
  Reported c r = r.1 ≡ some c → Settled c.outcome r.0 × (c ≡ completed_action p.action_id c.outcome)

  none≢some : (c : CompletedAction) → ¬ (none ≡ some c)
  none≢some c h = cc

  terminal-Settled :
      (o : Outcome) (w : World) (rest : List LedgerEntry) (expires made : ℤ) (c : CompletedAction)
      → w.ledger ≡ own_entry expires made ∷ rest
      → Reported c (record_terminal env p.action_id o w)
  unfolding record_terminal
  terminal-Settled o w rest expires made c is reported =
      elim (Bool-cases (complete env p.action_id o (env.clock w.ticks) (tick w)).1) [
        | inl e ↦
            let same : completed_action p.action_id o ≡ c = some_inj (rw e at reported) in
            (
              subst
                  (λ (d : CompletedAction).
                    Settled d.outcome (complete env p.action_id o (env.clock w.ticks) (tick w)).0)
                  same (complete-Settled o (env.clock w.ticks) (tick w) rest expires made is e),
              subst (λ (d : CompletedAction). d ≡ completed_action p.action_id d.outcome) same refl,
            )
        | inr e ↦ absurd (none≢some c (rw e at reported))
      ]

  -- An outcome is in the ledger before it is reported.
  execute-Settled :
      (w : World) (c : CompletedAction)
      → present p.action_id w ≡ false
      → Reported c (execute env p w)
  unfolding execute
  execute-Settled w c free reported =
      elim (Bool-cases (bad_claim p.action_id p.expires_at_ms (env.clock w.ticks))) [
        | inl a ↦ absurd (none≢some c (unfold claim after_claim in (rw a at reported)))
        | inr a ↦ elim (Bool-cases (env.broken w.statements)) [
          | inl b ↦ absurd (none≢some c (unfold claim after_claim in (rw (a, b) at reported)))
          | inr b ↦ subst Answer (sym (claim-absent env "" (pos 0) p w a b free)) settled reported
        ]
      ]
    where
      Answer : World × Claim → Type 0
      Answer r = Reported c (after_claim env p (env.clock w.ticks) r.0 r.1)

      settled : Answer (claimed_world env p w, claimed_now)
      settled =
          let v = claimed_world env p w in
          let u = attempt env p (env.clock w.ticks) v in
          unfold after_claim in
          terminal-Settled u.1 u.0 w.ledger p.expires_at_ms (env.clock w.ticks) c
            (attempt-Attempted env p (env.clock w.ticks) v).0

  -- A redelivery while the database answers reports the outcome of the ledger, and calls nothing.
  Settled-again :
      (o : Outcome) (w : World)
      → Settled o w
      → bad_claim p.action_id p.expires_at_ms (env.clock w.ticks) ≡ false
      → ((n : ℕ) → w.statements ≤ n → env.broken n ≡ false)
      → ((execute env p w).1 ≡ some (completed_action p.action_id o))
        × ((execute env p w).0.calls ≡ w.calls)
  unfolding execute
  Settled-again o w (x, found, closed, kept) a healthy =
      let here : present p.action_id w ≡ true =
        any_row-find_row (has_entry p.action_id) w.ledger found in
      subst
        (λ (r : World × Claim).
          ((after_claim env p (env.clock w.ticks) r.0 r.1).1
            ≡ some (completed_action p.action_id o))
          × ((after_claim env p (env.clock w.ticks) r.0 r.1).0.calls ≡ w.calls))
        (sym (claim-present env "" (pos 0) p w a (healthy w.statements (omega arith)) here))
        replayed
    where
      replayed :
          ((after_claim env p
              (env.clock w.ticks)
              (after_statement (after_statement (tick w)))
              (retained_or_error (entry env p.action_id (after_statement (tick w))).1)).1
            ≡ some (completed_action p.action_id o))
          × ((after_claim env p
                (env.clock w.ticks)
                (after_statement (after_statement (tick w)))
                (retained_or_error (entry env p.action_id (after_statement (tick w))).1)).0.calls
              ≡ w.calls)
      replayed =
          unfold after_claim entry in
          rw
            (
              healthy (suc w.statements) (omega arith),
              found,
              healthy (suc (suc w.statements)) (omega arith),
              found,
              closed,
              kept,
            )
            (refl, refl)

  -- When the first execution of an action has reported an outcome, executing it again directly after
  -- that, while the database answers and the arguments of the claim are in range, reports the same
  -- outcome and makes no WTS call.
  pub redelivery_replays :
      (w : World) (c : CompletedAction)
      → present p.action_id w ≡ false
      → (execute env p w).1 ≡ some c
      → bad_claim p.action_id p.expires_at_ms (env.clock (execute env p w).0.ticks) ≡ false
      → ((n : ℕ) → (execute env p w).0.statements ≤ n → env.broken n ≡ false)
      → ((execute env p (execute env p w).0).1 ≡ some c)
        × ((execute env p (execute env p w).0).0.calls ≡ (execute env p w).0.calls)
  redelivery_replays w c free reported a healthy =
      let (settled, same) = execute-Settled w c free reported in
      let (again, silent) = Settled-again c.outcome (execute env p w).0 settled a healthy in
      (again ∙ ap some (sym same), silent)
