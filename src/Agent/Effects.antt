-- ===== src/Agent/Effects.antt =====
-- What one statement and one execution do to the ledger and to the log of WTS calls.
use lisstech_drain_ctl.Prelude.{
  suc, String, Bool, true, false, not, ◌||◌, ◌≡◌, ◌≤◌, refl, sym, ap, ◌∙◌, inl, inr, ◌⊎◌, Option,
  none, some, ◌∷◌, arith, Bool-cases, str_eq, str_eq_refl,
}
use mathlib.Core.Path.{subst}
use lisstech_drain_ctl.Prelude.Int.{ℤ, pos, ◌<ℤ◌, ltb_ℤ, leb_ℤ, eqb_ℤ, leb_ℤ→gt}
use lisstech_drain_ctl.Prelude.Rows.{All, All-update_where, any_row, update_where}
use lisstech_drain_ctl.Prelude.Distinct.{any_row-update_where}
use lisstech_drain_ctl.Action.{
  Outcome, outcome_valid, ActionType, disconnect, logoff, message, other_type,
}
use lisstech_drain_ctl.Agent.{
  LedgerEntry, PendingAction, WtsCall, LoggedCall, Lookup, lookup_error, no_logon, logon_at, Env,
  World, has_entry, after_statement,
}
use lisstech_drain_ctl.Agent.Ledger.{
  bad_claim, claim, Claim, entry, retained_or_error, claimed_now, complete, new_entry,
  is_open_entry, close_entry,
}
use lisstech_drain_ctl.Agent.Executor.{
  after_claim, call_wts, call_in_time, perform_type, perform, after_lookup, attempt,
  record_terminal, execute, tick,
}

abbrev pub present : String → World → Bool
present i w = any_row (has_entry i) w.ledger

-- Every entry of the action `i` has its expiry.
abbrev pub Expiry : String → ℤ → World → Type 0
Expiry i e w = All (λ x. x.action_id ≡ i → x.expires_at_ms ≡ e) w.ledger

-- The ledger still has what it had of `i`, and the clock has not gone back.
abbrev pub Kept : String → ℤ → World → World → Type 0
Kept i e w t =
    (Expiry i e w → Expiry i e t) × (present i w ≡ true → present i t ≡ true) × (w.ticks ≤ t.ticks)

Kept-trans : (i : String) (e : ℤ) (w t u : World) → Kept i e w t → Kept i e t u → Kept i e w u
Kept-trans i e w t u h k = (λ x. k.0 (h.0 x), λ x. k.1 (h.1 x), omega (arith, h.2, k.2))

abbrev pub logged : String → WtsCall → LoggedCall
logged id c = record { on_behalf_of = id; call = c }

-- One call for `id`, made before its expiry, or none.
abbrev pub Called : String → ℤ → ℤ → World → World → Type 0
Called id expires now w t =
    (t.calls ≡ w.calls) ⊎ ((now <ℤ expires) × ((c : WtsCall) × (t.calls ≡ logged id c ∷ w.calls)))

module _ (env : Env) (i : String) (e : ℤ) where
  complete-Kept :
      (id : String) (o : Outcome) (at : ℤ) (w : World)
      → Kept i e w (complete env id o at w).0 × ((complete env id o at w).0.calls ≡ w.calls)
  unfolding complete
  complete-Kept id o at w =
      elim (Bool-cases (str_eq id "" || not (outcome_valid o) || ltb_ℤ at (pos 0))) [
        | inl a ↦ rw (complete, a) ((λ x. x, λ x. x, omega arith), refl)
        | inr a ↦ elim (Bool-cases (env.broken w.statements)) [
          | inl b ↦ rw (complete, a, b) ((λ x. x, λ x. x, omega arith), refl)
          | inr b ↦ elim (Bool-cases (any_row (is_open_entry id) w.ledger)) [
            | inl c ↦ rw (complete, a, b, c) ((closed, closed_present, omega arith), refl)
            | inr c ↦ rw (complete, a, b, c) ((λ x. x, λ x. x, omega arith), refl)
          ]
        ]
      ]
    where
      closed :
          Expiry i e w
          → All
              (λ x. x.action_id ≡ i → x.expires_at_ms ≡ e)
              (update_where (is_open_entry id) (close_entry o at) w.ledger)
      closed h =
          All-update_where (λ (x : LedgerEntry). x.action_id ≡ i → x.expires_at_ms ≡ e)
            (is_open_entry id) (close_entry o at) w.ledger (λ x t same. same) h

      closed_present :
          present i w ≡ true
          → any_row (has_entry i) (update_where (is_open_entry id) (close_entry o at) w.ledger)
            ≡ true
      closed_present h =
          any_row-update_where (has_entry i) (is_open_entry id) (close_entry o at) w.ledger
            (λ x. refl)
          ∙ h

module _ (env : Env) where
  -- The switch makes at most one call.
  abbrev OneCall : String → World → World → Type 0
  OneCall id w t =
      (t.ledger ≡ w.ledger)
      × (w.ticks ≤ t.ticks)
      × ((t.calls ≡ w.calls) ⊎ ((c : WtsCall) × (t.calls ≡ logged id c ∷ w.calls)))

  call_in_time-OneCall :
      (p : PendingAction) (c : WtsCall) (w : World)
      → OneCall p.action_id w (call_in_time env p c w).0
  unfolding call_in_time call_wts
  call_in_time-OneCall p c w = elim (Bool-cases (leb_ℤ p.expires_at_ms (env.clock w.ticks))) [
    | inl b ↦ rw b (refl, omega arith, inl refl)
    | inr b ↦ rw b (refl, omega arith, inr (c, refl))
  ]

  perform_type-OneCall :
      (p : PendingAction) (a : ActionType) (m : Option String) (w : World)
      → OneCall p.action_id w (perform_type env p a m w).0
  unfolding perform_type
  perform_type-OneCall p disconnect m w = call_in_time-OneCall p _ w
  perform_type-OneCall p logoff m w = call_in_time-OneCall p _ w
  perform_type-OneCall p message none w = (refl, omega arith, inl refl)
  perform_type-OneCall p message (some text) w = call_in_time-OneCall p _ w
  perform_type-OneCall p (other_type t) m w = (refl, omega arith, inl refl)

  -- An attempt leaves the ledger, and makes a call only where the action was not due.
  abbrev pub Attempted : PendingAction → ℤ → World → World → Type 0
  Attempted p now w t =
      (t.ledger ≡ w.ledger) × (w.ticks ≤ t.ticks) × Called p.action_id p.expires_at_ms now w t

  pub attempt-Attempted :
      (p : PendingAction) (now : ℤ) (w : World) → Attempted p now w (attempt env p now w).0
  unfolding attempt perform
  attempt-Attempted p now w = elim (Bool-cases (leb_ℤ p.expires_at_ms now)) [
    | inl b ↦ rw (attempt, b) (refl, omega arith, inl refl)
    | inr b ↦
        rw (attempt, b)
          (looked_up (leb_ℤ→gt p.expires_at_ms now b) (env.lookup w.lookups p.session_id))
  ]
    where
      looked_up :
          (now <ℤ p.expires_at_ms)
          → (found : Lookup)
          → Attempted p now w (after_lookup env p found (record w { lookups = suc w.lookups })).0
      looked_up early lookup_error = (refl, omega arith, inl refl)
      looked_up early no_logon = (refl, omega arith, inl refl)
      looked_up early (logon_at t) = elim (Bool-cases (eqb_ℤ t p.expected_logon_at_ms)) [
        | inl c ↦
            let (same, later, made) =
              perform_type-OneCall p p.action_type p.message
                (record w { lookups = suc w.lookups }) in
            rw (after_lookup, c)
              (same, later, elim made [ inl q ↦ inl q | inr (x, q) ↦ inr (early, (x, q)) ])
        | inr c ↦ rw (after_lookup, c) (refl, omega arith, inl refl)
      ]

-- What one execution does: it keeps what the ledger has, and makes at most one call, on behalf of
-- its own action, in time, and only when the action had no entry, which it then has.
abbrev pub Executed : Env → String → ℤ → PendingAction → World → World → Type 0
Executed env i e p w t =
    Kept i e w t
    × ((t.calls ≡ w.calls)
        ⊎ ((present p.action_id w ≡ false)
            × (present p.action_id t ≡ true)
            × (env.clock w.ticks <ℤ p.expires_at_ms)
            × ((c : WtsCall) × (t.calls ≡ logged p.action_id c ∷ w.calls))))

-- The world after a claim that inserted its row.
abbrev pub claimed_world : Env → PendingAction → World → World
claimed_world env p w = record (after_statement (tick w)) {
  ledger = new_entry p.action_id p.expires_at_ms (env.clock w.ticks) ∷ w.ledger;
}

same_ledger-Kept :
    (i : String) (e : ℤ) (w t : World) → t.ledger ≡ w.ledger → w.ticks ≤ t.ticks → Kept i e w t
same_ledger-Kept i e w t same later = (
  λ h. subst (All (λ x. x.action_id ≡ i → x.expires_at_ms ≡ e)) (sym same) h,
  λ h. ap (any_row (has_entry i)) same ∙ h,
  later,
)

module _ (env : Env) (i : String) (e : ℤ) (p : PendingAction) (w : World) where
  terminal-Kept :
      (j : String) (v : World)
      → Kept j e v (after_claim env p (env.clock w.ticks) v claimed_now).0
        × ((after_claim env p (env.clock w.ticks) v claimed_now).0.calls
            ≡ (attempt env p (env.clock w.ticks) v).0.calls)
  unfolding after_claim record_terminal
  terminal-Kept j v =
      let u = (attempt env p (env.clock w.ticks) v).0 in
      let o = (attempt env p (env.clock w.ticks) v).1 in
      let (same, later, made) = attempt-Attempted env p (env.clock w.ticks) v in
      let (kept, calls) = complete-Kept env j e p.action_id o (env.clock u.ticks) (tick u) in
      (
        Kept-trans j e v (tick u) (complete env p.action_id o (env.clock u.ticks) (tick u)).0
            (same_ledger-Kept j e v (tick u) same (omega (arith, later))) kept,
        calls,
      )

  claimed-Kept : (p.action_id ≡ i → p.expires_at_ms ≡ e) → Kept i e w (claimed_world env p w)
  unfolding any_row
  claimed-Kept same = (λ h. (same, h), λ h. ground arith, omega arith)

  claimed_run :
      (p.action_id ≡ i → p.expires_at_ms ≡ e)
      → present p.action_id w ≡ false
      → Executed env i e p w
          (after_claim env p (env.clock w.ticks) (claimed_world env p w) claimed_now).0
  claimed_run same free =
      let v = claimed_world env p w in
      let (kept, calls) = terminal-Kept i v in
      let (mine, _) = terminal-Kept p.action_id v in
      let (_, _, made) = attempt-Attempted env p (env.clock w.ticks) v in
      (
        Kept-trans i e w v (after_claim env p (env.clock w.ticks) v claimed_now).0
            (claimed-Kept same) kept,
        elim made [
          | inl q ↦ inl (calls ∙ q)
          | inr (early, found) ↦ inr (
            free,
            mine.1 (unfold any_row in rw (str_eq_refl p.action_id)),
            early,
            (found.0, calls ∙ found.1),
          )
        ],
      )

  quiet :
      (v : World)
      → v.ledger ≡ w.ledger
      → v.calls ≡ w.calls
      → w.ticks ≤ v.ticks
      → Executed env i e p w v
  quiet v same calls later = (same_ledger-Kept i e w v same later, inl calls)

  retained_run :
      (found : Option LedgerEntry)
      → Executed env i e p w
          (after_claim env p
            (env.clock w.ticks)
            (after_statement (after_statement (tick w)))
            (retained_or_error found)).0
  unfolding after_claim entry
  retained_run none = quiet (after_statement (after_statement (tick w))) refl refl (omega arith)
  retained_run (some x) =
      quiet (after_statement (after_statement (after_statement (tick w)))) refl refl (omega arith)

  pub claim-present :
      bad_claim p.action_id p.expires_at_ms (env.clock w.ticks) ≡ false
      → env.broken w.statements ≡ false
      → present p.action_id w ≡ true
      → claim env p.action_id p.expires_at_ms (env.clock w.ticks) (tick w) ≡ (
        after_statement (after_statement (tick w)),
        retained_or_error (entry env p.action_id (after_statement (tick w))).1,
      )
  unfolding claim entry
  claim-present a b c = rw (a, b, c)

  pub claim-absent :
      bad_claim p.action_id p.expires_at_ms (env.clock w.ticks) ≡ false
      → env.broken w.statements ≡ false
      → present p.action_id w ≡ false
      → claim env p.action_id p.expires_at_ms (env.clock w.ticks) (tick w)
        ≡ (claimed_world env p w, claimed_now)
  unfolding claim
  claim-absent a b c = rw (a, b, c)

  abbrev Answered : World × Claim → Type 0
  Answered r = Executed env i e p w (after_claim env p (env.clock w.ticks) r.0 r.1).0

  -- Every execution of an action that has the expiry `e` if it is `i`.
  pub execute-Executed :
      (p.action_id ≡ i → p.expires_at_ms ≡ e) → Executed env i e p w (execute env p w).0
  unfolding execute
  execute-Executed same =
      elim (Bool-cases (bad_claim p.action_id p.expires_at_ms (env.clock w.ticks))) [
        | inl a ↦ unfold claim after_claim in rw a (quiet (tick w) refl refl (omega arith))
        | inr a ↦ elim (Bool-cases (env.broken w.statements)) [
          | inl b ↦
              unfold claim after_claim in
              rw (a, b) (quiet (after_statement (tick w)) refl refl (omega arith))
          | inr b ↦ elim (Bool-cases (present p.action_id w)) [
            | inl c ↦ subst Answered (sym (claim-present a b c)) (retained_run _)
            | inr c ↦ subst Answered (sym (claim-absent a b c)) (claimed_run same c)
          ]
        ]
      ]
