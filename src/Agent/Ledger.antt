-- ===== src/Agent/Ledger.antt =====
-- The agent's durable ledger (internal/telemetry/session_action_ledger.go).
use lisstech_drain_ctl.Prelude.{
  ℕ, zero, suc, String, Bool, true, false, not, ◌&&◌, ◌||◌, Option, none, some, List, ◌∷◌, str_eq,
  str_le, if◌then◌else◌, length, take,
}
use lisstech_drain_ctl.Prelude.Int.{ℤ, pos, ltb_ℤ, leb_ℤ, eqb_ℤ, ◌-ℤ◌}
use lisstech_drain_ctl.Prelude.Rows.{
  select, update_where, delete_where, find_row, any_row, order_by,
}
use lisstech_drain_ctl.Action.{Outcome, outcome_valid}
use lisstech_drain_ctl.Agent.{
  LedgerEntry, claimed, terminal, Env, World, has_entry, is_claimed, is_terminal, after_statement,
}

-- Entry: `none` is an error, also for a row that is not there.
unfoldable pub entry : Env → String → World → World × Option LedgerEntry
entry env id w =
    (after_statement w, if env.broken w.statements then none else find_row (has_entry id) w.ledger)

-- What Claim returns: it was claimed now, the entry that was there before, or an error.
pub data Claim : Type 0 where
  claimed_now claim_error : Claim
  retained : LedgerEntry → Claim

abbrev pub retained_or_error : Option LedgerEntry → Claim
retained_or_error none = claim_error
retained_or_error (some x) = retained x

abbrev pub bad_claim : String → ℤ → ℤ → Bool
bad_claim id expires at = str_eq id "" || ltb_ℤ expires (pos 0) || ltb_ℤ at (pos 0)

-- The row of `INSERT … VALUES (?, 'claimed', ?, ?)`.
abbrev pub new_entry : String → ℤ → ℤ → LedgerEntry
new_entry id expires at = record {
  action_id = id;
  state = claimed;
  outcome = none;
  claimed_at_ms = at;
  completed_at_ms = none;
  expires_at_ms = expires;
}

-- Claim
unfoldable pub claim : Env → String → ℤ → ℤ → World → World × Claim
unfolding entry
claim env id expires at w =
    let w1 = after_statement w in
    if bad_claim id expires at
    then (w, claim_error)
    else if env.broken w.statements
    then (w1, claim_error)
    else if any_row (has_entry id) w.ledger
    then (let (w2, found) = entry env id w1 in (w2, retained_or_error found))
    else (record w1 { ledger = new_entry id expires at ∷ w.ledger }, claimed_now)

-- `WHERE action_id = ? AND state = 'claimed'`
abbrev pub is_open_entry : String → LedgerEntry → Bool
is_open_entry id x = has_entry id x && is_claimed x.state

-- `SET state = 'terminal', outcome = ?, completed_at_ms = ?`
abbrev pub close_entry : Outcome → ℤ → LedgerEntry → LedgerEntry
close_entry o at x = record x { state = terminal; outcome = some o; completed_at_ms = some at }

abbrev pub found_terminal : Option LedgerEntry → Bool
found_terminal none = false
found_terminal (some x) = is_terminal x.state

-- Complete: false is an error.
unfoldable pub complete : Env → String → Outcome → ℤ → World → World × Bool
unfolding entry
complete env id o at w =
    let w1 = after_statement w in
    if str_eq id "" || not (outcome_valid o) || ltb_ℤ at (pos 0)
    then (w, false)
    else if env.broken w.statements
    then (w1, false)
    else if any_row (is_open_entry id) w.ledger
    then (record w1 { ledger = update_where (is_open_entry id) (close_entry o at) w.ledger }, true)
    else (let (w2, found) = entry env id w1 in (w2, found_terminal found))

-- `WHERE action_id = ? AND state = 'terminal'`
abbrev pub is_closed_entry : String → LedgerEntry → Bool
is_closed_entry id x = has_entry id x && is_terminal x.state

-- Acknowledge: false is an error.
unfoldable pub acknowledge : Env → String → World → World × Bool
acknowledge env id w =
    let w1 = after_statement w in
    if env.broken w.statements
    then (w1, false)
    else (record w1 { ledger = delete_where (is_closed_entry id) w.ledger }, true)

-- `ORDER BY expires_at_ms, action_id`
abbrev pub expires_first : LedgerEntry → LedgerEntry → Bool
expires_first x y =
    ltb_ℤ x.expires_at_ms y.expires_at_ms
    || (eqb_ℤ x.expires_at_ms y.expires_at_ms && str_le x.action_id y.action_id)

-- The subquery of Cleanup: the rows that one run deletes.
unfoldable pub cleanup_rows : ℤ → ℕ → List LedgerEntry → List LedgerEntry
cleanup_rows cutoff limit xs =
    take limit (order_by expires_first (select (λ x. leb_ℤ x.expires_at_ms cutoff) xs))

-- Cleanup at the time `now`: `none` is an error. A limit of 0 or less is `zero`.
unfoldable pub cleanup : Env → ℤ → ℤ → ℕ → World → World × Option ℕ
unfolding cleanup_rows
cleanup env now retention zero w = (w, none)
cleanup env now retention (suc n) w =
    let w1 = after_statement w in
    let rows = cleanup_rows (now -ℤ retention) (suc n) w.ledger in
    if ltb_ℤ retention (pos 0) then (w, none) else if env.broken w.statements then (w1, none) else (
      record w1 { ledger = delete_where (λ x. any_row (has_entry x.action_id) rows) w.ledger },
      some (length rows),
    )
