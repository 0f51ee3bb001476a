-- ===== src/Agent/Executor.antt =====
-- SessionActionExecutor.Execute (sessions_actions_windows.go).
use lisstech_drain_ctl.Prelude.{suc, String, Bool, Option, none, some, ◌∷◌, if◌then◌else◌}
use lisstech_drain_ctl.Prelude.Int.{ℤ, leb_ℤ, eqb_ℤ}
use lisstech_drain_ctl.Action.{
  Outcome, duplicate, ActionType, logoff, message, disconnect, other_type,
}
use lisstech_drain_ctl.Agent.{
  LedgerEntry, LedgerState, claimed, terminal, PendingAction, CompletedAction, WtsCall,
  disconnect_session, logoff_session, send_message, Lookup, lookup_error, no_logon, logon_at, Env,
  World,
}
use lisstech_drain_ctl.Agent.Ledger.{
  claim, complete, entry, Claim, claimed_now, claim_error, retained,
}

-- executor.now()
abbrev pub tick : World → World
tick w = record w { ticks = suc w.ticks }

-- A WTS seam: the call is made, and its error, if any, is all that is used of its answer.
unfoldable pub call_wts : Env → String → WtsCall → World → World × Bool
call_wts env id c w =
    (record w { calls = record { on_behalf_of = id; call = c } ∷ w.calls }, env.wts w.ticks c)

-- The second look at the clock, then the call.
unfoldable pub call_in_time : Env → PendingAction → WtsCall → World → World × Outcome
unfolding call_wts
call_in_time env p c w =
    if leb_ℤ p.expires_at_ms (env.clock w.ticks)
    then (tick w, Outcome.expired)
    else (let (w1, done) = call_wts env p.action_id c (tick w) in
        (w1, if done then Outcome.completed else Outcome.failed))

-- The switch on the action's type.
unfoldable pub perform_type :
    Env → PendingAction → ActionType → Option String → World → World × Outcome
unfolding call_in_time
perform_type env p disconnect text w = call_in_time env p (disconnect_session p.session_id) w
perform_type env p logoff text w = call_in_time env p (logoff_session p.session_id) w
perform_type env p message none w = (w, Outcome.unsupported)
perform_type env p message (some text) w = call_in_time env p (send_message p.session_id text) w
perform_type env p (other_type t) text w = (w, Outcome.unsupported)

unfoldable pub perform : Env → PendingAction → World → World × Outcome
unfolding perform_type
perform env p w = perform_type env p p.action_type p.message w

-- The test of the looked-up logon time, then the switch.
unfoldable pub after_lookup : Env → PendingAction → Lookup → World → World × Outcome
unfolding perform
after_lookup env p lookup_error w = (w, Outcome.failed)
after_lookup env p no_logon w = (w, Outcome.failed)
after_lookup env p (logon_at t) w =
    if eqb_ℤ t p.expected_logon_at_ms then perform env p w else (w, Outcome.session_changed)

-- The outcome of an action that was claimed at `now`. Every path of Execute past the claim ends in
-- recordTerminal with it.
unfoldable pub attempt : Env → PendingAction → ℤ → World → World × Outcome
unfolding after_lookup
attempt env p now w =
    if leb_ℤ p.expires_at_ms now
    then (w, Outcome.expired)
    else (after_lookup env p (env.lookup w.lookups p.session_id)
        (record w { lookups = suc w.lookups }))

-- completedSessionAction
abbrev pub completed_action : String → Outcome → CompletedAction
completed_action id o = record { action_id = id; outcome = o }

-- recordTerminal: `none` is an error.
unfoldable pub record_terminal : Env → String → Outcome → World → World × Option CompletedAction
unfolding complete
record_terminal env id o w =
    let (w1, stored) = complete env id o (env.clock w.ticks) (tick w) in
    (w1, if stored then some (completed_action id o) else none)

-- The outcome reported for an entry that was there before.
abbrev pub original : LedgerState → Option Outcome → Outcome
original claimed o = duplicate
original terminal none = duplicate
original terminal (some o) = o

abbrev pub original_outcome : Option LedgerEntry → Outcome
original_outcome none = duplicate
original_outcome (some x) = original x.state x.outcome

-- Execute past its claim; `none` is an error.
unfoldable pub after_claim :
    Env → PendingAction → ℤ → World → Claim → World × Option CompletedAction
unfolding entry attempt record_terminal
after_claim env p now w claim_error = (w, none)
after_claim env p now w (retained x) =
    let (w1, found) = entry env p.action_id w in
    (w1, some (completed_action p.action_id (original_outcome found)))
after_claim env p now w claimed_now =
    let (w1, o) = attempt env p now w in record_terminal env p.action_id o w1

-- Execute: `none` is an error.
unfoldable pub execute : Env → PendingAction → World → World × Option CompletedAction
unfolding claim after_claim
execute env p w =
    let now = env.clock w.ticks in
    let (w1, answer) = claim env p.action_id p.expires_at_ms now (tick w) in
    after_claim env p now w1 answer
