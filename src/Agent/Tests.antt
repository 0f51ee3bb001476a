-- ===== src/Agent/Tests.antt =====
-- One action, delivered twice to a healthy agent, and the theorems of this part at it.
use lisstech_drain_ctl.Prelude.{
  ◌+◌, ◌≤◌, true, false, ◌≡◌, refl, none, some, [], ◌∷◌, arith, str_eq, ◌||◌,
}
use lisstech_drain_ctl.Prelude.Int.{pos, ltb_ℤ, leb_ℤ, eqb_ℤ}
use lisstech_drain_ctl.Prelude.Rows.{any_row, select}
use lisstech_drain_ctl.Action.{disconnect, Outcome}
use lisstech_drain_ctl.Agent.{PendingAction, logon_at, Env, World}
use lisstech_drain_ctl.Agent.Ledger.{claim, complete}
use lisstech_drain_ctl.Agent.Executor.{
  execute, after_claim, attempt, after_lookup, perform, perform_type, call_in_time, call_wts,
  record_terminal, completed_action,
}
use lisstech_drain_ctl.Agent.Once.{Turns, here, next, executes, calls_of, at_most_once}
use lisstech_drain_ctl.Agent.Replay.{redelivery_replays}
use lisstech_drain_ctl.Agent.Runtime.{Runtime, apply_remote_session_actions}
use lisstech_drain_ctl.Agent.Queue.{IsBounded, apply_remote-IsBounded}

abbrev healthy : Env
healthy = record {
  clock = λ n. pos (1000 + n);
  broken = λ n. false;
  lookup = λ n session. logon_at (pos 500);
  wts = λ n call. true;
}

abbrev drop_session : PendingAction
drop_session = record {
  action_id = "a1";
  action_type = disconnect;
  session_id = 3;
  expected_logon_at_ms = pos 500;
  expires_at_ms = pos 301000;
  message = none;
}

abbrev fresh_agent : World
fresh_agent = record { ledger = []; ticks = 0; statements = 0; lookups = 0; calls = [] }

abbrev first_run : World
first_run = (execute healthy drop_session fresh_agent).0

twice : Turns healthy "a1" (pos 301000) fresh_agent (execute healthy drop_session first_run).0
twice =
    next (next here (executes drop_session (λ e. refl) refl))
      (executes drop_session (λ e. refl) refl)

twice-at_most_once : calls_of "a1" (execute healthy drop_session first_run).0.calls ≤ 1
twice-at_most_once =
    at_most_once healthy "a1" (pos 301000) (λ m n h. omega (arith, h)) twice tt
      (unfold calls_of select in refl)

dropped :
    (execute healthy drop_session fresh_agent).1 ≡ some (completed_action "a1" Outcome.completed)
unfolding execute claim after_claim attempt after_lookup perform perform_type call_in_time call_wts
    record_terminal complete any_row ltb_ℤ leb_ℤ eqb_ℤ
dropped = refl

in_order :
    (str_eq "a1" "" || ltb_ℤ (pos 301000) (pos 0) || ltb_ℤ (healthy.clock first_run.ticks) (pos 0))
    ≡ false
unfolding ltb_ℤ
in_order = ground arith

twice-redelivery_replays :
    ((execute healthy drop_session first_run).1 ≡ some (completed_action "a1" Outcome.completed))
    × ((execute healthy drop_session first_run).0.calls ≡ first_run.calls)
twice-redelivery_replays =
    redelivery_replays healthy drop_session fresh_agent (completed_action "a1" Outcome.completed)
      (unfold any_row in refl) dropped in_order (λ n h. refl)

abbrev runtime : Runtime
runtime = record {
  world = fresh_agent;
  completions = [];
  retention_hours = pos 24;
  has_ledger = true;
  has_executor = true;
}

one_delivery-apply_remote-IsBounded :
    IsBounded (apply_remote_session_actions healthy [] (drop_session ∷ []) runtime)
one_delivery-apply_remote-IsBounded =
    apply_remote-IsBounded healthy [] (drop_session ∷ []) runtime (tt, omega arith)
