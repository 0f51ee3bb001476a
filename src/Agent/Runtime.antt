-- ===== src/Agent/Runtime.antt =====
-- The session runtime of the service (internal/svc/check.go): the queue of completions that wait for
-- the dashboard's acknowledgement.
use lisstech_drain_ctl.Prelude.{
  ℕ, ◌*◌, String, Bool, true, false, not, ◌||◌, Option, none, some, List, [], ◌∷◌, ◌++◌, str_eq,
  length, if◌then◌else◌,
}
use lisstech_drain_ctl.Prelude.Int.{ℤ, pos, eqb_ℤ, leb_ℤ, ◌-ℤ◌, sub_ℕ, pos_part, neg_part}
use lisstech_drain_ctl.Prelude.Rows.{any_row}
use lisstech_drain_ctl.Agent.{PendingAction, CompletedAction, Env, World}
use lisstech_drain_ctl.Agent.Ledger.{acknowledge, cleanup}
use lisstech_drain_ctl.Agent.Executor.{execute, tick}

-- The part of sessionRuntime that session actions use: the rows of the ledger are in the world, and a
-- runtime may be without a ledger or an executor (nil).
pub record Runtime : Type 0 where
  pub world : World
  pub completions : List CompletedAction
  pub retention_hours : ℤ
  pub has_ledger : Bool
  pub has_executor : Bool

-- MaxSessionActionCommands
abbrev pub max_session_action_commands : ℕ
max_session_action_commands = 20

abbrev pub has_completion : String → CompletedAction → Bool
has_completion id c = str_eq c.action_id id

-- The inner loop of acknowledgeCompletions: it removes the first entry with the id.
unfoldable pub remove_first : String → List CompletedAction → List CompletedAction
remove_first id [] = []
remove_first id (c ∷ cs) = if has_completion id c then cs else c ∷ remove_first id cs

-- The delete of the ledger, and whether the loop goes on to the queue: without a ledger it does.
abbrev pub acknowledged_in : Env → String → Runtime → World × Bool
acknowledged_in env id r = if r.has_ledger then acknowledge env id r.world else (r.world, true)

-- acknowledgeCompletions: a failed delete leaves the completion.
unfoldable pub acknowledge_completions : Env → List String → Runtime → Runtime
unfolding acknowledge remove_first
acknowledge_completions env [] r = r
acknowledge_completions env (id ∷ ids) r =
    let (w, deleted) = acknowledged_in env id r in
    acknowledge_completions env ids (record r {
      world = w;
      completions = if deleted then remove_first id r.completions else r.completions;
    })

-- Whether the loop of executePendingActions appends a completion.
unfoldable pub is_new_completion : List CompletedAction → Option CompletedAction → Bool
is_new_completion cs none = false
is_new_completion cs (some c) =
    if str_eq c.action_id ""
    then false
    else if any_row (has_completion c.action_id) cs
    then false
    else true

unfoldable pub append_completion :
    List CompletedAction → Option CompletedAction → List CompletedAction
append_completion cs none = cs
append_completion cs (some c) = cs ++ (c ∷ [])

-- The loop of executePendingActions, which stops when `available` is 0.
unfoldable pub execute_loop : Env → List PendingAction → ℤ → Runtime → Runtime
unfolding execute is_new_completion append_completion
execute_loop env [] available r = r
execute_loop env (p ∷ ps) available r =
    let (w, done) = execute env p r.world in
    let is_new = is_new_completion r.completions done in
    let rest = execute_loop env ps (if is_new then available -ℤ pos 1 else available) (record r {
      world = w;
      completions = if is_new then append_completion r.completions done else r.completions;
    }) in
    if eqb_ℤ available (pos 0) then r else rest

-- executePendingActions
unfoldable pub execute_pending_actions : Env → List PendingAction → Runtime → Runtime
unfolding execute_loop
execute_pending_actions env ps r =
    let executed =
      execute_loop env ps (pos max_session_action_commands -ℤ pos (length r.completions)) r in
    if r.has_executor then executed else r

-- `time.Duration(h) * time.Hour`, in milliseconds.
abbrev pub hours : ℤ → ℤ
hours h = sub_ℕ (pos_part h * 3600000) (neg_part h * 3600000)

-- cleanupActions, at the next reading of the clock.
unfoldable pub cleanup_actions : Env → Runtime → Runtime
unfolding cleanup
cleanup_actions env r =
    if not r.has_ledger || leb_ℤ r.retention_hours (pos 0) then r else record r {
      world =
          (cleanup env (env.clock r.world.ticks) (hours r.retention_hours)
            max_session_action_commands (tick r.world)).0;
    }

-- applyRemoteSessionActions, on a report that the dashboard answered.
unfoldable pub apply_remote_session_actions :
    Env → List String → List PendingAction → Runtime → Runtime
unfolding acknowledge_completions execute_pending_actions
apply_remote_session_actions env acknowledged pending r =
    execute_pending_actions env pending (acknowledge_completions env acknowledged r)
