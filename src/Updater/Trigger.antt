-- ===== src/Updater/Trigger.antt =====
-- The at-most-once ledger of forced checks (TriggerCheckNow and pruneForceUpdateCommands of
-- internal/updater/updater_windows.go). The map of commands is a list of entries, each id once.
use lisstech_drain_ctl.Prelude.{
  ℕ, ◌+◌, ◌-◌, ◌*◌, Bool, true, false, ◌&&◌, ◌||◌, List, [], ◌∷◌, ltb, ◌==◌, if◌then◌else◌, length,
  drop,
}
use lisstech_drain_ctl.Prelude.Int.{ℤ, pos, ◌-ℤ◌, ltb_ℤ, eqb_ℤ}
use lisstech_drain_ctl.Prelude.Bytes.{bytes_equal}
use lisstech_drain_ctl.Prelude.Rows.{any_row, delete_where, order_by}
use lisstech_drain_ctl.Updater.{Text, Calls, Updater, TickOutcome, run_tick}

pub record ForcedCommand : Type 0 where
  pub id : Text
  pub seen_at : ℤ

-- In milliseconds.
abbrev pub idempotency_window : ℕ
idempotency_window = 24 * 3600 * 1000

abbrev pub ledger_cap : ℕ
ledger_cap = 256

-- `ids[i] < ids[j]`
unfoldable pub text_below : Text → Text → Bool
text_below [] [] = false
text_below [] (b ∷ bs) = true
text_below (a ∷ as_) [] = false
text_below (a ∷ as_) (b ∷ bs) = let rest = text_below as_ bs in ltb a b || a == b && rest

abbrev pub before : ForcedCommand → ForcedCommand → Bool
before x y = ltb_ℤ x.seen_at y.seen_at || eqb_ℤ x.seen_at y.seen_at && text_below x.id y.id

abbrev pub cap_commands : List ForcedCommand → List ForcedCommand
cap_commands kept =
    if ltb (length kept) ledger_cap
    then kept
    else drop (length kept - ledger_cap + 1) (order_by before kept)

-- pruneForceUpdateCommands
unfoldable pub prune_commands : ℤ → List ForcedCommand → List ForcedCommand
unfolding text_below
prune_commands now commands =
    cap_commands (delete_where (λ c. ltb_ℤ c.seen_at (now -ℤ pos idempotency_window)) commands)

abbrev pub is_command : Text → ForcedCommand → Bool
is_command id c = bytes_equal c.id id

pub data TriggerOutcome : Type 0 where
  read_failed duplicate record_failed : TriggerOutcome
  ticked : TickOutcome → TriggerOutcome

-- What TriggerCheckNow answers, the commands of the state file, and the subsystem.
pub record Triggered : Type 0 where
  pub outcome : TriggerOutcome
  pub commands : List ForcedCommand
  pub updater : Updater

abbrev pub after_record : List ForcedCommand → TickOutcome × Updater → Triggered
after_record commands (o, u) = record { outcome = ticked o; commands = commands; updater = u }

module _ (calls : Calls) where
  -- TriggerCheckNow on a file with `commands`; a save that fails leaves the file.
  unfoldable pub trigger_check_now :
      (load_fails save_fails : Bool) (now : ℤ) (id : Text) (enabled : Bool)
      (version highest_seen : Text)
      → List ForcedCommand
      → Updater
      → Triggered
  unfolding prune_commands run_tick
  trigger_check_now load_fails save_fails now id enabled version highest_seen commands u =
      if load_fails
      then record { outcome = read_failed; commands = commands; updater = u }
      else if any_row (is_command id) (prune_commands now commands)
      then record { outcome = duplicate; commands = commands; updater = u }
      else if save_fails
      then record { outcome = record_failed; commands = commands; updater = u }
      else after_record (record { id = id; seen_at = now } ∷ prune_commands now commands)
          (run_tick calls enabled true version highest_seen u)
