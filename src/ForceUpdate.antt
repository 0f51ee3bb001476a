-- ===== src/ForceUpdate.antt =====
-- The dashboard's registry of force-update commands (internal/dashboard/forceupdate.go), above its
-- durable outbox. Every operation holds the lock of the registry, so each is one step.
pub mod Outbox
pub mod Accepted
pub mod Tests
use lisstech_drain_ctl.Prelude.{
  ℕ, String, Bool, true, false, not, Option, none, some, List, [], ◌∷◌, ◌++◌, str_eq, if◌then◌else◌,
}
use lisstech_drain_ctl.Prelude.Int.{ℤ, ltb_ℤ, ◌-ℤ◌}
use lisstech_drain_ctl.Prelude.Rows.{select, find_row}
use Outbox.{OutboxRow, to_milli, from_milli}

-- forceUpdateOutcome
pub data ForceUpdateOutcome : Type 0 where
  accepted duplicate offline unsupported failed : ForceUpdateOutcome

-- forceUpdateCommand; its Outcome is always the accepted one.
pub record Command : Type 0 where
  pub command_id : String
  pub host : String
  pub reason : String
  pub accepted_at : ℤ
  pub agent_version : String
  pub acknowledged : Bool

-- The entry that Enqueue hands to the outbox.
abbrev pub row_of_command : Command → OutboxRow
row_of_command c = record {
  command_id = c.command_id;
  host = c.host;
  reason = c.reason;
  accepted_at_ms = to_milli c.accepted_at;
  agent_version = c.agent_version;
}

-- The command that a restart makes of an entry.
abbrev pub command_of_row : OutboxRow → Command
command_of_row r = record {
  command_id = r.command_id;
  host = r.host;
  reason = r.reason;
  accepted_at = from_milli r.accepted_at_ms;
  agent_version = r.agent_version;
  acknowledged = false;
}

-- forceUpdateState: the map, where a missing key is the empty list, and the outbox, if there is one.
pub record Registry : Type 0 where
  pub commands : String → List Command
  pub outbox : Option (List OutboxRow)

-- `s.commands[host] = cs`
abbrev pub set_commands : String → List Command → (String → List Command) → String → List Command
set_commands host cs old k = if str_eq k host then cs else old k

-- `cmd.AcceptedAt.After(cutoff)`
abbrev pub is_recent : ℤ → Command → Bool
is_recent cutoff c = ltb_ℤ cutoff c.accepted_at

abbrev pub has_command : String → Command → Bool
has_command id c = str_eq c.command_id id

module _ (window : ℤ) where
  -- gcLocked
  unfoldable pub gc : String → ℤ → Registry → Registry
  gc host now s = record s {
    commands = set_commands host (select (is_recent (now -ℤ window)) (s.commands host)) s.commands;
  }

  -- The command that Enqueue makes.
  abbrev pub new_command : String → String → String → String → ℤ → Command
  new_command host id reason version now = record {
    command_id = id;
    host = host;
    reason = reason;
    accepted_at = now;
    agent_version = version;
    acknowledged = false;
  }

  -- What Enqueue does once the outbox, if there is one, has answered.
  unfoldable pub accept :
      String
      → Command
      → Registry
      → Option (Option (List OutboxRow))
      → Registry × ForceUpdateOutcome × Option Command
  accept host c s none = (s, failed, none)
  accept host c s (some rows) = (
    record { commands = set_commands host (s.commands host ++ c ∷ []) s.commands; outbox = rows },
    accepted,
    some c,
  )

  -- The outbox below Enqueue: without one nothing can fail.
  unfoldable pub persist :
      Bool → Command → ℤ → Option (List OutboxRow) → Option (Option (List OutboxRow))
  unfolding Outbox.enqueue
  persist broken c now none = some none
  persist broken c now (some rows) =
      elim (Outbox.enqueue broken (row_of_command c) (now -ℤ window) rows) [
        | none ↦ none
        | some t ↦ some (some t)
      ]

  -- Enqueue; `broken` tells whether the transaction of the outbox fails.
  unfoldable pub enqueue :
      Bool
      → String
      → String
      → String
      → String
      → ℤ
      → Registry
      → Registry × ForceUpdateOutcome × Option Command
  unfolding gc accept persist
  enqueue broken host id reason version now s =
      let kept = gc host now s in
      let c = new_command host id reason version now in
      elim (find_row (has_command id) (kept.commands host)) [
        | some existing ↦ (kept, duplicate, some existing)
        | none ↦ accept host c kept (persist broken c now s.outbox)
      ]

  -- Consume
  unfoldable pub consume : String → ℤ → Registry → Registry × Option Command
  unfolding gc
  consume host now s =
      let kept = gc host now s in (kept, find_row (λ c. not c.acknowledged) (kept.commands host))

  -- Pending
  unfoldable pub pending : String → ℤ → Registry → Registry × List Command
  unfolding gc
  pending host now s =
      let kept = gc host now s in (kept, select (λ c. not c.acknowledged) (kept.commands host))

-- The loop of Acknowledge: it marks the first command with the id.
unfoldable pub mark_first : String → List Command → List Command
mark_first id [] = []
mark_first id (c ∷ cs) =
    if has_command id c then record c { acknowledged = true } ∷ cs else c ∷ mark_first id cs

-- The outbox below Acknowledge: `none` is an error.
unfoldable pub forget :
    Bool → String → String → Option (List OutboxRow) → Option (Option (List OutboxRow))
unfolding Outbox.acknowledge
forget broken host id none = some none
forget broken host id (some rows) = elim (Outbox.acknowledge broken host id rows) [
  | none ↦ none
  | some t ↦ some (some t)
]

-- Acknowledge: a failed delete leaves everything.
unfoldable pub acknowledge : Bool → String → String → Registry → Registry
unfolding mark_first forget
acknowledge broken host id s = elim (forget broken host id s.outbox) [
  | none ↦ s
  | some rows ↦ record {
    commands = set_commands host (mark_first id (s.commands host)) s.commands;
    outbox = rows;
  }
]

-- The loop of newPersistentForceUpdateState over the entries that Load returned.
unfoldable pub restore : List OutboxRow → (String → List Command) → String → List Command
restore [] commands = commands
restore (r ∷ rs) commands =
    restore rs (set_commands r.host (commands r.host ++ command_of_row r ∷ []) commands)

-- newPersistentForceUpdateState with an outbox: `none` is an error.
unfoldable pub restart : Bool → ℤ → ℤ → List OutboxRow → Option Registry
unfolding Outbox.load restore
restart broken window now rows = elim (Outbox.load broken (now -ℤ window) rows) [
  | none ↦ none
  | some (kept, entries) ↦
      some (record { commands = restore entries (λ host. []); outbox = some kept })
]
