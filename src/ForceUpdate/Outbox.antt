-- ===== src/ForceUpdate/Outbox.antt =====
-- The durable outbox of force-update commands (internal/telemetry/force_update_outbox.go). `none` is an
-- error, and `broken` tells whether the database fails; then nothing is written.
use lisstech_drain_ctl.Prelude.{
  ℕ, ◌*◌, ◌/◌, String, Bool, ◌&&◌, ◌||◌, Option, none, some, List, ◌∷◌, str_eq, str_le, length, leb,
  if◌then◌else◌,
}
use lisstech_drain_ctl.Prelude.Int.{ℤ, pos, negsuc, sub_ℕ, pos_part, neg_part, ltb_ℤ, eqb_ℤ}
use lisstech_drain_ctl.Prelude.Rows.{delete_where, any_row, order_by}

-- A row of force_update_outbox.
pub record OutboxRow : Type 0 where
  pub command_id : String
  pub host : String
  pub reason : String
  pub accepted_at_ms : ℤ
  pub agent_version : String

-- time.Time.UnixMilli of an instant in nanoseconds, and time.UnixMilli.
abbrev pub to_milli : ℤ → ℤ
to_milli (pos n) = pos (n / 1000000)
to_milli (negsuc n) = negsuc (n / 1000000)

abbrev pub from_milli : ℤ → ℤ
from_milli t = sub_ℕ (pos_part t * 1000000) (neg_part t * 1000000)

-- forceUpdateOutboxCapacity
abbrev pub capacity : ℕ
capacity = 1024

-- `WHERE accepted_at_ms < ?`
abbrev pub is_expired : ℤ → OutboxRow → Bool
is_expired cutoff r = ltb_ℤ r.accepted_at_ms (to_milli cutoff)

-- `WHERE host = ? AND command_id = ?`
abbrev pub is_row : String → String → OutboxRow → Bool
is_row host id r = str_eq r.host host && str_eq r.command_id id

-- Enqueue: the primary key is (host, command_id).
unfoldable pub enqueue : Bool → OutboxRow → ℤ → List OutboxRow → Option (List OutboxRow)
enqueue broken r cutoff rows =
    let kept = delete_where (is_expired cutoff) rows in
    if broken || leb capacity (length kept) || any_row (is_row r.host r.command_id) kept
    then none
    else some (r ∷ kept)

-- Acknowledge
unfoldable pub acknowledge : Bool → String → String → List OutboxRow → Option (List OutboxRow)
acknowledge broken host id rows = if broken then none else some (delete_where (is_row host id) rows)

-- IsDuplicate; that only its query fails, after its delete, is not modelled, here and in load.
unfoldable pub is_duplicate :
    Bool → String → String → ℤ → List OutboxRow → Option (List OutboxRow × Bool)
is_duplicate broken host id cutoff rows =
    let kept = delete_where (is_expired cutoff) rows in
    if broken then none else some (kept, any_row (is_row host id) kept)

-- `ORDER BY host, accepted_at_ms, command_id`
abbrev pub host_first : OutboxRow → OutboxRow → Bool
host_first r q =
    if str_eq r.host q.host
    then ltb_ℤ r.accepted_at_ms q.accepted_at_ms
      || (eqb_ℤ r.accepted_at_ms q.accepted_at_ms && str_le r.command_id q.command_id)
    else str_le r.host q.host

-- Load: what the table holds afterwards, and the entries in their order.
unfoldable pub load : Bool → ℤ → List OutboxRow → Option (List OutboxRow × List OutboxRow)
load broken cutoff rows =
    let kept = delete_where (is_expired cutoff) rows in
    if broken then none else some (kept, order_by host_first kept)
