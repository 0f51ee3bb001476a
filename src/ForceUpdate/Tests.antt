-- ===== src/ForceUpdate/Tests.antt =====
-- One command for one host over an empty outbox, and the theorems of this part at it.
use lisstech_drain_ctl.Prelude.{true, false, ◌≡◌, refl, some, List, [], arith}
use lisstech_drain_ctl.Prelude.Int.{ℤ, pos, ◌-ℤ◌, ◌<ℤ◌}
use lisstech_drain_ctl.Prelude.Rows.{select, find_row, any_row, delete_where}
use lisstech_drain_ctl.ForceUpdate.{
  Registry, accepted, duplicate, has_command, gc, accept, persist, enqueue, pending,
}
use lisstech_drain_ctl.ForceUpdate.Outbox.{OutboxRow, is_row}
use lisstech_drain_ctl.ForceUpdate.Outbox
use lisstech_drain_ctl.ForceUpdate.Accepted.{accepted_once, accepted_durable}

abbrev day : ℤ
day = pos 86400000000000

abbrev empty : Registry
empty = record { commands = λ host. []; outbox = some [] }

abbrev asked : Registry
asked = (enqueue day false "RDS01" "command-1" "" "1.2.3" (pos 90000000000000) empty).0

took : (enqueue day false "RDS01" "command-1" "" "1.2.3" (pos 90000000000000) empty).1 ≡ accepted
unfolding enqueue gc accept persist Outbox.enqueue find_row select any_row delete_where
took = refl

soon : pos 90001000000000 -ℤ day <ℤ pos 90000000000000
unfolding ◌-ℤ◌
soon = omega arith

next_report-accepted_once :
    (any_row (has_command "command-1") (pending day "RDS01" (pos 90001000000000) asked).1 ≡ true)
    × ((enqueue day true "RDS01" "command-1" "again" "1.2.3" (pos 90001000000000) asked).1
        ≡ duplicate)
next_report-accepted_once =
    accepted_once day false "RDS01" "command-1" "" "1.2.3" (pos 90000000000000) empty true "again"
      "1.2.3" (pos 90001000000000) took soon

first-accepted_durable :
    (stored : List OutboxRow) × (asked.outbox ≡ some stored)
    × (any_row (is_row "RDS01" "command-1") stored ≡ true)
first-accepted_durable =
    accepted_durable day false "RDS01" "command-1" "" "1.2.3" (pos 90000000000000) empty [] refl
      took
