-- ===== src/Freshness/Tests.antt =====
-- One host that stops reporting, and the theorem of this part at it.
use lisstech_drain_ctl.Prelude.{true, false, ◌≡◌, refl, [], ◌∷◌}
use lisstech_drain_ctl.Prelude.Int.{pos, eqb_ℤ}
use lisstech_drain_ctl.Prelude.Rows.{find_row}
use lisstech_drain_ctl.Freshness.{HostNames, Db, mark_offline, transition, is_current, after_load}
use lisstech_drain_ctl.Freshness.Once.{Events, here, next, checks, offline_once}

-- Upper-case names with no space about them stand for themselves.
abbrev upper_case : HostNames
upper_case = record { canonical = λ h. h; nocase = λ h. h }

abbrev one_host : Db
one_host = record {
  servers = record { hostname = "RDS01"; last_seen_ms = pos 1000 } ∷ [];
  freshness = [];
}

abbrev after_check : Db
after_check = (mark_offline upper_case "RDS01" (pos 1000) (pos 61000) one_host).0

announced : (mark_offline upper_case "RDS01" (pos 1000) (pos 61000) one_host).1 ≡ true
unfolding mark_offline transition is_current after_load find_row eqb_ℤ
announced = refl

later_check :
    Events upper_case "RDS01"
      (pos 1000)
      after_check
      (mark_offline upper_case "RDS01" (pos 1000) (pos 71000) after_check).0
later_check = next here (checks "RDS01" (pos 1000) (pos 71000) refl)

third_check-offline_once :
    (mark_offline upper_case "RDS01"
      (pos 1000)
      (pos 81000)
      (mark_offline upper_case "RDS01" (pos 1000) (pos 71000) after_check).0).1
    ≡ false
third_check-offline_once =
    offline_once upper_case "RDS01" (pos 1000) (pos 61000) (pos 81000) one_host announced
      later_check
