-- ===== src/Updater/Retry.antt =====
-- The delays after failures.
use lisstech_drain_ctl.Prelude.{ℕ, zero, suc, ◌*◌, ◌≤◌, ◌≡◌, refl, arith}
use lisstech_drain_ctl.Updater.{record_failure, extra_delay}

-- The delay that a failure reports is the one that the poll loop then adds, is at most that of the next
-- failure, and is between five minutes and a day.
pub record_failure-rises :
    (failures : ℕ)
    → (extra_delay (record_failure failures).0 ≡ (record_failure failures).1)
      × ((record_failure failures).1 ≤ (record_failure (record_failure failures).0).1)
      × (5 * 60 ≤ (record_failure failures).1)
      × ((record_failure failures).1 ≤ 24 * 3600)
unfolding record_failure extra_delay
record_failure-rises zero = (refl, omega arith, omega arith, omega arith)
record_failure-rises (suc zero) = (refl, omega arith, omega arith, omega arith)
record_failure-rises (suc (suc zero)) = (refl, omega arith, omega arith, omega arith)
record_failure-rises (suc (suc (suc zero))) = (refl, omega arith, omega arith, omega arith)
record_failure-rises (suc (suc (suc (suc zero)))) = (refl, omega arith, omega arith, omega arith)
record_failure-rises (suc (suc (suc (suc (suc zero))))) =
    (refl, omega arith, omega arith, omega arith)
record_failure-rises (suc (suc (suc (suc (suc (suc n)))))) =
    (refl, ground arith, ground arith, ground arith)
