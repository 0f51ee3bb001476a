-- ===== src/Threshold/Tests.antt =====
-- Whole percentages in place of floats, and the theorem of this part at three evaluations.
use lisstech_drain_ctl.Prelude.{◌&&◌, ◌≡◌, [], ◌∷◌, some}
use lisstech_drain_ctl.Prelude.Int.{ℤ, pos, ltb_ℤ, leb_ℤ}
use lisstech_drain_ctl.Prelude.Rows.{any_row}
use lisstech_drain_ctl.Threshold.{
  Floats, PerfConfig, PerfSnapshot, load_polls, cpu_limits, evaluate_thresholds,
}
use lisstech_drain_ctl.Threshold.Streak.{
  is_cpu_critical, streak, state_after, is_hot, cpu_critical_streak,
}

abbrev whole : Floats
whole = record { Float = ℤ; at_most = leb_ℤ; of_int = λ n. n; divide = λ a b. a; times = λ a b. a }

abbrev defaults : PerfConfig
defaults = record {
  sample_interval_sec = pos 60;
  load_alert_delay_sec = pos 0;
  input_delay_alert_delay_sec = pos 0;
  cpu_warn_pct = pos 0;
  cpu_crit_pct = pos 0;
  mem_warn_pct = pos 0;
  mem_crit_pct = pos 0;
  input_delay_warn_ms = pos 0;
  input_delay_crit_ms = pos 0;
  input_delay_percentile = "p95";
}

abbrev busy : PerfSnapshot whole
busy = record {
  cpu_pct = pos 95;
  mem_avail_mb = pos 60;
  mem_total_mb = pos 100;
  input_delay_p50 = pos 5;
  input_delay_p95 = pos 9;
}

busy-cpu_critical_streak :
    any_row is_cpu_critical
      (evaluate_thresholds whole defaults
        (pos 60)
        (some busy)
        (state_after whole defaults (pos 60) (busy ∷ []))).1
    ≡ (ltb_ℤ (pos 0) (cpu_limits whole defaults (pos 60)).1
        && leb_ℤ
            (load_polls defaults (pos 60))
            (pos (streak (is_hot whole defaults (pos 60)) (busy ∷ busy ∷ []))))
busy-cpu_critical_streak = cpu_critical_streak whole defaults (pos 60) busy (busy ∷ [])
