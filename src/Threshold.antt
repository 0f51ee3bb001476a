-- ===== src/Threshold.antt =====
-- Performance thresholds (internal/perfmon/threshold.go): the counters of consecutive breaches and the
-- triggers. Floating-point numbers are an argument. The Go integers are ℤ.
pub mod Streak
pub mod Tests
use lisstech_drain_ctl.Prelude.{
  ℕ, zero, suc, ◌/◌, String, Bool, true, false, ◌&&◌, Option, none, some, List, [], ◌∷◌, ◌++◌,
  str_eq, if◌then◌else◌,
}
use lisstech_drain_ctl.Prelude.Int.{ℤ, pos, negsuc, sub_ℕ, ltb_ℤ, leb_ℤ, eqb_ℤ, ◌+ℤ◌, ◌-ℤ◌}

-- What the code uses of float64.
pub record Floats : Type 1 where
  pub Float : Type 0
  pub at_most : Float → Float → Bool
  pub of_int : ℤ → Float
  pub divide : Float → Float → Float
  pub times : Float → Float → Float

-- PerformanceConfig, as far as the thresholds read it.
pub record PerfConfig : Type 0 where
  pub sample_interval_sec : ℤ
  pub load_alert_delay_sec : ℤ
  pub input_delay_alert_delay_sec : ℤ
  pub cpu_warn_pct : ℤ
  pub cpu_crit_pct : ℤ
  pub mem_warn_pct : ℤ
  pub mem_crit_pct : ℤ
  pub input_delay_warn_ms : ℤ
  pub input_delay_crit_ms : ℤ
  pub input_delay_percentile : String

-- PerfSnapshot
pub record PerfSnapshot (fl : Floats) : Type 0 where
  pub cpu_pct : fl.Float
  pub mem_avail_mb : fl.Float
  pub mem_total_mb : fl.Float
  pub input_delay_p50 : fl.Float
  pub input_delay_p95 : fl.Float

pub data Trigger : Type 0 where
  cpu_warning cpu_critical memory_warning memory_critical : Trigger
  input_delay_warning input_delay_critical : Trigger

-- The two counters of one metric.
pub record Counts : Type 0 where
  pub warn_count : ℕ
  pub crit_count : ℕ

-- PerfTriggerState
pub record PerfTriggerState : Type 0 where
  pub cpu : Counts
  pub mem : Counts
  pub input_delay : Counts

-- Integer division by a positive number, which truncates.
abbrev pub quotient : ℤ → ℕ → ℤ
quotient (pos a) b = pos (a / b)
quotient (negsuc a) b = sub_ℕ 0 (suc a / b)

-- ceilDiv
abbrev pub ceil_div : ℤ → ℤ → ℤ
ceil_div a (pos zero) = pos 1
ceil_div a (pos (suc b)) = quotient (a +ℤ pos (suc b) -ℤ pos 1) (suc b)
ceil_div a (negsuc b) = pos 1

-- resolveThreshold
unfoldable pub resolve_threshold : ℤ → ℤ → ℤ
resolve_threshold configured default_value =
    if eqb_ℤ configured (pos 0)
    then default_value
    else if eqb_ℤ configured (negsuc 0)
    then pos 0
    else configured

abbrev pub default_sample_interval : ℤ
default_sample_interval = pos 60

abbrev pub default_load_alert_delay_sec : ℤ
default_load_alert_delay_sec = pos 120

abbrev pub default_input_delay_alert_delay_sec : ℤ
default_input_delay_alert_delay_sec = pos 180

-- The cadence of the evaluation in seconds, from `int(evaluationInterval / time.Second)`.
unfoldable pub interval_seconds : PerfConfig → ℤ → ℤ
interval_seconds cfg seconds =
    if ltb_ℤ (pos 0) seconds
    then seconds
    else if ltb_ℤ (pos 0) cfg.sample_interval_sec
    then cfg.sample_interval_sec
    else default_sample_interval

-- The consecutive evaluations that a trigger of the processor or the memory takes.
unfoldable pub load_polls : PerfConfig → ℤ → ℤ
unfolding resolve_threshold interval_seconds ◌+ℤ◌ ◌-ℤ◌
load_polls cfg seconds =
    ceil_div (resolve_threshold cfg.load_alert_delay_sec default_load_alert_delay_sec)
      (interval_seconds cfg seconds)

unfoldable pub input_delay_polls : PerfConfig → ℤ → ℤ
unfolding resolve_threshold interval_seconds ◌+ℤ◌ ◌-ℤ◌
input_delay_polls cfg seconds =
    ceil_div (resolve_threshold cfg.input_delay_alert_delay_sec default_input_delay_alert_delay_sec)
      (interval_seconds cfg seconds)

-- The counters of a metric: `crit` and `warn` are its thresholds, 0 or less where one is off.
unfoldable pub count : ℤ → ℤ → Bool → Bool → Counts → Counts
count crit warn is_crit is_warn c =
    if ltb_ℤ (pos 0) crit && is_crit
    then record { warn_count = suc c.warn_count; crit_count = suc c.crit_count }
    else if ltb_ℤ (pos 0) warn && is_warn
    then record { warn_count = suc c.warn_count; crit_count = 0 }
    else record { warn_count = 0; crit_count = 0 }

-- The trigger of a metric.
unfoldable pub fire : ℤ → ℤ → ℤ → Trigger → Trigger → Counts → List Trigger
fire crit warn polls critical warning c =
    if ltb_ℤ (pos 0) crit && leb_ℤ polls (pos c.crit_count)
    then critical ∷ []
    else if ltb_ℤ (pos 0) warn && leb_ℤ polls (pos c.warn_count)
    then warning ∷ []
    else []

module _ (fl : Floats) where
  -- memFreePercent
  unfoldable pub mem_free_percent : PerfSnapshot fl → fl.Float
  mem_free_percent snap =
      if fl.at_most snap.mem_total_mb (fl.of_int (pos 0))
      then fl.of_int (pos 100)
      else fl.times (fl.divide snap.mem_avail_mb snap.mem_total_mb) (fl.of_int (pos 100))

  -- inputDelayValue
  unfoldable pub input_delay_value : PerfSnapshot fl → PerfConfig → fl.Float
  input_delay_value snap cfg =
      if str_eq cfg.input_delay_percentile "p50" then snap.input_delay_p50 else snap.input_delay_p95

  module _ (cfg : PerfConfig) (seconds : ℤ) where
    -- The effective thresholds, the warning first.
    abbrev pub cpu_limits : ℤ × ℤ
    cpu_limits =
        (resolve_threshold cfg.cpu_warn_pct (pos 70), resolve_threshold cfg.cpu_crit_pct (pos 85))

    abbrev pub mem_limits : ℤ × ℤ
    mem_limits =
        (resolve_threshold cfg.mem_warn_pct (pos 20), resolve_threshold cfg.mem_crit_pct (pos 10))

    abbrev pub input_delay_limits : ℤ × ℤ
    input_delay_limits = (
      resolve_threshold cfg.input_delay_warn_ms (pos 50),
      resolve_threshold cfg.input_delay_crit_ms (pos 100),
    )

    -- `snap.CPUPct >= float64(limit)`, and the tests of the other metrics.
    abbrev pub cpu_over : ℤ → PerfSnapshot fl → Bool
    cpu_over limit snap = fl.at_most (fl.of_int limit) snap.cpu_pct

    abbrev pub mem_under : ℤ → PerfSnapshot fl → Bool
    mem_under limit snap = fl.at_most (mem_free_percent snap) (fl.of_int limit)

    abbrev pub input_delay_over : ℤ → PerfSnapshot fl → Bool
    input_delay_over limit snap = fl.at_most (fl.of_int limit) (input_delay_value snap cfg)

    unfoldable pub next_state : PerfSnapshot fl → PerfTriggerState → PerfTriggerState
    unfolding count
    next_state snap state = record {
      cpu =
          count cpu_limits.1 cpu_limits.0 (cpu_over cpu_limits.1 snap) (cpu_over cpu_limits.0 snap)
            state.cpu;
      mem =
          count mem_limits.1 mem_limits.0 (mem_under mem_limits.1 snap)
            (mem_under mem_limits.0 snap) state.mem;
      input_delay =
          count input_delay_limits.1 input_delay_limits.0
            (input_delay_over input_delay_limits.1 snap)
            (input_delay_over input_delay_limits.0 snap) state.input_delay;
    }

    unfoldable pub triggers : PerfTriggerState → List Trigger
    unfolding fire load_polls input_delay_polls
    triggers state =
        fire cpu_limits.1 cpu_limits.0 (load_polls cfg seconds) cpu_critical cpu_warning state.cpu
        ++ fire mem_limits.1 mem_limits.0 (load_polls cfg seconds) memory_critical memory_warning
            state.mem
        ++ fire input_delay_limits.1 input_delay_limits.0 (input_delay_polls cfg seconds)
            input_delay_critical input_delay_warning state.input_delay

    -- EvaluateThresholds; `none` is a nil snapshot.
    unfoldable pub evaluate_thresholds :
        Option (PerfSnapshot fl) → PerfTriggerState → PerfTriggerState × List Trigger
    unfolding next_state triggers
    evaluate_thresholds none state = (state, [])
    evaluate_thresholds (some snap) state =
        (next_state snap state, triggers (next_state snap state))
