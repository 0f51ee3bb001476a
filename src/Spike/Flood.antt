-- ===== src/Spike/Flood.antt =====
-- A flood does not poison the baselines.
use lisstech_drain_ctl.Prelude.{ℕ, zero, suc, ◌≤◌, ◌≡◌, Bool, false}
use lisstech_drain_ctl.Spike.{SpikeFloats}

module _ (fl : SpikeFloats) where
  abbrev pub odds : fl.Float → fl.Float
  odds beta = fl.divide beta (fl.plus beta (fl.of_nat 1))

  abbrev pub log_pmf0 : fl.Float → fl.Float → fl.Float
  log_pmf0 alpha beta = fl.times alpha (fl.log (odds beta))

  -- The probability of a count, and of a count up to it, of the negative binomial distribution.
  abbrev pub pmf_at : fl.Float → fl.Float → ℕ → fl.Float
  pmf_at alpha beta zero = fl.exp (log_pmf0 alpha beta)
  pmf_at alpha beta (suc k) = fl.times (pmf_at alpha beta k) (
      fl.times (fl.divide (fl.plus (fl.of_nat k) alpha) (fl.of_nat (suc k)))
        (fl.minus (fl.of_nat 1) (odds beta)))

  abbrev pub cdf_at : fl.Float → fl.Float → ℕ → fl.Float
  cdf_at alpha beta zero = pmf_at alpha beta zero
  cdf_at alpha beta (suc k) = fl.plus (cdf_at alpha beta k) (pmf_at alpha beta (suc k))

  -- No count up to `bound` is as likely to be an upper limit as the cap has to be, and the probabilities
  -- are computed at all.
  pub record IsUncapped (alpha beta : fl.Float) (bound : ℕ) : Type 0 where
    pub positive : fl.at_least (fl.of_nat 0) fl.robust_cap_prob ≡ false
    pub computed : fl.less (log_pmf0 alpha beta) fl.minus_700 ≡ false
    pub below : (k : ℕ) → k ≤ bound → fl.at_least (cdf_at alpha beta k) fl.robust_cap_prob ≡ false
