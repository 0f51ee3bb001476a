-- ===== src/Spike.antt =====
-- The event spike detector (internal/evtspike/detector.go). Floating-point numbers are an argument.
pub mod Confirm
pub mod Flood
pub mod Tests
use lisstech_drain_ctl.Prelude.{
  ℕ, zero, suc, ◌+◌, ◌-◌, ◌*◌, ◌/◌, ◌%◌, min, Bool, true, false, not, ◌&&◌, ◌||◌, leb, ltb,
  if◌then◌else◌,
}
use lisstech_drain_ctl.Prelude.Int.{ℤ, leb_ℤ, ◌-ℤ◌}

-- What the code uses of float64 and math.
pub record SpikeFloats : Type 1 where
  pub Float : Type 0
  pub less : Float → Float → Bool
  pub at_least : Float → Float → Bool
  pub of_nat : ℕ → Float
  pub plus : Float → Float → Float
  pub minus : Float → Float → Float
  pub times : Float → Float → Float
  pub divide : Float → Float → Float
  pub log : Float → Float
  pub exp : Float → Float
  pub minus_700 : Float
  pub underflow : Float
  pub robust_cap_prob : Float

abbrev pub min_global_n : ℕ
min_global_n = 20

abbrev pub max_n_bin_iter : ℕ
max_n_bin_iter = 10000000

-- `RecentFlags` is a byte: shifted, with the flag in its lowest bit, and cut to the last three.
unfoldable pub push_flag : Bool → ℕ → ℕ
push_flag anomalous flags = ((flags * 2) % 256 + (if anomalous then 1 else 0)) % 8

-- confirmed: at least two of the three lowest bits.
unfoldable pub confirmed : ℕ → Bool
confirmed flags = leb 2 (flags % 2 + flags / 2 % 2 + flags / 2 / 2 % 2)

module _ (fl : SpikeFloats) where
  -- GammaState
  pub record GammaState : Type 0 where
    pub alpha : fl.Float
    pub beta : fl.Float
    pub n : ℕ

  -- DetectorConfig
  pub record DetectorConfig : Type 0 where
    pub min_count : ℕ
    pub threshold : fl.Float
    pub rho : fl.Float
    pub cooldown : ℤ
    pub slot_maturity_observations : ℕ

  -- Detector
  pub record Detector : Type 0 where
    pub slots : ℕ → GammaState
    pub global : GammaState
    pub recent_flags : ℕ
    pub last_alert : ℤ
    pub cfg : DetectorConfig

  -- Result
  pub record Observation : Type 0 where
    pub count : ℕ
    pub mean : fl.Float
    pub tail_prob : fl.Float
    pub anomalous : Bool
    pub alert : Bool
    pub cap_overflow : Bool

  -- The next probability of the negative binomial distribution.
  abbrev pub next_pmf : fl.Float → fl.Float → ℕ → fl.Float → fl.Float
  next_pmf alpha q k pmf =
      fl.times pmf (fl.times (fl.divide (fl.plus (fl.of_nat k) alpha) (fl.of_nat (suc k))) q)

  abbrev pub tail_of : fl.Float → fl.Float
  tail_of cdf =
      let tail = fl.minus (fl.of_nat 1) cdf in
      if fl.less tail (fl.of_nat 0) then fl.of_nat 0 else tail

  -- The loop of negBinUpperTail, over the iterations left.
  unfoldable pub tail_loop : fl.Float → fl.Float → ℕ → ℕ → fl.Float → fl.Float → fl.Float
  tail_loop alpha q zero k pmf cdf = tail_of cdf
  tail_loop alpha q (suc left) k pmf cdf =
      let pmf1 = next_pmf alpha q k pmf in
      let cdf1 = fl.plus cdf pmf1 in
      let rest = tail_loop alpha q left (suc k) pmf1 cdf1 in
      if fl.at_least cdf1 (fl.of_nat 1)
      then fl.of_nat 0
      else if fl.less pmf1 fl.underflow
      then tail_of cdf1
      else rest

  -- negBinUpperTail
  unfoldable pub neg_bin_upper_tail : ℕ → fl.Float → fl.Float → fl.Float
  unfolding tail_loop
  neg_bin_upper_tail zero alpha beta = fl.of_nat 1
  neg_bin_upper_tail (suc y) alpha beta =
      let p = fl.divide beta (fl.plus beta (fl.of_nat 1)) in
      let log_pmf0 = fl.times alpha (fl.log p) in
      let pmf = fl.exp log_pmf0 in
      if fl.less log_pmf0 fl.minus_700
      then fl.of_nat 0
      else tail_loop alpha (fl.minus (fl.of_nat 1) p) (min y max_n_bin_iter) 0 pmf pmf

  -- The loop of negBinQuantile, over the iterations left.
  unfoldable pub quantile_loop :
      fl.Float → fl.Float → fl.Float → ℕ → ℕ → fl.Float → fl.Float → ℕ × Bool
  quantile_loop prob alpha q zero k pmf cdf = (max_n_bin_iter, false)
  quantile_loop prob alpha q (suc left) k pmf cdf =
      let pmf1 = next_pmf alpha q k pmf in
      let cdf1 = fl.plus cdf pmf1 in
      let rest = quantile_loop prob alpha q left (suc k) pmf1 cdf1 in
      if fl.at_least cdf1 prob
      then (suc k, true)
      else if fl.less pmf1 fl.underflow
      then (max_n_bin_iter, false)
      else rest

  -- negBinQuantile
  unfoldable pub neg_bin_quantile : fl.Float → fl.Float → fl.Float → ℕ × Bool
  unfolding quantile_loop
  neg_bin_quantile prob alpha beta =
      let p = fl.divide beta (fl.plus beta (fl.of_nat 1)) in
      let log_pmf0 = fl.times alpha (fl.log p) in
      let pmf = fl.exp log_pmf0 in
      if fl.at_least (fl.of_nat 0) prob || fl.less log_pmf0 fl.minus_700 || fl.at_least pmf prob
      then (0, true)
      else quantile_loop prob alpha (fl.minus (fl.of_nat 1) p) max_n_bin_iter 0 pmf pmf

  -- ewmaUpdate
  abbrev pub ewma_update : fl.Float → fl.Float → GammaState → GammaState
  ewma_update y rho s = record {
    alpha = fl.plus (fl.times rho s.alpha) y;
    beta = fl.plus (fl.times rho s.beta) (fl.of_nat 1);
    n = suc s.n;
  }

  -- The distribution that scores a bucket.
  abbrev pub scoring : Detector → ℕ → GammaState
  scoring d slot =
      if ltb (d.slots slot).n d.cfg.slot_maturity_observations && leb min_global_n d.global.n
      then d.global
      else d.slots slot

  -- The capped update, and whether it is skipped.
  abbrev pub capped : fl.Float → ℕ × Bool → fl.Float × Bool
  capped y (cap, false) = (y, true)
  capped y (cap, true) = (if fl.less (fl.of_nat cap) y then fl.of_nat cap else y, false)

  -- ObserveBucket, in the slot of the time of day that `now` falls into.
  unfoldable pub observe_bucket : ℕ → ℤ → ℕ → Detector → Detector × Observation
  unfolding neg_bin_upper_tail neg_bin_quantile push_flag confirmed ◌-ℤ◌
  observe_bucket slot now count d =
      let g = scoring d slot in
      let tail = neg_bin_upper_tail count g.alpha g.beta in
      let anomalous = leb d.cfg.min_count count && fl.less tail d.cfg.threshold in
      let flags = push_flag anomalous d.recent_flags in
      let alert = confirmed flags && leb_ℤ d.cfg.cooldown (now -ℤ d.last_alert) in
      let y = fl.of_nat count in
      let (update, skipped) =
        if anomalous
        then capped y (neg_bin_quantile fl.robust_cap_prob g.alpha g.beta)
        else (y, false) in
      (
        record d {
          slots = λ i.
              if skipped
              then d.slots i
              else if leb i slot && leb slot i
              then ewma_update update d.cfg.rho (d.slots slot)
              else d.slots i;
          global = if skipped then d.global else ewma_update update d.cfg.rho d.global;
          recent_flags = flags;
          last_alert = if alert then now else d.last_alert;
        },
        record {
          count = count;
          mean = fl.divide g.alpha g.beta;
          tail_prob = tail;
          anomalous = anomalous;
          alert = alert;
          cap_overflow = skipped;
        },
      )
