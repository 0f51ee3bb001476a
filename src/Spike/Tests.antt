-- ===== src/Spike/Tests.antt =====
-- Natural numbers in place of floats, and the theorem of this part at three buckets.
use lisstech_drain_ctl.Prelude.{ℕ, ◌+◌, ◌-◌, ◌*◌, ltb, leb, ◌&&◌, ◌≡◌}
use lisstech_drain_ctl.Prelude.Int.{pos, leb_ℤ, ◌-ℤ◌}
use lisstech_drain_ctl.Spike.{SpikeFloats, Detector, observe_bucket}
use lisstech_drain_ctl.Spike.Confirm.{two_of_three, alert_confirmed}

abbrev counts : SpikeFloats
counts = record {
  Float = ℕ;
  less = ltb;
  at_least = λ a b. leb b a;
  of_nat = λ n. n;
  plus = λ a b. a + b;
  minus = λ a b. a - b;
  times = λ a b. a * b;
  divide = λ a b. a;
  log = λ a. a;
  exp = λ a. a;
  minus_700 = 0;
  underflow = 0;
  robust_cap_prob = 1;
}

abbrev quiet : Detector counts
quiet = record {
  slots = λ i. record { alpha = 1; beta = 1; n = 0 };
  global = record { alpha = 1; beta = 1; n = 0 };
  recent_flags = 0;
  last_alert = pos 0;
  cfg = record {
    min_count = 5;
    threshold = 1;
    rho = 1;
    cooldown = pos 600;
    slot_maturity_observations = 630;
  };
}

abbrev one : Detector counts
one = (observe_bucket counts 4 (pos 1000) 9 quiet).0

abbrev two : Detector counts
two = (observe_bucket counts 4 (pos 1010) 9 one).0

three_buckets-alert_confirmed : (observe_bucket counts 4 (pos 1020) 9 two).1.alert ≡ (
    two_of_three
      (observe_bucket counts 4 (pos 1020) 9 two).1.anomalous
      (observe_bucket counts 4 (pos 1010) 9 one).1.anomalous
      (observe_bucket counts 4 (pos 1000) 9 quiet).1.anomalous
    && leb_ℤ two.cfg.cooldown (pos 1020 -ℤ two.last_alert))
three_buckets-alert_confirmed =
    alert_confirmed counts 4 4 4 (pos 1000) (pos 1010) (pos 1020) 9 9 9 quiet

-- A distribution whose tail underflows at once.
abbrev heavy : SpikeFloats
heavy = record {
  Float = ℕ;
  less = ltb;
  at_least = λ a b. leb b a;
  of_nat = λ n. n;
  plus = λ a b. a + b;
  minus = λ a b. a - b;
  times = λ a b. 0;
  divide = λ a b. a;
  log = λ a. a;
  exp = λ a. 0;
  minus_700 = 0;
  underflow = 1;
  robust_cap_prob = 1;
}

abbrev heavy_detector : Detector heavy
heavy_detector = record {
  slots = λ i. record { alpha = 1; beta = 1; n = 0 };
  global = record { alpha = 1; beta = 1; n = 0 };
  recent_flags = 0;
  last_alert = pos 0;
  cfg = record {
    min_count = 5;
    threshold = 2;
    rho = 1;
    cooldown = pos 600;
    slot_maturity_observations = 630;
  };
}
