-- ===== src/Spike/Confirm.antt =====
-- A spike is confirmed by two of the last three buckets.
use lisstech_drain_ctl.Prelude.{
  ℕ, ◌+◌, ◌*◌, Bool, true, false, ◌&&◌, ◌||◌, ◌≡◌, refl, ap, ◌∙◌, arith, if◌then◌else◌,
}
use lisstech_drain_ctl.Prelude.Int.{ℤ, leb_ℤ, ◌-ℤ◌}
use lisstech_drain_ctl.Spike.{SpikeFloats, Detector, observe_bucket, push_flag, confirmed}

abbrev pub bit : Bool → ℕ
bit b = if b then 1 else 0

-- Three flags fill the window, whatever it held.
window :
    (a b c : Bool) (flags : ℕ)
    → push_flag a (push_flag b (push_flag c flags)) ≡ bit a + 2 * bit b + 4 * bit c
unfolding push_flag
window a b c flags = ground arith

abbrev pub two_of_three : Bool → Bool → Bool → Bool
two_of_three a b c = (a && b) || (a && c) || (b && c)

confirmed_window : (a b c : Bool) → confirmed (bit a + 2 * bit b + 4 * bit c) ≡ two_of_three a b c
unfolding confirmed
confirmed_window true true c = ground arith
confirmed_window true false c = ground arith
confirmed_window false b c = ground arith

module _ (fl : SpikeFloats) where
  observe-flags :
      (slot : ℕ) (now : ℤ) (n : ℕ) (d : Detector fl)
      → (observe_bucket fl slot now n d).0.recent_flags
        ≡ push_flag (observe_bucket fl slot now n d).1.anomalous d.recent_flags
  unfolding observe_bucket
  observe-flags slot now n d = refl

  observe-alert :
      (slot : ℕ) (now : ℤ) (n : ℕ) (d : Detector fl)
      → (observe_bucket fl slot now n d).1.alert ≡ (
          confirmed (push_flag (observe_bucket fl slot now n d).1.anomalous d.recent_flags)
          && leb_ℤ d.cfg.cooldown (now -ℤ d.last_alert))
  unfolding observe_bucket
  observe-alert slot now n d = refl

  -- Whatever a detector has seen before, of three buckets in a row the last one raises an alert exactly
  -- when two of the three are anomalous and the cooldown since the last alert is over.
  pub alert_confirmed :
      (i j k : ℕ) (t u v : ℤ) (x y z : ℕ) (d : Detector fl)
      → (observe_bucket fl k v z (observe_bucket fl j u y (observe_bucket fl i t x d).0).0).1.alert
        ≡ (two_of_three
              (observe_bucket fl k v z
                (observe_bucket fl j u y (observe_bucket fl i t x d).0).0).1.anomalous
              (observe_bucket fl j u y (observe_bucket fl i t x d).0).1.anomalous
              (observe_bucket fl i t x d).1.anomalous
            && leb_ℤ
                (observe_bucket fl j u y (observe_bucket fl i t x d).0).0.cfg.cooldown
                (v -ℤ (observe_bucket fl j u y (observe_bucket fl i t x d).0).0.last_alert))
  alert_confirmed i j k t u v x y z d =
      let d1 = (observe_bucket fl i t x d).0 in
      let d2 = (observe_bucket fl j u y d1).0 in
      let a = (observe_bucket fl k v z d2).1.anomalous in
      let b = (observe_bucket fl j u y d1).1.anomalous in
      let c = (observe_bucket fl i t x d).1.anomalous in
      observe-alert k v z d2
      ∙ ap (λ f. confirmed (push_flag a f) && leb_ℤ d2.cfg.cooldown (v -ℤ d2.last_alert))
          (observe-flags j u y d1 ∙ ap (push_flag b) (observe-flags i t x d))
      ∙ ap (λ f. f && leb_ℤ d2.cfg.cooldown (v -ℤ d2.last_alert))
          (ap confirmed (window a b c d.recent_flags) ∙ confirmed_window a b c)
