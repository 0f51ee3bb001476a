-- ===== src/Threshold/Streak.antt =====
-- The critical triggers fire by the length of the run of critical evaluations.
use lisstech_drain_ctl.Prelude.{
  ℕ, suc, Bool, true, false, ◌&&◌, ◌||◌, ◌≡◌, refl, ap, ◌∙◌, inl, inr, some, List, [], ◌∷◌, ◌++◌,
  arith, Bool-cases, if◌then◌else◌,
}
use lisstech_drain_ctl.Prelude.Int.{ℤ, pos, ltb_ℤ, leb_ℤ}
use lisstech_drain_ctl.Prelude.Rows.{any_row}
use lisstech_drain_ctl.Threshold.{
  Floats, PerfConfig, PerfSnapshot, Trigger, cpu_critical, cpu_warning, memory_critical,
  memory_warning, input_delay_critical, input_delay_warning, Counts, PerfTriggerState, load_polls,
  input_delay_polls, count, fire, cpu_limits, cpu_over, next_state, triggers, mem_limits,
  input_delay_limits, evaluate_thresholds,
}

abbrev pub is_cpu_critical : Trigger → Bool
is_cpu_critical cpu_critical = true
is_cpu_critical _ = false

-- The number of latest elements that pass a test, the latest first.
unfoldable pub streak {ℓ} : {A : Type ℓ} → (A → Bool) → List A → ℕ
streak p [] = 0
streak p (x ∷ xs) = if p x then suc (streak p xs) else 0

abbrev pub no_breaches : PerfTriggerState
no_breaches = record {
  cpu = record { warn_count = 0; crit_count = 0 };
  mem = record { warn_count = 0; crit_count = 0 };
  input_delay = record { warn_count = 0; crit_count = 0 };
}

any_row-append :
    {A : Type 0} (p : A → Bool) (xs ys : List A)
    → any_row p (xs ++ ys) ≡ (any_row p xs || any_row p ys)
unfolding any_row
any_row-append p [] ys = refl
any_row-append p (x ∷ xs) ys = elim (Bool-cases (p x)) [
  | inl e ↦ rw e
  | inr e ↦ rw (e, any_row-append p xs ys)
]

count-crit :
    (crit warn : ℤ) (is_crit is_warn : Bool) (c : Counts)
    → (count crit warn is_crit is_warn c).crit_count
      ≡ (if ltb_ℤ (pos 0) crit && is_crit then suc c.crit_count else 0)
unfolding count
count-crit crit warn is_crit is_warn c = ground arith

fire-critical :
    (crit warn polls : ℤ) (c : Counts)
    → any_row is_cpu_critical (fire crit warn polls cpu_critical cpu_warning c)
      ≡ (ltb_ℤ (pos 0) crit && leb_ℤ polls (pos c.crit_count))
unfolding fire any_row
fire-critical crit warn polls c = ground arith

fire-other :
    (crit warn polls : ℤ) (critical warning : Trigger) (c : Counts)
    → is_cpu_critical critical ≡ false
    → is_cpu_critical warning ≡ false
    → any_row is_cpu_critical (fire crit warn polls critical warning c) ≡ false
unfolding fire any_row
fire-other crit warn polls critical warning c e f = ground arith

module _ (fl : Floats) (cfg : PerfConfig) (seconds : ℤ) where
  -- The state after a list of evaluations, the latest first.
  unfoldable pub state_after : List (PerfSnapshot fl) → PerfTriggerState
  state_after [] = no_breaches
  state_after (x ∷ xs) = (evaluate_thresholds fl cfg seconds (some x) (state_after xs)).0

  -- `cpuCrit > 0 && snap.CPUPct >= float64(cpuCrit)`
  abbrev pub is_hot : PerfSnapshot fl → Bool
  is_hot snap =
      ltb_ℤ (pos 0) (cpu_limits fl cfg seconds).1
      && cpu_over fl cfg seconds (cpu_limits fl cfg seconds).1 snap

  crit_count-streak :
      (xs : List (PerfSnapshot fl)) → (state_after xs).cpu.crit_count ≡ streak is_hot xs
  unfolding state_after streak evaluate_thresholds next_state
  crit_count-streak [] = refl
  crit_count-streak (x ∷ xs) =
      count-crit _ _ _ _ (state_after xs).cpu
      ∙ ap (λ n. if is_hot x then suc n else 0) (crit_count-streak xs)

  triggers-critical :
      (st : PerfTriggerState)
      → any_row is_cpu_critical (triggers fl cfg seconds st) ≡ (
          ltb_ℤ (pos 0) (cpu_limits fl cfg seconds).1
          && leb_ℤ (load_polls cfg seconds) (pos st.cpu.crit_count))
  unfolding triggers
  triggers-critical st =
      any_row-append is_cpu_critical _ _
      ∙ others _ _
          (any_row-append is_cpu_critical _ _
            ∙ others _ _
                (fire-critical (cpu_limits fl cfg seconds).1 (cpu_limits fl cfg seconds).0
                  (load_polls cfg seconds) st.cpu)
                (fire-other (mem_limits fl cfg seconds).1 (mem_limits fl cfg seconds).0
                  (load_polls cfg seconds) memory_critical memory_warning st.mem refl refl))
          (fire-other (input_delay_limits fl cfg seconds).1 (input_delay_limits fl cfg seconds).0
            (input_delay_polls cfg seconds) input_delay_critical input_delay_warning st.input_delay
            refl refl)
    where
      others : (a b : Bool) {c : Bool} → a ≡ c → b ≡ false → (a || b) ≡ c
      others a b e f = ground (arith, e, f)

  -- The trigger of a critical processor load fires at an evaluation exactly when its threshold is on and
  -- the run of critical evaluations that ends there is as long as the alert delay asks for.
  pub cpu_critical_streak :
      (x : PerfSnapshot fl) (xs : List (PerfSnapshot fl))
      → any_row is_cpu_critical (evaluate_thresholds fl cfg seconds (some x) (state_after xs)).1 ≡ (
          ltb_ℤ (pos 0) (cpu_limits fl cfg seconds).1
          && leb_ℤ (load_polls cfg seconds) (pos (streak is_hot (x ∷ xs))))
  unfolding evaluate_thresholds
  cpu_critical_streak x xs =
      triggers-critical (next_state fl cfg seconds x (state_after xs))
      ∙ ap
          (λ n.
            ltb_ℤ (pos 0) (cpu_limits fl cfg seconds).1 && leb_ℤ (load_polls cfg seconds) (pos n))
          (unfold state_after in crit_count-streak (x ∷ xs))
