-- ===== src/Workload/Counts.antt =====
-- The counts of workload statistics agree with their histograms.
use lisstech_drain_ctl.Prelude.{
  ℕ, ◌+◌, ◌^◌, ◌≤◌, ◌<◌, ◌≡◌, refl, ◌∙◌, Bool, true, false, Option, none, some, List, [], ◌∷◌,
  arith, inl, inr, ltb, ◌==◌, length, length-set, Bool-cases,
}
use lisstech_drain_ctl.Prelude.Int.{ℤ, pos, negsuc}
use lisstech_drain_ctl.Session.{CollectionError, SessionRecord, SessionSnapshot}
use lisstech_drain_ctl.Workload.{
  WorkloadFloats, cpu_histogram_bins, SessionWorkloadAggregate, workload_eligible_state, clamp_bin,
  no_workload, memory_bin, is_percentage, count_if, add_cpu, add_session_cpu, add_memory,
  add_session_memory, add_session, add_sessions, one_if_empty, calculate_session_workload, merge,
}
use lisstech_drain_ctl.Workload.Sums.{
  sum, bins_sum, sum-bump, bins_sum-add_bin, bins_sum-merge_bins, sum-add_counts,
}

clamp_bin-lt : (z : ℤ) → clamp_bin z < cpu_histogram_bins
unfolding clamp_bin
clamp_bin-lt (pos n) = ground arith
clamp_bin-lt (negsuc n) = omega arith

module _ (fl : WorkloadFloats) where
  -- The counts are those of the histograms.
  pub record IsCounted (a : SessionWorkloadAggregate fl) : Type 0 where
    pub size : length a.cpu_histogram ≡ cpu_histogram_bins
    pub cpu : sum a.cpu_histogram ≡ a.cpu_count
    pub ge_5 : a.cpu_ge_5 ≤ a.cpu_count
    pub ge_20 : a.cpu_ge_20 ≤ a.cpu_count
    pub memory : a.memory_zero_count + bins_sum a.memory_histogram ≡ a.memory_count

  -- The same, after at most `n` sessions.
  record CountedTo (n : ℕ) (a : SessionWorkloadAggregate fl) : Type 0 where
    counted : IsCounted a
    cpu_bound : a.cpu_count ≤ n
    memory_bound : a.memory_count ≤ n

  add_cpu-IsCounted :
      (v : fl.Float) (a : SessionWorkloadAggregate fl)
      → IsCounted a
      → a.cpu_count + 1 < 2 ^ 64
      → IsCounted (add_cpu fl v a)
        × ((add_cpu fl v a).cpu_count ≤ a.cpu_count + 1)
        × ((add_cpu fl v a).memory_count ≡ a.memory_count)
  unfolding add_cpu
  add_cpu-IsCounted v a c small = elim (Bool-cases (is_percentage fl v)) [
    | inr e ↦ rw e (c, omega arith, refl)
    | inl e ↦
        let i = clamp_bin (fl.round (fl.divide v fl.half)) in
        let five = count_if-le (fl.at_most fl.five v) a.cpu_ge_5 in
        let twenty = count_if-le (fl.at_most fl.twenty v) a.cpu_ge_20 in
        let same = c.cpu in
        let inside : i < length a.cpu_histogram =
          omega (arith, clamp_bin-lt (fl.round (fl.divide v fl.half)), c.size) in
        rw e (
          record {
            size = length-set a.cpu_histogram i _ ∙ c.size;
            cpu = omega (arith, sum-bump a.cpu_histogram i inside (omega arith));
            ge_5 = let h = c.ge_5 in omega arith;
            ge_20 = let h = c.ge_20 in omega arith;
            memory = c.memory;
          },
          omega arith,
          refl,
        )
  ]
    where
      count_if-le : (b : Bool) (n : ℕ) → count_if b n ≤ n + 1
      count_if-le true n = omega arith
      count_if-le false n = omega arith

  add_memory-IsCounted :
      (v : ℕ) (a : SessionWorkloadAggregate fl)
      → IsCounted a
      → a.memory_count + 1 < 2 ^ 64
      → IsCounted (add_memory fl v a)
        × ((add_memory fl v a).memory_count ≤ a.memory_count + 1)
        × ((add_memory fl v a).cpu_count ≡ a.cpu_count)
  unfolding add_memory
  add_memory-IsCounted v a c small =
      let total = c.memory in
      elim (Bool-cases (v == 0)) [
        | inl e ↦ rw e (
          record {
            size = c.size;
            cpu = c.cpu;
            ge_5 = c.ge_5;
            ge_20 = c.ge_20;
            memory = omega arith;
          },
          omega arith,
          refl,
        )
        | inr e ↦
            let more = bins_sum-add_bin (memory_bin fl v) 1 a.memory_histogram (omega arith) in
            rw e (
              record {
                size = c.size;
                cpu = c.cpu;
                ge_5 = c.ge_5;
                ge_20 = c.ge_20;
                memory = omega arith;
              },
              omega arith,
              refl,
            )
      ]

  add_session_cpu-CountedTo :
      (cpus n : ℕ) (o : Option fl.Float) (a : SessionWorkloadAggregate fl)
      → IsCounted a
      → a.cpu_count ≤ n
      → n + 1 < 2 ^ 64
      → IsCounted (add_session_cpu fl cpus o a)
        × ((add_session_cpu fl cpus o a).cpu_count ≤ n + 1)
        × ((add_session_cpu fl cpus o a).memory_count ≡ a.memory_count)
  unfolding add_session_cpu
  add_session_cpu-CountedTo cpus n none a c b small = (c, omega arith, refl)
  add_session_cpu-CountedTo cpus n (some v) a c b small = elim (Bool-cases (ltb 0 cpus)) [
    | inl e ↦
        let (counted, bound, same) =
          add_cpu-IsCounted (fl.divide v (fl.of_nat cpus)) a c (omega arith) in
        rw e (counted, omega arith, same)
    | inr e ↦ rw e (c, omega arith, refl)
  ]

  add_session_memory-CountedTo :
      (n : ℕ) (o : Option ℕ) (a : SessionWorkloadAggregate fl)
      → IsCounted a
      → a.memory_count ≤ n
      → a.cpu_count ≤ n + 1
      → n + 1 < 2 ^ 64
      → CountedTo (n + 1) (add_session_memory fl o a)
  unfolding add_session_memory
  add_session_memory-CountedTo n none a c m b small = record {
    counted = c;
    cpu_bound = b;
    memory_bound = omega arith;
  }
  add_session_memory-CountedTo n (some v) a c m b small =
      let (counted, bound, same) = add_memory-IsCounted v a c (omega arith) in
      record { counted = counted; cpu_bound = omega arith; memory_bound = omega arith }

  add_session-CountedTo :
      (cpus n : ℕ) (s : SessionRecord fl.Float) (a : SessionWorkloadAggregate fl)
      → CountedTo n a
      → n + 1 < 2 ^ 64
      → CountedTo (n + 1) (add_session fl cpus s a)
  unfolding add_session
  add_session-CountedTo cpus n s a c small =
      let b = c.cpu_bound in
      let m = c.memory_bound in
      elim (Bool-cases (workload_eligible_state s.state)) [
        | inl e ↦
            let (counted, bound, same) =
              add_session_cpu-CountedTo cpus n s.cpu_percent a c.counted b small in
            rw e (
              add_session_memory-CountedTo n s.working_set_bytes _ counted (omega arith) bound
                small)
        | inr e ↦
            rw e
              (record { counted = c.counted; cpu_bound = omega arith; memory_bound = omega arith })
      ]

  add_sessions-IsCounted :
      (cpus n : ℕ) (ss : List (SessionRecord fl.Float)) (a : SessionWorkloadAggregate fl)
      → CountedTo n a
      → n + length ss < 2 ^ 64
      → IsCounted (add_sessions fl cpus ss a)
  unfolding add_sessions
  add_sessions-IsCounted cpus n [] a c small = c.counted
  add_sessions-IsCounted cpus n (s ∷ ss) a c small =
      add_sessions-IsCounted cpus (n + 1) ss _ (add_session-CountedTo cpus n s a c (omega arith))
        (omega arith)

  -- The statistics of a snapshot are counted by their histograms, whatever its sessions are.
  pub calculate-IsCounted :
      (s : SessionSnapshot fl.Float)
      → length s.sessions < 2 ^ 64
      → IsCounted (calculate_session_workload fl s)
  unfolding calculate_session_workload
  calculate-IsCounted s small = after s.collection_error
    where
      empty : IsCounted (no_workload fl)
      empty = record {
        size = refl;
        cpu = refl;
        ge_5 = omega arith;
        ge_20 = omega arith;
        memory = refl;
      }

      after :
          (o : Option CollectionError)
          → IsCounted (elim o [
            | some e ↦ record (no_workload fl) { error_sample_count = 1 }
            | none ↦ add_sessions fl s.logical_cpu_count s.sessions (record (no_workload fl) {
              base_sample_count = 1;
              successful_empty_count = one_if_empty s.sessions;
            })
          ])
      after (some e) = record {
        size = refl;
        cpu = refl;
        ge_5 = omega arith;
        ge_20 = omega arith;
        memory = refl;
      }
      after none =
          add_sessions-IsCounted s.logical_cpu_count 0 s.sessions _
            (record {
              counted = record {
                size = refl;
                cpu = refl;
                ge_5 = omega arith;
                ge_20 = omega arith;
                memory = refl;
              };
              cpu_bound = omega arith;
              memory_bound = omega arith;
            })
            (omega arith)

  -- Merging keeps that, while the counts fit their words.
  pub merge-IsCounted :
      (a b : SessionWorkloadAggregate fl)
      → IsCounted a
      → IsCounted b
      → a.cpu_count + b.cpu_count < 2 ^ 64
      → a.memory_count + b.memory_count < 2 ^ 64
      → IsCounted (merge fl a b)
  unfolding merge
  merge-IsCounted a b c d small_cpu small_memory =
      let nc = c.cpu in
      let nd = d.cpu in
      let mc = c.memory in
      let md = d.memory in
      let fc = c.ge_5 in
      let fd = d.ge_5 in
      let tc = c.ge_20 in
      let td = d.ge_20 in
      let (total, size) =
        sum-add_counts a.cpu_histogram b.cpu_histogram (omega (arith, c.size, d.size))
          (omega arith) in
      let bins = bins_sum-merge_bins a.memory_histogram b.memory_histogram (omega arith) in
      record {
        size = size ∙ c.size;
        cpu = omega arith;
        ge_5 = omega arith;
        ge_20 = omega arith;
        memory = omega arith;
      }
