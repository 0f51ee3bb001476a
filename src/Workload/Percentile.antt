-- ===== src/Workload/Percentile.antt =====
-- The percentile of a rank, where the counts agree with the histograms.
use lisstech_drain_ctl.Prelude.{
  ℕ, suc, ◌+◌, ◌^◌, ◌≤◌, ◌<◌, ◌≡◌, ap, ◌∙◌, true, false, some, List, [], ◌∷◌, arith, inl, inr, leb,
  leb→le, ◌==◌, length, take, Bool-cases,
}
use lisstech_drain_ctl.Workload.{
  WorkloadFloats, add64, SessionWorkloadAggregate, percentile_rank, bin_of_rank, cpu_percentile,
}
use lisstech_drain_ctl.Workload.Sums.{sum}
use lisstech_drain_ctl.Workload.Counts.{IsCounted}

-- `j` is the bin of the rank: the counts below it do not reach the rank, with it they do.
pub record IsRankBin (rank : ℕ) (cs : List ℕ) (j : ℕ) : Type 0 where
  pub inside : j < length cs
  pub before : sum (take j cs) < rank
  pub reached : rank ≤ sum (take (suc j) cs)

plus_zero : (i : ℕ) → i ≡ i + 0
plus_zero i = omega arith

zero_plus : (j : ℕ) → 0 + j ≡ j
zero_plus j = omega arith

next_index : (i j : ℕ) → i + 1 + j ≡ i + suc j
next_index i j = omega arith

bin_of_rank-here :
    (i seen rank c : ℕ) (cs : List ℕ)
    → leb rank (add64 seen c) ≡ true
    → bin_of_rank i seen rank (c ∷ cs) ≡ some i
unfolding bin_of_rank
bin_of_rank-here i seen rank c cs e = rw e

bin_of_rank-past :
    (i seen rank c : ℕ) (cs : List ℕ)
    → leb rank (add64 seen c) ≡ false
    → bin_of_rank i seen rank (c ∷ cs) ≡ bin_of_rank (i + 1) (add64 seen c) rank cs
unfolding bin_of_rank
bin_of_rank-past i seen rank c cs e = rw e

bin_of_rank-found :
    (i seen rank : ℕ) (cs : List ℕ)
    → seen < rank
    → rank ≤ seen + sum cs
    → seen + sum cs < 2 ^ 64
    → (j : ℕ) × (bin_of_rank i seen rank cs ≡ some (i + j))
      × (j < length cs)
      × (seen + sum (take j cs) < rank)
      × (rank ≤ seen + sum (take (suc j) cs))
bin_of_rank-found i seen rank [] lo hi small = absurd (omega arith)
bin_of_rank-found i seen rank (c ∷ cs) lo hi small =
    let word : add64 seen c ≡ seen + c = omega arith in
    elim (Bool-cases (leb rank (add64 seen c))) [
      | inl e ↦
          let reached = leb→le rank (add64 seen c) e in
          (
            0,
            bin_of_rank-here i seen rank c cs e ∙ ap some (plus_zero i),
            omega arith,
            omega arith,
            omega arith,
          )
      | inr e ↦
          let missed : add64 seen c < rank = ground arith in
          let (j, found, inside, before, reached) =
            bin_of_rank-found (i + 1) (add64 seen c) rank cs missed (omega arith) (omega arith) in
          (
            suc j,
            bin_of_rank-past i seen rank c cs e ∙ found ∙ ap some (next_index i j),
            omega arith,
            omega arith,
            omega arith,
          )
    ]

-- Where the counts are those of the histograms, a percentile whose rank is between 1 and the count of the
-- observations is found, and is the value of the bin of that rank.
pub cpu_percentile_found :
    (fl : WorkloadFloats) (a : SessionWorkloadAggregate fl) (q : fl.Float)
    → IsCounted fl a
    → a.cpu_count < 2 ^ 64
    → 0 < percentile_rank fl a.cpu_count q
    → percentile_rank fl a.cpu_count q ≤ a.cpu_count
    → (j : ℕ) × (cpu_percentile fl a q ≡ some (fl.times (fl.of_nat j) fl.half))
      × IsRankBin (percentile_rank fl a.cpu_count q) a.cpu_histogram j
unfolding cpu_percentile
cpu_percentile_found fl a q c small lo hi =
    let total = c.cpu in
    let some_cpu : a.cpu_count == 0 ≡ false = ground arith in
    let (j, found, inside, before, reached) =
      bin_of_rank-found 0 0 (percentile_rank fl a.cpu_count q) a.cpu_histogram lo (omega arith)
        (omega arith) in
    (
      j,
      rw (some_cpu, found) (ap (λ k. some (fl.times (fl.of_nat k) fl.half)) (zero_plus j)),
      record { inside = inside; before = omega arith; reached = omega arith },
    )
