-- ===== src/Workload.antt =====
-- Anonymous workload statistics of a snapshot (internal/sessiondata/workload.go). Floating-point numbers are
-- an argument.
pub mod Codec
pub mod Sums
pub mod Counts
pub mod Percentile
pub mod Roundtrip
pub mod Store
pub mod Scan
mod Tests
use lisstech_drain_ctl.Prelude.{
  ℕ, zero, suc, ◌+◌, ◌-◌, ◌%◌, ◌^◌, Bool, true, false, not, ◌&&◌, ◌||◌, Option, none, some, List,
  [], ◌∷◌, ltb, leb, ◌==◌, if◌then◌else◌, get_or, set, replicate,
}
use lisstech_drain_ctl.Prelude.Int.{ℤ, pos, negsuc, leb_ℤ, eqb_ℤ}
use lisstech_drain_ctl.Prelude.Rows.{order_by}
use lisstech_drain_ctl.Session.{
  SessionState, session_active, session_connected, session_connect_query, session_shadow,
  session_disconnected, session_idle, SessionRecord, SessionSnapshot,
}

-- What the code uses of float64: the operations, int(math.Round(x)), int32(math.Floor(x)),
-- uint64(math.Ceil(x)), math.Log, math.Pow, and the constants 0, 0.5, 1, 1.02, 5, 20 and 100.
pub record WorkloadFloats : Type 1 where
  pub Float : Type 0
  pub of_nat : ℕ → Float
  pub of_int : ℤ → Float
  pub add : Float → Float → Float
  pub times : Float → Float → Float
  pub divide : Float → Float → Float
  pub at_most : Float → Float → Bool
  pub is_nan : Float → Bool
  pub is_inf : Float → Bool
  pub round : Float → ℤ
  pub floor : Float → ℤ
  pub ceil : Float → ℕ
  pub log : Float → Float
  pub pow : Float → Float → Float
  pub zero_point : Float
  pub half : Float
  pub one : Float
  pub memory_bin_ratio : Float
  pub five : Float
  pub twenty : Float
  pub hundred : Float

abbrev pub cpu_histogram_bins : ℕ
cpu_histogram_bins = 201

-- uint64 addition
abbrev pub add64 : ℕ → ℕ → ℕ
add64 a b = (a + b) % 2 ^ 64

-- An entry of MemoryHistogram, a map[int32]uint64.
pub record MemoryBin : Type 0 where
  pub bin : ℤ
  pub count : ℕ

-- `m[bin] += count`
unfoldable pub add_bin : ℤ → ℕ → List MemoryBin → List MemoryBin
add_bin b n [] = record { bin = b; count = n } ∷ []
add_bin b n (e ∷ es) =
    let rest = add_bin b n es in
    if eqb_ℤ e.bin b then record e { count = add64 e.count n } ∷ es else e ∷ rest

-- `m[i]++` on the array.
abbrev pub bump : List ℕ → ℕ → List ℕ
bump h i = set h i (add64 (get_or h i 0) 1)

-- `for i := range a { a[i] += b[i] }`
unfoldable pub add_counts : List ℕ → List ℕ → List ℕ
add_counts [] bs = []
add_counts (a ∷ as_) [] = a ∷ as_
add_counts (a ∷ as_) (b ∷ bs) = add64 a b ∷ add_counts as_ bs

unfoldable pub merge_bins : List MemoryBin → List MemoryBin → List MemoryBin
unfolding add_bin
merge_bins h [] = h
merge_bins h (e ∷ es) = merge_bins (add_bin e.bin e.count h) es

-- workloadEligibleState
unfoldable pub workload_eligible_state : SessionState → Bool
workload_eligible_state session_active = true
workload_eligible_state session_connected = true
workload_eligible_state session_connect_query = true
workload_eligible_state session_shadow = true
workload_eligible_state session_disconnected = true
workload_eligible_state session_idle = true
workload_eligible_state _ = false

pub record SessionWorkloadAggregate (fl : WorkloadFloats) : Type 0 where
  pub base_sample_count : ℕ
  pub successful_empty_count : ℕ
  pub error_sample_count : ℕ
  pub cpu_sum : fl.Float
  pub cpu_count : ℕ
  pub cpu_histogram : List ℕ
  pub cpu_ge_5 : ℕ
  pub cpu_ge_20 : ℕ
  pub memory_sum_bytes : fl.Float
  pub memory_count : ℕ
  pub memory_zero_count : ℕ
  pub memory_histogram : List MemoryBin

-- The clamp of the bin of a percentage.
unfoldable pub clamp_bin : ℤ → ℕ
clamp_bin (negsuc n) = 0
clamp_bin (pos n) = if leb cpu_histogram_bins n then cpu_histogram_bins - 1 else n

abbrev pub count_if : Bool → ℕ → ℕ
count_if b n = if b then add64 n 1 else n

abbrev pub one_if_empty : {A : Type 0} → List A → ℕ
one_if_empty [] = 1
one_if_empty (x ∷ xs) = 0

-- The first bin, counted from `i`, at which the counts reach the rank.
unfoldable pub bin_of_rank : ℕ → ℕ → ℕ → List ℕ → Option ℕ
bin_of_rank i seen rank [] = none
bin_of_rank i seen rank (c ∷ cs) =
    let rest = bin_of_rank (i + 1) (add64 seen c) rank cs in
    if leb rank (add64 seen c) then some i else rest

abbrev pub by_bin : MemoryBin → MemoryBin → Bool
by_bin a b = leb_ℤ a.bin b.bin

module _ (fl : WorkloadFloats) where
  abbrev pub no_workload : SessionWorkloadAggregate fl
  no_workload = record {
    base_sample_count = 0;
    successful_empty_count = 0;
    error_sample_count = 0;
    cpu_sum = fl.zero_point;
    cpu_count = 0;
    cpu_histogram = replicate cpu_histogram_bins 0;
    cpu_ge_5 = 0;
    cpu_ge_20 = 0;
    memory_sum_bytes = fl.zero_point;
    memory_count = 0;
    memory_zero_count = 0;
    memory_histogram = [];
  }

  unfoldable pub memory_bin : ℕ → ℤ
  memory_bin value = fl.floor (fl.divide (fl.log (fl.of_nat value)) (fl.log fl.memory_bin_ratio))

  unfoldable pub memory_bin_value : ℤ → fl.Float
  memory_bin_value bin = fl.pow fl.memory_bin_ratio (fl.add (fl.of_int bin) fl.half)

  -- The test of a share of the processors.
  abbrev pub is_percentage : fl.Float → Bool
  is_percentage v =
      not (fl.is_nan v)
      && not (fl.is_inf v)
      && fl.at_most fl.zero_point v
      && fl.at_most v fl.hundred

  unfoldable pub add_cpu : fl.Float → SessionWorkloadAggregate fl → SessionWorkloadAggregate fl
  unfolding clamp_bin
  add_cpu v a =
      if is_percentage v
      then record a {
        cpu_sum = fl.add a.cpu_sum v;
        cpu_count = add64 a.cpu_count 1;
        cpu_histogram = bump a.cpu_histogram (clamp_bin (fl.round (fl.divide v fl.half)));
        cpu_ge_5 = count_if (fl.at_most fl.five v) a.cpu_ge_5;
        cpu_ge_20 = count_if (fl.at_most fl.twenty v) a.cpu_ge_20;
      }
      else a

  unfoldable pub add_session_cpu :
      ℕ → Option fl.Float → SessionWorkloadAggregate fl → SessionWorkloadAggregate fl
  unfolding add_cpu
  add_session_cpu cpus none a = a
  add_session_cpu cpus (some v) a =
      if ltb 0 cpus then add_cpu (fl.divide v (fl.of_nat cpus)) a else a

  unfoldable pub add_memory : ℕ → SessionWorkloadAggregate fl → SessionWorkloadAggregate fl
  unfolding memory_bin add_bin
  add_memory value a = record a {
    memory_sum_bytes = fl.add a.memory_sum_bytes (fl.of_nat value);
    memory_count = add64 a.memory_count 1;
    memory_zero_count = count_if (value == 0) a.memory_zero_count;
    memory_histogram =
        if value == 0 then a.memory_histogram else add_bin (memory_bin value) 1 a.memory_histogram;
  }

  unfoldable pub add_session_memory :
      Option ℕ → SessionWorkloadAggregate fl → SessionWorkloadAggregate fl
  unfolding add_memory
  add_session_memory none a = a
  add_session_memory (some value) a = add_memory value a

  -- One round of the loop over the sessions.
  unfoldable pub add_session :
      ℕ → SessionRecord fl.Float → SessionWorkloadAggregate fl → SessionWorkloadAggregate fl
  unfolding workload_eligible_state add_session_cpu add_session_memory
  add_session cpus s a =
      if not (workload_eligible_state s.state)
      then a
      else add_session_memory s.working_set_bytes (add_session_cpu cpus s.cpu_percent a)

  unfoldable pub add_sessions :
      ℕ → List (SessionRecord fl.Float) → SessionWorkloadAggregate fl → SessionWorkloadAggregate fl
  unfolding add_session
  add_sessions cpus [] a = a
  add_sessions cpus (s ∷ ss) a = add_sessions cpus ss (add_session cpus s a)

  -- CalculateSessionWorkload
  unfoldable pub calculate_session_workload : SessionSnapshot fl.Float → SessionWorkloadAggregate fl
  unfolding add_sessions
  calculate_session_workload s = elim s.collection_error [
    | some e ↦ record no_workload { error_sample_count = 1 }
    | none ↦ add_sessions s.logical_cpu_count s.sessions (record no_workload {
      base_sample_count = 1;
      successful_empty_count = one_if_empty s.sessions;
    })
  ]

  -- Merge
  unfoldable pub merge :
      SessionWorkloadAggregate fl → SessionWorkloadAggregate fl → SessionWorkloadAggregate fl
  unfolding add_counts merge_bins
  merge a other = record {
    base_sample_count = add64 a.base_sample_count other.base_sample_count;
    successful_empty_count = add64 a.successful_empty_count other.successful_empty_count;
    error_sample_count = add64 a.error_sample_count other.error_sample_count;
    cpu_sum = fl.add a.cpu_sum other.cpu_sum;
    cpu_count = add64 a.cpu_count other.cpu_count;
    cpu_histogram = add_counts a.cpu_histogram other.cpu_histogram;
    cpu_ge_5 = add64 a.cpu_ge_5 other.cpu_ge_5;
    cpu_ge_20 = add64 a.cpu_ge_20 other.cpu_ge_20;
    memory_sum_bytes = fl.add a.memory_sum_bytes other.memory_sum_bytes;
    memory_count = add64 a.memory_count other.memory_count;
    memory_zero_count = add64 a.memory_zero_count other.memory_zero_count;
    memory_histogram = merge_bins a.memory_histogram other.memory_histogram;
  }

  -- percentileRank
  unfoldable pub percentile_rank : ℕ → fl.Float → ℕ
  percentile_rank count q =
      if fl.at_most q fl.zero_point
      then 1
      else if fl.at_most fl.one q
      then count
      else fl.ceil (fl.times q (fl.of_nat count))

  abbrev pub bin_value : Option ℕ → Option fl.Float
  bin_value none = none
  bin_value (some i) = some (fl.times (fl.of_nat i) fl.half)

  -- CPUPercentile: none is its `false`.
  unfoldable pub cpu_percentile : SessionWorkloadAggregate fl → fl.Float → Option fl.Float
  unfolding percentile_rank bin_of_rank
  cpu_percentile a q =
      if a.cpu_count == 0
      then none
      else bin_value (bin_of_rank 0 0 (percentile_rank a.cpu_count q) a.cpu_histogram)

  unfoldable pub memory_of_rank : ℕ → ℕ → List MemoryBin → Option fl.Float
  unfolding memory_bin_value
  memory_of_rank seen rank [] = none
  memory_of_rank seen rank (e ∷ es) =
      let rest = memory_of_rank (add64 seen e.count) rank es in
      if leb rank (add64 seen e.count) then some (memory_bin_value e.bin) else rest

  -- MemoryPercentile
  unfoldable pub memory_percentile : SessionWorkloadAggregate fl → fl.Float → Option fl.Float
  unfolding percentile_rank memory_of_rank
  memory_percentile a q =
      if a.memory_count == 0
      then none
      else if leb (percentile_rank a.memory_count q) a.memory_zero_count
      then some fl.zero_point
      else memory_of_rank a.memory_zero_count (percentile_rank a.memory_count q)
          (order_by by_bin a.memory_histogram)
