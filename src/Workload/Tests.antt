-- ===== src/Workload/Tests.antt =====
-- A snapshot with two sessions over whole numbers, and the theorems of this part at it.
use lisstech_drain_ctl.Prelude.{
  ℕ, zero, suc, ◌+◌, ◌*◌, ◌/◌, ◌≡◌, ◌≢◌, refl, false, none, some, List, [], ◌∷◌, arith, leb,
  replicate,
}
use lisstech_drain_ctl.Prelude.Int.{ℤ, pos, negsuc}
use lisstech_drain_ctl.Prelude.Rows.{All, order_by}
use lisstech_drain_ctl.Prelude.Sorted.{Sorted}
use lisstech_drain_ctl.Session.{SessionRecord, SessionSnapshot, session_active, session_idle}
use lisstech_drain_ctl.Workload.{
  WorkloadFloats, SessionWorkloadAggregate, MemoryBin, calculate_session_workload, merge,
  percentile_rank, cpu_percentile, by_bin, no_workload,
}
use lisstech_drain_ctl.Workload.Codec.{decode_memory_histogram, encode_memory_histogram}
use lisstech_drain_ctl.Workload.Counts.{IsCounted, calculate-IsCounted, merge-IsCounted}
use lisstech_drain_ctl.Workload.Percentile.{IsRankBin, cpu_percentile_found}
use lisstech_drain_ctl.Workload.Roundtrip.{IsUint64, IsEntry, OtherBin, decode-encode_memory}
use lisstech_drain_ctl.Workload.Store.{scan_row, workload_row}
use lisstech_drain_ctl.Workload.Scan.{IsStorable, scan-workload_row}

abbrev to_nat : ℤ → ℕ
to_nat (pos n) = n
to_nat (negsuc n) = 0

-- Whole numbers in the place of floating-point numbers.
abbrev whole : WorkloadFloats
whole = record {
  Float = ℕ;
  of_nat = λ n. n;
  of_int = to_nat;
  add = λ a b. a + b;
  times = λ a b. a * b;
  divide = λ a b. a / b;
  at_most = leb;
  is_nan = λ a. false;
  is_inf = λ a. false;
  round = pos;
  floor = pos;
  ceil = λ a. a;
  log = λ a. a;
  pow = λ a b. a * b;
  zero_point = 0;
  half = 1;
  one = 1;
  memory_bin_ratio = 1;
  five = 5;
  twenty = 20;
  hundred = 100;
}

abbrev busy : SessionRecord ℕ
busy = record {
  session_id = 2;
  logon_at_ms = none;
  user = none;
  domain = none;
  state = session_active;
  station = none;
  client_name = none;
  client_address = none;
  connect_at_ms = none;
  disconnect_at_ms = none;
  idle_since_ms = none;
  cpu_percent = some 84;
  working_set_bytes = some 7;
  input_delay_ms = none;
  remote_fx = none;
  processes = [];
}

abbrev two_sessions : SessionSnapshot ℕ
two_sessions = record {
  schema = [];
  host = 114 ∷ 100 ∷ [];
  agent_instance_id = [];
  sequence = 1;
  observed_at_ms = pos 0;
  collector_version = [];
  logical_cpu_count = 4;
  capabilities = record {
    session_actions = false;
    processes = false;
    input_delay = false;
    remote_fx = false;
  };
  collection_error = none;
  sessions = busy ∷ record busy { session_id = 3; state = session_idle; cpu_percent = some 8 } ∷ [];
}

abbrev counted : SessionWorkloadAggregate whole
counted = calculate_session_workload whole two_sessions

two_sessions-calculate-IsCounted : IsCounted whole counted
two_sessions-calculate-IsCounted = calculate-IsCounted whole two_sessions (omega arith)

counted-two : counted.cpu_count ≡ 2
unfolding calculate_session_workload
counted-two = refl

counted-memory : counted.memory_count ≡ 2
unfolding calculate_session_workload
counted-memory = refl

twice-merge-IsCounted : IsCounted whole (merge whole counted counted)
twice-merge-IsCounted =
    merge-IsCounted whole counted counted (calculate-IsCounted whole two_sessions (omega arith))
      (calculate-IsCounted whole two_sessions (omega arith)) (omega (arith, counted-two))
      (omega (arith, counted-memory))

-- The rank of the whole is the count.
rank_whole : percentile_rank whole counted.cpu_count 1 ≡ 2
unfolding percentile_rank calculate_session_workload
rank_whole = refl

two_sessions-cpu_percentile_found :
    (j : ℕ) × (cpu_percentile whole counted 1 ≡ some (j * 1))
    × IsRankBin (percentile_rank whole counted.cpu_count 1) counted.cpu_histogram j
two_sessions-cpu_percentile_found =
    cpu_percentile_found whole counted 1 (calculate-IsCounted whole two_sessions (omega arith))
      (omega (arith, counted-two)) (omega (arith, rank_whole))
      (omega (arith, rank_whole, counted-two))

abbrev two_bins : List MemoryBin
two_bins = record { bin = pos 900; count = 3 } ∷ record { bin = pos 12; count = 1 } ∷ []

two_bins-apart : Sorted OtherBin two_bins
two_bins-apart = ((different, tt), (tt, tt))
  where
    different : pos 900 ≢ pos 12
    different e = absurd (ground arith)

two_bins-IsEntry : All IsEntry two_bins
two_bins-IsEntry = (
  (omega arith, omega arith, omega arith, omega arith),
  ((omega arith, omega arith, omega arith, omega arith), tt),
)

two_bins-decode-encode_memory :
    decode_memory_histogram (encode_memory_histogram 5 two_bins)
    ≡ some (record { zero_count = 5; histogram = order_by by_bin two_bins })
two_bins-decode-encode_memory =
    decode-encode_memory 5 two_bins (omega arith) (omega arith) two_bins-apart two_bins-IsEntry

abbrev stored : SessionWorkloadAggregate whole
stored = record (no_workload whole) { memory_zero_count = 5; memory_histogram = two_bins }

zeros-IsUint64 : (n : ℕ) → All IsUint64 (replicate n 0)
zeros-IsUint64 zero = tt
zeros-IsUint64 (suc n) = (omega arith, zeros-IsUint64 n)

stored-IsStorable : IsStorable stored
stored-IsStorable = record {
  size = refl;
  counts = zeros-IsUint64 201;
  zero_count = omega arith;
  few = omega arith;
  keys = two_bins-apart;
  entries = two_bins-IsEntry;
}

one_minute-scan-workload_row :
    scan_row (workload_row (pos 60000) (114 ∷ []) stored (2 ∷ []) (1 ∷ []) (0 ∷ []))
    ≡ some (record {
      bucket = pos 60000;
      host = 114 ∷ [];
      agg = record stored { memory_histogram = order_by by_bin two_bins };
      observed_series = 2 ∷ [];
      ge_5_series = 1 ∷ [];
      ge_20_series = 0 ∷ [];
    })
one_minute-scan-workload_row =
    scan-workload_row (pos 60000) (114 ∷ []) stored (2 ∷ []) (1 ∷ []) (0 ∷ []) 1 stored-IsStorable
      (omega arith) (refl, (omega arith, tt)) (refl, (omega arith, tt)) (refl, (omega arith, tt))
