-- ===== src/Workload/Store.antt =====
-- The stored rows of workload statistics (internal/telemetry/session_workload.go).
use lisstech_drain_ctl.Prelude.{
  ℕ, Bool, ◌&&◌, Option, some, List, [], ◌∷◌, ◌==◌, length, ◌+◌, ◌*◌, ◌-◌, ◌/◌,
}
use lisstech_drain_ctl.Prelude.Int.{ℤ, pos, negsuc, eqb_ℤ}
use lisstech_drain_ctl.Prelude.Bytes.{bytes_equal}
use lisstech_drain_ctl.Prelude.Options.{◌>>=◌, ◌>>◌, require}
use lisstech_drain_ctl.Prelude.Upsert.{upsert}
use lisstech_drain_ctl.Session.{Text, SessionSnapshot}
use lisstech_drain_ctl.Workload.{
  WorkloadFloats, SessionWorkloadAggregate, calculate_session_workload,
}
use lisstech_drain_ctl.Workload.Codec.{
  encode_cpu_histogram, decode_cpu_histogram, encode_count_series, decode_count_series,
  encode_memory_histogram, decode_memory_histogram, Decoded,
}

-- A row of session_workload_raw, session_workload_5min or session_workload_hourly.
pub record WorkloadRow (fl : WorkloadFloats) : Type 0 where
  pub bucket_ts : ℤ
  pub canonical_host : Text
  pub base_sample_count : ℕ
  pub successful_empty_count : ℕ
  pub error_sample_count : ℕ
  pub cpu_sum : fl.Float
  pub cpu_count : ℕ
  pub cpu_histogram : List ℕ
  pub cpu_ge_5_sum : ℕ
  pub cpu_ge_20_sum : ℕ
  pub cpu_observed_series : List ℕ
  pub cpu_ge_5_series : List ℕ
  pub cpu_ge_20_series : List ℕ
  pub memory_sum_bytes : fl.Float
  pub memory_count : ℕ
  pub memory_zero_count : ℕ
  pub memory_histogram : List ℕ

-- sessionWorkloadRow
pub record ScannedRow (fl : WorkloadFloats) : Type 0 where
  pub bucket : ℤ
  pub host : Text
  pub agg : SessionWorkloadAggregate fl
  pub observed_series : List ℕ
  pub ge_5_series : List ℕ
  pub ge_20_series : List ℕ

-- `time.UnixMilli(received).UTC().Truncate(time.Minute)`.
abbrev pub minute_bucket : ℤ → ℤ
minute_bucket (pos n) = pos (n / 60000 * 60000)
minute_bucket (negsuc n) = negsuc ((n / 60000 + 1) * 60000 - 1)

abbrev pub series_match : List ℕ → List ℕ → List ℕ → Bool
series_match observed ge_5 ge_20 = length observed == length ge_5 && length ge_5 == length ge_20

module _ {fl : WorkloadFloats} where
  -- The columns that upsertSessionWorkloadAggregate binds.
  unfoldable pub workload_row :
      ℤ → Text → SessionWorkloadAggregate fl → List ℕ → List ℕ → List ℕ → WorkloadRow fl
  workload_row bucket host a observed ge_5 ge_20 = record {
    bucket_ts = bucket;
    canonical_host = host;
    base_sample_count = a.base_sample_count;
    successful_empty_count = a.successful_empty_count;
    error_sample_count = a.error_sample_count;
    cpu_sum = a.cpu_sum;
    cpu_count = a.cpu_count;
    cpu_histogram = encode_cpu_histogram a.cpu_histogram;
    cpu_ge_5_sum = a.cpu_ge_5;
    cpu_ge_20_sum = a.cpu_ge_20;
    cpu_observed_series = encode_count_series observed;
    cpu_ge_5_series = encode_count_series ge_5;
    cpu_ge_20_series = encode_count_series ge_20;
    memory_sum_bytes = a.memory_sum_bytes;
    memory_count = a.memory_count;
    memory_zero_count = a.memory_zero_count;
    memory_histogram = encode_memory_histogram a.memory_zero_count a.memory_histogram;
  }

  -- The primary key.
  abbrev pub same_bucket : WorkloadRow fl → WorkloadRow fl → Bool
  same_bucket row r =
      bytes_equal r.canonical_host row.canonical_host && eqb_ℤ r.bucket_ts row.bucket_ts

  -- INSERT … ON CONFLICT(canonical_host,bucket_ts) DO UPDATE SET every other column
  unfoldable pub upsert_row : WorkloadRow fl → List (WorkloadRow fl) → List (WorkloadRow fl)
  unfolding upsert
  upsert_row row rows = upsert (same_bucket row) (λ r. row) row rows

  -- upsertSessionWorkload. `canonical` is CanonicalHostname, `strings.ToUpper(strings.TrimSpace(hostname))`.
  unfoldable pub upsert_session_workload :
      (Text → Text) → SessionSnapshot fl.Float → ℤ → List (WorkloadRow fl) → List (WorkloadRow fl)
  unfolding workload_row upsert_row
  upsert_session_workload canonical s received rows =
      let a = calculate_session_workload fl s in
      upsert_row
        (workload_row (minute_bucket received) (canonical s.host) a (a.cpu_count ∷ [])
          (a.cpu_ge_5 ∷ []) (a.cpu_ge_20 ∷ []))
        rows

  abbrev pub scanned : WorkloadRow fl → List ℕ → Decoded → List ℕ → List ℕ → List ℕ → ScannedRow fl
  scanned r cpu memory observed ge_5 ge_20 = record {
    bucket = r.bucket_ts;
    host = r.canonical_host;
    agg = record {
      base_sample_count = r.base_sample_count;
      successful_empty_count = r.successful_empty_count;
      error_sample_count = r.error_sample_count;
      cpu_sum = r.cpu_sum;
      cpu_count = r.cpu_count;
      cpu_histogram = cpu;
      cpu_ge_5 = r.cpu_ge_5_sum;
      cpu_ge_20 = r.cpu_ge_20_sum;
      memory_sum_bytes = r.memory_sum_bytes;
      memory_count = r.memory_count;
      memory_zero_count = r.memory_zero_count;
      memory_histogram = memory.histogram;
    };
    observed_series = observed;
    ge_5_series = ge_5;
    ge_20_series = ge_20;
  }

  -- scanSessionWorkloadRow past its Scan of the columns: none is one of its errors.
  unfoldable pub scan_row : WorkloadRow fl → Option (ScannedRow fl)
  scan_row r = do
    cpu ← decode_cpu_histogram r.cpu_histogram
    memory ← decode_memory_histogram r.memory_histogram
    require (memory.zero_count == r.memory_zero_count)
    observed ← decode_count_series r.cpu_observed_series
    ge_5 ← decode_count_series r.cpu_ge_5_series
    ge_20 ← decode_count_series r.cpu_ge_20_series
    require (series_match observed ge_5 ge_20)
    some (scanned r cpu memory observed ge_5 ge_20)
