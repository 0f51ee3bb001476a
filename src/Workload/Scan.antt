-- ===== src/Workload/Scan.antt =====
-- The rows that are stored are scanned back.
use lisstech_drain_ctl.Prelude.{ℕ, ◌^◌, ◌≤◌, ◌<◌, ◌≡◌, true, some, List, arith, ◌==◌, length}
use lisstech_drain_ctl.Prelude.Int.{ℤ}
use lisstech_drain_ctl.Prelude.Rows.{All, order_by}
use lisstech_drain_ctl.Prelude.Sorted.{Sorted}
use lisstech_drain_ctl.Session.{Text}
use lisstech_drain_ctl.Workload.{
  WorkloadFloats, SessionWorkloadAggregate, cpu_histogram_bins, by_bin,
}
use lisstech_drain_ctl.Workload.Roundtrip.{
  IsUint64, IsEntry, OtherBin, decode-encode_cpu, decode-encode_series, decode-encode_memory,
}
use lisstech_drain_ctl.Workload.Store.{workload_row, series_match, scan_row}

-- A series of counts of the minutes of a bucket.
abbrev pub IsSeries : ℕ → List ℕ → Type 0
IsSeries n values = (length values ≡ n) × All IsUint64 values

module _ {fl : WorkloadFloats} where
  -- What the types of the fields say, and that the bins are a map.
  pub record IsStorable (a : SessionWorkloadAggregate fl) : Type 0 where
    pub size : length a.cpu_histogram ≡ cpu_histogram_bins
    pub counts : All IsUint64 a.cpu_histogram
    pub zero_count : a.memory_zero_count < 2 ^ 64
    pub few : length a.memory_histogram ≤ 10000
    pub keys : Sorted OtherBin a.memory_histogram
    pub entries : All IsEntry a.memory_histogram

  -- A row that is stored is scanned back: the same statistics, with the bins of the memory in order, and the
  -- same series.
  pub scan-workload_row :
      (bucket : ℤ) (host : Text) (a : SessionWorkloadAggregate fl) (observed ge_5 ge_20 : List ℕ)
      (n : ℕ)
      → IsStorable a
      → n ≤ 60
      → IsSeries n observed
      → IsSeries n ge_5
      → IsSeries n ge_20
      → scan_row (workload_row bucket host a observed ge_5 ge_20)
        ≡ some (record {
          bucket = bucket;
          host = host;
          agg = record a { memory_histogram = order_by by_bin a.memory_histogram };
          observed_series = observed;
          ge_5_series = ge_5;
          ge_20_series = ge_20;
        })
  unfolding scan_row workload_row
  scan-workload_row bucket host a observed ge_5 ge_20 n ok few o f t =
      let same : a.memory_zero_count == a.memory_zero_count ≡ true = ground arith in
      let matched : series_match observed ge_5 ge_20 ≡ true =
        let (x, y, z) = sizes in ground arith in
      rw (
        decode-encode_cpu a.cpu_histogram ok.size ok.counts,
        decode-encode_memory a.memory_zero_count a.memory_histogram ok.zero_count ok.few ok.keys
            ok.entries,
        same,
        decode-encode_series observed (omega (arith, o.0)) o.1,
        decode-encode_series ge_5 (omega (arith, f.0)) f.1,
        decode-encode_series ge_20 (omega (arith, t.0)) t.1,
        matched,
      )
    where
      sizes : (length observed ≡ n) × (length ge_5 ≡ n) × (length ge_20 ≡ n)
      sizes = (o.0, f.0, t.0)
