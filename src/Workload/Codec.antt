-- ===== src/Workload/Codec.antt =====
-- The stored form of workload statistics: the histograms (internal/sessiondata/workload.go) and the series
-- of counts (internal/telemetry/session_workload.go). A byte 1 names the version.
use lisstech_drain_ctl.Prelude.{
  ℕ, zero, suc, ◌-◌, ◌^◌, Option, none, some, List, [], ◌∷◌, ◌++◌, ltb, ◌==◌, if◌then◌else◌, length,
}
use lisstech_drain_ctl.Prelude.Int.{ℤ, pos, negsuc, ◌+ℤ◌, ◌-ℤ◌, eqb_ℤ, ltb_ℤ}
use lisstech_drain_ctl.Prelude.Rows.{order_by}
use lisstech_drain_ctl.Varint.{put_uvarint, Read, uvarint}
use lisstech_drain_ctl.Workload.{MemoryBin, cpu_histogram_bins, by_bin}

-- Counts one after the other.
unfoldable pub put_counts : List ℕ → List ℕ
put_counts [] = []
put_counts (c ∷ cs) = put_uvarint c ++ put_counts cs

-- What a loop has read, and what is left.
pub record Counts : Type 0 where
  pub values : List ℕ
  pub unread : List ℕ

abbrev pub read_first : Option Read → (Read → Option Counts) → Option Counts
read_first none next = none
read_first (some r) next = next r

abbrev pub prepend : ℕ → Option Counts → Option Counts
prepend v none = none
prepend v (some r) = some (record r { values = v ∷ r.values })

-- `for i := range result { value, n := binary.Uvarint(data) … }`
unfoldable pub read_counts : ℕ → List ℕ → Option Counts
read_counts zero bytes = some (record { values = []; unread = bytes })
read_counts (suc n) bytes =
    read_first (uvarint bytes) (λ r. prepend r.value (read_counts n r.unread))

-- `if len(data) != 0 { return …, ErrInvalidWorkloadHistogram }`
abbrev pub all_read : Option Counts → Option (List ℕ)
all_read none = none
all_read (some r) = if length r.unread == 0 then some r.values else none

-- The data after the version byte.
abbrev pub after_version : {A : Type 0} → List ℕ → (List ℕ → Option A) → Option A
after_version [] next = none
after_version (b ∷ bs) next = if b == 1 then next bs else none

-- EncodeCPUHistogram
unfoldable pub encode_cpu_histogram : List ℕ → List ℕ
unfolding put_counts
encode_cpu_histogram histogram = 1 ∷ put_counts histogram

-- DecodeCPUHistogram: none is ErrInvalidWorkloadHistogram, here and below.
unfoldable pub decode_cpu_histogram : List ℕ → Option (List ℕ)
unfolding read_counts
decode_cpu_histogram bytes =
    after_version bytes (λ rest. all_read (read_counts cpu_histogram_bins rest))

-- encodeCountSeries
unfoldable pub encode_count_series : List ℕ → List ℕ
unfolding put_counts
encode_count_series values = 1 ∷ (put_uvarint (length values) ++ put_counts values)

abbrev pub read_series : Option Read → Option (List ℕ)
read_series none = none
read_series (some r) = if ltb 60 r.value then none else all_read (read_counts r.value r.unread)

-- decodeCountSeries
unfoldable pub decode_count_series : List ℕ → Option (List ℕ)
unfolding read_counts
decode_count_series bytes = after_version bytes (λ rest. read_series (uvarint rest))

-- uint64(delta) of an int32.
abbrev pub to_uint64 : ℤ → ℕ
to_uint64 (pos n) = n
to_uint64 (negsuc n) = 2 ^ 64 - 1 - n

-- A sum or difference of int32 values wraps into their range.
unfoldable pub wrap32 : ℤ → ℤ
wrap32 z =
    if ltb_ℤ (pos (2 ^ 31 - 1)) z
    then z -ℤ pos (2 ^ 32)
    else if ltb_ℤ z (negsuc (2 ^ 31 - 1))
    then z +ℤ pos (2 ^ 32)
    else z

-- The entries after the first, as differences of their bins.
unfoldable pub put_deltas : ℤ → List MemoryBin → List ℕ
unfolding wrap32
put_deltas previous [] = []
put_deltas previous (e ∷ es) =
    put_uvarint (to_uint64 (wrap32 (e.bin -ℤ previous)))
    ++ (put_uvarint e.count ++ put_deltas e.bin es)

unfoldable pub put_bins : List MemoryBin → List ℕ
unfolding put_deltas
put_bins [] = []
put_bins (e ∷ es) = put_uvarint (to_uint64 e.bin) ++ (put_uvarint e.count ++ put_deltas e.bin es)

-- EncodeMemoryHistogram
unfoldable pub encode_memory_histogram : ℕ → List MemoryBin → List ℕ
unfolding put_bins
encode_memory_histogram zero_count histogram =
    1
    ∷ (put_uvarint zero_count
        ++ (put_uvarint (length histogram) ++ put_bins (order_by by_bin histogram)))

-- `m[bin] = count`
unfoldable pub set_bin : ℤ → ℕ → List MemoryBin → List MemoryBin
set_bin b n [] = record { bin = b; count = n } ∷ []
set_bin b n (e ∷ es) =
    let rest = set_bin b n es in if eqb_ℤ e.bin b then record e { count = n } ∷ es else e ∷ rest

pub record Bins : Type 0 where
  pub bins : List MemoryBin
  pub unread : List ℕ

abbrev pub read_entry : Option Read → (Read → Option Bins) → Option Bins
read_entry none next = none
read_entry (some r) next = next r

-- `n` rounds of the loop of DecodeMemoryHistogram past the first one.
unfoldable pub read_deltas : ℕ → ℤ → List MemoryBin → List ℕ → Option Bins
unfolding wrap32 set_bin
read_deltas zero bin result bytes = some (record { bins = result; unread = bytes })
read_deltas (suc n) bin result bytes = read_entry (uvarint bytes) (λ d.
    if ltb (2 ^ 31 - 1) d.value
    then none
    else read_entry (uvarint d.unread) (λ c.
      if c.value == 0
      then none
      else read_deltas n (wrap32 (bin +ℤ pos d.value))
          (set_bin (wrap32 (bin +ℤ pos d.value)) c.value result) c.unread))

-- The loop: the first difference is the bin itself.
unfoldable pub read_bins : ℕ → List ℕ → Option Bins
unfolding read_deltas
read_bins zero bytes = some (record { bins = []; unread = bytes })
read_bins (suc n) bytes = read_entry (uvarint bytes) (λ d.
    if ltb (2 ^ 31 - 1) d.value
    then none
    else read_entry (uvarint d.unread) (λ c.
      if c.value == 0
      then none
      else read_deltas n (pos d.value) (set_bin (pos d.value) c.value []) c.unread))

pub record Decoded : Type 0 where
  pub zero_count : ℕ
  pub histogram : List MemoryBin

abbrev pub all_bins : ℕ → Option Bins → Option Decoded
all_bins zero_count none = none
all_bins zero_count (some r) =
    if length r.unread == 0
    then some (record { zero_count = zero_count; histogram = r.bins })
    else none

abbrev pub read_size : ℕ → Option Read → Option Decoded
read_size zero_count none = none
read_size zero_count (some r) =
    if ltb 10000 r.value then none else all_bins zero_count (read_bins r.value r.unread)

abbrev pub read_zero : Option Read → Option Decoded
read_zero none = none
read_zero (some r) = read_size r.value (uvarint r.unread)

-- DecodeMemoryHistogram
unfoldable pub decode_memory_histogram : List ℕ → Option Decoded
unfolding read_bins
decode_memory_histogram bytes = after_version bytes (λ rest. read_zero (uvarint rest))
