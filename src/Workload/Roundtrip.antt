-- ===== src/Workload/Roundtrip.antt =====
-- What is stored of the workload statistics is read back.
use mathlib.Core.List.{append_assoc, append-nil}
use mathlib.Core.Path.{subst}
use lisstech_drain_ctl.Prelude.{
  ℕ, ◌-◌, ◌^◌, ◌≤◌, ◌<◌, ◌≡◌, ◌≢◌, refl, sym, ap, ◌∙◌, false, some, List, [], ◌∷◌, ◌++◌, arith, inl,
  inr, ltb, ◌==◌, length, Bool-cases,
}
use lisstech_drain_ctl.Prelude.Int.{
  ℤ, pos, negsuc, ◌≤ℤ◌, ◌<ℤ◌, ◌+ℤ◌, ◌-ℤ◌, ltb_ℤ, leb_ℤ→le, leb_ℤ→gt, lt_of_le_ne, lt→eqb_ℤ,
  pos_part,
}
use lisstech_drain_ctl.Prelude.Rows.{
  All, All-append, All-insert_by, All-order_by, insert_by, order_by,
}
use lisstech_drain_ctl.Prelude.Sorted.{Sorted, All-impl, length-order_by}
use lisstech_drain_ctl.Varint.{put_uvarint, uvarint}
use lisstech_drain_ctl.Varint.Inverse.{uvarint-put_uvarint}
use lisstech_drain_ctl.Workload.{MemoryBin, cpu_histogram_bins, by_bin}
use lisstech_drain_ctl.Workload.Codec.{
  put_counts, read_counts, all_read, encode_cpu_histogram, decode_cpu_histogram,
  encode_count_series, decode_count_series, to_uint64, wrap32, put_deltas, put_bins,
  encode_memory_histogram, set_bin, read_deltas, read_bins, all_bins, decode_memory_histogram,
}

abbrev pub IsUint64 : ℕ → Type 0
IsUint64 n = n < 2 ^ 64

read_first-put :
    (v : ℕ) (bs rest : List ℕ)
    → v < 2 ^ 64
    → uvarint ((put_uvarint v ++ bs) ++ rest) ≡ some (record { value = v; unread = bs ++ rest })
read_first-put v bs rest h =
    ap uvarint (append_assoc (put_uvarint v) bs rest) ∙ uvarint-put_uvarint v (bs ++ rest) h

read_counts-put_counts :
    (cs rest : List ℕ)
    → All IsUint64 cs
    → read_counts (length cs) (put_counts cs ++ rest) ≡ some (record { values = cs; unread = rest })
unfolding read_counts put_counts
read_counts-put_counts [] rest h = refl
read_counts-put_counts (c ∷ cs) rest h =
    rw (read_first-put c (put_counts cs) rest h.0, read_counts-put_counts cs rest h.1)

read_all-put_counts :
    (cs : List ℕ) → All IsUint64 cs → all_read (read_counts (length cs) (put_counts cs)) ≡ some cs
read_all-put_counts cs h =
    subst (λ bs. all_read (read_counts (length cs) bs) ≡ some cs) (append-nil (put_counts cs))
      (rw (read_counts-put_counts cs [] h))

-- The histogram of the processor shares is read back.
pub decode-encode_cpu :
    (histogram : List ℕ)
    → length histogram ≡ cpu_histogram_bins
    → All IsUint64 histogram
    → decode_cpu_histogram (encode_cpu_histogram histogram) ≡ some histogram
unfolding decode_cpu_histogram encode_cpu_histogram
decode-encode_cpu histogram size h =
    subst (λ n. all_read (read_counts n (put_counts histogram)) ≡ some histogram) size
      (read_all-put_counts histogram h)

-- A series of at most sixty counts is read back.
pub decode-encode_series :
    (values : List ℕ)
    → length values ≤ 60
    → All IsUint64 values
    → decode_count_series (encode_count_series values) ≡ some values
unfolding decode_count_series encode_count_series
decode-encode_series values size h =
    let short : ltb 60 (length values) ≡ false = ground arith in
    rw (uvarint-put_uvarint (length values) (put_counts values) (omega arith), short)
      (read_all-put_counts values h)

-- An entry of a histogram of memory: a bin that an int32 holds and is not negative, and a count that is not 0.
abbrev pub IsEntry : MemoryBin → Type 0
IsEntry e = (pos 0 ≤ℤ e.bin) × (e.bin <ℤ pos (2 ^ 31)) × (0 < e.count) × (e.count < 2 ^ 64)

abbrev Below : MemoryBin → MemoryBin → Type 0
Below a b = a.bin <ℤ b.bin

-- No bin stands twice.
abbrev pub OtherBin : MemoryBin → MemoryBin → Type 0
OtherBin a b = a.bin ≢ b.bin

insert_by-Below :
    (x : MemoryBin) (xs : List MemoryBin)
    → All (OtherBin x) xs
    → Sorted Below xs
    → Sorted Below (insert_by by_bin x xs)
unfolding insert_by
insert_by-Below x [] new h = (tt, tt)
insert_by-Below x (y ∷ ys) new h = elim (Bool-cases (by_bin x y)) [
  | inl e ↦
      let le = leb_ℤ→le x.bin y.bin e in
      let first : Below x y = lt_of_le_ne x.bin y.bin le new.0 in
      rw e ((first, All-impl (λ z (r : Below y z). omega arith) ys h.0), h)
  | inr e ↦
      let after = leb_ℤ→gt x.bin y.bin e in
      rw e (All-insert_by (Below y) by_bin x ys after h.0, insert_by-Below x ys new.1 h.1)
]

order_by-Below : (xs : List MemoryBin) → Sorted OtherBin xs → Sorted Below (order_by by_bin xs)
unfolding order_by
order_by-Below [] h = tt
order_by-Below (x ∷ xs) h =
    insert_by-Below x (order_by by_bin xs) (All-order_by (OtherBin x) by_bin xs h.0)
      (order_by-Below xs h.1)

set_bin-new :
    (b : ℤ) (n : ℕ) (es : List MemoryBin)
    → All (λ e. e.bin <ℤ b) es
    → set_bin b n es ≡ es ++ (record { bin = b; count = n } ∷ [])
unfolding set_bin
set_bin-new b n [] h = refl
set_bin-new b n (e ∷ es) h = let other = lt→eqb_ℤ e.bin b h.0 in rw (other, set_bin-new b n es h.1)

wrap32-in : (z : ℤ) → pos 0 ≤ℤ z → z <ℤ pos (2 ^ 31) → wrap32 z ≡ z
unfolding wrap32 ltb_ℤ
wrap32-in (pos n) lo hi = ground arith
wrap32-in (negsuc n) lo hi = absurd (omega arith)

-- What is written for a bin after a lower one, and that it leads back to the bin.
delta_back :
    (p b : ℤ)
    → pos 0 ≤ℤ p
    → p <ℤ b
    → b <ℤ pos (2 ^ 31)
    → (to_uint64 (wrap32 (b -ℤ p)) ≡ pos_part (b -ℤ p))
      × (pos_part (b -ℤ p) < 2 ^ 31)
      × (wrap32 (p +ℤ pos (pos_part (b -ℤ p))) ≡ b)
unfolding ◌-ℤ◌ ◌+ℤ◌
delta_back (negsuc m) b lo up hi = absurd (omega arith)
delta_back (pos m) (negsuc n) lo up hi = absurd (omega arith)
delta_back (pos m) (pos n) lo up hi =
    let sub : pos n -ℤ pos m ≡ pos (n - m) = ground arith in
    let sum : pos m +ℤ pos (n - m) ≡ pos n = ground arith in
    let kept = wrap32-in (pos (n - m)) (omega arith) (omega arith) in
    let back = wrap32-in (pos n) (omega arith) hi in
    rw (sub, kept, sum, back) (refl, omega arith, refl)

nonzero : (e : MemoryBin) → IsEntry e → e.count == 0 ≡ false
nonzero e ok = let h = ok.2 in ground arith

read_deltas-put_deltas :
    (p : ℤ) (es result : List MemoryBin) (rest : List ℕ)
    → pos 0 ≤ℤ p
    → All (λ e. p <ℤ e.bin) es
    → Sorted Below es
    → All IsEntry es
    → All (λ e. e.bin ≤ℤ p) result
    → read_deltas (length es) p result (put_deltas p es ++ rest)
      ≡ some (record { bins = result ++ es; unread = rest })
unfolding read_deltas put_deltas
read_deltas-put_deltas p [] result rest lo up sorted ok below =
    ap (λ bs. some (record { bins = bs; unread = rest })) (sym (append-nil result))
read_deltas-put_deltas p (e ∷ es) result rest lo up sorted ok below =
    let (sent, small, back) = delta_back p e.bin lo up.0 ok.0.1 in
    let d = pos_part (e.bin -ℤ p) in
    let in_range : ltb (2 ^ 31 - 1) d ≡ false = ground arith in
    let counted : e.count == 0 ≡ false = nonzero e ok.0 in
    rw
      (
        sent,
        read_first-put d (put_uvarint e.count ++ put_deltas e.bin es) rest (omega arith),
        in_range,
        read_first-put e.count (put_deltas e.bin es) rest ok.0.3,
        counted,
        back,
        set_bin-new e.bin e.count result
            (All-impl (λ x (h : x.bin ≤ℤ p). omega (arith, up.0)) result below),
        read_deltas-put_deltas e.bin es (result ++ (e ∷ [])) rest (omega (arith, ok.0.0)) sorted.0
            sorted.1 ok.1
            (All-append (λ x. x.bin ≤ℤ e.bin) result (e ∷ [])
              (All-impl (λ x (h : x.bin ≤ℤ p). omega (arith, up.0)) result below)
              (omega arith, tt)),
      )
      (ap (λ bs. some (record { bins = bs; unread = rest })) (append_assoc result (e ∷ []) es))

nonneg_back :
    (b : ℤ)
    → pos 0 ≤ℤ b
    → b <ℤ pos (2 ^ 31)
    → (to_uint64 b ≡ pos_part b) × (pos (pos_part b) ≡ b) × (pos_part b < 2 ^ 31)
nonneg_back (pos n) h small = (refl, refl, omega arith)
nonneg_back (negsuc n) h small = absurd (omega arith)

read_bins-put_bins :
    (es : List MemoryBin)
    → Sorted Below es
    → All IsEntry es
    → read_bins (length es) (put_bins es) ≡ some (record { bins = es; unread = [] })
unfolding read_bins put_bins
read_bins-put_bins [] sorted ok = refl
read_bins-put_bins (e ∷ es) sorted ok =
    let (sent, back, small) = nonneg_back e.bin ok.0.0 ok.0.1 in
    let d = pos_part e.bin in
    let in_range : ltb (2 ^ 31 - 1) d ≡ false = ground arith in
    let counted : e.count == 0 ≡ false = nonzero e ok.0 in
    let rest = put_uvarint e.count ++ put_deltas e.bin es in
    let first = uvarint-put_uvarint d rest (omega arith) in
    let second = uvarint-put_uvarint e.count (put_deltas e.bin es) ok.0.3 in
    let last =
      read_deltas-put_deltas e.bin es (e ∷ []) [] ok.0.0 sorted.0 sorted.1 ok.1 (omega arith, tt) in
    let whole = append-nil (put_deltas e.bin es) in
    rw (sent, first, in_range, second, counted, back, set_bin-new e.bin e.count [] tt)
      (subst
        (λ bs.
          read_deltas (length es) e.bin (e ∷ []) bs ≡ some (record { bins = e ∷ es; unread = [] }))
        whole last)

-- A histogram of memory with at most 10000 bins is read back with its bins in order: each bin once, none
-- negative, each with a count.
pub decode-encode_memory :
    (zero_count : ℕ) (histogram : List MemoryBin)
    → zero_count < 2 ^ 64
    → length histogram ≤ 10000
    → Sorted OtherBin histogram
    → All IsEntry histogram
    → decode_memory_histogram (encode_memory_histogram zero_count histogram)
      ≡ some (record { zero_count = zero_count; histogram = order_by by_bin histogram })
unfolding decode_memory_histogram encode_memory_histogram
decode-encode_memory zero_count histogram hz size new ok =
    let es = order_by by_bin histogram in
    let same = length-order_by by_bin histogram in
    let short : ltb 10000 (length histogram) ≡ false = ground arith in
    let first = uvarint-put_uvarint zero_count (put_uvarint (length histogram) ++ put_bins es) hz in
    let second = uvarint-put_uvarint (length histogram) (put_bins es) (omega arith) in
    rw (first, second, short)
      (subst
        (λ n.
          all_bins zero_count (read_bins n (put_bins es))
          ≡ some (record { zero_count = zero_count; histogram = es }))
        same
        (rw (
          read_bins-put_bins es (order_by-Below histogram new)
            (All-order_by IsEntry by_bin histogram ok))))
