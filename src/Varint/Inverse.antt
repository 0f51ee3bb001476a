-- ===== src/Varint/Inverse.antt =====
-- Uvarint reads what PutUvarint writes.
use lisstech_drain_ctl.Prelude.{
  ℕ, zero, suc, ◌+◌, ◌*◌, ◌/◌, ◌%◌, ◌^◌, ◌<◌, ◌≡◌, ap, false, some, List, ◌++◌, arith, inl, inr,
  ltb, Bool-cases,
}
use lisstech_drain_ctl.Varint.{put_loop, put_uvarint, read_loop, uvarint}

-- What n + 1 bytes hold.
abbrev bound : ℕ → ℕ
bound zero = 2
bound (suc n) = 128 * bound n

read_loop-put_loop :
    (n x : ℕ) (rest : List ℕ)
    → x < bound n
    → read_loop n (put_loop n x ++ rest) ≡ some (record { value = x; unread = rest })
unfolding read_loop put_loop
read_loop-put_loop zero x rest h = ground arith
read_loop-put_loop (suc n) x rest h = elim (Bool-cases (ltb x 128)) [
  | inl e ↦ rw (e, e)
  | inr e ↦
      let high : ltb (x % 128 + 128) 128 ≡ false = ground arith in
      let whole : (x % 128 + 128) % 128 + 128 * (x / 128) ≡ x = omega arith in
      rw (e, high, read_loop-put_loop n (x / 128) rest (omega arith))
        (ap (λ v. some (record { value = v; unread = rest })) whole)
]

-- Every uint64 is read back, whatever follows it.
pub uvarint-put_uvarint :
    (x : ℕ) (rest : List ℕ)
    → x < 2 ^ 64
    → uvarint (put_uvarint x ++ rest) ≡ some (record { value = x; unread = rest })
unfolding uvarint put_uvarint
uvarint-put_uvarint x rest h = read_loop-put_loop 9 x rest h
