-- ===== src/Varint.antt =====
-- Variable-length unsigned integers, as encoding/binary writes and reads them (PutUvarint, Uvarint).
pub mod Inverse
use lisstech_drain_ctl.Prelude.{
  ℕ, zero, suc, ◌+◌, ◌*◌, ◌/◌, ◌%◌, Bool, ◌&&◌, Option, none, some, List, [], ◌∷◌, ltb, ◌==◌,
  if◌then◌else◌,
}

-- Seven bits to a byte, lowest first; a byte of 128 and above has a successor.
unfoldable pub put_loop : ℕ → ℕ → List ℕ
put_loop zero x = x ∷ []
put_loop (suc k) x =
    let rest = put_loop k (x / 128) in if ltb x 128 then x ∷ [] else (x % 128 + 128) ∷ rest

-- Ten bytes hold every uint64.
unfoldable pub put_uvarint : ℕ → List ℕ
unfolding put_loop
put_uvarint x = put_loop 9 x

pub record Read : Type 0 where
  pub value : ℕ
  pub unread : List ℕ

abbrev pub above : ℕ → Option Read → Option Read
above b none = none
above b (some r) = some (record r { value = b % 128 + 128 * r.value })

-- `n`: how many more bytes may follow. The tenth byte is at most 1.
unfoldable pub read_loop : ℕ → List ℕ → Option Read
read_loop n [] = none
read_loop zero (b ∷ bs) = if ltb b 2 then some (record { value = b; unread = bs }) else none
read_loop (suc n) (b ∷ bs) =
    let rest = read_loop n bs in
    if ltb b 128 then some (record { value = b; unread = bs }) else above b rest

-- Uvarint: the value and the data after it, none where its length is not positive.
unfoldable pub uvarint : List ℕ → Option Read
unfolding read_loop
uvarint bytes = read_loop 9 bytes
