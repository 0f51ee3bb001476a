-- ===== src/Uuid/Bytes.antt =====
-- Facts about single bytes and hexadecimal digits, checked over all their values.
use Prim.Native.Nat.{bit_and, bit_or}
use lisstech_drain_ctl.Prelude.{
  ℕ, zero, suc, ◌+◌, ◌*◌, ◌/◌, ◌%◌, ◌<◌, ◌≡◌, refl, Bool, true, false, ◌&&◌, if◌then◌else◌, Option,
  none, some, arith, ◌==◌, ==_iff,
}
use lisstech_drain_ctl.Uuid.{hex, parse_hex}

unfoldable pub passes : (bound : ℕ) (test : ℕ → Bool) → Bool
passes zero test = true
passes (suc bound) test = if test bound then passes bound test else false

pub passes-each :
    (bound : ℕ) (test : ℕ → Bool) (value : ℕ)
    → passes bound test ≡ true
    → value < bound
    → test value ≡ true
unfolding passes
passes-each zero test value ok inside = absurd (omega arith)
passes-each (suc bound) test value ok inside = ground (arith, passes-each bound test value)

or_table : passes 16 (λ h. passes 16 (λ l. bit_or (h * 16) l == h * 16 + l)) ≡ true
unfolding passes
or_table = refl

-- A low nibble fills the low half of a byte.
pub bit_or_nibble : (h l : ℕ) → h < 16 → l < 16 → bit_or (h * 16) l ≡ h * 16 + l
bit_or_nibble h l hb lb =
    (==_iff _ _).0
      (passes-each 16 (λ l. bit_or (h * 16) l == h * 16 + l) l (passes-each 16 _ h or_table hb) lb)

variant_table : passes 256 (λ b. (bit_and b 0xc0) == (b / 64 * 64)) ≡ true
unfolding passes
variant_table = refl

-- The two highest bits of a byte.
pub bit_and-variant : (b : ℕ) → b < 256 → bit_and b 0xc0 ≡ b / 64 * 64
bit_and-variant b h = (==_iff _ _).0 (passes-each 256 _ b variant_table h)

low_table : passes 256 (λ b. (bit_and b 0x3f == b % 64) && (bit_and b 0x0f == b % 16)) ≡ true
unfolding passes
low_table = refl

-- The low bits of a byte, which hold a part of the identifier.
pub bit_and-low : (b : ℕ) → b < 256 → (bit_and b 0x3f ≡ b % 64) × (bit_and b 0x0f ≡ b % 16)
bit_and-low b h =
    let t =
      passes-each 256 (λ b. (bit_and b 0x3f == b % 64) && (bit_and b 0x0f == b % 16)) b low_table
        h in
    ground arith

marks_table :
    passes 256 (λ b.
      (bit_or (bit_and b 0x3f) 0x80 == b % 64 + 128)
      && (bit_or (bit_and b 0x0f) 0x70 == b % 16 + 112))
    ≡ true
unfolding passes
marks_table = refl

-- The marks of the variant and of the version.
pub bit_or-marks :
    (b : ℕ)
    → b < 256
    → (bit_or (bit_and b 0x3f) 0x80 ≡ b % 64 + 128) × (bit_or (bit_and b 0x0f) 0x70 ≡ b % 16 + 112)
bit_or-marks b h =
    let t =
      passes-each 256
        (λ b.
          (bit_or (bit_and b 0x3f) 0x80 == b % 64 + 128)
          && (bit_or (bit_and b 0x0f) 0x70 == b % 16 + 112))
        b marks_table h in
    ground arith

abbrev reads : ℕ → Option ℕ → Bool
reads n none = 0 == 1
reads n (some m) = m == n

reads_sound : (n : ℕ) (o : Option ℕ) → reads n o ≡ true → o ≡ some n
reads_sound n none e = ground arith
reads_sound n (some m) e = ground arith

hex_table : passes 16 (λ n. reads n (parse_hex (hex n))) ≡ true
unfolding passes parse_hex hex
hex_table = refl

-- A digit that String writes is read back by parseUUIDHex.
pub parse_hex-hex : (n : ℕ) → n < 16 → parse_hex (hex n) ≡ some n
parse_hex-hex n h = reads_sound n _ (passes-each 16 _ n hex_table h)
