-- ===== src/Uuid.antt =====
-- Identifiers of agent generations: UUID version 7 (internal/sessiondata/model.go).
pub mod Bytes
pub mod Sixteen
pub mod Roundtrip
pub mod Order
pub mod Accepts
mod Tests
use Prim.Native.Nat.{bit_and, bit_or}
use lisstech_drain_ctl.Prelude.{
  ℕ, suc, ◌+◌, ◌-◌, ◌*◌, ◌/◌, ◌%◌, Bool, true, false, not, ◌&&◌, ◌||◌, Option, none, some, List, [],
  ◌∷◌, ◌<◌, ◌≡◌, ltb, leb, ◌==◌, if◌then◌else◌, length, get_or, set, replicate,
}
use lisstech_drain_ctl.Prelude.Int.{ℤ, pos, negsuc}

-- type UUIDv7 [16]byte: the list of its bytes.
abbrev pub Uuid : Type 0
Uuid = List ℕ

abbrev pub at : List ℕ → ℕ → ℕ
at v i = get_or v i 0

-- parseUUIDHex: '0' is 48, 'a' is 97 and 'A' is 65.
unfoldable pub parse_hex : ℕ → Option ℕ
parse_hex c =
    if leb 48 c && leb c 57
    then some (c - 48)
    else if leb 97 c && leb c 102
    then some (c - 97 + 10)
    else if leb 65 c && leb c 70
    then some (c - 65 + 10)
    else none

-- The two errors of ParseUUIDv7.
pub data Parsed : Type 0 where
  parsed : Uuid → Parsed
  not_canonical : Parsed
  not_version_7 : Parsed

-- The loop state: byteIndex and value.
pub record Cursor : Type 0 where
  pub byte_index : ℕ
  pub value : Uuid

abbrev pub is_dash_position : ℕ → Bool
is_dash_position i = i == 8 || i == 13 || i == 18 || i == 23

-- `value[k] = nibble << 4` for a high nibble, `value[k] |= nibble` for a low one.
unfoldable pub put_nibble : ℕ → Cursor → Cursor
put_nibble nibble s = record {
  byte_index = s.byte_index + 1;
  value =
      if s.byte_index % 2 == 0
      then set s.value (s.byte_index / 2) (nibble * 16 % 256)
      else set s.value (s.byte_index / 2) (bit_or (at s.value (s.byte_index / 2)) nibble);
}

abbrev pub after_hex : Option ℕ → Cursor → Option Cursor
after_hex none s = none
after_hex (some nibble) s = some (put_nibble nibble s)

-- One round of the loop of ParseUUIDv7. `range` steps over runes, and a character outside ASCII fails
-- at its first byte, so the bytes of the text are the characters here.
unfoldable pub parse_char : ℕ → ℕ → Cursor → Option Cursor
unfolding parse_hex put_nibble
parse_char i c s =
    if is_dash_position i then (if c == 45 then some s else none) else after_hex (parse_hex c) s

unfoldable pub parse_loop : ℕ → List ℕ → Cursor → Option Cursor
unfolding parse_char
parse_loop i [] s = some s
parse_loop i (c ∷ cs) s = elim (parse_char i c s) [ none ↦ none | some t ↦ parse_loop (i + 1) cs t ]

-- The check of the version and the RFC variant.
unfoldable pub checked : Uuid → Parsed
checked v =
    if not (at v 6 / 16 == 7) || not (bit_and (at v 8) 0xc0 == 0x80)
    then not_version_7
    else parsed v

abbrev pub after_loop : Option Cursor → Parsed
after_loop none = not_canonical
after_loop (some s) = checked s.value

unfoldable pub parse : List ℕ → Parsed
unfolding parse_loop checked
parse text =
    if not (length text == 36)
    then not_canonical
    else after_loop (parse_loop 0 text (record { byte_index = 0; value = replicate 16 0 }))

-- const hex = "0123456789abcdef"
abbrev hex_digits : List ℕ
hex_digits = 48 ∷ 49 ∷ 50 ∷ 51 ∷ 52 ∷ 53 ∷ 54 ∷ 55 ∷ 56 ∷ 57 ∷ 97 ∷ 98 ∷ 99 ∷ 100 ∷ 101 ∷ 102 ∷ []

unfoldable pub hex : ℕ → ℕ
hex n = at hex_digits n

abbrev pub one_past : ℕ → ℕ → ℕ
one_past bound i = if leb bound i then 1 else 0

abbrev pub text_index : ℕ → ℕ
text_index i = i * 2 + one_past 4 i + one_past 6 i + one_past 8 i + one_past 10 i

unfoldable pub write_bytes : ℕ → Uuid → List ℕ → List ℕ
write_bytes i [] text = text
write_bytes i (b ∷ bs) text =
    write_bytes (i + 1) bs
      (set (set text (text_index i) (hex (b / 16))) (text_index i + 1) (hex (b % 16)))

-- UUIDv7.String
unfoldable pub to_text : Uuid → List ℕ
unfolding write_bytes
to_text v = set (set (set (set (write_bytes 0 v (replicate 36 0)) 8 45) 13 45) 18 45) 23 45

-- CompareUUIDv7
unfoldable pub compare_uuid : Uuid → Uuid → ℤ
compare_uuid [] ys = pos 0
compare_uuid (x ∷ xs) [] = pos 0
compare_uuid (x ∷ xs) (y ∷ ys) =
    if ltb x y then negsuc 0 else if ltb y x then pos 1 else compare_uuid xs ys

-- What ParseUUIDv7 lets through.
pub record IsUuid (v : Uuid) : Type 0 where
  pub size : length v ≡ 16
  pub bytes : (i : ℕ) → at v i < 256
  pub version : at v 6 / 16 ≡ 7
  pub variant : at v 8 / 64 ≡ 2
