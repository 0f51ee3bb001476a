-- ===== src/Uuid/Roundtrip.antt =====
-- String and ParseUUIDv7 are inverse to each other.
use lisstech_drain_ctl.Prelude.{
  ℕ, ◌+◌, ◌*◌, ◌/◌, ◌%◌, ◌<◌, false, ◌≡◌, refl, ap, ◌∙◌, List, [], ◌∷◌, some, arith, length, set,
  get_or-set_self, set-set, replicate, drop,
}
use lisstech_drain_ctl.Uuid.{
  Uuid, at, hex, parsed, Cursor, is_dash_position, put_nibble, parse_char, parse_loop, checked,
  parse, write_bytes, to_text, IsUuid,
}
use lisstech_drain_ctl.Uuid.Bytes.{bit_or_nibble, bit_and-variant, parse_hex-hex}
use lisstech_drain_ctl.Uuid.Sixteen.{IsSixteen, sixteen, length-IsSixteen}

-- The two digits of a byte set the byte.
put_byte :
    (k b : ℕ) (v : Uuid)
    → k < length v
    → b < 256
    → put_nibble (b % 16) (put_nibble (b / 16) (record { byte_index = 2 * k; value = v }))
      ≡ record { byte_index = 2 * k + 1 + 1; value = set v k b }
unfolding put_nibble
put_byte k b v hk hb =
    let even : 2 * k % 2 ≡ 0 = omega arith in
    let half : 2 * k / 2 ≡ k = omega arith in
    let odd : (2 * k + 1) % 2 ≡ 1 = omega arith in
    let low : (2 * k + 1) / 2 ≡ k = omega arith in
    let high : b / 16 * 16 % 256 ≡ b / 16 * 16 = omega arith in
    let whole : b / 16 * 16 + b % 16 ≡ b = omega arith in
    rw (
      even,
      half,
      odd,
      low,
      high,
      get_or-set_self v k (b / 16 * 16) 0 hk,
      set-set,
      bit_or_nibble (b / 16) (b % 16) (omega arith) (omega arith),
      whole,
    )

parse_digit :
    (i n : ℕ) (s : Cursor)
    → is_dash_position i ≡ false
    → n < 16
    → parse_char i (hex n) s ≡ some (put_nibble n s)
unfolding parse_char
parse_digit i n s d h = rw (d, parse_hex-hex n h)

parse_loop-some :
    (i c : ℕ) (cs : List ℕ) (s : Cursor) {t : Cursor}
    → parse_char i c s ≡ some t
    → parse_loop i (c ∷ cs) s ≡ parse_loop (i + 1) cs t
unfolding parse_loop
parse_loop-some i c cs s e = rw (e, parse_loop)

step :
    (i k b : ℕ) (v : Uuid) (cs : List ℕ)
    → is_dash_position i ≡ false
    → is_dash_position (i + 1) ≡ false
    → k < length v
    → b < 256
    → parse_loop i (hex (b / 16) ∷ hex (b % 16) ∷ cs) (record { byte_index = 2 * k; value = v })
      ≡ parse_loop (i + 1 + 1) cs (record { byte_index = 2 * k + 1 + 1; value = set v k b })
step i k b v cs d e hk hb =
    parse_loop-some i _ _ _ (parse_digit i (b / 16) _ d (omega arith))
    ∙ parse_loop-some (i + 1) _ _ _ (parse_digit (i + 1) (b % 16) _ e (omega arith))
    ∙ ap (parse_loop (i + 1 + 1) cs) (put_byte k b v hk hb)

checked_ok : (v : Uuid) → IsUuid v → checked v ≡ parsed v
unfolding checked
checked_ok v u = rw (bit_and-variant (at v 8) (u.bytes 8), u.version, u.variant)

pub loop_bytes :
    (v : Uuid)
    → IsSixteen v
    → ((i : ℕ) → at v i < 256)
    → parse_loop 0 (to_text v) (record { byte_index = 0; value = replicate 16 0 })
      ≡ some (record { byte_index = 32; value = v })
unfolding to_text write_bytes parse_loop parse_char
loop_bytes v (sixteen b0 b1 b2 b3 b4 b5 b6 b7 b8 b9 b10 b11 b12 b13 b14 b15) h =
    let text =
      to_text (
        b0 ∷ b1 ∷ b2 ∷ b3 ∷ b4 ∷ b5 ∷ b6 ∷ b7 ∷ b8 ∷ b9 ∷ b10 ∷ b11 ∷ b12 ∷ b13 ∷ b14 ∷ b15 ∷ []) in
    step 0 0 b0 (replicate 16 0) (drop 2 text) refl refl (omega arith) (h 0)
    ∙ step 2 1 b1 (b0 ∷ replicate 15 0) (drop 4 text) refl refl (omega arith) (h 1)
    ∙ step 4 2 b2 (b0 ∷ b1 ∷ replicate 14 0) (drop 6 text) refl refl (omega arith) (h 2)
    ∙ step 6 3 b3 (b0 ∷ b1 ∷ b2 ∷ replicate 13 0) (drop 8 text) refl refl (omega arith) (h 3)
    ∙ step 9 4 b4 (b0 ∷ b1 ∷ b2 ∷ b3 ∷ replicate 12 0) (drop 11 text) refl refl (omega arith) (h 4)
    ∙ step 11 5 b5 (b0 ∷ b1 ∷ b2 ∷ b3 ∷ b4 ∷ replicate 11 0) (drop 13 text) refl refl (omega arith)
        (h 5)
    ∙ step 14 6 b6 (b0 ∷ b1 ∷ b2 ∷ b3 ∷ b4 ∷ b5 ∷ replicate 10 0) (drop 16 text) refl refl
        (omega arith) (h 6)
    ∙ step 16 7 b7 (b0 ∷ b1 ∷ b2 ∷ b3 ∷ b4 ∷ b5 ∷ b6 ∷ replicate 9 0) (drop 18 text) refl refl
        (omega arith) (h 7)
    ∙ step 19 8 b8 (b0 ∷ b1 ∷ b2 ∷ b3 ∷ b4 ∷ b5 ∷ b6 ∷ b7 ∷ replicate 8 0) (drop 21 text) refl refl
        (omega arith) (h 8)
    ∙ step 21 9 b9 (b0 ∷ b1 ∷ b2 ∷ b3 ∷ b4 ∷ b5 ∷ b6 ∷ b7 ∷ b8 ∷ replicate 7 0) (drop 23 text) refl
        refl (omega arith) (h 9)
    ∙ step 24 10 b10 (b0 ∷ b1 ∷ b2 ∷ b3 ∷ b4 ∷ b5 ∷ b6 ∷ b7 ∷ b8 ∷ b9 ∷ replicate 6 0)
        (drop 26 text) refl refl (omega arith) (h 10)
    ∙ step 26 11 b11 (b0 ∷ b1 ∷ b2 ∷ b3 ∷ b4 ∷ b5 ∷ b6 ∷ b7 ∷ b8 ∷ b9 ∷ b10 ∷ replicate 5 0)
        (drop 28 text) refl refl (omega arith) (h 11)
    ∙ step 28 12 b12 (b0 ∷ b1 ∷ b2 ∷ b3 ∷ b4 ∷ b5 ∷ b6 ∷ b7 ∷ b8 ∷ b9 ∷ b10 ∷ b11 ∷ replicate 4 0)
        (drop 30 text) refl refl (omega arith) (h 12)
    ∙ step 30 13 b13
        (b0 ∷ b1 ∷ b2 ∷ b3 ∷ b4 ∷ b5 ∷ b6 ∷ b7 ∷ b8 ∷ b9 ∷ b10 ∷ b11 ∷ b12 ∷ replicate 3 0)
        (drop 32 text) refl refl (omega arith) (h 13)
    ∙ step 32 14 b14
        (b0 ∷ b1 ∷ b2 ∷ b3 ∷ b4 ∷ b5 ∷ b6 ∷ b7 ∷ b8 ∷ b9 ∷ b10 ∷ b11 ∷ b12 ∷ b13 ∷ replicate 2 0)
        (drop 34 text) refl refl (omega arith) (h 14)
    ∙ step 34 15 b15
        (b0
          ∷ b1
          ∷ b2
          ∷ b3
          ∷ b4
          ∷ b5
          ∷ b6
          ∷ b7
          ∷ b8
          ∷ b9
          ∷ b10
          ∷ b11
          ∷ b12
          ∷ b13
          ∷ b14
          ∷ replicate 1 0)
        (drop 36 text) refl refl (omega arith) (h 15)

pub text_size : (v : Uuid) → IsSixteen v → length (to_text v) ≡ 36
unfolding to_text write_bytes
text_size v (sixteen b0 b1 b2 b3 b4 b5 b6 b7 b8 b9 b10 b11 b12 b13 b14 b15) = refl

-- The canonical text of a version 7 identifier is parsed to the identifier itself.
pub parse-to_text : (v : Uuid) → IsUuid v → parse (to_text v) ≡ parsed v
unfolding parse
parse-to_text v u =
    rw (text_size v (length-IsSixteen v u.size), loop_bytes v (length-IsSixteen v u.size) u.bytes)
      (checked_ok v u)
