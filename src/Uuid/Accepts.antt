-- ===== src/Uuid/Accepts.antt =====
-- What ParseUUIDv7 accepts is a version 7 identifier.
use mathlib.Core.Path.{subst}
use Prim.Native.Nat.{bit_and, bit_or}
use lisstech_drain_ctl.Prelude.{
  ℕ, zero, suc, ◌+◌, ◌*◌, ◌/◌, ◌%◌, ◌<◌, ◌≡◌, refl, sym, ap, ◌∙◌, Bool, true, false, inl, inr,
  Option, none, some, some_inj, List, [], ◌∷◌, arith, ltb, ltb→lt, ◌==◌, if◌then◌else◌, length, set,
  length-set, replicate, Bool-cases, Option-cases,
}
use lisstech_drain_ctl.Uuid.{
  Uuid, at, parse_hex, Parsed, parsed, not_canonical, not_version_7, Cursor, is_dash_position,
  put_nibble, after_hex, parse_char, parse_loop, checked, after_loop, parse, to_text, IsUuid,
}
use lisstech_drain_ctl.Uuid.Bytes.{passes, passes-each, bit_and-variant}
use lisstech_drain_ctl.Uuid.Sixteen.{length-IsSixteen}
use lisstech_drain_ctl.Uuid.Roundtrip.{loop_bytes, text_size}

-- Sixteen bytes.
pub record IsArray (v : Uuid) : Type 0 where
  pub size : length v ≡ 16
  pub bytes : (i : ℕ) → at v i < 256

or_byte_table : passes 256 (λ a. passes 16 (λ b. ltb (bit_or a b) 256)) ≡ true
unfolding passes
or_byte_table = refl

bit_or-byte : (a b : ℕ) → a < 256 → b < 16 → bit_or a b < 256
bit_or-byte a b ha hb =
    ltb→lt _ _
      (passes-each 16 (λ b. ltb (bit_or a b) 256) b (passes-each 256 _ a or_byte_table ha) hb)

at-set_lt : (v : Uuid) (k x i : ℕ) → ((j : ℕ) → at v j < 256) → x < 256 → at (set v k x) i < 256
at-set_lt [] k x i h b = omega arith
at-set_lt (y ∷ v) zero x zero h b = b
at-set_lt (y ∷ v) zero x (suc i) h b = h (suc i)
at-set_lt (y ∷ v) (suc k) x zero h b = h 0
at-set_lt (y ∷ v) (suc k) x (suc i) h b = at-set_lt v k x i (λ j. h (suc j)) b

pub set-IsArray : (v : Uuid) (k x : ℕ) → IsArray v → x < 256 → IsArray (set v k x)
set-IsArray v k x a b = record {
  size = length-set v k x ∙ a.size;
  bytes = λ i. at-set_lt v k x i a.bytes b;
}

put_nibble-IsArray :
    (n : ℕ) (s : Cursor) → n < 16 → IsArray s.value → IsArray (put_nibble n s).value
unfolding put_nibble
put_nibble-IsArray n s h a = elim (Bool-cases (s.byte_index % 2 == 0)) [
  | inl e ↦ rw e (set-IsArray s.value (s.byte_index / 2) (n * 16 % 256) a (omega arith))
  | inr e ↦ rw e (
      set-IsArray s.value (s.byte_index / 2) _ a
        (bit_or-byte (at s.value (s.byte_index / 2)) n (a.bytes (s.byte_index / 2)) h))
]

parse_hex-lt : (c n : ℕ) → parse_hex c ≡ some n → n < 16
unfolding parse_hex
parse_hex-lt c n = ground arith

after_hex-IsArray :
    (o : Option ℕ) (s t : Cursor)
    → ((n : ℕ) → o ≡ some n → n < 16)
    → after_hex o s ≡ some t
    → IsArray s.value
    → IsArray t.value
after_hex-IsArray none s t h e a = absurd (ground arith)
after_hex-IsArray (some n) s t h e a =
    subst (λ c. IsArray c.value) (some_inj e) (put_nibble-IsArray n s (h n refl) a)

parse_char-IsArray :
    (i c : ℕ) (s t : Cursor) → parse_char i c s ≡ some t → IsArray s.value → IsArray t.value
unfolding parse_char
parse_char-IsArray i c s t = elim (Bool-cases (is_dash_position i)) [
  | inl e ↦ elim (Bool-cases (c == 45)) [
    | inl f ↦ rw (e, f) λ h a. subst (λ x. IsArray x.value) (some_inj h) a
    | inr f ↦ rw (e, f) λ h a. absurd (ground arith)
  ]
  | inr e ↦ rw e λ h a. after_hex-IsArray (parse_hex c) s t (parse_hex-lt c) h a
]

parse_loop-IsArray :
    (i : ℕ) (cs : List ℕ) (s t : Cursor)
    → parse_loop i cs s ≡ some t
    → IsArray s.value
    → IsArray t.value
unfolding parse_loop
parse_loop-IsArray i [] s t = λ e a. subst (λ x. IsArray x.value) (some_inj e) a
parse_loop-IsArray i (c ∷ cs) s t = elim (Option-cases (parse_char i c s)) [
  | inl e ↦ rw (e, parse_loop) λ h a. absurd (ground arith)
  | inr (u, e) ↦
      rw (e, parse_loop) λ h a. parse_loop-IsArray (i + 1) cs u t h (parse_char-IsArray i c s u e a)
]

abbrev value_of : Parsed → Uuid → Uuid
value_of (parsed v) d = v
value_of not_canonical d = d
value_of not_version_7 d = d

pub parsed_inj : (u v : Uuid) → parsed u ≡ parsed v → u ≡ v
parsed_inj u v e = ap (λ p. value_of p u) e

unless_value : (b : Bool) (u v : Uuid) → (if b then not_version_7 else parsed u) ≡ parsed v → u ≡ v
unless_value true u v e = absurd (ground arith)
unless_value false u v e = parsed_inj u v e

IsUuid-of : (v : Uuid) → IsArray v → at v 6 / 16 ≡ 7 → at v 8 / 64 ≡ 2 → IsUuid v
IsUuid-of v a six eight = record { size = a.size; bytes = a.bytes; version = six; variant = eight }

checked-value : (u v : Uuid) → checked u ≡ parsed v → u ≡ v
unfolding checked
checked-value u v e = unless_value _ u v e

checked-IsUuid : (u v : Uuid) → checked u ≡ parsed v → IsArray u → IsUuid v
unfolding checked
checked-IsUuid u v = elim (Bool-cases (at u 6 / 16 == 7)) [
  | inl p ↦ elim (Bool-cases (bit_and (at u 8) 0xc0 == 0x80)) [
    | inl q ↦
        rw (p, q)
          λ h a.
            let mask = bit_and-variant (at u 8) (a.bytes 8) in
            subst IsUuid (parsed_inj u v h) (IsUuid-of u a (ground arith) (ground arith))
    | inr q ↦ rw (p, q) λ h a. absurd (ground arith)
  ]
  | inr p ↦ rw p λ h a. absurd (ground arith)
]

after_loop-IsUuid :
    (o : Option Cursor) (v : Uuid)
    → ((t : Cursor) → o ≡ some t → IsArray t.value)
    → after_loop o ≡ parsed v
    → IsUuid v
after_loop-IsUuid none v h e = absurd (ground arith)
after_loop-IsUuid (some t) v h e = checked-IsUuid t.value v e (h t refl)

abbrev start : Cursor
start = record { byte_index = 0; value = replicate 16 0 }

start-IsArray : IsArray (replicate 16 0)
start-IsArray = record { size = refl; bytes = at-zero 16 }
  where
    at-zero : (n i : ℕ) → at (replicate n 0) i < 256
    at-zero zero i = omega arith
    at-zero (suc n) zero = omega arith
    at-zero (suc n) (suc i) = at-zero n i

pub parse-IsUuid : (text : List ℕ) (v : Uuid) → parse text ≡ parsed v → IsUuid v
unfolding parse
parse-IsUuid text v = elim (Bool-cases (length text == 36)) [
  | inl e ↦ rw e λ h.
      after_loop-IsUuid (parse_loop 0 text start) v
        (λ t g. parse_loop-IsArray 0 text start t g start-IsArray) h
  | inr e ↦ rw e λ h. absurd (ground arith)
]

checked_self : (u v : Uuid) → checked u ≡ parsed v → IsArray u → IsUuid u
checked_self u v e a = subst IsUuid (sym (checked-value u v e)) (checked-IsUuid u v e a)

-- What is stored as a fence and read back as an identifier is one.
pub to_text_parsed-IsUuid : (v w : Uuid) → IsArray v → parse (to_text v) ≡ parsed w → IsUuid v
unfolding parse
to_text_parsed-IsUuid v w a =
    rw (text_size v (length-IsSixteen v a.size), loop_bytes v (length-IsSixteen v a.size) a.bytes)
      λ h. checked_self v w h a
