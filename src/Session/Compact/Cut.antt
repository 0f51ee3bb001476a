-- ===== src/Session/Compact/Cut.antt =====
-- How a name is cut (truncateSnapshotText of internal/sessiondata/model.go).
use Prim.Native.Nat.{bit_and}
use lisstech_drain_ctl.Prelude.{
  ℕ, zero, suc, ◌≤◌, ◌<◌, ◌≡◌, ◌≢◌, ◌⊎◌, refl, inl, inr, true, false, none, some, arith, Bool-cases,
  leb, ◌==◌, length, get_or, take,
}
use lisstech_drain_ctl.Session.{Text}
use lisstech_drain_ctl.Session.Compact.{truncate_end, cut_text, truncate_text}

-- The byte continues a code point of UTF-8.
abbrev pub Continues : Text → ℕ → Type 0
Continues value i = bit_and (get_or value i 0) 0xc0 ≡ 0x80

-- `t` is the longest prefix of at least one and at most `n` bytes that is followed by the start of a code
-- point.
pub record IsCut (n : ℕ) (value t : Text) : Type 0 where
  pub end : ℕ
  pub prefix : t ≡ take end value
  pub positive : 0 < end
  pub bounded : end ≤ n
  pub starts : bit_and (get_or value end 0) 0xc0 ≢ 0x80
  pub longest : (i : ℕ) → end < i → i ≤ n → Continues value i

truncate_end-starts :
    (value : Text) (n : ℕ)
    → 0 < truncate_end value n
    → (truncate_end value n ≤ n) × (bit_and (get_or value (truncate_end value n) 0) 0xc0 ≢ 0x80)
unfolding truncate_end
truncate_end-starts value zero = λ h. absurd (omega arith)
truncate_end-starts value (suc e) =
    elim (Bool-cases (bit_and (get_or value (suc e) 0) 0xc0 == 0x80)) [
      | inl c ↦ rw c λ h. let (le, starts) = truncate_end-starts value e h in (omega arith, starts)
      | inr c ↦ rw c λ h. (omega arith, λ same. absurd (ground arith))
    ]

-- What the loop steps over are continuations.
truncate_end-Continues :
    (value : Text) (n i : ℕ) → truncate_end value n < i → i ≤ n → Continues value i
unfolding truncate_end
truncate_end-Continues value zero i = λ h le. absurd (omega arith)
truncate_end-Continues value (suc e) i =
    elim (Bool-cases (bit_and (get_or value (suc e) 0) 0xc0 == 0x80)) [
      | inl c ↦ rw c λ h le. elim (Bool-cases (i == suc e)) [
        | inl last ↦ let at_end : i ≡ suc e = ground arith in rw at_end (ground arith)
        | inr before ↦ truncate_end-Continues value e i h (ground arith)
      ]
      | inr c ↦ rw c λ h le. absurd (omega arith)
    ]

-- What is left after the loop ended at `e`.
cut_text-cases :
    (n : ℕ) (value : Text) (e : ℕ)
    → truncate_end value n ≡ e
    → ((t : Text) × (cut_text value e ≡ some t) × IsCut n value t)
      ⊎ ((cut_text value e ≡ none) × ((i : ℕ) → 0 < i → i ≤ n → Continues value i))
cut_text-cases n value zero same =
    inr (refl, λ i positive le. truncate_end-Continues value n i (omega arith) le)
cut_text-cases n value (suc e) same =
    let (le, starts) = truncate_end-starts value n (omega arith) in
    inl (
      take (suc e) value,
      refl,
      record {
        end = suc e;
        prefix = refl;
        positive = omega arith;
        bounded = omega arith;
        starts = rw same at starts;
        longest = λ i past below. truncate_end-Continues value n i (omega arith) below;
      },
    )

-- A name that fits is kept as it is. One that does not is cut to the longest prefix that fits and ends
-- before the start of a code point, and is dropped where only the empty prefix does.
pub truncate_text-IsCut :
    (n : ℕ) (value : Text)
    → (length value ≤ n → truncate_text n (some value) ≡ some value)
      × (n < length value
          → ((t : Text) × (truncate_text n (some value) ≡ some t) × IsCut n value t)
            ⊎ ((truncate_text n (some value) ≡ none)
                × ((i : ℕ) → 0 < i → i ≤ n → Continues value i)))
unfolding truncate_text
truncate_text-IsCut n value = (
  λ fits. let short : leb (length value) n ≡ true = ground arith in rw short refl,
  λ long.
      let over : leb (length value) n ≡ false = ground arith in
      rw over (cut_text-cases n value (truncate_end value n) refl),
)
