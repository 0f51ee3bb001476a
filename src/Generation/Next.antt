-- ===== src/Generation/Next.antt =====
-- The next identifier is a later one.
use Prim.Native.Nat.{bit_and}
use lisstech_drain_ctl.Prelude.{
  ℕ, zero, suc, ◌+◌, ◌/◌, ◌≤◌, ◌<◌, true, ◌≡◌, ◌≢◌, refl, ap, ◌∙◌, List, [], ◌∷◌, some, arith, inl,
  inr, ◌⊎◌, some_inj, ◌==◌, length, set, length-set, get_or-set_self, get_or-set_ne, Bool-cases,
}
use mathlib.Core.Path.{subst}
use lisstech_drain_ctl.Prelude.Int.{pos}
use lisstech_drain_ctl.Prelude.Rows.{All}
use lisstech_drain_ctl.Uuid.{Uuid, at, compare_uuid, IsUuid}
use lisstech_drain_ctl.Uuid.Bytes.{bit_and-low}
use lisstech_drain_ctl.Generation.{
  Carry, increment, carry, last_loop, next_at_6, next_at_7, next_at_8, next,
}

-- `w` is above `v`: they first differ at an index below `n`, where `w` has the higher byte.
pub record Raised (n : ℕ) (v w : Uuid) : Type 0 where
  pub index : ℕ
  pub below : index < n
  pub same : (j : ℕ) → j < index → at w j ≡ at v j
  pub higher : at v index < at w index

-- Where the first bytes of `u` are those of `v`, what is above `u` is above `v`.
Raised-agree :
    {n m : ℕ} {u v w : Uuid}
    → ((j : ℕ) → j < n → at u j ≡ at v j)
    → n ≤ m
    → Raised n u w
    → Raised m v w
Raised-agree {n} {m} {u} {v} {w} agree le r = record {
  index = r.index;
  below = let b = r.below in omega arith;
  same = λ j h. r.same j h ∙ agree j (let b = r.below in omega arith);
  higher = rw (← agree r.index r.below) r.higher;
}

Raised-compare :
    (i : ℕ) (w v : Uuid)
    → i < length v
    → length w ≡ length v
    → ((j : ℕ) → j < i → at w j ≡ at v j)
    → at v i < at w i
    → compare_uuid w v ≡ pos 1
unfolding compare_uuid
Raised-compare i w [] b e same higher = absurd (omega arith)
Raised-compare i [] (y ∷ v) b e same higher = absurd (omega arith)
Raised-compare zero (x ∷ w) (y ∷ v) b e same higher = ground arith
Raised-compare (suc i) (x ∷ w) (y ∷ v) b e same higher =
    let first : x ≡ y = same 0 (omega arith) in
    let rest =
      Raised-compare i w v (omega arith) (omega arith) (λ j h. same (suc j) (omega arith)) higher in
    ground (arith, first, rest)

at-set : (v : Uuid) (k x j : ℕ) → (at (set v k x) j ≡ at v j) ⊎ ((j ≡ k) × (at (set v k x) j ≡ x))
at-set [] k x j = inl refl
at-set (b ∷ v) zero x zero = inr (refl, refl)
at-set (b ∷ v) zero x (suc j) = inl refl
at-set (b ∷ v) (suc k) x zero = inl refl
at-set (b ∷ v) (suc k) x (suc j) = elim (at-set v k x j) [
  | inl e ↦ inl e
  | inr (e, f) ↦ inr (ap suc e, f)
]

module _ (v : Uuid) (u : IsUuid v) (k x : ℕ) where
  pub set-IsUuid : x < 256 → (k ≡ 6 → x / 16 ≡ 7) → (k ≡ 8 → x / 64 ≡ 2) → IsUuid (set v k x)
  set-IsUuid small six eight = record {
    size = length-set v k x ∙ u.size;
    bytes = λ i. elim (at-set v k x i) [ inl e ↦ rw e (u.bytes i) | inr (e, f) ↦ rw f small ];
    version = elim (at-set v k x 6) [
      | inl e ↦ rw e u.version
      | inr (e, f) ↦ rw f (six (omega arith))
    ];
    variant = elim (at-set v k x 8) [
      | inl e ↦ rw e u.variant
      | inr (e, f) ↦ rw f (eight (omega arith))
    ];
  }

  -- A higher byte raises the identifier.
  set-Raised : (n : ℕ) → k < n → n ≤ 16 → at v k < x → Raised n v (set v k x)
  set-Raised n b le higher = record {
    index = k;
    below = b;
    same = λ j h. get_or-set_ne v k j x 0 (λ e. absurd (omega arith));
    higher = rw (get_or-set_self v k x 0 (let s = u.size in omega arith)) higher;
  }

-- Indices that fall, below `n`, and not the bytes of the marks.
abbrev Falling : ℕ → List ℕ → Type 0
Falling n [] = Unit
Falling n (i ∷ is) = (i < n) × (i ≢ 6) × (i ≢ 8) × Falling i is

byte-full : (v : Uuid) (i : ℕ) → IsUuid v → at v i ≢ 255 → increment (at v i) ≡ at v i + 1
byte-full v i u h = let b = u.bytes i in omega arith

carry-IsUuid :
    (n : ℕ) (is : List ℕ) (v : Uuid) → Falling n is → IsUuid v → IsUuid (carry is v).value
unfolding carry
carry-IsUuid n [] v f u = u
carry-IsUuid n (i ∷ is) v f u = elim (Bool-cases (at v i == 255)) [
  | inl e ↦ rw e (
      carry-IsUuid i is (set v i 0) f.3
        (set-IsUuid v u i 0 (omega arith) (λ h. absurd (f.1 h)) (λ h. absurd (f.2 h))))
  | inr e ↦ rw e (
      set-IsUuid v u i (increment (at v i)) (omega arith) (λ h. absurd (f.1 h))
        (λ h. absurd (f.2 h)))
]

-- A carry that ends raises the identifier; before that it changes no byte below the indices.
carry-Raised :
    (n : ℕ) (is : List ℕ) (v : Uuid)
    → n ≤ 16
    → Falling n is
    → IsUuid v
    → (carry is v).done ≡ true
    → Raised n v (carry is v).value
unfolding carry
carry-Raised n [] v le f u = λ e. absurd (ground arith)
carry-Raised n (i ∷ is) v le f u = elim (Bool-cases (at v i == 255)) [
  | inl e ↦ rw e λ d.
      Raised-agree (λ j h. get_or-set_ne v i j 0 0 (λ e. absurd (omega arith)))
        (let b = f.0 in omega arith)
        (carry-Raised i is (set v i 0) (let b = f.0 in omega arith) f.3
          (set-IsUuid v u i 0 (omega arith) (λ h. absurd (f.1 h)) (λ h. absurd (f.2 h))) d)
  | inr e ↦ rw e λ d.
      set-Raised v u i (increment (at v i)) n f.0 le
        (let s = byte-full v i u (λ g. absurd (ground arith)) in omega arith)
]

carry-below :
    (lo : ℕ) (is : List ℕ) (v : Uuid)
    → All (λ i. lo ≤ i) is
    → (j : ℕ) → j < lo
    → at (carry is v).value j ≡ at v j
unfolding carry
carry-below lo [] v f j h = refl
carry-below lo (i ∷ is) v f j h = elim (Bool-cases (at v i == 255)) [
  | inl e ↦ rw e (
      carry-below lo is (set v i 0) f.1 j h
      ∙ get_or-set_ne v i j 0 0 (λ e. let b = f.0 in absurd (omega arith)))
  | inr e ↦ rw e (get_or-set_ne v i j _ 0 (λ e. let b = f.0 in absurd (omega arith)))
]

-- `w` is the identifier that follows `v` from byte `n` on.
abbrev Follows : ℕ → Uuid → Uuid → Type 0
Follows n v w = IsUuid w × Raised n v w

Follows-set : (n k x : ℕ) (v w : Uuid) → k ≤ n → n ≤ 16 → Follows k (set v k x) w → Follows n v w
Follows-set n k x v w le le2 (u, r) =
    (u, Raised-agree (λ j h. get_or-set_ne v k j x 0 (λ e. absurd (omega arith))) le r)

Follows-here :
    (n k x : ℕ) (v w : Uuid)
    → IsUuid v
    → k < n
    → n ≤ 16
    → at v k < x
    → IsUuid (set v k x)
    → some (set v k x) ≡ some w
    → Follows n v w
Follows-here n k x v w u b le higher ok e =
    subst (Follows n v) (some_inj e) (ok, set-Raised v u k x n b le higher)

last_loop-some : (c : Carry) {w : Uuid} → last_loop c ≡ some w → (c.done ≡ true) × (c.value ≡ w)
last_loop-some c {w} = elim (Bool-cases c.done) [
  | inl e ↦ rw e λ d. (refl, some_inj d)
  | inr e ↦ rw e λ d. absurd (ground arith)
]

carry-Follows :
    (n : ℕ) (is : List ℕ) (v w : Uuid)
    → n ≤ 16
    → Falling n is
    → IsUuid v
    → last_loop (carry is v) ≡ some w
    → Follows n v w
carry-Follows n is v w le f u e =
    let (d, same) = last_loop-some (carry is v) e in
    subst (Follows n v) same (carry-IsUuid n is v f u, carry-Raised n is v le f u d)

abbrev head_bytes : List ℕ
head_bytes = 5 ∷ 4 ∷ 3 ∷ 2 ∷ 1 ∷ 0 ∷ []

next_at_6-Follows : (v w : Uuid) → IsUuid v → next_at_6 v ≡ some w → Follows 7 v w
unfolding next_at_6
next_at_6-Follows v w u =
    let low = bit_and-low (at v 6) (u.bytes 6) in
    let seven = u.version in
    elim (Bool-cases (bit_and (at v 6) 0x0f == 0x0f)) [
      | inl e ↦ rw e λ d. Follows-set 7 6 0x70 v w (omega arith) (omega arith) (
          carry-Follows 6 head_bytes (set v 6 0x70) w (omega arith) (ground arith)
            (set-IsUuid v u 6 0x70 (omega arith) (λ h. refl) (λ h. absurd (omega arith))) d)
      | inr e ↦ rw e λ d.
          Follows-here 7 6 (increment (at v 6)) v w u (omega arith) (omega arith) (ground arith)
            (set-IsUuid v u 6 _ (omega arith) (λ h. ground arith) (λ h. absurd (omega arith))) d
    ]

next_at_7-Follows : (v w : Uuid) → IsUuid v → next_at_7 v ≡ some w → Follows 8 v w
unfolding next_at_7
next_at_7-Follows v w u = elim (Bool-cases (at v 7 == 0xff)) [
  | inl e ↦ rw e λ d. Follows-set 8 7 0 v w (omega arith) (omega arith) (
      next_at_6-Follows (set v 7 0) w
        (set-IsUuid v u 7 0 (omega arith) (λ h. absurd (omega arith)) (λ h. absurd (omega arith)))
        d)
  | inr e ↦ rw e λ d.
      Follows-here 8 7 (increment (at v 7)) v w u (omega arith) (omega arith)
        (let s = byte-full v 7 u (λ g. absurd (ground arith)) in omega arith)
        (set-IsUuid v u 7 _ (omega arith) (λ h. absurd (omega arith)) (λ h. absurd (omega arith))) d
]

next_at_8-Follows : (v w : Uuid) → IsUuid v → next_at_8 v ≡ some w → Follows 9 v w
unfolding next_at_8
next_at_8-Follows v w u =
    let low = bit_and-low (at v 8) (u.bytes 8) in
    let two = u.variant in
    elim (Bool-cases (bit_and (at v 8) 0x3f == 0x3f)) [
      | inl e ↦ rw e λ d. Follows-set 9 8 0x80 v w (omega arith) (omega arith) (
          next_at_7-Follows (set v 8 0x80) w
            (set-IsUuid v u 8 0x80 (omega arith) (λ h. absurd (omega arith)) (λ h. refl)) d)
      | inr e ↦ rw e λ d.
          Follows-here 9 8 (increment (at v 8)) v w u (omega arith) (omega arith) (ground arith)
            (set-IsUuid v u 8 _ (omega arith) (λ h. absurd (omega arith)) (λ h. ground arith)) d
    ]

abbrev tail_bytes : List ℕ
tail_bytes = 15 ∷ 14 ∷ 13 ∷ 12 ∷ 11 ∷ 10 ∷ 9 ∷ []

next-Follows : (v w : Uuid) → IsUuid v → next v ≡ some w → Follows 16 v w
unfolding next
next-Follows v w u = elim (Bool-cases (carry tail_bytes v).done) [
  | inl e ↦ rw e λ d. carry-Follows 16 tail_bytes v w (omega arith) (ground arith) u (rw e d)
  | inr e ↦ rw e λ d.
      let (ok, r) =
        next_at_8-Follows (carry tail_bytes v).value w
          (carry-IsUuid 16 tail_bytes v (ground arith) u) d in
      (ok, Raised-agree (carry-below 9 tail_bytes v (ground arith)) (omega arith) r)
]

-- The identifier that follows a version 7 identifier is a version 7 identifier, and a later one.
pub next_later : (v w : Uuid) → IsUuid v → next v ≡ some w → IsUuid w × (compare_uuid w v ≡ pos 1)
next_later v w u e =
    let (ok, r) = next-Follows v w u e in
    (
      ok,
      Raised-compare r.index w v (let b = r.below in let s = u.size in omega arith)
          (let s = u.size in let t = ok.size in omega arith) r.same r.higher,
    )
