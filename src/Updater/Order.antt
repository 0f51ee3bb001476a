-- ===== src/Updater/Order.antt =====
-- The order of versions.
use lisstech_drain_ctl.Prelude.{◌≡◌, ◌⊎◌, ◌↔◌, inl, inr, true, arith, Bool-cases}
use lisstech_drain_ctl.Prelude.Int.{◌<ℤ◌, eqb_ℤ, ltb_ℤ→lt, lt→ltb_ℤ, lt→eqb_ℤ, eqb_ℤ_iff}
use lisstech_drain_ctl.Updater.{Version, less, equals}

-- By year, then by month, then by number.
abbrev pub IsEarlier : Version → Version → Type 0
IsEarlier a b =
    (a.year <ℤ b.year)
    ⊎ ((a.year ≡ b.year) × (a.month <ℤ b.month))
    ⊎ ((a.year ≡ b.year) × (a.month ≡ b.month) × (a.n <ℤ b.n))

pub less→IsEarlier : (a b : Version) → less a b ≡ true → IsEarlier a b
unfolding less
less→IsEarlier a b = elim (Bool-cases (eqb_ℤ a.year b.year)) [
  | inr y ↦ rw y λ h. inl (ltb_ℤ→lt a.year b.year h)
  | inl y ↦ elim (Bool-cases (eqb_ℤ a.month b.month)) [
    | inr m ↦ rw (y, m) λ h. inr (inl ((eqb_ℤ_iff _ _).0 y, ltb_ℤ→lt a.month b.month h))
    | inl m ↦
        rw (y, m) λ h. inr (inr ((eqb_ℤ_iff _ _).0 y, (eqb_ℤ_iff _ _).0 m, ltb_ℤ→lt a.n b.n h))
  ]
]

pub IsEarlier→less : (a b : Version) → IsEarlier a b → less a b ≡ true
unfolding less
IsEarlier→less a b (inl h) = rw (lt→eqb_ℤ a.year b.year h) (lt→ltb_ℤ a.year b.year h)
IsEarlier→less a b (inr (inl (y, h))) =
    rw ((eqb_ℤ_iff a.year b.year).1 y, lt→eqb_ℤ a.month b.month h) (lt→ltb_ℤ a.month b.month h)
IsEarlier→less a b (inr (inr (y, m, h))) =
    rw ((eqb_ℤ_iff a.year b.year).1 y, (eqb_ℤ_iff a.month b.month).1 m) (lt→ltb_ℤ a.n b.n h)

same_fields : (a b : Version) → a.year ≡ b.year → a.month ≡ b.month → a.n ≡ b.n → a ≡ b
same_fields a b y m n = cc

pub equals→same : (a b : Version) → equals a b ≡ true → a ≡ b
unfolding equals
equals→same a b h =
    same_fields a b ((eqb_ℤ_iff a.year b.year).0 (ground arith))
      ((eqb_ℤ_iff a.month b.month).0 (ground arith)) ((eqb_ℤ_iff a.n b.n).0 (ground arith))

pub not-IsEarlier-self : (a b : Version) → a ≡ b → ¬ IsEarlier a b
not-IsEarlier-self a b e (inl h) = absurd (ground arith)
not-IsEarlier-self a b e (inr (inl (y, h))) = absurd (ground arith)
not-IsEarlier-self a b e (inr (inr (y, m, h))) = absurd (ground arith)

-- The order of versions is the one by year, then by month, then by number, and two versions are equal
-- exactly when they are the same.
pub less-IsEarlier :
    (a b : Version) → ((less a b ≡ true) ↔ IsEarlier a b) × ((equals a b ≡ true) ↔ (a ≡ b))
unfolding equals eqb_ℤ
less-IsEarlier a b =
    ((less→IsEarlier a b, IsEarlier→less a b), (equals→same a b, λ h. rw h (ground arith)))
