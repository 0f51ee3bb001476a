-- ===== src/Workload/Sums.antt =====
-- Sums of the counts of a histogram.
use lisstech_drain_ctl.Prelude.{
  ℕ, zero, suc, ◌+◌, ◌^◌, ◌≤◌, ◌<◌, ◌≡◌, refl, List, [], ◌∷◌, arith, inl, inr, length, get_or, set,
  Bool-cases,
}
use lisstech_drain_ctl.Prelude.Int.{ℤ, eqb_ℤ}
use lisstech_drain_ctl.Workload.{add64, MemoryBin, add_bin, bump, add_counts, merge_bins}

abbrev pub sum : List ℕ → ℕ
sum [] = 0
sum (n ∷ counts) = n + sum counts

abbrev pub bins_sum : List MemoryBin → ℕ
bins_sum [] = 0
bins_sum (e ∷ es) = e.count + bins_sum es

pub sum-set : (h : List ℕ) (i v : ℕ) → i < length h → sum (set h i v) + get_or h i 0 ≡ sum h + v
sum-set [] i v l = absurd (omega arith)
sum-set (x ∷ h) zero v l = omega arith
sum-set (x ∷ h) (suc i) v l = omega (arith, sum-set h i v (omega arith))

pub get_or-le_sum : (h : List ℕ) (i : ℕ) → get_or h i 0 ≤ sum h
get_or-le_sum [] i = omega arith
get_or-le_sum (x ∷ h) zero = omega arith
get_or-le_sum (x ∷ h) (suc i) = omega (arith, get_or-le_sum h i)

pub sum-bump : (h : List ℕ) (i : ℕ) → i < length h → sum h + 1 < 2 ^ 64 → sum (bump h i) ≡ sum h + 1
sum-bump h i l small = omega (arith, sum-set h i (add64 (get_or h i 0) 1) l, get_or-le_sum h i)

pub bins_sum-add_bin :
    (b : ℤ) (n : ℕ) (es : List MemoryBin)
    → bins_sum es + n < 2 ^ 64
    → bins_sum (add_bin b n es) ≡ bins_sum es + n
unfolding add_bin
bins_sum-add_bin b n [] small = omega arith
bins_sum-add_bin b n (e ∷ es) small = elim (Bool-cases (eqb_ℤ e.bin b)) [
  | inl h ↦ rw h (omega arith)
  | inr h ↦ rw h (omega (arith, bins_sum-add_bin b n es (omega arith)))
]

pub bins_sum-merge_bins :
    (es fs : List MemoryBin)
    → bins_sum es + bins_sum fs < 2 ^ 64
    → bins_sum (merge_bins es fs) ≡ bins_sum es + bins_sum fs
unfolding merge_bins
bins_sum-merge_bins es [] small = omega arith
bins_sum-merge_bins es (f ∷ fs) small =
    let one = bins_sum-add_bin f.bin f.count es (omega arith) in
    omega (arith, one, bins_sum-merge_bins (add_bin f.bin f.count es) fs (omega (arith, one)))

pub sum-add_counts :
    (xs ys : List ℕ)
    → length xs ≡ length ys
    → sum xs + sum ys < 2 ^ 64
    → (sum (add_counts xs ys) ≡ sum xs + sum ys) × (length (add_counts xs ys) ≡ length xs)
unfolding add_counts
sum-add_counts [] [] same small = (refl, refl)
sum-add_counts [] (y ∷ ys) same small = absurd (omega arith)
sum-add_counts (x ∷ xs) [] same small = absurd (omega arith)
sum-add_counts (x ∷ xs) (y ∷ ys) same small =
    let (total, size) = sum-add_counts xs ys (omega arith) (omega arith) in
    (omega arith, omega arith)
