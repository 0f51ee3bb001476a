-- ===== src/Uuid/Sixteen.antt =====
-- A list of sixteen bytes, by its entries.
use lisstech_drain_ctl.Prelude.{ℕ, ◌≡◌, List, [], ◌∷◌, arith, length}

pub data IsSixteen : List ℕ → Type 0 where
  sixteen :
      (b0 b1 b2 b3 b4 b5 b6 b7 b8 b9 b10 b11 b12 b13 b14 b15 : ℕ)
      → IsSixteen
          (b0 ∷ b1 ∷ b2 ∷ b3 ∷ b4 ∷ b5 ∷ b6 ∷ b7 ∷ b8 ∷ b9 ∷ b10 ∷ b11 ∷ b12 ∷ b13 ∷ b14 ∷ b15 ∷ [])

pub length-IsSixteen : (v : List ℕ) → length v ≡ 16 → IsSixteen v
length-IsSixteen [] h = absurd (omega arith)
length-IsSixteen (b0 ∷ []) h = absurd (omega arith)
length-IsSixteen (b0 ∷ b1 ∷ []) h = absurd (omega arith)
length-IsSixteen (b0 ∷ b1 ∷ b2 ∷ []) h = absurd (omega arith)
length-IsSixteen (b0 ∷ b1 ∷ b2 ∷ b3 ∷ []) h = absurd (omega arith)
length-IsSixteen (b0 ∷ b1 ∷ b2 ∷ b3 ∷ b4 ∷ []) h = absurd (omega arith)
length-IsSixteen (b0 ∷ b1 ∷ b2 ∷ b3 ∷ b4 ∷ b5 ∷ []) h = absurd (omega arith)
length-IsSixteen (b0 ∷ b1 ∷ b2 ∷ b3 ∷ b4 ∷ b5 ∷ b6 ∷ []) h = absurd (omega arith)
length-IsSixteen (b0 ∷ b1 ∷ b2 ∷ b3 ∷ b4 ∷ b5 ∷ b6 ∷ b7 ∷ []) h = absurd (omega arith)
length-IsSixteen (b0 ∷ b1 ∷ b2 ∷ b3 ∷ b4 ∷ b5 ∷ b6 ∷ b7 ∷ b8 ∷ []) h = absurd (omega arith)
length-IsSixteen (b0 ∷ b1 ∷ b2 ∷ b3 ∷ b4 ∷ b5 ∷ b6 ∷ b7 ∷ b8 ∷ b9 ∷ []) h = absurd (omega arith)
length-IsSixteen (b0 ∷ b1 ∷ b2 ∷ b3 ∷ b4 ∷ b5 ∷ b6 ∷ b7 ∷ b8 ∷ b9 ∷ b10 ∷ []) h =
    absurd (omega arith)
length-IsSixteen (b0 ∷ b1 ∷ b2 ∷ b3 ∷ b4 ∷ b5 ∷ b6 ∷ b7 ∷ b8 ∷ b9 ∷ b10 ∷ b11 ∷ []) h =
    absurd (omega arith)
length-IsSixteen (b0 ∷ b1 ∷ b2 ∷ b3 ∷ b4 ∷ b5 ∷ b6 ∷ b7 ∷ b8 ∷ b9 ∷ b10 ∷ b11 ∷ b12 ∷ []) h =
    absurd (omega arith)
length-IsSixteen (b0 ∷ b1 ∷ b2 ∷ b3 ∷ b4 ∷ b5 ∷ b6 ∷ b7 ∷ b8 ∷ b9 ∷ b10 ∷ b11 ∷ b12 ∷ b13 ∷ []) h =
    absurd (omega arith)
length-IsSixteen
      (b0 ∷ b1 ∷ b2 ∷ b3 ∷ b4 ∷ b5 ∷ b6 ∷ b7 ∷ b8 ∷ b9 ∷ b10 ∷ b11 ∷ b12 ∷ b13 ∷ b14 ∷ []) h =
    absurd (omega arith)
length-IsSixteen
      (b0 ∷ b1 ∷ b2 ∷ b3 ∷ b4 ∷ b5 ∷ b6 ∷ b7 ∷ b8 ∷ b9 ∷ b10 ∷ b11 ∷ b12 ∷ b13 ∷ b14 ∷ b15 ∷ []) h =
    sixteen b0 b1 b2 b3 b4 b5 b6 b7 b8 b9 b10 b11 b12 b13 b14 b15
length-IsSixteen
      (b0 ∷ b1 ∷ b2 ∷ b3 ∷ b4 ∷ b5 ∷ b6 ∷ b7 ∷ b8 ∷ b9 ∷ b10 ∷ b11 ∷ b12 ∷ b13 ∷ b14 ∷ b15 ∷ b16
        ∷ bs)
      h =
    absurd (omega arith)
