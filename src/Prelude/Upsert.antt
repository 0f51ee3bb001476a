-- ===== src/Prelude/Upsert.antt =====
-- INSERT … ON CONFLICT(key) DO UPDATE.
use mathlib.Core.Path.{◌≡◌, refl}
use mathlib.Core.Bool.{Bool, true, false}
use mathlib.Core.Logic.{inl, inr, ◌⊎◌}
use mathlib.Core.Option.{some}
use mathlib.Core.List.{List, [], ◌∷◌}
use native.Mathlib.Omega.{arith}
use lisstech_drain_ctl.Prelude.Tests.{if◌then◌else◌, Bool-cases}
use lisstech_drain_ctl.Prelude.Rows.{update_where, find_row, any_row}

module _ {ℓ} {A : Type ℓ} where
  -- `same`: the rows of the key; `change`: the update of such a row; `new`: the row to insert.
  unfoldable pub upsert : (A → Bool) → (A → A) → A → List A → List A
  upsert same change new xs = if any_row same xs then update_where same change xs else new ∷ xs

  find_row-updated :
      (same : A → Bool) (change : A → A) (xs : List A)
      → ((x : A) → same x ≡ true → same (change x) ≡ true)
      → any_row same xs ≡ true
      → (x : A) × (find_row same xs ≡ some x)
        × (find_row same (update_where same change xs) ≡ some (change x))
  unfolding any_row find_row update_where
  find_row-updated same change [] keeps e = absurd (ground arith)
  find_row-updated same change (x ∷ xs) keeps e = elim (Bool-cases (same x)) [
    | inl t ↦ (x, rw t, rw (t, keeps x t))
    | inr t ↦
        let (y, found, changed) = find_row-updated same change xs keeps (rw t at e) in
        (y, rw t found, rw (t, t) changed)
  ]

  find_row_first : (p : A → Bool) (y : A) (ys : List A) → p y ≡ true → find_row p (y ∷ ys) ≡ some y
  unfolding find_row
  find_row_first p y ys h = rw h

  find_row_later :
      (p : A → Bool) (y : A) (ys : List A) → p y ≡ false → find_row p (y ∷ ys) ≡ find_row p ys
  unfolding find_row
  find_row_later p y ys h = rw h

  find_row-unseen :
      (q same : A → Bool) (change : A → A) (ys : List A)
      → ((x : A) → same x ≡ true → q x ≡ false)
      → ((x : A) → same x ≡ true → q (change x) ≡ false)
      → find_row q (update_where same change ys) ≡ find_row q ys
  unfolding find_row update_where
  find_row-unseen q same change [] was is = refl
  find_row-unseen q same change (y ∷ ys) was is = elim (Bool-cases (same y)) [
    | inl t ↦ rw (t, is y t, was y t) (find_row-unseen q same change ys was is)
    | inr t ↦ rw (t, find_row-unseen q same change ys was is)
  ]

  -- The row of the key after it: the new one, or the old one changed.
  pub find_row-upsert_self :
      (same : A → Bool) (change : A → A) (new : A) (xs : List A)
      → ((x : A) → same x ≡ true → same (change x) ≡ true)
      → same new ≡ true
      → (find_row same (upsert same change new xs) ≡ some new)
        ⊎ ((x : A) × (find_row same xs ≡ some x)
            × (find_row same (upsert same change new xs) ≡ some (change x)))
  unfolding upsert
  find_row-upsert_self same change new xs keeps e = elim (Bool-cases (any_row same xs)) [
    | inl t ↦ inr (rw t (find_row-updated same change xs keeps t))
    | inr t ↦ inl (rw t (find_row_first same new xs e))
  ]

  -- The rows of other keys stay.
  pub find_row-upsert_other :
      (q same : A → Bool) (change : A → A) (new : A) (xs : List A)
      → ((x : A) → same x ≡ true → q x ≡ false)
      → ((x : A) → same x ≡ true → q (change x) ≡ false)
      → q new ≡ false
      → find_row q (upsert same change new xs) ≡ find_row q xs
  unfolding upsert
  find_row-upsert_other q same change new xs was is e = elim (Bool-cases (any_row same xs)) [
    | inl t ↦ rw t (find_row-unseen q same change xs was is)
    | inr t ↦ rw t (find_row_later q new xs e)
  ]
