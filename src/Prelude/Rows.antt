-- ===== src/Prelude/Rows.antt =====
-- Tables as lists of rows: what the SQL statements of the stores do to them.
use Prim.Native.Nat.{ℕ, zero, suc}
use mathlib.Core.Path.{◌≡◌, subst}
use mathlib.Core.Bool.{Bool, true, false}
use mathlib.Core.Logic.{◌⊎◌, inl, inr}
use mathlib.Core.Option.{Option, none, some}
use mathlib.Core.List.{List, [], ◌∷◌, ◌++◌}
use native.Mathlib.Omega.{arith}
use lisstech_drain_ctl.Prelude.Tests.{if◌then◌else◌, Bool-cases}
use lisstech_drain_ctl.Prelude.Lists.{take}

module _ {ℓ} {A : Type ℓ} where
  -- SELECT … WHERE p
  unfoldable pub select : (A → Bool) → List A → List A
  select p [] = []
  select p (x ∷ xs) = if p x then x ∷ select p xs else select p xs

  -- DELETE … WHERE p
  unfoldable pub delete_where : (A → Bool) → List A → List A
  delete_where p [] = []
  delete_where p (x ∷ xs) = if p x then delete_where p xs else x ∷ delete_where p xs

  -- UPDATE … SET f WHERE p
  unfoldable pub update_where : (A → Bool) → (A → A) → List A → List A
  update_where p f [] = []
  update_where p f (x ∷ xs) = (if p x then f x else x) ∷ update_where p f xs

  -- The one row that a query by a unique key returns.
  unfoldable pub find_row : (A → Bool) → List A → Option A
  find_row p [] = none
  find_row p (x ∷ xs) = if p x then some x else find_row p xs

  unfoldable pub any_row : (A → Bool) → List A → Bool
  any_row p [] = false
  any_row p (x ∷ xs) = if p x then true else any_row p xs

  unfoldable pub insert_by : (A → A → Bool) → A → List A → List A
  insert_by le x [] = x ∷ []
  insert_by le x (y ∷ ys) = if le x y then x ∷ y ∷ ys else y ∷ insert_by le x ys

  -- ORDER BY
  unfoldable pub order_by : (A → A → Bool) → List A → List A
  unfolding insert_by
  order_by le [] = []
  order_by le (x ∷ xs) = insert_by le x (order_by le xs)

  -- A predicate of every row.
  abbrev pub All {κ} : (A → Type κ) → List A → Type κ
  All P [] = Unit
  All P (x ∷ xs) = P x × All P xs

  -- A predicate of some row.
  abbrev pub Any : (A → Type 0) → List A → Type 0
  Any P [] = ⊥
  Any P (x ∷ xs) = P x ⊎ Any P xs

module _ {ℓ κ} {A : Type ℓ} (P : A → Type κ) where
  pub All-append : (xs ys : List A) → All P xs → All P ys → All P (xs ++ ys)
  All-append [] ys hx hy = hy
  All-append (x ∷ xs) ys hx hy = (hx.0, All-append xs ys hx.1 hy)

  pub All-update_where :
      (p : A → Bool) (f : A → A) (xs : List A)
      → ((x : A) → p x ≡ true → P x → P (f x))
      → All P xs
      → All P (update_where p f xs)
  unfolding update_where
  All-update_where p f [] keep h = tt
  All-update_where p f (x ∷ xs) keep h = elim (Bool-cases (p x)) [
    | inl e ↦ rw e (keep x e h.0, All-update_where p f xs keep h.1)
    | inr e ↦ rw e (h.0, All-update_where p f xs keep h.1)
  ]

  -- The same, where more is known of the rows.
  pub All-update_with {μ} :
      (Q : A → Type μ) (p : A → Bool) (f : A → A) (xs : List A)
      → ((x : A) → p x ≡ true → Q x → P x → P (f x))
      → All Q xs
      → All P xs
      → All P (update_where p f xs)
  unfolding update_where
  All-update_with Q p f [] keep q h = tt
  All-update_with Q p f (x ∷ xs) keep q h = elim (Bool-cases (p x)) [
    | inl e ↦ rw e (keep x e q.0 h.0, All-update_with Q p f xs keep q.1 h.1)
    | inr e ↦ rw e (h.0, All-update_with Q p f xs keep q.1 h.1)
  ]

  pub All-delete_where : (p : A → Bool) (xs : List A) → All P xs → All P (delete_where p xs)
  unfolding delete_where
  All-delete_where p [] h = tt
  All-delete_where p (x ∷ xs) h = elim (Bool-cases (p x)) [
    | inl e ↦ rw e (All-delete_where p xs h.1)
    | inr e ↦ rw e (h.0, All-delete_where p xs h.1)
  ]

  pub All-select_keep : (p : A → Bool) (xs : List A) → All P xs → All P (select p xs)
  unfolding select
  All-select_keep p [] h = tt
  All-select_keep p (x ∷ xs) h = elim (Bool-cases (p x)) [
    | inl e ↦ rw e (h.0, All-select_keep p xs h.1)
    | inr e ↦ rw e (All-select_keep p xs h.1)
  ]

  -- Each selected row has passed the test.
  pub All-select : (p : A → Bool) (xs : List A) → ((x : A) → p x ≡ true → P x) → All P (select p xs)
  unfolding select
  All-select p [] h = tt
  All-select p (x ∷ xs) h = elim (Bool-cases (p x)) [
    | inl e ↦ rw e (h x e, All-select p xs h)
    | inr e ↦ rw e (All-select p xs h)
  ]

  pub All-insert_by :
      (le : A → A → Bool) (x : A) (xs : List A) → P x → All P xs → All P (insert_by le x xs)
  unfolding insert_by
  All-insert_by le x [] hx h = (hx, tt)
  All-insert_by le x (y ∷ ys) hx h = elim (Bool-cases (le x y)) [
    | inl e ↦ rw e (hx, (h.0, h.1))
    | inr e ↦ rw e (h.0, All-insert_by le x ys hx h.1)
  ]

  pub All-order_by : (le : A → A → Bool) (xs : List A) → All P xs → All P (order_by le xs)
  unfolding order_by
  All-order_by le [] h = tt
  All-order_by le (x ∷ xs) h = All-insert_by le x (order_by le xs) h.0 (All-order_by le xs h.1)

  pub All-take : (n : ℕ) (xs : List A) → All P xs → All P (take n xs)
  All-take zero xs h = tt
  All-take (suc n) [] h = tt
  All-take (suc n) (x ∷ xs) h = (h.0, All-take n xs h.1)

  pub find_row-All : (p : A → Bool) (xs : List A) {x : A} → All P xs → find_row p xs ≡ some x → P x
  unfolding find_row
  find_row-All p [] h e = cc
  find_row-All p (y ∷ xs) {x} h e = elim (Bool-cases (p y)) [
    | inl t ↦ let q : y ≡ x = ground arith in subst P q h.0
    | inr t ↦ find_row-All p xs h.1 (rw t at e)
  ]

module _ {ℓ} {A : Type ℓ} where
  pub select_yes :
      (p : A → Bool) (x : A) (xs : List A) → p x ≡ true → select p (x ∷ xs) ≡ x ∷ select p xs
  unfolding select
  select_yes p x xs e = rw e

  pub select_no :
      (p : A → Bool) (x : A) (xs : List A) → p x ≡ false → select p (x ∷ xs) ≡ select p xs
  unfolding select
  select_no p x xs e = rw e

  pub find_row-test : (p : A → Bool) (xs : List A) {x : A} → find_row p xs ≡ some x → p x ≡ true
  unfolding find_row
  find_row-test p [] e = cc
  find_row-test p (y ∷ xs) {x} e = elim (Bool-cases (p y)) [
    | inl t ↦ let q : y ≡ x = ground arith in subst (λ z. p z ≡ true) q t
    | inr t ↦ find_row-test p xs (rw t at e)
  ]

  pub any_row-find_row :
      (p : A → Bool) (xs : List A) {x : A} → find_row p xs ≡ some x → any_row p xs ≡ true
  unfolding find_row any_row
  any_row-find_row p [] e = cc
  any_row-find_row p (y ∷ xs) e = elim (Bool-cases (p y)) [
    | inl t ↦ rw t
    | inr t ↦ rw t (any_row-find_row p xs (rw t at e))
  ]
