-- ===== src/Prelude/Sorted.antt =====
-- ORDER BY, LIMIT and queries of the rows of a table by their own keys.
use Prim.Native.Nat.{ℕ, zero, suc}
use mathlib.Core.Path.{◌≡◌, refl, sym, ap}
use mathlib.Core.Bool.{Bool, true, false}
use mathlib.Core.Logic.{inl, inr}
use mathlib.Core.Option.{some}
use mathlib.Core.List.{List, [], ◌∷◌, map}
use lisstech_drain_ctl.Prelude.Tests.{Bool-cases}
use lisstech_drain_ctl.Prelude.Lists.{length, take}
use lisstech_drain_ctl.Prelude.Rows.{
  All, All-insert_by, All-take, select, update_where, find_row, insert_by, order_by,
}
use lisstech_drain_ctl.Prelude.Distinct.{Absent, Distinct}

-- Each element is related to all that follow it.
abbrev pub Sorted {ℓ κ} : {A : Type ℓ} → (A → A → Type κ) → List A → Type κ
Sorted R [] = Unit
Sorted R (x ∷ xs) = All (R x) xs × Sorted R xs

pub All-impl {ℓ κ μ} :
    {A : Type ℓ} {P : A → Type κ} {Q : A → Type μ}
    → ((x : A) → P x → Q x)
    → (xs : List A) → All P xs
    → All Q xs
All-impl f [] h = tt
All-impl f (x ∷ xs) h = (f x h.0, All-impl f xs h.1)

pub All-zip {ℓ κ μ} :
    {A : Type ℓ} (P : A → Type κ) (Q : A → Type μ) (xs : List A)
    → All P xs
    → All Q xs
    → All (λ x. P x × Q x) xs
All-zip P Q [] h k = tt
All-zip P Q (x ∷ xs) h k = ((h.0, k.0), All-zip P Q xs h.1 k.1)

module _ {ℓ} {A : Type ℓ} (le : A → A → Bool) where
  length-insert_by : (x : A) (xs : List A) → length (insert_by le x xs) ≡ suc (length xs)
  unfolding insert_by
  length-insert_by x [] = refl
  length-insert_by x (y ∷ ys) = elim (Bool-cases (le x y)) [
    | inl e ↦ rw e
    | inr e ↦ rw (e, length-insert_by x ys)
  ]

  pub length-order_by : (xs : List A) → length (order_by le xs) ≡ length xs
  unfolding order_by
  length-order_by [] = refl
  length-order_by (x ∷ xs) = rw (length-insert_by x (order_by le xs), length-order_by xs)

  module _ {κ} (R : A → A → Type κ) (trans : (x y z : A) → R x y → R y z → R x z)
      (before : (x y : A) → le x y ≡ true → R x y)
      (after : (x y : A) → le x y ≡ false → R y x) where
    insert_by-Sorted : (x : A) (xs : List A) → Sorted R xs → Sorted R (insert_by le x xs)
    unfolding insert_by
    insert_by-Sorted x [] h = (tt, tt)
    insert_by-Sorted x (y ∷ ys) h = elim (Bool-cases (le x y)) [
      | inl e ↦ rw e ((before x y e, All-impl (λ z r. trans x y z (before x y e) r) ys h.0), h)
      | inr e ↦ rw e (All-insert_by (R y) le x ys (after x y e) h.0, insert_by-Sorted x ys h.1)
    ]

    pub order_by-Sorted : (xs : List A) → Sorted R (order_by le xs)
    unfolding order_by
    order_by-Sorted [] = tt
    order_by-Sorted (x ∷ xs) = insert_by-Sorted x (order_by le xs) (order_by-Sorted xs)

pub take-Sorted {ℓ κ} :
    {A : Type ℓ} (R : A → A → Type κ) (n : ℕ) (xs : List A) → Sorted R xs → Sorted R (take n xs)
take-Sorted R zero xs h = tt
take-Sorted R (suc n) [] h = tt
take-Sorted R (suc n) (x ∷ xs) h = (All-take (R x) n xs h.0, take-Sorted R n xs h.1)

pub All-map {ℓ κ μ} :
    {A : Type ℓ} {B : Type κ} (Q : B → Type μ) (f : A → B) (xs : List A)
    → All (λ x. Q (f x)) xs
    → All Q (map f xs)
All-map Q f [] h = tt
All-map Q f (x ∷ xs) h = (h.0, All-map Q f xs h.1)

pub Sorted-map {ℓ κ μ} :
    {A : Type ℓ} {B : Type κ} (R : B → B → Type μ) (f : A → B) (xs : List A)
    → Sorted (λ x y. R (f x) (f y)) xs
    → Sorted R (map f xs)
Sorted-map R f [] h = tt
Sorted-map R f (x ∷ xs) h = (All-map (R (f x)) f xs h.0, Sorted-map R f xs h.1)

pub length-map {ℓ κ} :
    {A : Type ℓ} {B : Type κ} (f : A → B) (xs : List A) → length (map f xs) ≡ length xs
length-map f [] = refl
length-map f (x ∷ xs) = ap suc (length-map f xs)

-- An UPDATE of rows that a query takes neither before nor after it.
pub select-update_where {ℓ} :
    {A : Type ℓ} (p d : A → Bool) (f : A → A) (xs : List A)
    → ((x : A) → d x ≡ true → p x ≡ false)
    → ((x : A) → d x ≡ true → p (f x) ≡ false)
    → select p (update_where d f xs) ≡ select p xs
unfolding select update_where
select-update_where p d f [] was is = refl
select-update_where p d f (x ∷ xs) was is = elim (Bool-cases (d x)) [
  | inl e ↦ rw (e, is x e, was x e, select-update_where p d f xs was is)
  | inr e ↦ rw (e, select-update_where p d f xs was is)
]

module _ {ℓ κ} {A : Type ℓ} {K : Type κ} (key : A → K) (q : A → A → Bool)
    (sound : (r x : A) → q r x ≡ true → key x ≡ key r) (complete : (r : A) → q r r ≡ true) where
  find_row-past :
      (x : A) (xs ys : List A)
      → Absent (key x) (map key ys)
      → All (λ r. find_row (q r) xs ≡ some r) ys
      → All (λ r. find_row (q r) (x ∷ xs) ≡ some r) ys
  unfolding find_row
  find_row-past x xs [] absent h = tt
  find_row-past x xs (y ∷ ys) absent h = elim (Bool-cases (q y x)) [
    | inl e ↦ absurd (absent.0 (sym (sound y x e)))
    | inr e ↦ (rw e h.0, find_row-past x xs ys absent.1 h.1)
  ]

  -- Where the key is unique, each row is the one found by its own key.
  pub find_row_self :
      (xs : List A) → Distinct (map key xs) → All (λ r. find_row (q r) xs ≡ some r) xs
  unfolding find_row
  find_row_self [] d = tt
  find_row_self (x ∷ xs) d = (rw (complete x), find_row-past x xs xs d.0 (find_row_self xs d.1))
