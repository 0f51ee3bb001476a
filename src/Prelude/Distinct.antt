-- ===== src/Prelude/Distinct.antt =====
-- Lists of keys in which no key stands twice: PRIMARY KEY and UNIQUE.
use mathlib.Core.Path.{◌≡◌, refl}
use mathlib.Core.Bool.{Bool, true, false}
use mathlib.Core.Logic.{inl, inr, ◌≢◌}
use mathlib.Core.Option.{none, some}
use mathlib.Core.List.{List, [], ◌∷◌, map}
use native.Mathlib.Omega.{arith}
use lisstech_drain_ctl.Prelude.Tests.{Bool-cases}
use lisstech_drain_ctl.Prelude.Rows.{All, select, delete_where, update_where, find_row, any_row}

abbrev pub Absent {ℓ} : {K : Type ℓ} → K → List K → Type ℓ
Absent k ks = All (λ j. j ≢ k) ks

abbrev pub Distinct {ℓ} : {K : Type ℓ} → List K → Type ℓ
Distinct [] = Unit
Distinct (k ∷ ks) = Absent k ks × Distinct ks

module _ {ℓ κ} {A : Type ℓ} {K : Type κ} (key : A → K) where
  pub map-update_where :
      (p : A → Bool) (f : A → A) (xs : List A)
      → ((x : A) → key (f x) ≡ key x)
      → map key (update_where p f xs) ≡ map key xs
  unfolding update_where
  map-update_where p f [] same = refl
  map-update_where p f (x ∷ xs) same = elim (Bool-cases (p x)) [
    | inl e ↦ rw (e, same x, map-update_where p f xs same)
    | inr e ↦ rw (e, map-update_where p f xs same)
  ]

  pub Absent-delete_where :
      (k : K) (p : A → Bool) (xs : List A)
      → Absent k (map key xs)
      → Absent k (map key (delete_where p xs))
  unfolding delete_where
  Absent-delete_where k p [] h = tt
  Absent-delete_where k p (x ∷ xs) h = elim (Bool-cases (p x)) [
    | inl e ↦ rw e (Absent-delete_where k p xs h.1)
    | inr e ↦ rw e (h.0, Absent-delete_where k p xs h.1)
  ]

  pub Distinct-delete_where :
      (p : A → Bool) (xs : List A) → Distinct (map key xs) → Distinct (map key (delete_where p xs))
  unfolding delete_where
  Distinct-delete_where p [] h = tt
  Distinct-delete_where p (x ∷ xs) h = elim (Bool-cases (p x)) [
    | inl e ↦ rw e (Distinct-delete_where p xs h.1)
    | inr e ↦ rw e (Absent-delete_where (key x) p xs h.0, Distinct-delete_where p xs h.1)
  ]

  -- A query that finds no row: no row has the key.
  pub find_row-Absent :
      (k : K) (p : A → Bool) (xs : List A)
      → ((x : A) → key x ≡ k → p x ≡ true)
      → find_row p xs ≡ none
      → Absent k (map key xs)
  unfolding find_row
  find_row-Absent k p [] sees e = tt
  find_row-Absent k p (x ∷ xs) sees e = elim (Bool-cases (p x)) [
    | inl t ↦ absurd (ground arith)
    | inr t ↦
        (λ same. absurd (ground (arith, sees x same)), find_row-Absent k p xs sees (ground arith))
  ]

  pub any_row-Absent :
      (k : K) (p : A → Bool) (xs : List A)
      → ((x : A) → key x ≡ k → p x ≡ true)
      → any_row p xs ≡ false
      → Absent k (map key xs)
  unfolding any_row
  any_row-Absent k p [] sees e = tt
  any_row-Absent k p (x ∷ xs) sees e = elim (Bool-cases (p x)) [
    | inl t ↦ absurd (ground arith)
    | inr t ↦
        (λ same. absurd (ground (arith, sees x same)), any_row-Absent k p xs sees (ground arith))
  ]

  pub Absent-any_row :
      (k : K) (p : A → Bool) (q : A → Bool) (xs : List A)
      → ((x : A) → p x ≡ true → key x ≡ k)
      → Absent k (map key xs)
      → any_row p (select q xs) ≡ false
  unfolding any_row select
  Absent-any_row k p q [] only h = refl
  Absent-any_row k p q (x ∷ xs) only h = elim (Bool-cases (q x)) [
    | inl t ↦ elim (Bool-cases (p x)) [
      | inl u ↦ absurd (h.0 (only x u))
      | inr u ↦ rw (t, u) (Absent-any_row k p q xs only h.1)
    ]
    | inr t ↦ rw t (Absent-any_row k p q xs only h.1)
  ]

  -- A key names one row.
  pub find_row_unique :
      (k : K) (p : A → Bool) (xs : List A) {r : A}
      → ((x : A) → p x ≡ true → key x ≡ k)
      → Distinct (map key xs)
      → find_row p xs ≡ some r
      → All (λ x. p x ≡ true → x ≡ r) xs
  unfolding find_row
  find_row_unique k p [] only d e = tt
  find_row_unique k p (x ∷ xs) {r} only d e = elim (Bool-cases (p x)) [
    | inl t ↦
        let first : x ≡ r = ground arith in (λ u. first, others k p xs only (rw (only x t) at d.0))
    | inr t ↦ (λ u. absurd (ground arith), find_row_unique k p xs only d.1 (ground arith))
  ]
    where
      others :
          (k : K) (p : A → Bool) (ys : List A)
          → ((x : A) → p x ≡ true → key x ≡ k)
          → Absent k (map key ys)
          → All (λ x. p x ≡ true → x ≡ r) ys
      others k p [] only h = tt
      others k p (y ∷ ys) only h = (λ u. absurd (h.0 (only y u)), others k p ys only h.1)

module _ {ℓ} {A : Type ℓ} where
  -- A test that some row passes: the row, and what holds of every row.
  pub any_row-All {κ} :
      (P : A → Type κ) (q : A → Bool) (xs : List A)
      → All P xs
      → any_row q xs ≡ true
      → (x : A) × (q x ≡ true) × P x
  unfolding any_row
  any_row-All P q [] h e = absurd (ground arith)
  any_row-All P q (x ∷ xs) h e = elim (Bool-cases (q x)) [
    | inl t ↦ (x, t, h.0)
    | inr t ↦ any_row-All P q xs h.1 (ground arith)
  ]

  -- A test that some row passed and none passes after a DELETE: the deleted row.
  pub any_row-deleted :
      (q d : A → Bool) (xs : List A)
      → any_row q xs ≡ true
      → any_row q (delete_where d xs) ≡ false
      → (x : A) × (q x ≡ true) × (d x ≡ true)
  unfolding any_row delete_where
  any_row-deleted q d [] e f = absurd (ground arith)
  any_row-deleted q d (x ∷ xs) e f = elim (Bool-cases (q x)) [
    | inl t ↦ elim (Bool-cases (d x)) [ inl u ↦ (x, t, u) | inr u ↦ absurd (ground arith) ]
    | inr t ↦ elim (Bool-cases (d x)) [
      | inl u ↦ any_row-deleted q d xs (ground arith) (ground arith)
      | inr u ↦ any_row-deleted q d xs (ground arith) (ground arith)
    ]
  ]

  pub any_row-update_where :
      (q d : A → Bool) (f : A → A) (xs : List A)
      → ((x : A) → q (f x) ≡ q x)
      → any_row q (update_where d f xs) ≡ any_row q xs
  unfolding any_row update_where
  any_row-update_where q d f [] same = refl
  any_row-update_where q d f (x ∷ xs) same = elim (Bool-cases (d x)) [
    | inl t ↦ rw (t, same x, any_row-update_where q d f xs same)
    | inr t ↦ rw (t, any_row-update_where q d f xs same)
  ]
