-- ===== src/Prelude/Find.antt =====
-- Queries by a unique key, before and after a write.
use mathlib.Core.Path.{◌≡◌, refl, subst, ◌∙◌}
use mathlib.Core.Bool.{Bool, true, false}
use mathlib.Core.Logic.{inl, inr, ◌⊎◌}
use mathlib.Core.Option.{none, some}
use mathlib.Core.List.{List, [], ◌∷◌, map}
use native.Mathlib.Omega.{arith}
use lisstech_drain_ctl.Prelude.Tests.{if◌then◌else◌, Bool-cases}
use lisstech_drain_ctl.Prelude.Rows.{update_where, delete_where, find_row}
use lisstech_drain_ctl.Prelude.Distinct.{Absent, Distinct}

module _ {ℓ} {A : Type ℓ} where
  -- An UPDATE that the query does not see: it finds the row as it is now.
  pub find_row-update_where :
      (q p : A → Bool) (f : A → A) (xs : List A) {r : A}
      → ((x : A) → q (f x) ≡ q x)
      → find_row q xs ≡ some r
      → find_row q (update_where p f xs) ≡ some (if p r then f r else r)
  unfolding find_row update_where
  find_row-update_where q p f [] same e = absurd (ground arith)
  find_row-update_where q p f (x ∷ xs) {r} same e = elim (Bool-cases (q x)) [
    | inl t ↦
        let first : x ≡ r = ground arith in
        elim (Bool-cases (p x)) [
          | inl u ↦ rw (u, same x, t) (ground (arith, first))
          | inr u ↦ rw (u, t) (ground (arith, first))
        ]
    | inr t ↦ elim (Bool-cases (p x)) [
      | inl u ↦ rw (u, same x, t) (find_row-update_where q p f xs same (ground arith))
      | inr u ↦ rw (u, t) (find_row-update_where q p f xs same (ground arith))
    ]
  ]

  pub find_row-none-update_where :
      (q p : A → Bool) (f : A → A) (xs : List A)
      → ((x : A) → q (f x) ≡ q x)
      → find_row q xs ≡ none
      → find_row q (update_where p f xs) ≡ none
  unfolding find_row update_where
  find_row-none-update_where q p f [] same e = refl
  find_row-none-update_where q p f (x ∷ xs) same e = elim (Bool-cases (q x)) [
    | inl t ↦ absurd (ground arith)
    | inr t ↦ elim (Bool-cases (p x)) [
      | inl u ↦ rw (u, same x, t) (find_row-none-update_where q p f xs same (ground arith))
      | inr u ↦ rw (u, t) (find_row-none-update_where q p f xs same (ground arith))
    ]
  ]

module _ {ℓ κ} {A : Type ℓ} {K : Type κ} (key : A → K) where
  find_row-missing :
      (k : K) (q : A → Bool) (xs : List A)
      → ((x : A) → q x ≡ true → key x ≡ k)
      → Absent k (map key xs)
      → (p : A → Bool) → find_row q (delete_where p xs) ≡ none
  unfolding find_row delete_where
  find_row-missing k q [] only h p = refl
  find_row-missing k q (x ∷ xs) only h p = elim (Bool-cases (q x)) [
    | inl t ↦ absurd (h.0 (only x t))
    | inr t ↦ elim (Bool-cases (p x)) [
      | inl u ↦ rw u (find_row-missing k q xs only h.1 p)
      | inr u ↦ rw (u, t) (find_row-missing k q xs only h.1 p)
    ]
  ]

  -- A DELETE takes the row of a key whole, or leaves it.
  pub find_row-delete_where :
      (k : K) (q p : A → Bool) (xs : List A) {r : A}
      → ((x : A) → q x ≡ true → key x ≡ k)
      → Distinct (map key xs)
      → find_row q xs ≡ some r
      → find_row q (delete_where p xs) ≡ (if p r then none else some r)
  unfolding find_row delete_where
  find_row-delete_where k q p [] only d e = absurd (ground arith)
  find_row-delete_where k q p (x ∷ xs) {r} only d e = elim (Bool-cases (q x)) [
    | inl t ↦
        let first : x ≡ r = ground arith in
        let gone =
          find_row-missing k q xs only (subst (λ j. Absent j (map key xs)) (only x t) d.0) p in
        elim (Bool-cases (p x)) [
          | inl u ↦ rw u (rw gone (ground (arith, first)))
          | inr u ↦ rw (u, t) (ground (arith, first))
        ]
    | inr t ↦ elim (Bool-cases (p x)) [
      | inl u ↦ rw u (find_row-delete_where k q p xs only d.1 (ground arith))
      | inr u ↦ rw (u, t) (find_row-delete_where k q p xs only d.1 (ground arith))
    ]
  ]

  pub delete_where-kept :
      (k : K) (q p : A → Bool) (xs : List A) {r : A}
      → ((x : A) → q x ≡ true → key x ≡ k)
      → Distinct (map key xs)
      → find_row q xs ≡ some r
      → (find_row q (delete_where p xs) ≡ some r) ⊎ (find_row q (delete_where p xs) ≡ none)
  delete_where-kept k q p xs {r} only d e = elim (Bool-cases (p r)) [
    | inl t ↦ inr (find_row-delete_where k q p xs only d e ∙ rw t)
    | inr t ↦ inl (find_row-delete_where k q p xs only d e ∙ rw t)
  ]

-- An UPDATE that sets the key of its rows: it has to keep what the query sees of them.
pub find_row-update_matching {ℓ} :
    {A : Type ℓ} (q p : A → Bool) (f : A → A) (xs : List A) {r : A}
    → ((x : A) → p x ≡ true → q (f x) ≡ q x)
    → find_row q xs ≡ some r
    → find_row q (update_where p f xs) ≡ some (if p r then f r else r)
unfolding find_row update_where
find_row-update_matching q p f [] same e = absurd (ground arith)
find_row-update_matching q p f (x ∷ xs) {r} same e = elim (Bool-cases (q x)) [
  | inl t ↦
      let first : x ≡ r = ground arith in
      elim (Bool-cases (p x)) [
        | inl u ↦ rw (u, same x u, t) (ground (arith, first))
        | inr u ↦ rw (u, t) (ground (arith, first))
      ]
  | inr t ↦ elim (Bool-cases (p x)) [
    | inl u ↦ rw (u, same x u, t) (find_row-update_matching q p f xs same (ground arith))
    | inr u ↦ rw (u, t) (find_row-update_matching q p f xs same (ground arith))
  ]
]

-- A DELETE of other rows than those that the query takes.
pub delete_where-other {ℓ} :
    {A : Type ℓ} (q p : A → Bool) (xs : List A) {r : A}
    → ((x : A) → q x ≡ true → p x ≡ false)
    → find_row q xs ≡ some r
    → find_row q (delete_where p xs) ≡ some r
unfolding find_row delete_where
delete_where-other q p [] other e = e
delete_where-other q p (x ∷ xs) other e = elim (Bool-cases (q x)) [
  | inl t ↦ rw (other x t, t) (rw t at e)
  | inr t ↦ elim (Bool-cases (p x)) [
    | inl u ↦ rw u (delete_where-other q p xs other (rw t at e))
    | inr u ↦ rw (u, t) (delete_where-other q p xs other (rw t at e))
  ]
]
