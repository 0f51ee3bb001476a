-- ===== src/Prelude/Batch.antt =====
-- A loop of UPDATEs, one for each row of a result set, is one UPDATE.
use mathlib.Core.Path.{◌≡◌, refl, ◌∙◌, sym, subst}
use mathlib.Core.Bool.{Bool, true, false}
use mathlib.Core.Logic.{inl, inr}
use mathlib.Core.List.{List, [], ◌∷◌, map}
use native.Mathlib.Omega.{arith}
use lisstech_drain_ctl.Prelude.Tests.{Bool-cases}
use lisstech_drain_ctl.Prelude.Rows.{select, select_yes, select_no, update_where, any_row}
use lisstech_drain_ctl.Prelude.Distinct.{Absent, Distinct, Absent-any_row}

-- `sees r x`: the UPDATE made for the result row `r` takes the row `x`.
module _ {ℓ} {A : Type ℓ} (sees : A → A → Bool) (f : A → A) where
  abbrev pub seen : List A → A → Bool
  seen rs x = any_row (λ r. sees r x) rs

  unfoldable pub update_each : List A → List A → List A
  update_each [] xs = xs
  update_each (r ∷ rs) xs = update_each rs (update_where (sees r) f xs)

  update_seen-cons :
      ((x : A) → f (f x) ≡ f x)
      → (r : A) (rs xs : List A)
      → update_where (seen rs) f (update_where (sees r) f xs) ≡ update_where (seen (r ∷ rs)) f xs
  unfolding update_where any_row
  update_seen-cons twice r rs [] = refl
  update_seen-cons twice r rs (x ∷ xs) = elim (Bool-cases (sees r x)) [
    | inl e ↦ rw (e, update_seen-cons twice r rs xs) (ground (arith, twice x))
    | inr e ↦ rw (e, update_seen-cons twice r rs xs)
  ]

  update_none : (xs : List A) → update_where (seen []) f xs ≡ xs
  unfolding update_where any_row
  update_none [] = refl
  update_none (x ∷ xs) = rw (update_none xs)

  pub update_each-seen :
      ((x : A) → f (f x) ≡ f x) → (rs xs : List A) → update_each rs xs ≡ update_where (seen rs) f xs
  unfolding update_each
  update_each-seen twice [] xs = sym (update_none xs)
  update_each-seen twice (r ∷ rs) xs =
      update_each-seen twice rs (update_where (sees r) f xs) ∙ update_seen-cons twice r rs xs

  module _ {κ} {K : Type κ} (key : A → K) (sound : (r x : A) → sees r x ≡ true → key x ≡ key r)
      (complete : (r : A) → sees r r ≡ true) where
    update_past :
        (r : A) (rs xs : List A)
        → Absent (key r) (map key xs)
        → update_where (seen (r ∷ rs)) f xs ≡ update_where (seen rs) f xs
    unfolding update_where any_row
    update_past r rs [] h = refl
    update_past r rs (x ∷ xs) h = elim (Bool-cases (sees r x)) [
      | inl e ↦ absurd (h.0 (sound r x e))
      | inr e ↦ rw (e, update_past r rs xs h.1)
    ]

    update_missing :
        (p : A → Bool) (r : A) (xs : List A)
        → p r ≡ false
        → Absent (key r) (map key xs)
        → any_row (λ q. sees q r) (select p xs) ≡ false
    update_missing p r xs e h =
        Absent-any_row key (key r) (λ q. sees q r) p xs (λ q t. sym (sound q r t)) h

    -- Where the key is unique, the rows of a SELECT are the ones that its loop updates.
    pub update_seen-select :
        (p : A → Bool) (xs : List A)
        → Distinct (map key xs)
        → update_where (seen (select p xs)) f xs ≡ update_where p f xs
    unfolding update_where any_row
    update_seen-select p [] d = refl
    update_seen-select p (x ∷ xs) d = elim (Bool-cases (p x)) [
      | inl e ↦
          subst (λ rs. update_where (seen rs) f (x ∷ xs) ≡ update_where p f (x ∷ xs))
            (sym (select_yes p x xs e))
            (rw (e, complete x, update_past x (select p xs) xs d.0, update_seen-select p xs d.1))
      | inr e ↦
          subst (λ rs. update_where (seen rs) f (x ∷ xs) ≡ update_where p f (x ∷ xs))
            (sym (select_no p x xs e))
            (rw (e, update_missing p x xs e d.0, update_seen-select p xs d.1))
    ]
