-- ===== src/Uuid/Order.antt =====
-- The order of identifiers.
use lisstech_drain_ctl.Prelude.{
  ◌≡◌, ◌⊎◌, refl, false, inl, inr, [], ◌∷◌, arith, ltb, length, Bool-cases,
}
use lisstech_drain_ctl.Prelude.Int.{pos, negsuc}
use lisstech_drain_ctl.Uuid.{Uuid, compare_uuid}

pub compare_uuid-cases :
    (u v : Uuid)
    → (compare_uuid u v ≡ negsuc 0) ⊎ (compare_uuid u v ≡ pos 0) ⊎ (compare_uuid u v ≡ pos 1)
unfolding compare_uuid
compare_uuid-cases [] v = inr (inl refl)
compare_uuid-cases (x ∷ u) [] = inr (inl refl)
compare_uuid-cases (x ∷ u) (y ∷ v) = elim (Bool-cases (ltb x y)) [
  | inl e ↦ inl (rw e)
  | inr e ↦ elim (Bool-cases (ltb y x)) [
    | inl f ↦ inr (inr (rw (e, f)))
    | inr f ↦ rw (e, f) (compare_uuid-cases u v)
  ]
]

pub compare_uuid_self : (u : Uuid) → compare_uuid u u ≡ pos 0
unfolding compare_uuid
compare_uuid_self [] = refl
compare_uuid_self (x ∷ u) =
    let same : ltb x x ≡ false = ground arith in rw same (compare_uuid_self u)

pub compare_uuid_flip : (u v : Uuid) → compare_uuid u v ≡ pos 1 → compare_uuid v u ≡ negsuc 0
unfolding compare_uuid
compare_uuid_flip [] v = λ e. absurd (ground arith)
compare_uuid_flip (x ∷ u) [] = λ e. absurd (ground arith)
compare_uuid_flip (x ∷ u) (y ∷ v) = elim (Bool-cases (ltb x y)) [
  | inl e ↦ rw e λ h. absurd (ground arith)
  | inr e ↦ elim (Bool-cases (ltb y x)) [
    | inl f ↦ rw (e, f) λ h. refl
    | inr f ↦ rw (e, f) λ h. compare_uuid_flip u v h
  ]
]

pub compare_uuid-eq : (u v : Uuid) → length u ≡ length v → compare_uuid u v ≡ pos 0 → u ≡ v
unfolding compare_uuid
compare_uuid-eq [] [] s e = refl
compare_uuid-eq [] (y ∷ v) s e = absurd (omega arith)
compare_uuid-eq (x ∷ u) [] s e = absurd (omega arith)
compare_uuid-eq (x ∷ u) (y ∷ v) s e = grind (arith, compare_uuid-eq u v)

pub compare_uuid_trans :
    (u v w : Uuid) → compare_uuid u v ≡ pos 1 → compare_uuid v w ≡ pos 1 → compare_uuid u w ≡ pos 1
unfolding compare_uuid
compare_uuid_trans [] v w e f = absurd (ground arith)
compare_uuid_trans (x ∷ u) [] w e f = absurd (ground arith)
compare_uuid_trans (x ∷ u) (y ∷ v) [] e f = absurd (ground arith)
compare_uuid_trans (x ∷ u) (y ∷ v) (z ∷ w) e f = ground (arith, compare_uuid_trans u v w)
