-- ===== src/Generation/Reserve.antt =====
-- A fence is never lowered, and a reservation raises it.
use lisstech_drain_ctl.Prelude.{
  ℕ, ◌<◌, ◌≡◌, ◌≢◌, ◌⊎◌, refl, sym, ◌∙◌, true, false, inl, inr, Option, none, some, some_inj, List,
  arith, not, ◌||◌, leb, ◌^◌, ◌/◌, ◌%◌, get_or-set_self, get_or-set_ne, length, Bool-cases,
}
use mathlib.Core.Path.{subst}
use lisstech_drain_ctl.Prelude.Int.{ℤ, pos, negsuc, leb_ℤ}
use lisstech_drain_ctl.Prelude.Bytes.{bytes_equal, bytes_equal→eq, bytes_equal_refl}
use lisstech_drain_ctl.Prelude.Rows.{find_row}
use lisstech_drain_ctl.Prelude.Upsert.{find_row-upsert_self, find_row-upsert_other}
use lisstech_drain_ctl.Host.{GoText, validate_canonical_host}
use lisstech_drain_ctl.Uuid.{
  Uuid, at, Parsed, parsed, not_canonical, not_version_7, parse, to_text, compare_uuid, IsUuid,
}
use lisstech_drain_ctl.Uuid.Accepts.{IsArray, set-IsArray, to_text_parsed-IsUuid}
use lisstech_drain_ctl.Uuid.Bytes.{bit_or-marks}
use Prim.Native.Nat.{bit_and, bit_or}
use lisstech_drain_ctl.Generation.Next.{next_later}
use lisstech_drain_ctl.Uuid.Order.{compare_uuid-cases, compare_uuid_trans}
use lisstech_drain_ctl.Generation.{
  FenceRow, of_host, raise_row, raise_fence, DbFaults, Reservation, reserved, refused, is_parsed,
  fence_ok, not_above, choose, write_fence, new_uuid, stamp, mark_version, mark_variant,
  from_random, reserve,
}

-- `u` is `v` or a later identifier.
abbrev pub NotBefore : Uuid → Uuid → Type 0
NotBefore u v = (compare_uuid u v ≡ pos 1) ⊎ (u ≡ v)

pub later_NotBefore :
    (u v w : Uuid) → compare_uuid u v ≡ pos 1 → NotBefore v w → compare_uuid u w ≡ pos 1
later_NotBefore u v w h (inl e) = compare_uuid_trans u v w h e
later_NotBefore u v w h (inr e) = subst (λ x. compare_uuid u x ≡ pos 1) e h

-- What a BLOB column holds.
abbrev pub IsBlob : FenceRow → Type 0
IsBlob r = (i : ℕ) → at r.max_instance_id i < 256

-- The fence of the host is `id` or later.
pub record Fenced (host : List ℕ) (id : Uuid) (fences : List FenceRow) : Type 0 where
  pub row : FenceRow
  pub found : find_row (of_host host) fences ≡ some row
  pub above : NotBefore row.max_instance_id id
  pub blob : IsBlob row

pub bytes_other : (a b : List ℕ) → a ≢ b → bytes_equal a b ≡ false
bytes_other a b other = elim (Bool-cases (bytes_equal a b)) [
  | inl e ↦ absurd (other (bytes_equal→eq a b e))
  | inr e ↦ e
]

-- The fence that is written is the fence of the host.
pub raise_fence-found :
    (host : List ℕ) (id : Uuid) (fences : List FenceRow)
    → (row : FenceRow) × (find_row (of_host host) (raise_fence host id fences) ≡ some row)
      × (row.max_instance_id ≡ id)
unfolding raise_fence
raise_fence-found host id fences =
    elim (find_row-upsert_self (of_host host) (raise_row id) _ fences (λ x h. h)
      (bytes_equal_refl host)) [ inl e ↦ (_, e, refl) | inr (x, old, e) ↦ (_, e, refl) ]

-- It leaves the fences of the other hosts.
pub raise_fence_other :
    (other host : List ℕ) (id : Uuid) (fences : List FenceRow)
    → host ≢ other
    → find_row (of_host other) (raise_fence host id fences) ≡ find_row (of_host other) fences
unfolding raise_fence
raise_fence_other other host id fences h =
    find_row-upsert_other (of_host other) (of_host host) (raise_row id) _ fences apart apart
      (bytes_other host other h)
  where
    apart : (x : FenceRow) → of_host host x ≡ true → of_host other x ≡ false
    apart x e =
        bytes_other x.canonical_host other λ f. h (sym (bytes_equal→eq x.canonical_host host e) ∙ f)

-- The fence of a host after a fence was raised to `id'`.
pub record Moved (host : List ℕ) (id : Uuid) (host' : List ℕ) (id' : Uuid) (fences : List FenceRow)
    (was : Fenced host id fences) : Type 0 where
  pub now : Fenced host id (raise_fence host' id' fences)
  pub own : host' ≡ host → now.row.max_instance_id ≡ id'
  pub other : host' ≢ host → now.row ≡ was.row

-- Raising the fence of a host to a later identifier keeps every host fenced.
pub raise_fence-Fenced :
    (host : List ℕ) (id : Uuid) (host' : List ℕ) (id' : Uuid) (fences : List FenceRow)
    (was : Fenced host id fences)
    → (host' ≡ host → compare_uuid id' was.row.max_instance_id ≡ pos 1)
    → (host' ≡ host → (i : ℕ) → at id' i < 256)
    → Moved host id host' id' fences was
raise_fence-Fenced host id host' id' fences was later blob =
    elim (Bool-cases (bytes_equal host' host)) [
      | inr e ↦
          let different : host' ≢ host =
            λ same. unequal (subst (λ h. bytes_equal h host ≡ false) same e) in
          record {
            now = record {
              row = was.row;
              found = raise_fence_other host host' id' fences different ∙ was.found;
              above = was.above;
              blob = was.blob;
            };
            own = λ same. absurd (different same);
            other = λ h. refl;
          }
      | inl e ↦
          let same = bytes_equal→eq host' host e in
          let (row, found, raised) = raise_fence-found host' id' fences in
          record {
            now = record {
              row = row;
              found =
                  subst (λ h. find_row (of_host h) (raise_fence host' id' fences) ≡ some row) same
                    found;
              above =
                  subst (λ u. NotBefore u id) (sym raised)
                    (inl (later_NotBefore id' was.row.max_instance_id id (later same) was.above));
              blob = subst (λ u. (i : ℕ) → at u i < 256) (sym raised) (blob same);
            };
            own = λ h. raised;
            other = λ h. absurd (h same);
          }
    ]
  where
    unequal : bytes_equal host host ≡ false → ⊥
    unequal e = let t = bytes_equal_refl host in ground arith

above-later : (u v : Uuid) → not_above u v ≡ false → compare_uuid u v ≡ pos 1
unfolding leb_ℤ
above-later u v = elim (compare_uuid-cases u v) [
  | inl e ↦ rw e λ h. absurd (ground arith)
  | inr (inl e) ↦ rw e λ h. absurd (ground arith)
  | inr (inr e) ↦ λ h. e
]

is_parsed-parsed : (p : Parsed) → is_parsed p ≡ true → (w : Uuid) × (p ≡ parsed w)
is_parsed-parsed (parsed w) e = (w, refl)
is_parsed-parsed not_canonical e = absurd (ground arith)
is_parsed-parsed not_version_7 e = absurd (ground arith)

fence_ok-IsUuid :
    (row : FenceRow) → IsBlob row → fence_ok row.max_instance_id ≡ true → IsUuid row.max_instance_id
unfolding fence_ok
fence_ok-IsUuid row blob e =
    let v = row.max_instance_id in
    let sized : length v ≡ 16 = ground arith in
    let (w, read) = is_parsed-parsed (parse (to_text v)) (ground arith) in
    to_text_parsed-IsUuid v w (record { size = sized; bytes = blob }) read

module _ (db : DbFaults) (host : List ℕ) (fences : List FenceRow) where
  -- What writing the chosen identifier comes to.
  abbrev pub WriteCases : Option Uuid → Reservation × List FenceRow → Type 0
  WriteCases o r =
      (r ≡ (refused, fences))
      ⊎ ((id : Uuid) × (o ≡ some id) × (r ≡ (reserved (to_text id), raise_fence host id fences)))

  write_fence-cases : (o : Option Uuid) → WriteCases o (write_fence db host fences o)
  write_fence-cases none = inl refl
  write_fence-cases (some id) = elim (Bool-cases (db.write || db.commit)) [
    | inl e ↦ inl (rw e)
    | inr e ↦ inr (id, refl, rw e)
  ]

  pub reserve-cases :
      (go : GoText) (now : ℤ) (random : Option Uuid)
      → WriteCases
          (choose (find_row (of_host host) fences) (new_uuid now random))
          (reserve go db host now random fences)
  unfolding reserve
  reserve-cases go now random =
      elim (Bool-cases (not (validate_canonical_host go host) || db.begin || db.read)) [
        | inl e ↦ inl (rw e)
        | inr e ↦
            rw e (write_fence-cases (choose (find_row (of_host host) fences) (new_uuid now random)))
      ]

  -- The chosen identifier is later than the fence.
  pub choose-later :
      (row : FenceRow) (candidate : Option Uuid) (id : Uuid)
      → IsBlob row
      → choose (some row) candidate ≡ some id
      → compare_uuid id row.max_instance_id ≡ pos 1
  unfolding choose
  choose-later row none id blob = λ e. absurd (ground arith)
  choose-later row (some c) id blob = elim (Bool-cases (fence_ok row.max_instance_id)) [
    | inr e ↦ rw e λ h. absurd (ground arith)
    | inl e ↦ elim (Bool-cases (not_above c row.max_instance_id)) [
      | inl f ↦ rw (e, f) λ h. (next_later row.max_instance_id id (fence_ok-IsUuid row blob e) h).1
      | inr f ↦
          rw (e, f)
            λ h.
              subst (λ u. compare_uuid u row.max_instance_id ≡ pos 1) (some_inj h)
                (above-later c row.max_instance_id f)
    ]
  ]

  -- The chosen identifier is a version 7 identifier.
  pub choose-IsUuid :
      (o : Option FenceRow) (candidate : Option Uuid) (id : Uuid)
      → ((row : FenceRow) → o ≡ some row → IsBlob row)
      → ((c : Uuid) → candidate ≡ some c → IsUuid c)
      → choose o candidate ≡ some id
      → IsUuid id
  unfolding choose
  choose-IsUuid none candidate id blob ok = λ e. ok id e
  choose-IsUuid (some row) none id blob ok = λ e. absurd (ground arith)
  choose-IsUuid (some row) (some c) id blob ok = elim (Bool-cases (fence_ok row.max_instance_id)) [
    | inr e ↦ rw e λ h. absurd (ground arith)
    | inl e ↦ elim (Bool-cases (not_above c row.max_instance_id)) [
      | inl f ↦
          rw (e, f)
            λ h. (next_later row.max_instance_id id (fence_ok-IsUuid row (blob row refl) e) h).0
      | inr f ↦ rw (e, f) λ h. subst IsUuid (some_inj h) (ok c refl)
    ]
  ]

-- rand.Read fills the array.
abbrev pub IsRandom : Option Uuid → Type 0
IsRandom random = (r : Uuid) → random ≡ some r → IsArray r

stamp-IsArray : (ms : ℕ) (r : Uuid) → IsArray r → IsArray (stamp ms r)
stamp-IsArray ms r a =
    set-IsArray _ 5 (ms % 256)
      (set-IsArray _ 4 (ms / 2 ^ 8 % 256)
        (set-IsArray _ 3 (ms / 2 ^ 16 % 256)
          (set-IsArray _ 2 (ms / 2 ^ 24 % 256)
            (set-IsArray _ 1 (ms / 2 ^ 32 % 256)
              (set-IsArray r 0 (ms / 2 ^ 40 % 256) a (omega arith)) (omega arith))
            (omega arith))
          (omega arith))
        (omega arith))
      (omega arith)

marked-IsUuid : (w : Uuid) → IsArray w → IsUuid (mark_variant (mark_version w))
marked-IsUuid w wa =
    let m6 = (bit_or-marks (at w 6) (wa.bytes 6)).1 in
    let va = set-IsArray w 6 (bit_or (bit_and (at w 6) 0x0f) 0x70) wa (omega (arith, m6)) in
    let v = mark_version w in
    let m8 = (bit_or-marks (at v 8) (va.bytes 8)).0 in
    let ua = set-IsArray v 8 (bit_or (bit_and (at v 8) 0x3f) 0x80) va (omega (arith, m8)) in
    let at6 =
      get_or-set_ne v 8 6 (bit_or (bit_and (at v 8) 0x3f) 0x80) 0 (λ e. absurd (omega arith)) in
    let set6 =
      get_or-set_self w 6 (bit_or (bit_and (at w 6) 0x0f) 0x70) 0
        (let h = wa.size in omega arith) in
    let set8 =
      get_or-set_self v 8 (bit_or (bit_and (at v 8) 0x3f) 0x80) 0
        (let h = va.size in omega arith) in
    let b = va.bytes 8 in
    record {
      size = ua.size;
      bytes = ua.bytes;
      version = omega (arith, at6, set6, m6);
      variant = omega (arith, set8, m8);
    }

from_random-IsUuid :
    (ms : ℕ) (random : Option Uuid) (c : Uuid)
    → IsRandom random
    → from_random ms random ≡ some c
    → IsUuid c
from_random-IsUuid ms none c ok e = absurd (ground arith)
from_random-IsUuid ms (some r) c ok e =
    subst IsUuid (some_inj e) (marked-IsUuid (stamp ms r) (stamp-IsArray ms r (ok r refl)))

pub new_uuid-IsUuid :
    (now : ℤ) (random : Option Uuid) (c : Uuid)
    → IsRandom random
    → new_uuid now random ≡ some c
    → IsUuid c
unfolding new_uuid
new_uuid-IsUuid (negsuc n) random c ok = λ e. absurd (ground arith)
new_uuid-IsUuid (pos ms) random c ok = elim (Bool-cases (leb (2 ^ 48) ms)) [
  | inl e ↦ rw e λ h. absurd (ground arith)
  | inr e ↦ rw e λ h. from_random-IsUuid ms random c ok h
]
