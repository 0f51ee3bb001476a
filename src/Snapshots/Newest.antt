-- ===== src/Snapshots/Newest.antt =====
-- The fence of a host over any sequence of snapshots, reservations and purges.
use lisstech_drain_ctl.Prelude.{
  ℕ, ◌^◌, ◌<◌, ◌≡◌, ◌≢◌, refl, sym, ap, ◌∙◌, Bool, true, false, inl, inr, Option, some, some_inj,
  List, arith, ltb, ◌||◌, Bool-cases,
}
use mathlib.Core.Path.{subst}
use lisstech_drain_ctl.Prelude.Int.{ℤ, pos}
use lisstech_drain_ctl.Prelude.Rows.{find_row}
use lisstech_drain_ctl.Uuid.{Uuid, at, to_text, compare_uuid, IsUuid}
use lisstech_drain_ctl.Uuid.Accepts.{parse-IsUuid}
use lisstech_drain_ctl.Uuid.Order.{compare_uuid_self}
use lisstech_drain_ctl.Generation.{
  FenceRow, of_host, DbFaults, Reservation, reserved, refused, raise_fence, choose, new_uuid,
  reserve,
}
use lisstech_drain_ctl.Generation.Reserve.{
  IsBlob, Fenced, Moved, NotBefore, later_NotBefore, raise_fence-Fenced, raise_fence-found,
  reserve-cases, choose-later, choose-IsUuid, new_uuid-IsUuid, IsRandom,
}
use lisstech_drain_ctl.Session.{Text, SessionSnapshot, PrivacyPolicy}
use lisstech_drain_ctl.Workload.{WorkloadFloats}
use lisstech_drain_ctl.Snapshots.{SnapshotDb}
use lisstech_drain_ctl.Snapshots.Rows.{StoreEnv}
use lisstech_drain_ctl.Snapshots.Apply.{
  ApplyFaults, next_fences, apply, purge_snapshots, purge_for_privacy,
}
use lisstech_drain_ctl.Snapshots.Recorded.{Recorded, AtFence, unfenced, above, level, apply-cases}

reserved_inj : (s t : List ℕ) → reserved s ≡ reserved t → s ≡ t
reserved_inj s t e = ap (λ r. text_of r s) e
  where
    text_of : Reservation → List ℕ → List ℕ
    text_of (reserved x) d = x
    text_of refused d = d

module _ (fl : WorkloadFloats) (env : StoreEnv fl.Float) where
  -- ReserveSessionInstanceID on the tables.
  abbrev pub reserve_in : DbFaults → Text → ℤ → Option Uuid → SnapshotDb fl → SnapshotDb fl
  reserve_in faults host now random db = record db {
    fences = (reserve env.go faults host now random db.fences).1;
  }

  -- One call on the tables. Where the flag is false, no snapshot is purged.
  pub data Step : Bool → SnapshotDb fl → SnapshotDb fl → Type 0 where
    applies :
        (p : Bool) (f : ApplyFaults) (s : SessionSnapshot fl.Float) (now : ℤ)
        (privacy : PrivacyPolicy) (db : SnapshotDb fl)
        → s.sequence < 2 ^ 64
        → Step p db (apply fl env f s now privacy db).1
    reserves :
        (p : Bool) (faults : DbFaults) (host : Text) (now : ℤ) (random : Option Uuid)
        (db : SnapshotDb fl)
        → IsRandom random
        → Step p db (reserve_in faults host now random db)
    purges :
        (hours : ℕ) (now : ℤ) (db : SnapshotDb fl) → Step true db (purge_snapshots hours now db)
    hides : (db : SnapshotDb fl) → Step true db (purge_for_privacy db)

  pub data Steps (p : Bool) : SnapshotDb fl → SnapshotDb fl → Type 0 where
    here : (db : SnapshotDb fl) → Steps p db db
    next : (a b c : SnapshotDb fl) → Steps p a b → Step p b c → Steps p a c

  module _ (host : Text) (id : Uuid) where
    -- The fence after a snapshot was recorded, and what it says of the snapshot where it is still at `id`.
    pub record Kept (s : SessionSnapshot fl.Float) (db : SnapshotDb fl)
        (was : Fenced host id db.fences) (advance : Bool) (fences : List FenceRow) : Type 0 where
      pub now : Fenced host id fences
      pub level_before : now.row.max_instance_id ≡ id → was.row.max_instance_id ≡ id
      pub level_own : now.row.max_instance_id ≡ id → s.host ≡ host → advance ≡ false

    pub same_row :
        (fences : List FenceRow) (was : Fenced host id fences) (row : FenceRow) (h : Text)
        → h ≡ host
        → find_row (of_host h) fences ≡ some row
        → row ≡ was.row
    same_row fences was row h same found =
        some_inj (sym found ∙ ap (λ x. find_row (of_host x) fences) same ∙ was.found)

    later_than_id : (u v : Uuid) → compare_uuid u v ≡ pos 1 → NotBefore v id → u ≢ id
    later_than_id u v e n same =
        let later = later_NotBefore u v id e n in
        let self = compare_uuid_self id in
        let both = subst (λ x. compare_uuid x id ≡ pos 1) same later in absurd (ground arith)

    -- A fence that is still at `id` was not raised.
    Moved-level :
        (host' : Text) (to : Uuid) (fences : List FenceRow) (was : Fenced host id fences)
        (m : Moved host id host' to fences was)
        → (host' ≡ host → compare_uuid to was.row.max_instance_id ≡ pos 1)
        → m.now.row.max_instance_id ≡ id
        → (host' ≢ host) × (was.row.max_instance_id ≡ id)
    Moved-level host' to fences was m later at_id =
        let apart : host' ≢ host = λ same.
          later_than_id to was.row.max_instance_id (later same) was.above
            (sym (m.own same) ∙ at_id) in
        (apart, ap (λ (r : FenceRow). r.max_instance_id) (sym (m.other apart)) ∙ at_id)

    raised-Kept :
        (s : SessionSnapshot fl.Float) (db : SnapshotDb fl) (was : Fenced host id db.fences)
        (to : Uuid)
        → (s.host ≡ host → compare_uuid to was.row.max_instance_id ≡ pos 1)
        → IsUuid to
        → Kept s db was true (raise_fence s.host to db.fences)
    raised-Kept s db was to later ok =
        let m = raise_fence-Fenced host id s.host to db.fences was later (λ same. ok.bytes) in
        let past = Moved-level s.host to db.fences was m later in
        record {
          now = m.now;
          level_before = λ at. (past at).1;
          level_own = λ at same. absurd ((past at).0 same);
        }

    at_fence-Kept :
        (s : SessionSnapshot fl.Float) (db : SnapshotDb fl) (was : Fenced host id db.fences)
        (to : Uuid) (advance : Bool)
        → IsUuid to
        → AtFence fl env s to db advance
        → Kept s db was advance (next_fences fl env advance s to db)
    at_fence-Kept s db was to true ok (unfenced missing) =
        raised-Kept s db was to
          (λ same.
            let both = sym missing ∙ ap (λ h. find_row (of_host h) db.fences) same ∙ was.found in
            absurd (ground arith))
          ok
    at_fence-Kept s db was to true ok (above row found c) =
        raised-Kept s db was to
          (λ same.
            subst (λ (r : FenceRow). compare_uuid to r.max_instance_id ≡ pos 1)
              (same_row db.fences was row s.host same found) c)
          ok
    at_fence-Kept s db was to false ok (level row found size c fresh) = record {
      now = was;
      level_before = λ h. h;
      level_own = λ h same. refl;
    }

    pub Recorded-Kept :
        (s : SessionSnapshot fl.Float) (db after : SnapshotDb fl) (was : Fenced host id db.fences)
        (r : Recorded fl env s db after)
        → Kept s db was r.advance after.fences
    Recorded-Kept s db after was r = subst (Kept s db was r.advance) (sym r.written.fences) (
        at_fence-Kept s db was r.id r.advance (parse-IsUuid s.agent_instance_id r.id r.named)
          r.newer)

    -- A reservation keeps the fence of every host, and moves its own host's fence past `id`.
    pub reserve-Fenced :
        (faults : DbFaults) (host' : Text) (now : ℤ) (random : Option Uuid) (fences : List FenceRow)
        (was : Fenced host id fences)
        → IsRandom random
        → (now' : Fenced host id (reserve env.go faults host' now random fences).1)
          × (now'.row.max_instance_id ≡ id → was.row.max_instance_id ≡ id)
    reserve-Fenced faults host' now random fences was ok =
        elim (reserve-cases faults host' fences env.go now random) [
          | inl e ↦ rw e (was, λ h. h)
          | inr (to, chosen, e) ↦
              let found_same : host' ≡ host → find_row (of_host host') fences ≡ some was.row =
                λ same. ap (λ h. find_row (of_host h) fences) same ∙ was.found in
              let later : host' ≡ host → compare_uuid to was.row.max_instance_id ≡ pos 1 = λ same.
                choose-later faults host' fences was.row (new_uuid now random) to was.blob (
                  subst (λ o. choose o (new_uuid now random) ≡ some to) (found_same same) chosen) in
              let m = raise_fence-Fenced host id host' to fences was later (λ same.
                (choose-IsUuid faults host' fences (some was.row) (new_uuid now random) to
                  (λ row h. subst IsBlob (some_inj h) was.blob)
                  (λ c h. new_uuid-IsUuid now random c ok h)
                  (subst (λ o. choose o (new_uuid now random) ≡ some to) (found_same same)
                    chosen)).bytes) in
              rw e (m.now, λ at. (Moved-level host' to fences was m later at).1)
        ]

    Step-Fenced :
        (p : Bool) (a b : SnapshotDb fl)
        → Step p a b
        → Fenced host id a.fences
        → Fenced host id b.fences
    unfolding purge_snapshots purge_for_privacy
    Step-Fenced p a _ (applies _ f s now privacy _ small) was =
        elim (apply-cases fl env f s now privacy a) [
          | inl r ↦ subst (λ (d : SnapshotDb fl). Fenced host id d.fences) (sym r.same) was
          | inr r ↦ (Recorded-Kept s a _ was r).now
        ]
    Step-Fenced p a _ (reserves _ faults host' now random _ ok) was =
        (reserve-Fenced faults host' now random a.fences was ok).0
    Step-Fenced p a _ (purges hours now _) was = elim (Bool-cases (ltb hours 1 || ltb 168 hours)) [
      | inl e ↦ rw e was
      | inr e ↦ rw e was
    ]
    Step-Fenced p a _ (hides _) was = was

    Steps-Fenced :
        (p : Bool) (a b : SnapshotDb fl)
        → Steps p a b
        → Fenced host id a.fences
        → Fenced host id b.fences
    Steps-Fenced p a _ (here _) was = was
    Steps-Fenced p a b (next _ m _ before last) was =
        Step-Fenced p m b last (Steps-Fenced p a m before was)

  reserved-Fenced :
      (faults : DbFaults) (host : Text) (now : ℤ) (random : Option Uuid) (fences : List FenceRow)
      (text : List ℕ)
      → ((row : FenceRow) → find_row (of_host host) fences ≡ some row → IsBlob row)
      → IsRandom random
      → (reserve env.go faults host now random fences).0 ≡ reserved text
      → (id : Uuid) × (text ≡ to_text id)
        × Fenced host id (reserve env.go faults host now random fences).1
  reserved-Fenced faults host now random fences text blob ok =
      elim (reserve-cases faults host fences env.go now random) [
        | inl e ↦ rw e λ h. absurd (ground arith)
        | inr (to, chosen, e) ↦ rw e λ h.
            let (row, found, raised) = raise_fence-found host to fences in
            let uuid =
              choose-IsUuid faults host fences (find_row (of_host host) fences)
                (new_uuid now random) to blob (λ c g. new_uuid-IsUuid now random c ok g) chosen in
            (
              to,
              sym (reserved_inj (to_text to) text h),
              record {
                row = row;
                found = found;
                above = inr raised;
                blob = subst (λ u. (i : ℕ) → at u i < 256) (sym raised) uuid.bytes;
              },
            )
      ]

  -- The identifiers that are reserved for a host rise: between two reservations, any snapshots may be
  -- applied, any identifiers reserved and any snapshots purged, and any statement may fail.
  pub generations_rise :
      (host : Text) (faults : DbFaults) (now : ℤ) (random : Option Uuid) (first : List ℕ)
      (db : SnapshotDb fl) (faults' : DbFaults) (now' : ℤ) (random' : Option Uuid) (second : List ℕ)
      (db' : SnapshotDb fl)
      → ((row : FenceRow) → find_row (of_host host) db.fences ≡ some row → IsBlob row)
      → IsRandom random
      → (reserve env.go faults host now random db.fences).0 ≡ reserved first
      → Steps true (reserve_in faults host now random db) db'
      → (reserve env.go faults' host now' random' db'.fences).0 ≡ reserved second
      → (a b : Uuid) × (first ≡ to_text a) × (second ≡ to_text b) × (compare_uuid b a ≡ pos 1)
  generations_rise host faults now random first db faults' now' random' second db' blob ok e steps =
      let (a, texted, fenced) = reserved-Fenced faults host now random db.fences first blob ok e in
      let last = Steps-Fenced host a true _ db' steps fenced in
      elim (reserve-cases faults' host db'.fences env.go now' random') [
        | inl f ↦ rw f λ h. absurd (ground arith)
        | inr (b, chosen, f) ↦ rw f λ h.
            let later =
              choose-later faults' host db'.fences last.row (new_uuid now' random') b last.blob
                (subst (λ o. choose o (new_uuid now' random') ≡ some b) last.found chosen) in
            (
              a,
              b,
              texted,
              sym (reserved_inj (to_text b) second h),
              later_NotBefore b last.row.max_instance_id a later last.above,
            )
      ]
