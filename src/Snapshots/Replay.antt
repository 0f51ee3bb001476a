-- ===== src/Snapshots/Replay.antt =====
-- A snapshot is accepted at most once, while the row of its host is not purged.
use lisstech_drain_ctl.Prelude.{
  ℕ, ◌^◌, ◌≤◌, ◌<◌, ◌≡◌, ◌≢◌, ◌⊎◌, refl, sym, ap, ◌∙◌, Bool, true, false, inl, inr, some, List,
  arith, length, Bool-cases,
}
use mathlib.Core.Path.{subst}
use lisstech_drain_ctl.Prelude.Int.{ℤ, pos}
use lisstech_drain_ctl.Prelude.Bytes.{bytes_equal, bytes_equal→eq, bytes_equal_refl}
use lisstech_drain_ctl.Prelude.Rows.{find_row}
use lisstech_drain_ctl.Uuid.{Uuid, at, parse, parsed, to_text, compare_uuid, IsUuid}
use lisstech_drain_ctl.Uuid.Order.{compare_uuid-eq}
use lisstech_drain_ctl.Uuid.Accepts.{parse-IsUuid}
use lisstech_drain_ctl.Generation.{FenceRow, raise_fence}
use lisstech_drain_ctl.Generation.Reserve.{Fenced, raise_fence-found, later_NotBefore}
use lisstech_drain_ctl.Session.{Text, SessionSnapshot, PrivacyPolicy}
use lisstech_drain_ctl.Workload.{WorkloadFloats}
use lisstech_drain_ctl.Snapshots.{AttemptRow, SnapshotDb, sequence_bytes, big_endian}
use lisstech_drain_ctl.Snapshots.Rows.{StoreEnv, host_row}
use lisstech_drain_ctl.Snapshots.Apply.{
  ApplyFaults, SnapshotApplyResult, is_replay, next_fences, apply,
}
use lisstech_drain_ctl.Snapshots.Recorded.{Recorded, AtFence, unfenced, above, level, apply-cases}
use lisstech_drain_ctl.Snapshots.Newest.{
  Recorded-Kept, reserve-Fenced, same_row, Step, applies, reserves, Steps, here, next,
}

-- The eight bytes of a sequence are read back.
big_endian-sequence_bytes : (v : ℕ) → v < 2 ^ 64 → big_endian 0 (sequence_bytes v) ≡ v
unfolding big_endian sequence_bytes
big_endian-sequence_bytes v h = omega arith

module _ (fl : WorkloadFloats) (env : StoreEnv fl.Float) where
  -- The latest attempt of the host is of `id`, at `sequence` or later.
  record Attempted (host : Text) (id : Uuid) (sequence : ℕ) (db : SnapshotDb fl) : Type 0 where
    row : AttemptRow
    found : find_row (host_row host) db.snapshots ≡ some row
    instance_id : row.latest_attempt_instance_id ≡ to_text id
    reached : sequence ≤ big_endian 0 row.latest_attempt_sequence

  -- The tables refuse the snapshot `sequence` of `id`.
  record Blocks (host : Text) (id : Uuid) (sequence : ℕ) (db : SnapshotDb fl) : Type 0 where
    fence : Fenced host id db.fences
    attempt : fence.row.max_instance_id ≡ id → Attempted host id sequence db

  -- A recorded snapshot of the host at an unchanged fence has a later sequence.
  Attempted-own :
      (host : Text) (id : Uuid) (sequence : ℕ) (s : SessionSnapshot fl.Float)
      (db after : SnapshotDb fl)
      → s.sequence < 2 ^ 64
      → s.host ≡ host
      → (r : Recorded fl env s db after) → r.id ≡ id
      → sequence ≤ s.sequence
      → Attempted host id sequence after
  Attempted-own host id sequence s db after small same r named le = record {
    row = r.written.rows.row;
    found = ap (λ h. find_row (host_row h) after.snapshots) (sym same) ∙ r.written.rows.found;
    instance_id = r.written.rows.holds.0 ∙ ap to_text named;
    reached =
        let read = ap (big_endian 0) r.written.rows.holds.1 in
        let back = big_endian-sequence_bytes s.sequence small in omega arith;
  }

  Attempted-other :
      (host : Text) (id : Uuid) (sequence : ℕ) (s : SessionSnapshot fl.Float)
      (db after : SnapshotDb fl)
      → s.host ≢ host
      → Recorded fl env s db after
      → Attempted host id sequence db
      → Attempted host id sequence after
  Attempted-other host id sequence s db after apart r a = record {
    row = a.row;
    found = r.written.rows.others host apart ∙ a.found;
    instance_id = a.instance_id;
    reached = a.reached;
  }

  -- Not a replay: the sequence is later than that of the row.
  fresh-later :
      (host : Text) (id : Uuid) (sequence next_sequence : ℕ) (db : SnapshotDb fl)
      → Attempted host id sequence db
      → is_replay (find_row (host_row host) db.snapshots) (to_text id) next_sequence ≡ false
      → sequence < next_sequence
  fresh-later host id sequence next_sequence db a = rw a.found λ e.
      let same =
        subst (λ t. bytes_equal a.row.latest_attempt_instance_id t ≡ true) a.instance_id
          (bytes_equal_refl a.row.latest_attempt_instance_id) in
      let le = a.reached in ground arith

  level-sequence :
      (host : Text) (id : Uuid) (sequence : ℕ) (s : SessionSnapshot fl.Float) (db : SnapshotDb fl)
      (was : Fenced host id db.fences) (to : Uuid) (advance : Bool)
      → AtFence fl env s to db advance
      → advance ≡ false
      → s.host ≡ host
      → was.row.max_instance_id ≡ id
      → length to ≡ 16
      → Attempted host id sequence db
      → (to ≡ id) × (sequence < s.sequence)
  level-sequence host id sequence s db was to true at e same at_id size a = absurd (ground arith)
  level-sequence host id sequence s db was to false (level row found size' c fresh) e same at_id
        size a =
      let one = same_row fl env host id db.fences was row s.host same found in
      let equal : to ≡ id =
        compare_uuid-eq to row.max_instance_id (omega arith) c
        ∙ ap (λ (r : FenceRow). r.max_instance_id) one
        ∙ at_id in
      (
        equal,
        fresh-later host id sequence s.sequence db a (
            subst
              (λ h. is_replay (find_row (host_row h) db.snapshots) (to_text id) s.sequence ≡ false)
              same
              (subst
                (λ u.
                  is_replay (find_row (host_row s.host) db.snapshots) (to_text u) s.sequence
                  ≡ false)
                equal fresh)),
      )

  Recorded-Blocks :
      (host : Text) (id : Uuid) (sequence : ℕ) (s : SessionSnapshot fl.Float)
      (db after : SnapshotDb fl)
      → s.sequence < 2 ^ 64
      → Recorded fl env s db after
      → Blocks host id sequence db
      → Blocks host id sequence after
  Recorded-Blocks host id sequence s db after small r b =
      let k = Recorded-Kept fl env host id s db after b.fence r in
      record {
        fence = k.now;
        attempt = λ at_id.
            let before = k.level_before at_id in
            elim (Bool-cases (bytes_equal s.host host)) [
              | inr e ↦
                  Attempted-other host id sequence s db after (unequal s.host host e) r
                    (b.attempt before)
              | inl e ↦
                  let same = bytes_equal→eq s.host host e in
                  let size = (parse-IsUuid s.agent_instance_id r.id r.named).size in
                  let (named, le) =
                    level-sequence host id sequence s db b.fence r.id r.advance r.newer
                      (k.level_own at_id same) same before size (b.attempt before) in
                  Attempted-own host id sequence s db after small same r named (omega (arith, le))
            ];
      }
    where
      unequal : (x y : List ℕ) → bytes_equal x y ≡ false → x ≢ y
      unequal x y e same =
          let t = subst (λ z. bytes_equal x z ≡ true) same (bytes_equal_refl x) in
          absurd (ground arith)

  Step-Blocks :
      (host : Text) (id : Uuid) (sequence : ℕ) (a b : SnapshotDb fl)
      → Step fl env false a b
      → Blocks host id sequence a
      → Blocks host id sequence b
  Step-Blocks host id sequence a _ (applies _ f s now privacy _ small) was =
      elim (apply-cases fl env f s now privacy a) [
        | inl r ↦ subst (Blocks host id sequence) (sym r.same) was
        | inr r ↦ Recorded-Blocks host id sequence s a _ small r was
      ]
  Step-Blocks host id sequence a _ (reserves _ faults host' now random _ ok) was =
      let (fence, back) =
        reserve-Fenced fl env host id faults host' now random a.fences was.fence ok in
      record {
        fence = fence;
        attempt = λ at_id.
            let old = was.attempt (back at_id) in
            record {
              row = old.row;
              found = old.found;
              instance_id = old.instance_id;
              reached = old.reached;
            };
      }

  Steps-Blocks :
      (host : Text) (id : Uuid) (sequence : ℕ) (a b : SnapshotDb fl)
      → Steps fl env false a b
      → Blocks host id sequence a
      → Blocks host id sequence b
  Steps-Blocks host id sequence a _ (here _) was = was
  Steps-Blocks host id sequence a b (next _ m _ before last) was =
      Step-Blocks host id sequence m b last (Steps-Blocks host id sequence a m before was)

  raised-Fenced :
      (host : Text) (to : Uuid) (fences : List FenceRow)
      → IsUuid to
      → Fenced host to (raise_fence host to fences)
  raised-Fenced host to fences ok =
      let (row, found, raised) = raise_fence-found host to fences in
      record {
        row = row;
        found = found;
        above = inr raised;
        blob = subst (λ u. (i : ℕ) → at u i < 256) (sym raised) ok.bytes;
      }

  at_fence-Fenced :
      (s : SessionSnapshot fl.Float) (db : SnapshotDb fl) (to : Uuid) (advance : Bool)
      → IsUuid to
      → AtFence fl env s to db advance
      → Fenced s.host to (next_fences fl env advance s to db)
  at_fence-Fenced s db to true ok (unfenced missing) = raised-Fenced s.host to db.fences ok
  at_fence-Fenced s db to true ok (above row found c) = raised-Fenced s.host to db.fences ok
  at_fence-Fenced s db to false ok (level row found size c fresh) =
      let same = compare_uuid-eq to row.max_instance_id (let h = ok.size in omega arith) c in
      record {
        row = row;
        found = found;
        above = inr (sym same);
        blob = subst (λ u. (i : ℕ) → at u i < 256) same ok.bytes;
      }

  -- The call accepts the snapshot.
  unfoldable pub Accepts :
      ApplyFaults → SessionSnapshot fl.Float → ℤ → PrivacyPolicy → SnapshotDb fl → Type 0
  Accepts f s now privacy db =
      (r : SnapshotApplyResult) × ((apply fl env f s now privacy db).0 ≡ some r)
      × (r.accepted ≡ true)

  Accepts-Recorded :
      (f : ApplyFaults) (s : SessionSnapshot fl.Float) (now : ℤ) (privacy : PrivacyPolicy)
      (db : SnapshotDb fl)
      → Accepts f s now privacy db
      → Recorded fl env s db (apply fl env f s now privacy db).1
  unfolding Accepts
  Accepts-Recorded f s now privacy db (r, answered, accepted) =
      elim (apply-cases fl env f s now privacy db) [
        | inl refused ↦ let no = refused.unaccepted r answered in absurd (ground arith)
        | inr done ↦ done
      ]

  Recorded-first-Blocks :
      (s : SessionSnapshot fl.Float) (db after : SnapshotDb fl)
      → s.sequence < 2 ^ 64
      → (r : Recorded fl env s db after) → Blocks s.host r.id s.sequence after
  Recorded-first-Blocks s db after small r = record {
    fence = subst (Fenced s.host r.id) (sym r.written.fences) (
        at_fence-Fenced s db r.id r.advance (parse-IsUuid s.agent_instance_id r.id r.named)
          r.newer);
    attempt =
        λ at_id. Attempted-own s.host r.id s.sequence s db after small refl r refl (omega arith);
  }

  -- A snapshot of `to` is newer than what the tables block.
  newer-than_blocked :
      (id : Uuid) (sequence : ℕ) (s : SessionSnapshot fl.Float) (db : SnapshotDb fl) (to : Uuid)
      (advance : Bool)
      → Blocks s.host id sequence db
      → IsUuid to
      → AtFence fl env s to db advance
      → (compare_uuid to id ≡ pos 1) ⊎ ((to ≡ id) × (sequence < s.sequence))
  newer-than_blocked id sequence s db to true b ok (unfenced missing) =
      let both = sym missing ∙ b.fence.found in absurd (ground arith)
  newer-than_blocked id sequence s db to true b ok (above row found c) =
      let one = same_row fl env s.host id db.fences b.fence row s.host refl found in
      inl (
        later_NotBefore to b.fence.row.max_instance_id id
          (subst (λ (r : FenceRow). compare_uuid to r.max_instance_id ≡ pos 1) one c) b.fence.above)
  newer-than_blocked id sequence s db to false b ok (level row found size c fresh) =
      let one = same_row fl env s.host id db.fences b.fence row s.host refl found in
      let equal : to ≡ b.fence.row.max_instance_id =
        compare_uuid-eq to row.max_instance_id (let h = ok.size in omega arith) c
        ∙ ap (λ (r : FenceRow). r.max_instance_id) one in
      elim b.fence.above [
        | inl later ↦ inl (subst (λ u. compare_uuid u id ≡ pos 1) (sym equal) later)
        | inr at_id ↦ inr (
            level-sequence s.host id sequence s db b.fence to false (level row found size c fresh)
              refl refl at_id ok.size (b.attempt at_id))
      ]

  -- The snapshots of a host that are accepted rise by generation and sequence, while no row is purged: any
  -- other snapshots may be applied and any identifiers reserved in between, and any statement may fail.
  pub accepted_rise :
      (f : ApplyFaults) (s : SessionSnapshot fl.Float) (now : ℤ) (privacy : PrivacyPolicy)
      (db : SnapshotDb fl) (f' : ApplyFaults) (s' : SessionSnapshot fl.Float) (now' : ℤ)
      (privacy' : PrivacyPolicy) (db' : SnapshotDb fl)
      → s.sequence < 2 ^ 64
      → s.host ≡ s'.host
      → Accepts f s now privacy db
      → Steps fl env false (apply fl env f s now privacy db).1 db'
      → Accepts f' s' now' privacy' db'
      → (a b : Uuid) × (parse s.agent_instance_id ≡ parsed a)
        × (parse s'.agent_instance_id ≡ parsed b)
        × ((compare_uuid b a ≡ pos 1) ⊎ ((b ≡ a) × (s.sequence < s'.sequence)))
  accepted_rise f s now privacy db f' s' now' privacy' db' small same first steps second =
      let r = Accepts-Recorded f s now privacy db first in
      let r' = Accepts-Recorded f' s' now' privacy' db' second in
      let blocked =
        Steps-Blocks s.host r.id s.sequence _ db' steps (Recorded-first-Blocks s db _ small r) in
      (
        r.id,
        r'.id,
        r.named,
        r'.named,
        newer-than_blocked r.id s.sequence s' db' r'.id r'.advance
            (subst (λ h. Blocks h r.id s.sequence db') same blocked)
            (parse-IsUuid s'.agent_instance_id r'.id r'.named) r'.newer,
      )
