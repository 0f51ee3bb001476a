-- ===== src/Snapshots/Recorded.antt =====
-- What a call of Apply does: it changes nothing, or it records a newer attempt of its host.
use lisstech_drain_ctl.Prelude.{
  ℕ, ◌≡◌, ◌≢◌, ◌⊎◌, refl, sym, ◌∙◌, Bool, true, false, not, ◌&&◌, ◌||◌, inl, inr, Option, none,
  some, some_inj, List, arith, length, Bool-cases,
}
use mathlib.Core.Path.{subst}
use lisstech_drain_ctl.Prelude.Int.{ℤ, pos, eqb_ℤ}
use lisstech_drain_ctl.Prelude.Bytes.{bytes_equal, bytes_equal→eq, bytes_equal_refl}
use lisstech_drain_ctl.Prelude.Rows.{find_row}
use lisstech_drain_ctl.Prelude.Upsert.{upsert, find_row-upsert_self, find_row-upsert_other}
use lisstech_drain_ctl.Uuid.{
  Uuid, Parsed, parsed, not_canonical, not_version_7, parse, to_text, compare_uuid,
}
use lisstech_drain_ctl.Uuid.Order.{compare_uuid-cases}
use lisstech_drain_ctl.Generation.{FenceRow, of_host, fence_ok}
use lisstech_drain_ctl.Generation.Reserve.{bytes_other}
use lisstech_drain_ctl.Session.{Text, CollectionError, SessionSnapshot, PrivacyPolicy}
use lisstech_drain_ctl.Session.Aggregate.{SessionAggregates}
use lisstech_drain_ctl.Workload.{WorkloadFloats}
use lisstech_drain_ctl.Snapshots.{AttemptRow, CurrentSession, SnapshotDb, sequence_bytes}
use lisstech_drain_ctl.Snapshots.Rows.{
  StoreEnv, host_row, fatal_row, fatal_update, success_row, success_update,
}
use lisstech_drain_ctl.Snapshots.Validate.{validate_snapshot_for_store}
use lisstech_drain_ctl.Snapshots.Apply.{
  ApplyFaults, SnapshotApplyResult, is_replay, Outcome, stale, next_fences, apply_fatal,
  replace_sessions, apply_success, record_attempt, apply_past_fence, apply_at_fence, apply_parsed,
  apply,
}

-- After an upsert of the row of a host: the row is found, and the rows of the other hosts are as before.
pub record Upserted (P : AttemptRow → Type 0) (host : Text) (before after : List AttemptRow)
    : Type 0 where
  pub row : AttemptRow
  pub found : find_row (host_row host) after ≡ some row
  pub holds : P row
  pub others : (h : Text) → host ≢ h → find_row (host_row h) after ≡ find_row (host_row h) before

upsert-Upserted :
    (P : AttemptRow → Type 0) (host : Text) (change : AttemptRow → AttemptRow) (new : AttemptRow)
    (rows : List AttemptRow)
    → new.canonical_host ≡ host
    → ((r : AttemptRow) → (change r).canonical_host ≡ r.canonical_host)
    → P new
    → ((r : AttemptRow) → P (change r))
    → Upserted P host rows (upsert (host_row host) change new rows)
upsert-Upserted P host change new rows own keeps pn pc = record {
  row = found.0;
  found = found.1;
  holds = found.2;
  others = λ h other.
      find_row-upsert_other (host_row h) (host_row host) change new rows
        (λ x e. apart h other x.canonical_host (bytes_equal→eq x.canonical_host host e))
        (λ x e.
          apart h other (change x).canonical_host
            (keeps x ∙ bytes_equal→eq x.canonical_host host e))
        (apart h other new.canonical_host own);
}
  where
    apart : (h : Text) → host ≢ h → (x : Text) → x ≡ host → bytes_equal x h ≡ false
    apart h other x e = bytes_other x h λ f. other (sym e ∙ f)

    found :
        (row : AttemptRow) × (find_row (host_row host) (upsert (host_row host) change new rows)
          ≡ some row)
        × P row
    found =
        elim (find_row-upsert_self (host_row host) change new rows
          (λ x e. subst (λ c. bytes_equal c host ≡ true) (sym (keeps x)) e)
          (subst (λ c. bytes_equal c host ≡ true) (sym own) (bytes_equal_refl host))) [
            | inl e ↦ (new, e, pn)
            | inr (x, old, e) ↦ (change x, e, pc x)
          ]

module _ (fl : WorkloadFloats) (env : StoreEnv fl.Float) where
  abbrev pub Attempt : SessionSnapshot fl.Float → AttemptRow → Type 0
  Attempt s r =
      (r.latest_attempt_instance_id ≡ s.agent_instance_id)
      × (r.latest_attempt_sequence ≡ sequence_bytes s.sequence)

  -- The attempt of the snapshot is the latest of its host.
  pub record Written (advance : Bool) (s : SessionSnapshot fl.Float) (id : Uuid)
      (db after : SnapshotDb fl) : Type 0 where
    pub fences : after.fences ≡ next_fences fl env advance s id db
    pub rows : Upserted (Attempt s) s.host db.snapshots after.snapshots

  -- Nothing changes, and no snapshot is accepted.
  pub record Refused (db : SnapshotDb fl) (o : Outcome fl env) : Type 0 where
    pub same : o.1 ≡ db
    pub unaccepted : (r : SnapshotApplyResult) → o.0 ≡ some r → r.accepted ≡ false

  failed-Refused : (db : SnapshotDb fl) → Refused db (none, db)
  failed-Refused db = record { same = refl; unaccepted = λ r e. absurd (ground arith) }

  stale-Refused :
      (f : ApplyFaults) (now : ℤ) (db : SnapshotDb fl) → Refused db (stale fl env f now db)
  stale-Refused f now db = elim (Bool-cases f.commit) [
    | inl e ↦ rw e (failed-Refused db)
    | inr e ↦ rw e (record {
      same = refl;
      unaccepted = λ r h. subst (λ x. x.accepted ≡ false) (some_inj h) refl;
    })
  ]

  apply_fatal-Written :
      (advance : Bool) (s : SessionSnapshot fl.Float) (id : Uuid) (now : ℤ) (e : CollectionError)
      (db : SnapshotDb fl)
      → Written advance s id db (apply_fatal fl env advance s id now e db).1
  unfolding apply_fatal fatal_row fatal_update
  apply_fatal-Written advance s id now e db = record {
    fences = refl;
    rows =
        upsert-Upserted (Attempt s) s.host (fatal_update s now e.code) (fatal_row s now e.code)
          db.snapshots refl (λ r. refl) (refl, refl) (λ r. (refl, refl));
  }

  -- Each way through Apply past its checks.
  abbrev Records : Bool → SessionSnapshot fl.Float → Uuid → SnapshotDb fl → Outcome fl env → Type 0
  Records advance s id db o = Refused db o ⊎ Written advance s id db o.1

  replace_sessions-Records :
      (rows : Option (List (CurrentSession fl.Float))) (advance : Bool)
      (s : SessionSnapshot fl.Float) (id : Uuid) (now : ℤ) (a : SessionAggregates)
      (db : SnapshotDb fl)
      → Records advance s id db (replace_sessions fl env rows advance s id now a db)
  unfolding success_row success_update
  replace_sessions-Records none advance s id now a db = inl (failed-Refused db)
  replace_sessions-Records (some rows) advance s id now a db = inr (record {
    fences = refl;
    rows =
        upsert-Upserted (Attempt s) s.host (success_update s now a) (success_row s now a)
          db.snapshots refl (λ r. refl) (refl, refl) (λ r. (refl, refl));
  })

  record_attempt-Records :
      (o : Option CollectionError) (advance : Bool) (s : SessionSnapshot fl.Float) (id : Uuid)
      (now : ℤ) (privacy : PrivacyPolicy) (db : SnapshotDb fl)
      → Records advance s id db (record_attempt fl env o advance s id now privacy db)
  unfolding apply_success
  record_attempt-Records (some e) advance s id now privacy db =
      inr (apply_fatal-Written advance s id now e db)
  record_attempt-Records none advance s id now privacy db =
      replace_sessions-Records _ advance s id now _ db

  -- The test of a replay, as far as it matters.
  abbrev Fresh : Bool → SessionSnapshot fl.Float → SnapshotDb fl → Type 0
  Fresh advance s db =
      (advance ≡ true)
      ⊎ (is_replay (find_row (host_row s.host) db.snapshots) s.agent_instance_id s.sequence ≡ false)

  apply_past_fence-Records :
      (f : ApplyFaults) (advance : Bool) (s : SessionSnapshot fl.Float) (id : Uuid) (now : ℤ)
      (privacy : PrivacyPolicy) (db : SnapshotDb fl)
      → Refused db (apply_past_fence fl env f advance s id now privacy db)
        ⊎ (Written advance s id db (apply_past_fence fl env f advance s id now privacy db).1
            × Fresh advance s db)
  unfolding apply_past_fence
  apply_past_fence-Records f advance s id now privacy db = elim (Bool-cases f.read_snapshot) [
    | inl e ↦ inl (rw e (failed-Refused db))
    | inr e ↦
        let replay =
          is_replay (find_row (host_row s.host) db.snapshots) s.agent_instance_id s.sequence in
        elim (Bool-cases (not advance && replay)) [
          | inl g ↦ inl (rw (e, g) (stale-Refused f now db))
          | inr g ↦
              elim (Bool-cases
                (advance && f.write_fence || f.write_snapshot || f.write_workload || f.commit)) [
                  | inl h ↦ inl (rw (e, g, h) (failed-Refused db))
                  | inr h ↦
                      rw (e, g, h)
                        (elim (record_attempt-Records s.collection_error advance s id now privacy
                          db) [ inl r ↦ inl r | inr w ↦ inr (w, fresh advance replay g) ])
                ]
        ]
  ]
    where
      fresh : (a b : Bool) → (not a && b) ≡ false → (a ≡ true) ⊎ (b ≡ false)
      fresh true b e = inl refl
      fresh false b e = inr e

  -- How the identifier of a recorded attempt stands to the fence of its host.
  pub data AtFence (s : SessionSnapshot fl.Float) (id : Uuid) (db : SnapshotDb fl)
      : Bool → Type 0 where
    unfenced : find_row (of_host s.host) db.fences ≡ none → AtFence s id db true
    above :
        (row : FenceRow)
        → find_row (of_host s.host) db.fences ≡ some row
        → compare_uuid id row.max_instance_id ≡ pos 1
        → AtFence s id db true
    level :
        (row : FenceRow)
        → find_row (of_host s.host) db.fences ≡ some row
        → length row.max_instance_id ≡ 16
        → compare_uuid id row.max_instance_id ≡ pos 0
        → is_replay (find_row (host_row s.host) db.snapshots) (to_text id) s.sequence ≡ false
        → AtFence s id db false

  abbrev pub under : Uuid → SessionSnapshot fl.Float → SessionSnapshot fl.Float
  under id s = record s { agent_instance_id = to_text id }

  -- Apply records the attempt of the snapshot.
  pub record Recorded (s : SessionSnapshot fl.Float) (db after : SnapshotDb fl) : Type 0 where
    pub id : Uuid
    pub named : parse s.agent_instance_id ≡ parsed id
    pub advance : Bool
    pub written : Written advance (under id s) id db after
    pub newer : AtFence s id db advance

  fence_ok-size : (v : List ℕ) → fence_ok v ≡ true → length v ≡ 16
  unfolding fence_ok
  fence_ok-size v e = ground arith

  apply_at_fence-cases :
      (o : Option FenceRow) (f : ApplyFaults) (s : SessionSnapshot fl.Float) (id : Uuid) (now : ℤ)
      (privacy : PrivacyPolicy) (db : SnapshotDb fl)
      → find_row (of_host s.host) db.fences ≡ o
      → Refused db (apply_at_fence fl env o f (under id s) id now privacy db)
        ⊎ ((advance : Bool) × Written advance
              (under id s)
              id
              db
              (apply_at_fence fl env o f (under id s) id now privacy db).1
            × AtFence s id db advance)
  unfolding eqb_ℤ
  apply_at_fence-cases none f s id now privacy db e =
      elim (apply_past_fence-Records f true (under id s) id now privacy db) [
        | inl r ↦ inl r
        | inr (w, fresh) ↦ inr (true, w, unfenced e)
      ]
  apply_at_fence-cases (some row) f s id now privacy db e =
      elim (Bool-cases (fence_ok row.max_instance_id)) [
        | inr g ↦ inl (rw g (failed-Refused db))
        | inl g ↦ elim (compare_uuid-cases id row.max_instance_id) [
          | inl c ↦ inl (rw (g, c) (stale-Refused f now db))
          | inr (inl c) ↦
              rw (g, c)
                (elim (apply_past_fence-Records f false (under id s) id now privacy db) [
                  | inl r ↦ inl r
                  | inr (w, inl never) ↦ absurd (ground arith)
                  | inr (w, inr fresh) ↦
                      inr (false, w, level row e (fence_ok-size row.max_instance_id g) c fresh)
                ])
          | inr (inr c) ↦
              rw (g, c)
                (elim (apply_past_fence-Records f true (under id s) id now privacy db) [
                  | inl r ↦ inl r
                  | inr (w, fresh) ↦ inr (true, w, above row e c)
                ])
        ]
      ]

  apply_parsed-cases :
      (p : Parsed) (f : ApplyFaults) (s : SessionSnapshot fl.Float) (now : ℤ)
      (privacy : PrivacyPolicy) (db : SnapshotDb fl)
      → parse s.agent_instance_id ≡ p
      → Refused db (apply_parsed fl env p f s now privacy db)
        ⊎ Recorded s db (apply_parsed fl env p f s now privacy db).1
  apply_parsed-cases not_canonical f s now privacy db e = inl (failed-Refused db)
  apply_parsed-cases not_version_7 f s now privacy db e = inl (failed-Refused db)
  apply_parsed-cases (parsed id) f s now privacy db e =
      elim (Bool-cases (f.begin || f.read_fence)) [
        | inl g ↦ inl (rw g (failed-Refused db))
        | inr g ↦
            rw g
              (elim (apply_at_fence-cases (find_row (of_host s.host) db.fences) f s id now privacy
                db refl) [
                  | inl r ↦ inl r
                  | inr (advance, w, at) ↦
                      inr
                        (record { id = id; named = e; advance = advance; written = w; newer = at })
                ])
      ]

  -- Apply changes nothing and accepts nothing, or it records the attempt of a snapshot that is newer than
  -- the fence, or is at the fence and no replay.
  pub apply-cases :
      (f : ApplyFaults) (s : SessionSnapshot fl.Float) (now : ℤ) (privacy : PrivacyPolicy)
      (db : SnapshotDb fl)
      → Refused db (apply fl env f s now privacy db)
        ⊎ Recorded s db (apply fl env f s now privacy db).1
  unfolding apply
  apply-cases f s now privacy db = elim (Bool-cases (validate_snapshot_for_store env.go s)) [
    | inr e ↦ inl (rw e (failed-Refused db))
    | inl e ↦ rw e (apply_parsed-cases (parse s.agent_instance_id) f s now privacy db refl)
  ]
