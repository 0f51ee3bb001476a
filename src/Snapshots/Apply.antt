-- ===== src/Snapshots/Apply.antt =====
-- Apply, PurgeSnapshots and PurgeForPrivacy. A statement may fail for any reason, a CHECK of its table
-- included; the transaction is then rolled back.
use lisstech_drain_ctl.Prelude.{
  ℕ, Bool, true, false, not, ◌&&◌, ◌||◌, Option, none, some, List, [], ◌++◌, ◌*◌, leb, ltb,
  if◌then◌else◌,
}
use lisstech_drain_ctl.Prelude.Int.{ℤ, pos, negsuc, ◌-ℤ◌, ltb_ℤ, eqb_ℤ}
use lisstech_drain_ctl.Prelude.Bytes.{bytes_equal}
use lisstech_drain_ctl.Prelude.Rows.{delete_where, find_row, any_row}
use lisstech_drain_ctl.Prelude.Upsert.{upsert}
use lisstech_drain_ctl.Uuid.{
  Uuid, Parsed, parsed, not_canonical, not_version_7, parse, to_text, compare_uuid,
}
use lisstech_drain_ctl.Generation.{FenceRow, of_host, raise_fence, fence_ok}
use lisstech_drain_ctl.Session.{Text, CollectionError, SessionSnapshot, PrivacyPolicy}
use lisstech_drain_ctl.Session.Project.{project_snapshot}
use lisstech_drain_ctl.Session.Aggregate.{SessionAggregates, aggregates_for_identity}
use lisstech_drain_ctl.Workload.{WorkloadFloats}
use lisstech_drain_ctl.Workload.Store.{upsert_session_workload}
use lisstech_drain_ctl.Snapshots.{AttemptRow, CurrentSession, SnapshotDb, big_endian}
use lisstech_drain_ctl.Snapshots.Validate.{validate_snapshot_for_store}
use lisstech_drain_ctl.Snapshots.Rows.{
  StoreEnv, host_row, fatal_row, fatal_update, success_row, success_update, session_rows,
  session_of,
}

-- Which statements of Apply fail.
pub record ApplyFaults : Type 0 where
  pub begin : Bool
  pub read_fence : Bool
  pub read_snapshot : Bool
  pub write_fence : Bool
  pub write_snapshot : Bool
  pub write_workload : Bool
  pub commit : Bool

pub record SnapshotApplyResult : Type 0 where
  pub accepted : Bool
  pub received_at_ms : ℤ
  pub fatal : Bool
  pub aggregates : Option SessionAggregates

abbrev pub is_replay : Option AttemptRow → Text → ℕ → Bool
is_replay none id sequence = false
is_replay (some r) id sequence =
    bytes_equal r.latest_attempt_instance_id id
    && leb sequence (big_endian 0 r.latest_attempt_sequence)

module _ (fl : WorkloadFloats) (env : StoreEnv fl.Float) where
  -- What Apply returns, none for an error, and the tables after it.
  abbrev pub Outcome : Type 0
  Outcome = Option SnapshotApplyResult × SnapshotDb fl

  abbrev pub stale : ApplyFaults → ℤ → SnapshotDb fl → Outcome
  stale f now db = if f.commit then (none, db) else (
    some (record { accepted = false; received_at_ms = now; fatal = false; aggregates = none }),
    db,
  )

  abbrev pub next_fences : Bool → SessionSnapshot fl.Float → Uuid → SnapshotDb fl → List FenceRow
  next_fences advance s id db = if advance then raise_fence s.host id db.fences else db.fences

  -- applyFatal and upsertSessionWorkload.
  unfoldable pub apply_fatal :
      Bool → SessionSnapshot fl.Float → Uuid → ℤ → CollectionError → SnapshotDb fl → Outcome
  unfolding fatal_row fatal_update upsert
  apply_fatal advance s id now e db = (
    some (record { accepted = true; received_at_ms = now; fatal = true; aggregates = none }),
    record {
      fences = next_fences advance s id db;
      snapshots =
          upsert (host_row s.host) (fatal_update s now e.code) (fatal_row s now e.code)
            db.snapshots;
      latest = db.latest;
      workload = upsert_session_workload env.canonical_hostname s now db.workload;
    },
  )

  abbrev pub replace_sessions :
      Option (List (CurrentSession fl.Float))
      → Bool
      → SessionSnapshot fl.Float
      → Uuid
      → ℤ
      → SessionAggregates
      → SnapshotDb fl
      → Outcome
  replace_sessions none advance s id now a db = (none, db)
  replace_sessions (some rows) advance s id now a db = (
    some (record { accepted = true; received_at_ms = now; fatal = false; aggregates = some a }),
    record {
      fences = next_fences advance s id db;
      snapshots =
          upsert (host_row s.host) (success_update s now a) (success_row s now a) db.snapshots;
      latest = rows ++ delete_where (session_of s.host) db.latest;
      workload = upsert_session_workload env.canonical_hostname s now db.workload;
    },
  )

  -- The aggregates of the sessions as they came, the rows of the projected ones, and
  -- upsertSessionWorkload. The projection changes no field that the row of the snapshot has.
  unfoldable pub apply_success :
      Bool → SessionSnapshot fl.Float → Uuid → ℤ → PrivacyPolicy → SnapshotDb fl → Outcome
  unfolding success_row success_update upsert session_rows
  apply_success advance s id now privacy db =
      replace_sessions (session_rows env s.host (project_snapshot privacy s).sessions) advance s id
        now (aggregates_for_identity privacy.identity s.sessions) db

  abbrev pub record_attempt :
      Option CollectionError
      → Bool
      → SessionSnapshot fl.Float
      → Uuid
      → ℤ
      → PrivacyPolicy
      → SnapshotDb fl
      → Outcome
  record_attempt (some e) advance s id now privacy db = apply_fatal advance s id now e db
  record_attempt none advance s id now privacy db = apply_success advance s id now privacy db

  -- Past the fence.
  unfoldable pub apply_past_fence :
      ApplyFaults
      → Bool
      → SessionSnapshot fl.Float
      → Uuid
      → ℤ
      → PrivacyPolicy
      → SnapshotDb fl
      → Outcome
  unfolding apply_fatal apply_success
  apply_past_fence f advance s id now privacy db =
      if f.read_snapshot
      then (none, db)
      else if not advance
          && is_replay (find_row (host_row s.host) db.snapshots) s.agent_instance_id s.sequence
      then stale f now db
      else if advance && f.write_fence || f.write_snapshot || f.write_workload || f.commit
      then (none, db)
      else record_attempt s.collection_error advance s id now privacy db

  -- The switch on CompareUUIDv7.
  abbrev pub apply_at_fence :
      Option FenceRow
      → ApplyFaults
      → SessionSnapshot fl.Float
      → Uuid
      → ℤ
      → PrivacyPolicy
      → SnapshotDb fl
      → Outcome
  apply_at_fence none f s id now privacy db = apply_past_fence f true s id now privacy db
  apply_at_fence (some row) f s id now privacy db =
      if not (fence_ok row.max_instance_id)
      then (none, db)
      else if eqb_ℤ (compare_uuid id row.max_instance_id) (negsuc 0)
      then stale f now db
      else apply_past_fence f (eqb_ℤ (compare_uuid id row.max_instance_id) (pos 1)) s id now privacy
          db

  abbrev pub apply_parsed :
      Parsed → ApplyFaults → SessionSnapshot fl.Float → ℤ → PrivacyPolicy → SnapshotDb fl → Outcome
  apply_parsed (parsed id) f s now privacy db =
      if f.begin || f.read_fence
      then (none, db)
      else apply_at_fence (find_row (of_host s.host) db.fences) f
          (record s { agent_instance_id = to_text id }) id now privacy db
  apply_parsed not_canonical f s now privacy db = (none, db)
  apply_parsed not_version_7 f s now privacy db = (none, db)

  -- Apply
  unfoldable pub apply :
      ApplyFaults → SessionSnapshot fl.Float → ℤ → PrivacyPolicy → SnapshotDb fl → Outcome
  unfolding apply_past_fence fence_ok
  apply f s now privacy db =
      if not (validate_snapshot_for_store env.go s)
      then (none, db)
      else apply_parsed (parse s.agent_instance_id) f s now privacy db

-- PurgeSnapshots: the rows that the DELETE takes. ON DELETE CASCADE takes their sessions.
abbrev pub coalesce_ms : Option ℤ → ℤ → ℤ
coalesce_ms none t = t
coalesce_ms (some s) t = s

abbrev pub expired : ℤ → AttemptRow → Bool
expired cutoff r =
    ltb_ℤ (coalesce_ms r.last_success_received_at_ms r.latest_attempt_received_at_ms) cutoff

abbrev pub hour_ms : ℕ
hour_ms = 3600000

module _ {fl : WorkloadFloats} where
  abbrev pub keep_snapshots : (AttemptRow → Bool) → SnapshotDb fl → SnapshotDb fl
  keep_snapshots gone db = record db {
    snapshots = delete_where gone db.snapshots;
    latest =
        delete_where (λ r. any_row (λ a. gone a && host_row r.canonical_host a) db.snapshots)
          db.latest;
  }

  -- PurgeSnapshots; the number of rows is not returned here.
  unfoldable pub purge_snapshots : ℕ → ℤ → SnapshotDb fl → SnapshotDb fl
  purge_snapshots retention_hours now db =
      if ltb retention_hours 1 || ltb 168 retention_hours
      then db
      else keep_snapshots (expired (now -ℤ pos (retention_hours * hour_ms))) db

  -- PurgeForPrivacy
  unfoldable pub purge_for_privacy : SnapshotDb fl → SnapshotDb fl
  purge_for_privacy db = record db { snapshots = []; latest = [] }
