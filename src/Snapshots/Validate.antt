-- ===== src/Snapshots/Validate.antt =====
-- validateSnapshotForStore.
use lisstech_drain_ctl.Prelude.{
  ℕ, Bool, false, not, ◌&&◌, ◌||◌, Option, none, some, ltb, ◌==◌, length,
}
use lisstech_drain_ctl.Prelude.Int.{pos, ltb_ℤ}
use lisstech_drain_ctl.Prelude.Bytes.{bytes_equal}
use lisstech_drain_ctl.Host.{GoText, validate_canonical_host, every}
use lisstech_drain_ctl.Uuid.{parse}
use lisstech_drain_ctl.Generation.{is_parsed}
use lisstech_drain_ctl.Session.{
  state_valid, CollectionError, SessionProcess, SessionRecord, SessionSnapshot,
}
use lisstech_drain_ctl.Session.Compact.{max_sessions}
use lisstech_drain_ctl.Snapshots.{max_unix_millis, max_stored_bytes, snapshot_schema}

abbrev pub max_processes : ℕ
max_processes = 5

abbrev above_stored : Option ℕ → Bool
above_stored none = false
above_stored (some n) = ltb max_stored_bytes n

module _ {F : Type 0} where
  unfoldable pub process_storable : SessionProcess F → Bool
  process_storable p = not (p.pid == 0 || ltb max_stored_bytes p.working_set_bytes)

  unfoldable pub session_storable : SessionRecord F → Bool
  unfolding process_storable
  session_storable s =
      not (not (state_valid s.state) || ltb max_processes (length s.processes))
      && not (above_stored s.working_set_bytes)
      && every process_storable s.processes

  abbrev pub has_data : SessionSnapshot F → Bool
  has_data s =
      not (length s.sessions == 0)
      || s.capabilities.session_actions
      || s.capabilities.processes
      || s.capabilities.input_delay
      || s.capabilities.remote_fx

  abbrev pub content_storable : Option CollectionError → SessionSnapshot F → Bool
  content_storable (some e) s = not (has_data s)
  content_storable none s = every session_storable s.sessions

  -- validateSnapshotForStore returns no error.
  unfoldable pub validate_snapshot_for_store : GoText → SessionSnapshot F → Bool
  unfolding session_storable
  validate_snapshot_for_store go s =
      bytes_equal s.schema snapshot_schema
      && validate_canonical_host go s.host
      && is_parsed (parse s.agent_instance_id)
      && not (
          ltb_ℤ s.observed_at_ms (pos 0)
          || ltb_ℤ max_unix_millis s.observed_at_ms
          || ltb max_sessions (length s.sessions))
      && content_storable s.collection_error s
