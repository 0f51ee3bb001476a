-- ===== src/Snapshots.antt =====
-- The dashboard's store of session snapshots (internal/telemetry/session_store.go).
pub mod Validate
pub mod Rows
pub mod Apply
pub mod Recorded
pub mod Newest
pub mod Replay
mod Tests
use lisstech_drain_ctl.Prelude.{
  ℕ, ◌*◌, ◌+◌, ◌/◌, ◌%◌, ◌^◌, Bool, true, false, not, ◌&&◌, ◌||◌, Option, none, some, List, [], ◌∷◌,
  leb, ltb, ◌==◌, if◌then◌else◌, length,
}
use lisstech_drain_ctl.Prelude.Int.{ℤ, pos, ◌-ℤ◌, ltb_ℤ}
use lisstech_drain_ctl.Prelude.Bytes.{bytes_equal}
use lisstech_drain_ctl.Prelude.Rows.{delete_where, find_row}
use lisstech_drain_ctl.Host.{every}
use lisstech_drain_ctl.Session.{
  Text, SessionState, state_valid, SessionCapabilities, SessionProcess, SessionRecord,
  SessionSnapshot,
}
use lisstech_drain_ctl.Generation.{FenceRow}
use lisstech_drain_ctl.Workload.{WorkloadFloats}
use lisstech_drain_ctl.Workload.Store.{WorkloadRow}

-- A row of session_snapshots.
pub record AttemptRow : Type 0 where
  pub canonical_host : Text
  pub latest_attempt_instance_id : Text
  pub latest_attempt_sequence : List ℕ
  pub latest_attempt_observed_at_ms : ℤ
  pub latest_attempt_received_at_ms : ℤ
  pub last_success_instance_id : Option Text
  pub last_success_sequence : Option (List ℕ)
  pub last_success_observed_at_ms : Option ℤ
  pub last_success_received_at_ms : Option ℤ
  pub session_count : Option ℕ
  pub active_count : Option ℕ
  pub idle_count : Option ℕ
  pub disconnected_count : Option ℕ
  pub user_count : Option ℕ
  pub last_activity_at_ms : Option ℤ
  pub collector_version : Option Text
  pub logical_cpu_count : Option ℕ
  pub capability_actions : Option ℕ
  pub capability_processes : Option ℕ
  pub capability_input_delay : Option ℕ
  pub capability_remotefx : Option ℕ
  pub latest_attempt_error_code : Option Text

-- A row of session_latest.
pub record CurrentSession (F : Type 0) : Type 0 where
  pub canonical_host : Text
  pub session_id : ℕ
  pub logon_at_ms : Option ℤ
  pub user_name : Option Text
  pub domain_name : Option Text
  pub state : SessionState
  pub station : Option Text
  pub client_name : Option Text
  pub client_address : Option Text
  pub connect_at_ms : Option ℤ
  pub disconnect_at_ms : Option ℤ
  pub idle_since_ms : Option ℤ
  pub cpu_percent : Option F
  pub working_set_bytes : Option ℕ
  pub input_delay_ms : Option ℕ
  pub remotefx_fps : Option F
  pub remotefx_quality_pct : Option F
  pub remotefx_encode_ms : Option F
  pub remotefx_rtt_ms : Option F
  pub remotefx_loss_pct : Option F
  pub remotefx_server_skip : Option F
  pub remotefx_network_skip : Option F
  pub processes_json : Text

-- The tables that the store writes.
pub record SnapshotDb (fl : WorkloadFloats) : Type 0 where
  pub fences : List FenceRow
  pub snapshots : List AttemptRow
  pub latest : List (CurrentSession fl.Float)
  pub workload : List (WorkloadRow fl)

-- sequenceBytes
unfoldable pub sequence_bytes : ℕ → List ℕ
sequence_bytes v =
    v / 2 ^ 56 % 256
    ∷ v / 2 ^ 48 % 256
    ∷ v / 2 ^ 40 % 256
    ∷ v / 2 ^ 32 % 256
    ∷ v / 2 ^ 24 % 256
    ∷ v / 2 ^ 16 % 256
    ∷ v / 2 ^ 8 % 256
    ∷ v % 256
    ∷ []

-- binary.BigEndian.Uint64
unfoldable pub big_endian : ℕ → List ℕ → ℕ
big_endian acc [] = acc
big_endian acc (b ∷ bs) = big_endian (acc * 256 + b) bs

-- boolInt
abbrev pub bool_int : Bool → ℕ
bool_int b = if b then 1 else 0

abbrev pub max_unix_millis : ℤ
max_unix_millis = pos 253402300799999

abbrev pub max_stored_bytes : ℕ
max_stored_bytes = 9223372036854775807

-- "drainctl.session-snapshot.v1"
abbrev pub snapshot_schema : Text
snapshot_schema =
    100 ∷ 114 ∷ 97 ∷ 105 ∷ 110 ∷ 99 ∷ 116 ∷ 108 ∷ 46 ∷ 115 ∷ 101 ∷ 115 ∷ 115 ∷ 105 ∷ 111 ∷ 110 ∷ 45
    ∷ 115 ∷ 110 ∷ 97 ∷ 112 ∷ 115 ∷ 104 ∷ 111 ∷ 116 ∷ 46 ∷ 118 ∷ 49 ∷ []
