-- ===== src/Snapshots/Rows.antt =====
-- The rows that applyFatal, applySuccess and insertSessionRow write.
use lisstech_drain_ctl.Prelude.{Bool, Option, none, some, List, [], ◌∷◌}
use lisstech_drain_ctl.Prelude.Int.{ℤ}
use lisstech_drain_ctl.Prelude.Bytes.{bytes_equal}
use lisstech_drain_ctl.Host.{GoText}
use lisstech_drain_ctl.Session.{
  Text, RemoteFxMetrics, SessionProcess, SessionRecord, SessionSnapshot,
}
use lisstech_drain_ctl.Session.Aggregate.{SessionAggregates}
use lisstech_drain_ctl.Snapshots.{AttemptRow, CurrentSession, sequence_bytes, bool_int}

-- What the code uses of the standard library, and json.Marshal of the processes of a session.
pub record StoreEnv (F : Type 0) : Type 0 where
  pub go : GoText
  pub canonical_hostname : Text → Text
  pub marshal : List (SessionProcess F) → Option Text

abbrev pub host_row : Text → AttemptRow → Bool
host_row host r = bytes_equal r.canonical_host host

module _ {F : Type 0} where
  -- The INSERT of applyFatal.
  unfoldable pub fatal_row : SessionSnapshot F → ℤ → Text → AttemptRow
  fatal_row s received code = record {
    canonical_host = s.host;
    latest_attempt_instance_id = s.agent_instance_id;
    latest_attempt_sequence = sequence_bytes s.sequence;
    latest_attempt_observed_at_ms = s.observed_at_ms;
    latest_attempt_received_at_ms = received;
    last_success_instance_id = none;
    last_success_sequence = none;
    last_success_observed_at_ms = none;
    last_success_received_at_ms = none;
    session_count = none;
    active_count = none;
    idle_count = none;
    disconnected_count = none;
    user_count = none;
    last_activity_at_ms = none;
    collector_version = none;
    logical_cpu_count = none;
    capability_actions = none;
    capability_processes = none;
    capability_input_delay = none;
    capability_remotefx = none;
    latest_attempt_error_code = some code;
  }

  -- Its DO UPDATE: the columns of the last success stay.
  unfoldable pub fatal_update : SessionSnapshot F → ℤ → Text → AttemptRow → AttemptRow
  fatal_update s received code r = record r {
    latest_attempt_instance_id = s.agent_instance_id;
    latest_attempt_sequence = sequence_bytes s.sequence;
    latest_attempt_observed_at_ms = s.observed_at_ms;
    latest_attempt_received_at_ms = received;
    latest_attempt_error_code = some code;
  }

  -- The row that applySuccess inserts; its DO UPDATE sets every column but the key to it.
  unfoldable pub success_row : SessionSnapshot F → ℤ → SessionAggregates → AttemptRow
  success_row s received a = record {
    canonical_host = s.host;
    latest_attempt_instance_id = s.agent_instance_id;
    latest_attempt_sequence = sequence_bytes s.sequence;
    latest_attempt_observed_at_ms = s.observed_at_ms;
    latest_attempt_received_at_ms = received;
    last_success_instance_id = some s.agent_instance_id;
    last_success_sequence = some (sequence_bytes s.sequence);
    last_success_observed_at_ms = some s.observed_at_ms;
    last_success_received_at_ms = some received;
    session_count = some a.session_count;
    active_count = some a.active_count;
    idle_count = some a.idle_count;
    disconnected_count = some a.disconnected_count;
    user_count = some a.user_count;
    last_activity_at_ms = a.last_activity_at_ms;
    collector_version = some s.collector_version;
    logical_cpu_count = some s.logical_cpu_count;
    capability_actions = some (bool_int s.capabilities.session_actions);
    capability_processes = some (bool_int s.capabilities.processes);
    capability_input_delay = some (bool_int s.capabilities.input_delay);
    capability_remotefx = some (bool_int s.capabilities.remote_fx);
    latest_attempt_error_code = none;
  }

  unfoldable pub success_update :
      SessionSnapshot F → ℤ → SessionAggregates → AttemptRow → AttemptRow
  unfolding success_row
  success_update s received a r = record (success_row s received a) {
    canonical_host = r.canonical_host;
  }

  abbrev pub remote_fx_or_zero : Option (RemoteFxMetrics F) → RemoteFxMetrics F
  remote_fx_or_zero (some m) = m
  remote_fx_or_zero none = record {
    fps = none;
    quality_percent = none;
    encode_time_ms = none;
    rtt_ms = none;
    loss_percent = none;
    server_skipped_fps = none;
    network_skipped_fps = none;
  }

  -- The columns that insertSessionRow binds.
  unfoldable pub session_row : Text → SessionRecord F → Text → CurrentSession F
  session_row host s json = record {
    canonical_host = host;
    session_id = s.session_id;
    logon_at_ms = s.logon_at_ms;
    user_name = s.user;
    domain_name = s.domain;
    state = s.state;
    station = s.station;
    client_name = s.client_name;
    client_address = s.client_address;
    connect_at_ms = s.connect_at_ms;
    disconnect_at_ms = s.disconnect_at_ms;
    idle_since_ms = s.idle_since_ms;
    cpu_percent = s.cpu_percent;
    working_set_bytes = s.working_set_bytes;
    input_delay_ms = s.input_delay_ms;
    remotefx_fps = (remote_fx_or_zero s.remote_fx).fps;
    remotefx_quality_pct = (remote_fx_or_zero s.remote_fx).quality_percent;
    remotefx_encode_ms = (remote_fx_or_zero s.remote_fx).encode_time_ms;
    remotefx_rtt_ms = (remote_fx_or_zero s.remote_fx).rtt_ms;
    remotefx_loss_pct = (remote_fx_or_zero s.remote_fx).loss_percent;
    remotefx_server_skip = (remote_fx_or_zero s.remote_fx).server_skipped_fps;
    remotefx_network_skip = (remote_fx_or_zero s.remote_fx).network_skipped_fps;
    processes_json = json;
  }

  abbrev pub add_row :
      Option (CurrentSession F)
      → Option (List (CurrentSession F))
      → Option (List (CurrentSession F))
  add_row none rows = none
  add_row (some r) none = none
  add_row (some r) (some rs) = some (r ∷ rs)

  abbrev pub with_json : Text → SessionRecord F → Option Text → Option (CurrentSession F)
  with_json host s none = none
  with_json host s (some json) = some (session_row host s json)

  -- The loop of insertSessionRow: none where the processes of a session cannot be encoded.
  unfoldable pub session_rows :
      StoreEnv F → Text → List (SessionRecord F) → Option (List (CurrentSession F))
  unfolding session_row
  session_rows env host [] = some []
  session_rows env host (s ∷ ss) =
      add_row (with_json host s (env.marshal s.processes)) (session_rows env host ss)

  abbrev pub session_of : Text → CurrentSession F → Bool
  session_of host r = bytes_equal r.canonical_host host
