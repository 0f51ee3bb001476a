-- ===== src/Session.antt =====
-- Session snapshots of a host (internal/sessiondata/model.go). Texts are their bytes; the numbers that the
-- collector measures are of an unknown type `F`.
pub mod Project
pub mod Compact
pub mod Aggregate
mod Tests
use lisstech_drain_ctl.Prelude.{ℕ, Bool, true, not, ◌||◌, Option, List, ◌==◌}
use lisstech_drain_ctl.Prelude.Int.{ℤ}

abbrev pub Text : Type 0
Text = List ℕ

-- SessionState: the constants, and any other text.
pub data SessionState : Type 0 where
  session_active session_connected session_connect_query session_shadow : SessionState
  session_disconnected session_idle session_listen session_reset : SessionState
  session_down session_init session_unknown : SessionState
  other_state : Text → SessionState

-- StateRank
unfoldable pub state_rank : SessionState → ℕ
state_rank session_active = 0
state_rank session_connected = 1
state_rank session_connect_query = 2
state_rank session_shadow = 3
state_rank session_disconnected = 4
state_rank session_idle = 5
state_rank session_listen = 6
state_rank session_reset = 7
state_rank session_down = 8
state_rank session_init = 9
state_rank session_unknown = 10
state_rank (other_state t) = 10

abbrev pub is_unknown : SessionState → Bool
is_unknown session_unknown = true
is_unknown _ = 0 == 1

-- SessionState.Valid
unfoldable pub state_valid : SessionState → Bool
unfolding state_rank
state_valid s = not (state_rank s == 10) || is_unknown s

pub record SessionCapabilities : Type 0 where
  pub session_actions : Bool
  pub processes : Bool
  pub input_delay : Bool
  pub remote_fx : Bool

pub record CollectionError : Type 0 where
  pub code : Text

pub record RemoteFxMetrics (F : Type 0) : Type 0 where
  pub fps : Option F
  pub quality_percent : Option F
  pub encode_time_ms : Option F
  pub rtt_ms : Option F
  pub loss_percent : Option F
  pub server_skipped_fps : Option F
  pub network_skipped_fps : Option F

pub record SessionProcess (F : Type 0) : Type 0 where
  pub pid : ℕ
  pub image_name : Text
  pub cpu_percent : Option F
  pub working_set_bytes : ℕ

pub record SessionRecord (F : Type 0) : Type 0 where
  pub session_id : ℕ
  pub logon_at_ms : Option ℤ
  pub user : Option Text
  pub domain : Option Text
  pub state : SessionState
  pub station : Option Text
  pub client_name : Option Text
  pub client_address : Option Text
  pub connect_at_ms : Option ℤ
  pub disconnect_at_ms : Option ℤ
  pub idle_since_ms : Option ℤ
  pub cpu_percent : Option F
  pub working_set_bytes : Option ℕ
  pub input_delay_ms : Option ℕ
  pub remote_fx : Option (RemoteFxMetrics F)
  pub processes : List (SessionProcess F)

pub record SessionSnapshot (F : Type 0) : Type 0 where
  pub schema : Text
  pub host : Text
  pub agent_instance_id : Text
  pub sequence : ℕ
  pub observed_at_ms : ℤ
  pub collector_version : Text
  pub logical_cpu_count : ℕ
  pub capabilities : SessionCapabilities
  pub collection_error : Option CollectionError
  pub sessions : List (SessionRecord F)

-- Visibility: the constants, and any other text.
pub data Visibility : Type 0 where
  visibility_full visibility_masked visibility_hidden : Visibility
  other_visibility : Text → Visibility

pub record PrivacyPolicy : Type 0 where
  pub identity : Visibility
  pub client : Visibility
  pub process : Visibility
