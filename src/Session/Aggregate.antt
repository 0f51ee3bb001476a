-- ===== src/Session/Aggregate.antt =====
-- Counts over the sessions of a snapshot (CalculateAggregates of internal/sessiondata/model.go).
pub mod Bounds
pub mod Exact
use lisstech_drain_ctl.Prelude.{
  ℕ, ◌+◌, Bool, true, false, Option, none, some, List, [], ◌∷◌, ◌++◌, if◌then◌else◌, length,
}
use lisstech_drain_ctl.Prelude.Int.{ℤ, ltb_ℤ}
use lisstech_drain_ctl.Prelude.Rows.{any_row}
use lisstech_drain_ctl.Prelude.Bytes.{bytes_equal}
use lisstech_drain_ctl.Session.{
  Text, SessionState, session_active, session_connected, session_idle, session_disconnected,
  SessionRecord, Visibility, visibility_hidden,
}

pub record SessionAggregates : Type 0 where
  pub session_count : ℕ
  pub active_count : ℕ
  pub idle_count : ℕ
  pub disconnected_count : ℕ
  pub user_count : ℕ
  pub last_activity_at_ms : Option ℤ

-- The loop state: the result, and the keys of the map of users.
pub record Tally : Type 0 where
  pub result : SessionAggregates
  pub users : List Text

-- The switch on the state.
unfoldable pub count_state : SessionState → SessionAggregates → SessionAggregates
count_state session_active a = record a { active_count = a.active_count + 1 }
count_state session_connected a = record a { active_count = a.active_count + 1 }
count_state session_idle a = record a { idle_count = a.idle_count + 1 }
count_state session_disconnected a = record a { disconnected_count = a.disconnected_count + 1 }
count_state _ a = a

-- `*session.User+"\x00"+*session.Domain`
abbrev pub user_key : Text → Text → Text
user_key user domain = user ++ 0 ∷ domain

abbrev pub add_key : Text → List Text → List Text
add_key key keys = if any_row (bytes_equal key) keys then keys else key ∷ keys

unfoldable pub add_user : Option Text → Option Text → List Text → List Text
add_user (some user) (some domain) keys = add_key (user_key user domain) keys
add_user none domain keys = keys
add_user (some user) none keys = keys

-- One round of the loop over the times of a session.
unfoldable pub later_of : Option ℤ → Option ℤ → Option ℤ
later_of none last = last
later_of (some t) none = some t
later_of (some t) (some last) = if ltb_ℤ last t then some t else some last

abbrev pub no_tally : ℕ → Tally
no_tally n = record {
  result = record {
    session_count = n;
    active_count = 0;
    idle_count = 0;
    disconnected_count = 0;
    user_count = 0;
    last_activity_at_ms = none;
  };
  users = [];
}

abbrev pub with_users : Tally → SessionAggregates
with_users t = record t.result { user_count = length t.users }

abbrev pub is_hidden : Visibility → Bool
is_hidden visibility_hidden = true
is_hidden _ = false

abbrev pub without_users : SessionAggregates → SessionAggregates
without_users a = record a { user_count = 0 }

module _ {F : Type 0} where
  abbrev pub latest : SessionRecord F → Option ℤ → Option ℤ
  latest s last = later_of s.logon_at_ms (later_of s.connect_at_ms (later_of s.idle_since_ms last))

  -- One round of the loop over the sessions.
  unfoldable pub tally_session : SessionRecord F → Tally → Tally
  unfolding count_state add_user later_of
  tally_session s t = record {
    result = record (count_state s.state t.result) {
      last_activity_at_ms = latest s (count_state s.state t.result).last_activity_at_ms;
    };
    users = add_user s.user s.domain t.users;
  }

  unfoldable pub tally : List (SessionRecord F) → Tally → Tally
  unfolding tally_session
  tally [] t = t
  tally (s ∷ ss) t = tally ss (tally_session s t)

  -- CalculateAggregates
  unfoldable pub calculate_aggregates : List (SessionRecord F) → SessionAggregates
  unfolding tally
  calculate_aggregates ss = with_users (tally ss (no_tally (length ss)))

  -- CalculateAggregatesForIdentity
  unfoldable pub aggregates_for_identity : Visibility → List (SessionRecord F) → SessionAggregates
  unfolding calculate_aggregates
  aggregates_for_identity identity ss =
      if is_hidden identity
      then without_users (calculate_aggregates ss)
      else calculate_aggregates ss
