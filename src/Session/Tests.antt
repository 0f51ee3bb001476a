-- ===== src/Session/Tests.antt =====
-- A snapshot with one session, and the theorems of this part at it.
use lisstech_drain_ctl.Prelude.{
  ℕ, ◌≤◌, ◌<◌, ◌≡◌, ◌⊎◌, refl, false, true, Option, none, some, List, [], ◌∷◌,
}
use lisstech_drain_ctl.Prelude.Int.{pos}
use lisstech_drain_ctl.Prelude.Rows.{All, Any}
use lisstech_drain_ctl.Session.{
  Text, SessionProcess, SessionRecord, SessionSnapshot, session_active, visibility_full,
  visibility_masked, PrivacyPolicy,
}
use lisstech_drain_ctl.Session.Project.{AlikeSession, project_snapshot, project_snapshot-alike}
use lisstech_drain_ctl.Session.Compact.{compacted, clear_loop, compact, truncate_text}
use lisstech_drain_ctl.Session.Compact.Keeps.{Fits, compact-Fits}
use lisstech_drain_ctl.Session.Compact.Cut.{IsCut, Continues, truncate_text-IsCut}
use lisstech_drain_ctl.Session.Aggregate.{aggregates_for_identity}
use lisstech_drain_ctl.Session.Aggregate.Bounds.{ActiveUntil, ActiveAt, last_activity_latest}

abbrev editor : SessionProcess ℕ
editor = record { pid = 9; image_name = 101 ∷ []; cpu_percent = some 3; working_set_bytes = 5 }

abbrev alice : SessionRecord ℕ
alice = record {
  session_id = 2;
  logon_at_ms = some (pos 1000);
  user = some (97 ∷ 108 ∷ []);
  domain = some (100 ∷ []);
  state = session_active;
  station = none;
  client_name = none;
  client_address = none;
  connect_at_ms = some (pos 4000);
  disconnect_at_ms = none;
  idle_since_ms = none;
  cpu_percent = some 84;
  working_set_bytes = some 7;
  input_delay_ms = none;
  remote_fx = none;
  processes = editor ∷ [];
}

abbrev bob : SessionRecord ℕ
bob = record alice {
  user = some (98 ∷ []);
  domain = some (101 ∷ 102 ∷ []);
  processes = record editor { image_name = 122 ∷ [] } ∷ [];
}

abbrev of_session : SessionRecord ℕ → SessionSnapshot ℕ
of_session s = record {
  schema = [];
  host = 114 ∷ 100 ∷ [];
  agent_instance_id = [];
  sequence = 1;
  observed_at_ms = pos 0;
  collector_version = [];
  logical_cpu_count = 4;
  capabilities = record {
    session_actions = false;
    processes = true;
    input_delay = false;
    remote_fx = false;
  };
  collection_error = none;
  sessions = s ∷ [];
}

abbrev masked_names : PrivacyPolicy
masked_names = record {
  identity = visibility_masked;
  client = visibility_full;
  process = visibility_masked;
}

alice-like_bob : AlikeSession masked_names alice bob
alice-like_bob = record {
  shown = refl;
  user = refl;
  domain = refl;
  station = refl;
  client_name = refl;
  client_address = refl;
  processes = (refl, tt);
}

alice-project_snapshot-alike :
    project_snapshot masked_names (of_session alice)
    ≡ project_snapshot masked_names (of_session bob)
alice-project_snapshot-alike =
    project_snapshot-alike masked_names (of_session alice) (of_session bob) refl
      (alice-like_bob, tt)

-- A measure by which the share of the processor is what does not fit.
abbrev size_of : List (SessionRecord ℕ) → ℕ
size_of [] = 0
size_of (s ∷ ss) = size_of_cpu s.cpu_percent
  where
    size_of_cpu : Option ℕ → ℕ
    size_of_cpu none = 1000
    size_of_cpu (some c) = 600000

abbrev wire_size : SessionSnapshot ℕ → Option ℕ
wire_size s = some (size_of s.sessions)

abbrev without_cpu : SessionSnapshot ℕ
without_cpu = of_session (record alice { cpu_percent = none; processes = [] })

large-compact : compact wire_size (of_session alice) ≡ compacted without_cpu
unfolding compact clear_loop
large-compact = refl

large-compact-Fits : Fits wire_size (of_session alice) without_cpu
large-compact-Fits = compact-Fits wire_size (of_session alice) without_cpu large-compact

-- "aé", whose last two bytes are one code point.
abbrev accented : Text
accented = 97 ∷ 195 ∷ 169 ∷ []

accented-truncate_text-IsCut :
    (3 ≤ 2 → truncate_text 2 (some accented) ≡ some accented)
    × (2 < 3
        → ((t : Text) × (truncate_text 2 (some accented) ≡ some t) × IsCut 2 accented t)
          ⊎ ((truncate_text 2 (some accented) ≡ none)
              × ((i : ℕ) → 0 < i → i ≤ 2 → Continues accented i)))
accented-truncate_text-IsCut = truncate_text-IsCut 2 accented

two-last_activity_latest :
    All
      (ActiveUntil (aggregates_for_identity visibility_full (alice ∷ bob ∷ [])).last_activity_at_ms)
      (alice ∷ bob ∷ [])
    × (Any
          (ActiveAt
            (aggregates_for_identity visibility_full (alice ∷ bob ∷ [])).last_activity_at_ms)
          (alice ∷ bob ∷ [])
        ⊎ ((aggregates_for_identity visibility_full (alice ∷ bob ∷ [])).last_activity_at_ms ≡ none))
two-last_activity_latest = last_activity_latest visibility_full (alice ∷ bob ∷ [])
