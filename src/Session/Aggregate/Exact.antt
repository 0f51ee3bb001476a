-- ===== src/Session/Aggregate/Exact.antt =====
-- The counts of a snapshot are those of its sessions.
use lisstech_drain_ctl.Prelude.{
  ℕ, ◌+◌, ◌≡◌, ◌≢◌, ◌⊎◌, ◌↔◌, Option, some, List, [], ◌∷◌, ◌++◌, length,
}
use lisstech_drain_ctl.Prelude.Rows.{Any}
use lisstech_drain_ctl.Prelude.Distinct.{Distinct}
use lisstech_drain_ctl.Session.{
  Text, SessionState, session_active, session_connected, session_idle, session_disconnected,
  SessionRecord, Visibility, visibility_hidden,
}
use lisstech_drain_ctl.Session.Aggregate.{SessionAggregates}

-- Sessions that are active or connected, that are idle, and that are disconnected.
abbrev pub in_use : SessionState → ℕ
in_use session_active = 1
in_use session_connected = 1
in_use _ = 0

abbrev pub in_idle : SessionState → ℕ
in_idle session_idle = 1
in_idle _ = 0

abbrev pub in_disconnect : SessionState → ℕ
in_disconnect session_disconnected = 1
in_disconnect _ = 0

abbrev pub Listed : Text → List Text → Type 0
Listed k keys = Any (λ j. k ≡ j) keys

-- The name of a user with a domain: the two texts with a NUL between them.
abbrev pub Names : Option Text → Option Text → Text → Type 0
Names user domain k =
    (u : Text) × (d : Text) × (user ≡ some u) × (domain ≡ some d) × (k ≡ u ++ (0 ∷ d))

-- `after` has each of the keys `before`, and the new ones, once.
record Adds (New : Text → Type 0) (before after : List Text) : Type 0 where
  once : Distinct before → Distinct after
  kept : (k : Text) → Listed k before → Listed k after
  added : (k : Text) → New k → Listed k after
  only : (k : Text) → Listed k after → Listed k before ⊎ New k

module _ {F : Type 0} where
  abbrev pub count_in : (SessionState → ℕ) → List (SessionRecord F) → ℕ
  count_in in_state [] = 0
  count_in in_state (s ∷ ss) = in_state s.state + count_in in_state ss

  -- One of the sessions has the user and the domain that the key names.
  abbrev pub NamedBy : List (SessionRecord F) → Text → Type 0
  NamedBy ss k = Any (λ s. Names s.user s.domain k) ss

  -- The counts by state are the numbers of sessions in these states. The number of users is 0 where the
  -- identity is hidden, and else that of the different pairs of a user and a domain that sessions have.
  pub record IsExact (identity : Visibility) (ss : List (SessionRecord F)) (a : SessionAggregates)
      : Type 0 where
    pub sessions : a.session_count ≡ length ss
    pub active : a.active_count ≡ count_in in_use ss
    pub idle : a.idle_count ≡ count_in in_idle ss
    pub disconnected : a.disconnected_count ≡ count_in in_disconnect ss
    pub hidden : identity ≡ visibility_hidden → a.user_count ≡ 0
    pub users :
        identity ≢ visibility_hidden
        → (keys : List Text) × Distinct keys
          × ((k : Text) → Listed k keys ↔ NamedBy ss k)
          × (a.user_count ≡ length keys)
