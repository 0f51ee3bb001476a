-- ===== src/Session/Compact/Keeps.antt =====
-- Compaction keeps every session.
use lisstech_drain_ctl.Prelude.{
  ℕ, ◌≤◌, ◌≡◌, refl, ◌∙◌, Option, some, List, [], ◌∷◌, map, arith, inl, inr, ltb, leb, length,
  Bool-cases, Option-cases,
}
use mathlib.Core.Path.{subst}
use lisstech_drain_ctl.Prelude.Int.{ℤ}
use lisstech_drain_ctl.Session.{SessionState, SessionRecord, SessionSnapshot}
use lisstech_drain_ctl.Session.Compact.{
  max_sessions, max_snapshot_bytes, Stage, compacted, too_many_sessions, marshal_failed, too_large,
  continued, each_session, and_then, clears, truncate_identity, measured, clear_loop,
  truncate_stage, compact,
}

-- What names a session: its identifier, its logon time and its state.
pub record Core : Type 0 where
  pub session_id : ℕ
  pub logon_at_ms : Option ℤ
  pub state : SessionState

module _ {F : Type 0} where
  abbrev pub core : SessionRecord F → Core
  core s = record { session_id = s.session_id; logon_at_ms = s.logon_at_ms; state = s.state }

  -- `t` has the sessions of `s`, in order, and all of `s` but details of its sessions.
  pub record Keeps (s t : SessionSnapshot F) : Type 0 where
    pub sessions : map core t.sessions ≡ map core s.sessions
    pub rest : record t { sessions = s.sessions } ≡ s

  map-core :
      (f : SessionRecord F → SessionRecord F)
      → ((r : SessionRecord F) → core (f r) ≡ core r)
      → (rs : List (SessionRecord F)) → map core (map f rs) ≡ map core rs
  map-core f same [] = refl
  map-core f same (r ∷ rs) = rw (same r, map-core f same rs)

  Keeps-refl : (s : SessionSnapshot F) → Keeps s s
  Keeps-refl s = record { sessions = refl; rest = refl }

  Keeps-each :
      (f : SessionRecord F → SessionRecord F) (s t : SessionSnapshot F)
      → ((r : SessionRecord F) → core (f r) ≡ core r)
      → Keeps s t
      → Keeps s (each_session f t)
  Keeps-each f s t same k = record {
    sessions = map-core f same t.sessions ∙ k.sessions;
    rest = k.rest;
  }

  module _ (size : SessionSnapshot F → Option ℕ) (s : SessionSnapshot F) where
    -- The snapshot fits, and has the sessions of `s`.
    pub record Fits (t : SessionSnapshot F) : Type 0 where
      pub bytes : ℕ
      pub sized : size t ≡ some bytes
      pub bounded : bytes ≤ max_snapshot_bytes
      pub keeps : Keeps s t

    abbrev Good : Stage F → Type 0
    Good (compacted t) = Fits t
    Good (continued t) = Keeps s t
    Good _ = Unit

    measured-Good : (t : SessionSnapshot F) → Keeps s t → Good (measured size t)
    measured-Good t k = elim (Option-cases (size t)) [
      | inl e ↦ rw e tt
      | inr (n, e) ↦ elim (Bool-cases (leb n max_snapshot_bytes)) [
        | inl l ↦ rw (e, l) (record { bytes = n; sized = e; bounded = ground arith; keeps = k })
        | inr l ↦ rw (e, l) k
      ]
    ]

    abbrev SameCore : List (SessionRecord F → SessionRecord F) → Type 0
    SameCore [] = Unit
    SameCore (f ∷ fs) = ((r : SessionRecord F) → core (f r) ≡ core r) × SameCore fs

    and_then-Good :
        (r : Stage F) (next : SessionSnapshot F → Stage F)
        → Good r
        → ((t : SessionSnapshot F) → Keeps s t → Good (next t))
        → Good (and_then r next)
    unfolding and_then
    and_then-Good (continued t) next g n = n t g
    and_then-Good (compacted t) next g n = g
    and_then-Good too_many_sessions next g n = tt
    and_then-Good marshal_failed next g n = tt
    and_then-Good too_large next g n = tt

    clear_loop-Good :
        (fs : List (SessionRecord F → SessionRecord F)) (t : SessionSnapshot F)
        → SameCore fs
        → Keeps s t
        → Good (clear_loop size fs t)
    unfolding clear_loop
    clear_loop-Good [] t same k = k
    clear_loop-Good (f ∷ fs) t same k =
        and_then-Good _ _ (measured-Good _ (Keeps-each f s t same.0 k))
          (λ u. clear_loop-Good fs u same.1)

    clears-SameCore : SameCore clears
    clears-SameCore = (
      λ r. refl,
      (
        λ r. refl,
        (
          λ r. refl,
          (
            λ r. refl,
            (
              λ r. refl,
              (λ r. refl, (λ r. refl, (λ r. refl, (λ r. refl, (λ r. refl, (λ r. refl, tt)))))),
            ),
          ),
        ),
      ),
    )

    compact-Good : Good (compact size s)
    unfolding compact
    compact-Good = elim (Bool-cases (ltb max_sessions (length s.sessions))) [
      | inl e ↦ rw e tt
      | inr e ↦ rw e (
          and_then-Good (measured size s) _ (measured-Good s (Keeps-refl s)) λ t k.
            and_then-Good (clear_loop size clears t) _ (clear_loop-Good clears t clears-SameCore k)
              λ u l.
                and_then-Good (truncate_stage size u) _
                  (measured-Good _ (Keeps-each truncate_identity s u (λ r. refl) l)) (λ v m. tt))
    ]

    -- A snapshot that is compacted fits the limit of the wire, and has every session of the given one, in
    -- order, with its identifier, its logon time and its state, and all that is not a detail of a session.
    pub compact-Fits : (t : SessionSnapshot F) → compact size s ≡ compacted t → Fits t
    compact-Fits t e = subst Good e compact-Good
