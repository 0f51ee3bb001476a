-- ===== src/Session/Aggregate/Bounds.antt =====
-- The last activity of a snapshot is that of its sessions.
use lisstech_drain_ctl.Prelude.{
  ◌≡◌, ◌⊎◌, refl, sym, ◌∙◌, Option, none, some, List, [], ◌∷◌, arith, inl, inr, length, Bool-cases,
}
use mathlib.Core.Path.{subst}
use lisstech_drain_ctl.Prelude.Int.{ℤ, ◌≤ℤ◌, ltb_ℤ, ltb_ℤ→lt, ltb_ℤ→ge}
use lisstech_drain_ctl.Prelude.Rows.{All, Any}
use lisstech_drain_ctl.Session.{
  SessionState, session_active, session_connected, session_connect_query, session_shadow,
  session_idle, session_disconnected, session_listen, session_reset, session_down, session_init,
  session_unknown, other_state, SessionRecord, Visibility,
}
use lisstech_drain_ctl.Session.Aggregate.{
  SessionAggregates, Tally, count_state, later_of, latest, tally_session, tally, no_tally,
  calculate_aggregates, aggregates_for_identity, is_hidden,
}

count_state-last :
    (s : SessionState) (a : SessionAggregates)
    → (count_state s a).last_activity_at_ms ≡ a.last_activity_at_ms
unfolding count_state
count_state-last session_active a = refl
count_state-last session_connected a = refl
count_state-last session_idle a = refl
count_state-last session_disconnected a = refl
count_state-last session_connect_query a = refl
count_state-last session_shadow a = refl
count_state-last session_listen a = refl
count_state-last session_reset a = refl
count_state-last session_down a = refl
count_state-last session_init a = refl
count_state-last session_unknown a = refl
count_state-last (other_state t) a = refl

-- `t` is in, and at most the latest.
abbrev pub AtMost : Option ℤ → Option ℤ → Type 0
AtMost none last = Unit
AtMost (some t) none = ⊥
AtMost (some t) (some last) = t ≤ℤ last

later_of-AtMost : (t last : Option ℤ) → AtMost t (later_of t last) × AtMost last (later_of t last)
unfolding later_of
later_of-AtMost none none = (tt, tt)
later_of-AtMost none (some l) = (tt, omega arith)
later_of-AtMost (some t) none = (omega arith, tt)
later_of-AtMost (some t) (some l) = elim (Bool-cases (ltb_ℤ l t)) [
  | inl e ↦ rw e (omega arith, omega (arith, ltb_ℤ→lt l t e))
  | inr e ↦ rw e (omega (arith, ltb_ℤ→ge l t e), omega arith)
]

later_of-one : (t last : Option ℤ) → (later_of t last ≡ t) ⊎ (later_of t last ≡ last)
unfolding later_of
later_of-one none last = inr refl
later_of-one (some t) none = inl refl
later_of-one (some t) (some l) = elim (Bool-cases (ltb_ℤ l t)) [
  | inl e ↦ inl (rw e)
  | inr e ↦ inr (rw e)
]

AtMost-refl : (a : Option ℤ) → AtMost a a
AtMost-refl none = tt
AtMost-refl (some t) = omega arith

AtMost-trans : (a b c : Option ℤ) → AtMost a b → AtMost b c → AtMost a c
AtMost-trans none b c h k = tt
AtMost-trans (some x) none c h k = absurd h
AtMost-trans (some x) (some y) none h k = k
AtMost-trans (some x) (some y) (some z) h k = omega arith

module _ {F : Type 0} where
  -- The times that count as activity of the session are at most `last`.
  abbrev pub ActiveUntil : Option ℤ → SessionRecord F → Type 0
  ActiveUntil last s =
      AtMost s.idle_since_ms last × AtMost s.connect_at_ms last × AtMost s.logon_at_ms last

  -- One of them is `last`.
  abbrev pub ActiveAt : Option ℤ → SessionRecord F → Type 0
  ActiveAt last s = (last ≡ s.idle_since_ms) ⊎ (last ≡ s.connect_at_ms) ⊎ (last ≡ s.logon_at_ms)

  ActiveUntil-later :
      (a b : Option ℤ) (s : SessionRecord F) → ActiveUntil a s → AtMost a b → ActiveUntil b s
  ActiveUntil-later a b s (i, c, l) h =
      (AtMost-trans _ a b i h, AtMost-trans _ a b c h, AtMost-trans _ a b l h)

  latest-AtMost :
      (s : SessionRecord F) (last : Option ℤ)
      → ActiveUntil (latest s last) s × AtMost last (latest s last)
  latest-AtMost s last =
      let i = later_of s.idle_since_ms last in
      let c = later_of s.connect_at_ms i in
      let (i0, i1) = later_of-AtMost s.idle_since_ms last in
      let (c0, c1) = later_of-AtMost s.connect_at_ms i in
      let (l0, l1) = later_of-AtMost s.logon_at_ms c in
      let up = AtMost-trans i c (latest s last) c1 l1 in
      ((AtMost-trans _ i _ i0 up, AtMost-trans _ c _ c0 l1, l0), AtMost-trans last i _ i1 up)

  latest-one :
      (s : SessionRecord F) (last : Option ℤ) → ActiveAt (latest s last) s ⊎ (latest s last ≡ last)
  latest-one s last =
      let i = later_of s.idle_since_ms last in
      let c = later_of s.connect_at_ms i in
      elim (later_of-one s.logon_at_ms c) [
        | inl e ↦ inl (inr (inr e))
        | inr e ↦ elim (later_of-one s.connect_at_ms i) [
          | inl f ↦ inl (inr (inl (e ∙ f)))
          | inr f ↦ elim (later_of-one s.idle_since_ms last) [
            | inl g ↦ inl (inl (e ∙ f ∙ g))
            | inr g ↦ inr (e ∙ f ∙ g)
          ]
        ]
      ]

  -- The tally ends at a time that is at least the one it had and each time of its sessions, and one of them.
  tally-last :
      (ss : List (SessionRecord F)) (t : Tally)
      → AtMost t.result.last_activity_at_ms (tally ss t).result.last_activity_at_ms
        × All (ActiveUntil (tally ss t).result.last_activity_at_ms) ss
        × (Any (ActiveAt (tally ss t).result.last_activity_at_ms) ss
            ⊎ ((tally ss t).result.last_activity_at_ms ≡ t.result.last_activity_at_ms))
  unfolding tally tally_session
  tally-last [] t = (AtMost-refl t.result.last_activity_at_ms, tt, inr refl)
  tally-last (s ∷ ss) t =
      let (up, later, from) = tally-last ss (tally_session s t) in
      let same = count_state-last s.state t.result in
      let old = (count_state s.state t.result).last_activity_at_ms in
      let (here, past) = latest-AtMost s old in
      let end = (tally ss (tally_session s t)).result.last_activity_at_ms in
      (
        AtMost-trans _ _ _ (subst (λ a. AtMost a (latest s old)) same past) up,
        (ActiveUntil-later (latest s old) end s here up, later),
        elim from [
          | inl h ↦ inl (inr h)
          | inr e ↦ elim (latest-one s old) [
            | inl h ↦ inl (inl (subst (λ a. ActiveAt a s) (sym e) h))
            | inr h ↦ inr (e ∙ h ∙ same)
          ]
        ],
      )

  -- Whatever the policy, the last activity of a snapshot is at least the idle, connect and logon time of
  -- each of its sessions, and is one of them unless there is none.
  pub last_activity_latest :
      (identity : Visibility) (ss : List (SessionRecord F))
      → All (ActiveUntil (aggregates_for_identity identity ss).last_activity_at_ms) ss
        × (Any (ActiveAt (aggregates_for_identity identity ss).last_activity_at_ms) ss
            ⊎ ((aggregates_for_identity identity ss).last_activity_at_ms ≡ none))
  unfolding aggregates_for_identity calculate_aggregates
  last_activity_latest identity ss =
      let (up, later, from) = tally-last ss (no_tally (length ss)) in
      elim (Bool-cases (is_hidden identity)) [
        | inl e ↦ rw e (later, from)
        | inr e ↦ rw e (later, from)
      ]
