-- ===== src/Freshness/Once.antt =====
-- The offline transition of a report epoch is announced once.
use lisstech_drain_ctl.Prelude.{
  String, Bool, true, false, ◌≡◌, ◌≢◌, refl, sym, ap, ◌∙◌, inl, inr, ◌⊎◌, Option, none, some, List,
  [], arith, Bool-cases, str_eq, str_eq→eq, str_eq_refl, some_inj,
}
use mathlib.Core.Path.{subst}
use mathlib.Core.Bool.{false≢true}
use lisstech_drain_ctl.Prelude.Int.{
  ℤ, ◌≤ℤ◌, ◌<ℤ◌, pos, ltb_ℤ, ltb_ℤ→lt, ltb_ℤ→ge, lt→ltb_ℤ, eqb_ℤ_iff, eq_of_parts,
}
use lisstech_drain_ctl.Prelude.Rows.{find_row, find_row-test, update_where}
use lisstech_drain_ctl.Prelude.Find.{find_row-update_matching, delete_where-other}
use lisstech_drain_ctl.Freshness.{
  HostNames, ServerRow, FreshnessRow, Db, is_set, is_host, is_current, marker, freshness_row,
  writes, after_load, transition, mark_offline, mark_fresh, remove,
}

module _ (names : HostNames) (h : String) (e : ℤ) where
  abbrev row_of : Db → Option FreshnessRow
  row_of db = find_row (is_host names h) db.freshness

  -- The row is past the epoch, or at it with the marker set.
  abbrev Past : FreshnessRow → Type 0
  Past r =
      (e <ℤ r.report_epoch_ms) ⊎ ((r.report_epoch_ms ≡ e) × (is_set r.offline_emitted_at_ms ≡ true))

  -- The offline transition of the epoch has been announced, or a later epoch has begun.
  abbrev pub Announced : Db → Type 0
  Announced db = (r : FreshnessRow) × (row_of db ≡ some r) × Past r

  strictly_later : (a : ℤ) → e ≤ℤ a → a ≢ e → e <ℤ a
  strictly_later a le other = elim (Bool-cases (ltb_ℤ e a)) [
    | inl t ↦ ltb_ℤ→lt e a t
    | inr t ↦
        let ge : a ≤ℤ e = ltb_ℤ→ge e a t in absurd (other (eq_of_parts a e (omega (arith, ge, le))))
  ]

  -- A write to a row past the epoch leaves a later one.
  written_later :
      (epoch : ℤ) (offline : Bool) (r : FreshnessRow)
      → Past r
      → writes epoch offline r ≡ true
      → (offline ≡ false → epoch ≢ e)
      → e <ℤ epoch
  unfolding writes
  written_later epoch offline r past wrote other =
      let le : r.report_epoch_ms ≤ℤ epoch = ltb_ℤ→ge epoch r.report_epoch_ms (ground arith) in
      elim past [
        | inl later ↦ omega (arith, later, le)
        | inr (at, set) ↦
            strictly_later epoch (subst (λ z. z ≤ℤ epoch) at le) (elim (Bool-cases offline) [
              | inl down ↦ λ same.
                  absurd (ground (arith, (eqb_ℤ_iff epoch r.report_epoch_ms).1 (same ∙ sym at)))
              | inr up ↦ other up
            ])
      ]

  same_query :
      (host : String) (xs : List FreshnessRow)
      → names.nocase host ≡ names.nocase h
      → find_row (is_host names host) xs ≡ find_row (is_host names h) xs
  same_query host xs same = ap (λ k. find_row (λ r. str_eq (names.nocase r.host) k) xs) same

  not_shown :
      (host : String) (r : FreshnessRow) (epoch : ℤ) (mark : Option ℤ) (xs : List FreshnessRow)
      → find_row (is_host names host) xs ≡ none
      → row_of (record { servers = []; freshness = xs }) ≡ some r
      → is_host names h (freshness_row host epoch mark) ≡ false
  not_shown host r epoch mark xs missing found =
      elim (Bool-cases (is_host names h (freshness_row host epoch mark))) [
        | inl t ↦
            let same = str_eq→eq (names.nocase host) (names.nocase h) t in
            absurd (none≢some r (sym missing ∙ same_query host xs same ∙ found))
        | inr t ↦ t
      ]
    where
      none≢some : (x : FreshnessRow) → ¬ (none ≡ some x)
      none≢some x p = cc

  -- What a transition leaves of an announced epoch.
  load-Announced :
      (host : String) (epoch at : ℤ) (offline : Bool) (s : Db) (loaded : Option FreshnessRow)
      → find_row (is_host names host) s.freshness ≡ loaded
      → (offline ≡ false → names.nocase host ≡ names.nocase h → epoch ≢ e)
      → Announced s
      → Announced (after_load names host epoch at offline s loaded).0
  unfolding after_load
  load-Announced host epoch at offline s none missing other (r, found, past) = (
    r,
    unfold find_row in
        rw (not_shown host r epoch (marker at offline) s.freshness missing found) found,
    past,
  )
  load-Announced host epoch at offline s (some q) loaded other (r, found, past) =
      elim (Bool-cases (writes epoch offline q)) [
        | inl w ↦ rw w (written r found past (Bool-cases (is_host names host r)) w)
        | inr w ↦ rw w (r, found, past)
      ]
    where
      write : FreshnessRow → FreshnessRow
      write x = freshness_row host epoch (marker at offline)

      seen_the_same :
          (x : FreshnessRow)
          → is_host names host x ≡ true
          → is_host names h (write x) ≡ is_host names h x
      seen_the_same x t = rw (str_eq→eq (names.nocase x.host) (names.nocase host) t)

      written :
          (r : FreshnessRow)
          → row_of s ≡ some r
          → Past r
          → ((is_host names host r ≡ true) ⊎ (is_host names host r ≡ false))
          → writes epoch offline q ≡ true
          → (x : FreshnessRow) × (find_row
                (is_host names h)
                (update_where (is_host names host) write s.freshness)
              ≡ some x)
            × Past x
      written r found past (inl m) w =
          let same : names.nocase host ≡ names.nocase h =
            sym (str_eq→eq (names.nocase r.host) (names.nocase host) m)
            ∙ str_eq→eq (names.nocase r.host) (names.nocase h)
                (find_row-test (is_host names h) s.freshness found) in
          let one : q ≡ r = some_inj (sym loaded ∙ same_query host s.freshness same ∙ found) in
          (
            write r,
            find_row-update_matching (is_host names h) (is_host names host) write s.freshness
                  seen_the_same found
                ∙ rw m,
            inl (
                written_later epoch offline r past (ap (writes epoch offline) (sym one) ∙ w)
                  (λ o. other o same)),
          )
      written r found past (inr m) w = (
        r,
        find_row-update_matching (is_host names h) (is_host names host) write s.freshness
              seen_the_same found
            ∙ rw m,
        past,
      )

  transition-Announced :
      (host : String) (epoch at : ℤ) (offline : Bool) (s : Db)
      → (offline ≡ false → names.nocase (names.canonical host) ≡ names.nocase h → epoch ≢ e)
      → Announced s
      → Announced (transition names host epoch at offline s).0
  unfolding transition
  transition-Announced host epoch at offline s other announced =
      elim (Bool-cases (is_current names (names.canonical host) epoch offline s)) [
        | inl c ↦
            rw c (load-Announced (names.canonical host) epoch at offline s _ refl other announced)
        | inr c ↦ rw c announced
      ]

  -- What can happen to the store of freshness between two checks of the host: offline checks of any
  -- host and any epoch, reports except the one of this very epoch, the removal of other hosts, and any
  -- change to the servers table.
  pub data Event (s t : Db) : Type 0 where
    checks :
        (host : String) (epoch now : ℤ) → t ≡ (mark_offline names host epoch now s).0 → Event s t
    reports :
        (host : String) (epoch : ℤ)
        → (names.nocase (names.canonical host) ≡ names.nocase h → epoch ≢ e)
        → t ≡ (mark_fresh names host epoch s).0
        → Event s t
    removes :
        (host : String)
        → names.nocase (names.canonical host) ≢ names.nocase h
        → t ≡ (remove names host s).0
        → Event s t
    updates : (rows : List ServerRow) → t ≡ record s { servers = rows } → Event s t

  pub data Events (s : Db) : Db → Type 0 where
    here : Events s s
    next : {t u : Db} → Events s t → Event t u → Events s u

  remove-Announced :
      (host : String) (s : Db)
      → names.nocase (names.canonical host) ≢ names.nocase h
      → Announced s
      → Announced (remove names host s).0
  unfolding remove
  remove-Announced host s other (r, found, past) = (
    r,
    delete_where-other (is_host names h) (is_host names (names.canonical host)) s.freshness differ
        found,
    past,
  )
    where
      differ :
          (x : FreshnessRow)
          → is_host names h x ≡ true
          → is_host names (names.canonical host) x ≡ false
      differ x t = elim (Bool-cases (is_host names (names.canonical host) x)) [
        | inl u ↦ absurd (
            other (
              sym (str_eq→eq (names.nocase x.host) (names.nocase (names.canonical host)) u)
              ∙ str_eq→eq (names.nocase x.host) (names.nocase h) t))
        | inr u ↦ u
      ]

  Event-Announced : {s t : Db} → Event s t → Announced s → Announced t
  Event-Announced {s} (checks host epoch now is) a = subst Announced (sym is) (
      unfold mark_offline in
      transition-Announced host epoch now true s (λ o. absurd (false≢true (sym o))) a)
  Event-Announced {s} (reports host epoch other is) a =
      subst Announced (sym is)
        (unfold mark_fresh in transition-Announced host epoch (pos 0) false s (λ o. other) a)
  Event-Announced {s} (removes host other is) a =
      subst Announced (sym is) (remove-Announced host s other a)
  Event-Announced {s} (updates rows is) a = subst Announced (sym is) a

  Events-Announced : {s t : Db} → Events s t → Announced s → Announced t
  Events-Announced here a = a
  Events-Announced (next before event) a = Event-Announced event (Events-Announced before a)

module _ (names : HostNames) (host : String) (e : ℤ) where
  abbrev Down : Db → Type 0
  Down = Announced names (names.canonical host) e

  first-Announced :
      (now : ℤ) (s : Db) (loaded : Option FreshnessRow)
      → find_row (is_host names (names.canonical host)) s.freshness ≡ loaded
      → (after_load names (names.canonical host) e now true s loaded).1 ≡ true
      → Down (after_load names (names.canonical host) e now true s loaded).0
  unfolding after_load
  first-Announced now s none loaded told = (
    freshness_row (names.canonical host) e (some now),
    unfold find_row in rw (str_eq_refl (names.nocase (names.canonical host))),
    inr (refl, refl),
  )
  first-Announced now s (some q) loaded told = elim (Bool-cases (writes e true q)) [
    | inl w ↦ rw w (
      freshness_row (names.canonical host) e (some now),
      find_row-update_matching (is_host names (names.canonical host))
            (is_host names (names.canonical host))
            (λ x. freshness_row (names.canonical host) e (some now)) s.freshness
            (λ x t. str_eq_refl (names.nocase (names.canonical host)) ∙ sym t) loaded
          ∙ rw (find_row-test (is_host names (names.canonical host)) s.freshness loaded),
      inr (refl, refl),
    )
    | inr w ↦ absurd (false≢true (rw w at told))
  ]

  transition-first :
      (now : ℤ) (s : Db)
      → (mark_offline names host e now s).1 ≡ true
      → Down (mark_offline names host e now s).0
  unfolding mark_offline transition
  transition-first now s told =
      elim (Bool-cases (is_current names (names.canonical host) e true s)) [
        | inl c ↦ rw c (first-Announced now s _ refl (rw c at told))
        | inr c ↦ absurd (false≢true (rw c at told))
      ]

  Past-writes : (r : FreshnessRow) → Past names (names.canonical host) e r → writes e true r ≡ false
  unfolding writes
  Past-writes r (inl later) = rw (lt→ltb_ℤ e r.report_epoch_ms later)
  Past-writes r (inr (at, set)) = ground (arith, set, (eqb_ℤ_iff e r.report_epoch_ms).1 (sym at))

  Announced-silent : (now : ℤ) (s : Db) → Down s → (mark_offline names host e now s).1 ≡ false
  unfolding mark_offline transition after_load
  Announced-silent now s (r, found, past) =
      elim (Bool-cases (is_current names (names.canonical host) e true s)) [
        | inl c ↦ rw (c, found, after_load, Past-writes r past)
        | inr c ↦ rw c
      ]

  -- Once a check has announced that the host went offline at a report epoch, no later check announces
  -- it again for that epoch, whatever happens in between, except that the host is removed or that a
  -- report of this very epoch marks it fresh.
  pub offline_once :
      (now later : ℤ) (s : Db) {t : Db}
      → (mark_offline names host e now s).1 ≡ true
      → Events names (names.canonical host) e (mark_offline names host e now s).0 t
      → (mark_offline names host e later t).1 ≡ false
  offline_once now later s {t} told events =
      Announced-silent later t
        (Events-Announced names (names.canonical host) e events (transition-first now s told))
