-- ===== src/Updater/Checked.antt =====
-- When the updater starts an installer.
use lisstech_drain_ctl.Prelude.{
  Bool, true, false, not, ◌&&◌, ◌≡◌, ◌⊎◌, inl, inr, refl, Option, none, some, List, [], ◌∷◌,
  Bool-cases, arith,
}
use mathlib.Core.Path.{subst}
use lisstech_drain_ctl.Prelude.Int.{ℤ}
use lisstech_drain_ctl.Host.{split_dots}
use lisstech_drain_ctl.Updater.Order.{
  IsEarlier, less→IsEarlier, IsEarlier→less, equals→same, not-IsEarlier-self,
}
use lisstech_drain_ctl.Updater.{
  Text, Version, Release, Fetched, fetched, fetch_cancelled, fetch_failed, Calls, Updater, less,
  parse_version, seen_version, is_replayed, install, compared, after_fetch, run_tick,
}

-- The installer at `path` belongs to a release that is fetched, newer than the program and not below the
-- highest version that was seen, and its manifest and its signature are accepted.
pub record IsChecked (calls : Calls) (version highest_seen etag path : Text) : Type 0 where
  pub rel : Release
  pub remote : Version
  pub current : Version
  pub is_fetched : calls.fetch etag ≡ fetched rel
  pub is_tag : parse_version calls.atoi rel.tag ≡ some remote
  pub is_current : parse_version calls.atoi version ≡ some current
  pub newer : IsEarlier current remote
  pub unreplayed :
      (seen : Version) → parse_version calls.atoi highest_seen ≡ some seen → ¬ IsEarlier remote seen
  pub downloaded : calls.download rel.asset_url ≡ some path
  pub manifest : calls.verify_manifest path rel.manifest_url rel.sig_url ≡ true
  pub signed : calls.verify_msi path ≡ true

not_replayed-unreplayed :
    (atoi : Text → Option ℤ) (highest_seen : Text) (remote seen : Version)
    → is_replayed remote (seen_version atoi highest_seen) ≡ false
    → parse_version atoi highest_seen ≡ some seen
    → ¬ IsEarlier remote seen
unfolding parse_version split_dots
not_replayed-unreplayed atoi [] remote seen h e earlier = absurd (ground arith)
not_replayed-unreplayed atoi (c ∷ cs) remote seen h e earlier =
    let fresh : is_replayed remote (some seen) ≡ false =
      subst (λ v. is_replayed remote v ≡ false) e h in
    let below : less remote seen ≡ true = IsEarlier→less remote seen earlier in
    not-IsEarlier-self remote seen (equals→same remote seen (ground arith)) earlier

module _ (calls : Calls) (version highest_seen etag : Text) where
  -- No installer was started, or one that is checked.
  abbrev pub Spawns : List Text → List Text → Type 0
  Spawns before after =
      (after ≡ before)
      ⊎ ((path : Text) × (after ≡ path ∷ before) × IsChecked calls version highest_seen etag path)

  install-Spawns :
      (rel : Release) (remote current : Version) (u : Updater) (d : Option Text)
      → calls.fetch etag ≡ fetched rel
      → parse_version calls.atoi rel.tag ≡ some remote
      → parse_version calls.atoi version ≡ some current
      → less current remote ≡ true
      → is_replayed remote (seen_version calls.atoi highest_seen) ≡ false
      → calls.download rel.asset_url ≡ d
      → Spawns u.spawn_calls (install calls rel current remote u d).1.spawn_calls
  unfolding install
  install-Spawns rel remote current u none f t c newer fresh d = inl refl
  install-Spawns rel remote current u (some path) f t c newer fresh d =
      elim (Bool-cases (calls.verify_manifest path rel.manifest_url rel.sig_url)) [
        | inr m ↦ rw m (inl refl)
        | inl m ↦ elim (Bool-cases (calls.verify_msi path)) [
          | inr s ↦ rw (m, s) (inl refl)
          | inl s ↦
              let checked : IsChecked calls version highest_seen etag path = record {
                rel = rel;
                remote = remote;
                current = current;
                is_fetched = f;
                is_tag = t;
                is_current = c;
                newer = less→IsEarlier current remote newer;
                unreplayed =
                    λ seen. not_replayed-unreplayed calls.atoi highest_seen remote seen fresh;
                downloaded = d;
                manifest = m;
                signed = s;
              } in
              elim (Bool-cases (calls.spawn path)) [
                | inl p ↦ rw (m, s, p) (inr (path, refl, checked))
                | inr p ↦ rw (m, s, p) (inr (path, refl, checked))
              ]
        ]
      ]

  compared-Spawns :
      (rel : Release) (u : Updater) (remote current : Option Version)
      → calls.fetch etag ≡ fetched rel
      → parse_version calls.atoi rel.tag ≡ remote
      → parse_version calls.atoi version ≡ current
      → Spawns u.spawn_calls (compared calls rel highest_seen u remote current).1.spawn_calls
  unfolding compared
  compared-Spawns rel u none current f t c = inl refl
  compared-Spawns rel u (some remote) none f t c = inl refl
  compared-Spawns rel u (some remote) (some current) f t c =
      elim (Bool-cases (is_replayed remote (seen_version calls.atoi highest_seen))) [
        | inl r ↦ rw r (inl refl)
        | inr r ↦ elim (Bool-cases (less current remote)) [
          | inr l ↦ rw (r, l) (inl refl)
          | inl l ↦
              rw (r, l)
                (install-Spawns rel remote current u (calls.download rel.asset_url) f t c l r refl)
        ]
      ]

  after_fetch-Spawns :
      (u : Updater) (r : Fetched)
      → calls.fetch etag ≡ r
      → Spawns u.spawn_calls (after_fetch calls version highest_seen u r).1.spawn_calls
  unfolding after_fetch
  after_fetch-Spawns u fetch_cancelled f = inl refl
  after_fetch-Spawns u fetch_failed f = inl refl
  after_fetch-Spawns u (fetched rel) f = elim (Bool-cases rel.not_modified) [
    | inl m ↦ rw m (inl refl)
    | inr m ↦ elim (Bool-cases rel.no_releases) [
      | inl n ↦ rw (m, n) (inl refl)
      | inr n ↦ rw (m, n) (compared-Spawns rel _ _ _ f refl refl)
    ]
  ]

-- A poll, forced or not, starts no installer, or one: that of the release that it fetched, which is newer
-- than the program and not below the highest version that was seen, and of which the manifest and the
-- signature were accepted.
pub run_tick-Spawns :
    (calls : Calls) (enabled forced : Bool) (version highest_seen : Text) (u : Updater)
    → Spawns calls version highest_seen u.etag u.spawn_calls
        (run_tick calls enabled forced version highest_seen u).1.spawn_calls
unfolding run_tick
run_tick-Spawns calls enabled forced version highest_seen u =
    elim (Bool-cases (not forced && not enabled)) [
      | inl e ↦ rw e (inl refl)
      | inr e ↦
          rw e (after_fetch-Spawns calls version highest_seen u.etag u (calls.fetch u.etag) refl)
    ]
