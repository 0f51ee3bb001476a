-- ===== src/Updater.antt =====
-- One poll of the updater (runTick of internal/updater/updater_windows.go), with the versions of
-- version_windows.go and the delays of backoff_windows.go. The package variables that runTick calls
-- through (fetchRelease, downloadMSI, verifyManifest, verifyMSI, spawnMSI) are arguments.
pub mod Checked
pub mod Order
pub mod Retry
pub mod Trigger
pub mod Ledger
pub mod Manifest
pub mod Signed
mod Tests
use lisstech_drain_ctl.Prelude.{
  ℕ, zero, suc, ◌+◌, ◌-◌, ◌*◌, Bool, true, false, not, ◌&&◌, ◌||◌, Option, none, some, List, [],
  ◌∷◌, leb, ◌==◌, if◌then◌else◌, length, get_or,
}
use lisstech_drain_ctl.Prelude.Int.{ℤ, pos, ltb_ℤ, eqb_ℤ}
use lisstech_drain_ctl.Host.{split_dots}

abbrev pub Text : Type 0
Text = List ℕ

-- In seconds.
abbrev pub backoff_schedule : List ℕ
backoff_schedule = 5 * 60 ∷ 15 * 60 ∷ 45 * 60 ∷ 2 * 3600 ∷ 6 * 3600 ∷ 24 * 3600 ∷ []

abbrev pub capped_index : ℕ → ℕ
capped_index i = if leb (length backoff_schedule) i then length backoff_schedule - 1 else i

-- recordFailure, on the number of failures: the number after it, and the delay.
unfoldable pub record_failure : ℕ → ℕ × ℕ
record_failure failures = (suc failures, get_or backoff_schedule (capped_index failures) 0)

-- What run adds to the interval between polls.
unfoldable pub extra_delay : ℕ → ℕ
extra_delay zero = 0
extra_delay (suc n) = get_or backoff_schedule (capped_index n) 0

pub record Version : Type 0 where
  pub year : ℤ
  pub month : ℤ
  pub n : ℤ

-- strings.TrimPrefix(s, "v")
abbrev pub trim_v : Text → Text
trim_v [] = []
trim_v (c ∷ cs) = if c == 118 then cs else c ∷ cs

abbrev pub valid_components : Version → Bool
valid_components v =
    not
      (ltb_ℤ v.year (pos 0) || ltb_ℤ v.month (pos 1) || ltb_ℤ (pos 12) v.month || ltb_ℤ v.n (pos 0))

abbrev pub three_parts : Option ℤ → Option ℤ → Option ℤ → Option Version
three_parts (some y) (some m) (some k) =
    let v : Version = record { year = y; month = m; n = k } in
    if valid_components v then some v else none
three_parts none m k = none
three_parts (some y) none k = none
three_parts (some y) (some m) none = none

-- `atoi` is strconv.Atoi.
abbrev pub of_parts : (Text → Option ℤ) → List Text → Option Version
of_parts atoi (y ∷ m ∷ k ∷ []) = three_parts (atoi y) (atoi m) (atoi k)
of_parts atoi _ = none

-- parseVersion
unfoldable pub parse_version : (Text → Option ℤ) → Text → Option Version
unfolding split_dots
parse_version atoi s = of_parts atoi (split_dots (trim_v s))

unfoldable pub less : Version → Version → Bool
less a b =
    if not (eqb_ℤ a.year b.year)
    then ltb_ℤ a.year b.year
    else if not (eqb_ℤ a.month b.month)
    then ltb_ℤ a.month b.month
    else ltb_ℤ a.n b.n

unfoldable pub equals : Version → Version → Bool
equals a b = eqb_ℤ a.year b.year && eqb_ℤ a.month b.month && eqb_ℤ a.n b.n

pub record Release : Type 0 where
  pub tag : Text
  pub asset_url : Text
  pub etag : Text
  pub manifest_url : Text
  pub sig_url : Text
  pub not_modified : Bool
  pub no_releases : Bool

pub data Fetched : Type 0 where
  fetched : Release → Fetched
  fetch_cancelled fetch_failed : Fetched

-- What the calls answer. `fetch` takes the ETag and answers for the channel of the configuration; the
-- two verifications answer whether they accept.
pub record Calls : Type 0 where
  pub atoi : Text → Option ℤ
  pub fetch : Text → Fetched
  pub download : Text → Option Text
  pub verify_manifest : Text → Text → Text → Bool
  pub verify_msi : Text → Bool
  pub spawn : Text → Bool

-- The state of the subsystem, and the paths that spawnMSI was called with.
pub record Updater : Type 0 where
  pub etag : Text
  pub failures : ℕ
  pub spawn_calls : List Text

-- Decision and Reason of tickOutcome; a version is that which OldVer or NewVer prints.
pub data TickOutcome : Type 0 where
  disabled cancelled poll_failed not_modified no_stable_release : TickOutcome
  bad_tag bad_local_version replay_fence : TickOutcome
  up_to_date installer_spawned : Version → Version → TickOutcome
  download_failed manifest_refused authenticode_refused spawn_failed : TickOutcome

abbrev pub after_success : Updater → Updater
after_success u = record u { failures = 0 }

abbrev pub after_failure : Updater → Updater
after_failure u = record u { failures = (record_failure u.failures).0 }

abbrev pub called_spawn : Text → Updater → Updater
called_spawn path u = record u { spawn_calls = path ∷ u.spawn_calls }

-- The highest version that was seen, where the state has one that parses.
abbrev pub seen_version : (Text → Option ℤ) → Text → Option Version
seen_version atoi [] = none
seen_version atoi (c ∷ cs) = parse_version atoi (c ∷ cs)

abbrev pub is_replayed : Version → Option Version → Bool
is_replayed remote none = false
is_replayed remote (some seen) = less remote seen && not (equals remote seen)

module _ (calls : Calls) where
  -- From the download on. The temporary file is removed on a refusal, which is not modelled.
  unfoldable pub install :
      Release → Version → Version → Updater → Option Text → TickOutcome × Updater
  unfolding record_failure
  install rel current remote u none = (download_failed, after_failure u)
  install rel current remote u (some path) =
      if not (calls.verify_manifest path rel.manifest_url rel.sig_url)
      then (manifest_refused, after_success u)
      else if not (calls.verify_msi path)
      then (authenticode_refused, after_success u)
      else if not (calls.spawn path)
      then (spawn_failed, after_failure (called_spawn path u))
      else (
        installer_spawned current remote,
        record (after_success (called_spawn path u)) { etag = [] },
      )

  unfoldable pub compared :
      Release → Text → Updater → Option Version → Option Version → TickOutcome × Updater
  unfolding install less equals parse_version
  compared rel highest_seen u none current = (bad_tag, after_success u)
  compared rel highest_seen u (some remote) none = (bad_local_version, after_success u)
  compared rel highest_seen u (some remote) (some current) =
      if is_replayed remote (seen_version calls.atoi highest_seen)
      then (replay_fence, after_success u)
      else if not (less current remote)
      then (up_to_date current remote, after_success u)
      else install rel current remote u (calls.download rel.asset_url)

  unfoldable pub after_fetch : Text → Text → Updater → Fetched → TickOutcome × Updater
  unfolding compared record_failure
  after_fetch version highest_seen u fetch_cancelled = (cancelled, u)
  after_fetch version highest_seen u fetch_failed = (poll_failed, after_failure u)
  after_fetch version highest_seen u (fetched rel) =
      if rel.not_modified
      then (not_modified, after_success u)
      else if rel.no_releases
      then (no_stable_release, after_success u)
      else compared rel highest_seen (record u { etag = rel.etag })
          (parse_version calls.atoi rel.tag) (parse_version calls.atoi version)

  -- runTick, of a program with the version `version`, where the stored state has `highest_seen`.
  unfoldable pub run_tick : Bool → Bool → Text → Text → Updater → TickOutcome × Updater
  unfolding after_fetch
  run_tick enabled forced version highest_seen u =
      if not forced && not enabled
      then (disabled, u)
      else after_fetch version highest_seen u (calls.fetch u.etag)
