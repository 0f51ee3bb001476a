-- ===== src/Updater/Tests.antt =====
-- A release one month after the program, and the theorems of this part at it.
use lisstech_drain_ctl.Prelude.{
  ℕ, ◌+◌, ◌-◌, ◌*◌, ◌≤◌, ◌≡◌, ◌⊎◌, refl, true, false, some, [], ◌∷◌, length, arith,
}
use lisstech_drain_ctl.Prelude.Int.{pos, ltb_ℤ, eqb_ℤ, ◌-ℤ◌, ◌≤ℤ◌}
use lisstech_drain_ctl.Host.{split_dots}
use lisstech_drain_ctl.Updater.{
  Text, Version, Release, fetched, Calls, Updater, TickOutcome, installer_spawned, replay_fence,
  record_failure, extra_delay, less, equals, parse_version, install, compared, after_fetch,
  run_tick,
}
use lisstech_drain_ctl.Updater.Checked.{Spawns, run_tick-Spawns}
use lisstech_drain_ctl.Updater.Trigger.{
  Triggered, read_failed, record_failed, duplicate, ticked, is_command, idempotency_window,
  prune_commands, trigger_check_now,
}
use lisstech_drain_ctl.Updater.Ledger.{trigger_recorded, trigger_again}
use lisstech_drain_ctl.Prelude.Rows.{any_row, delete_where}
use lisstech_drain_ctl.Prelude.{replicate, List}
use lisstech_drain_ctl.Prelude.Bytes.{bytes_equal}
use lisstech_drain_ctl.Updater.Manifest.{
  ReleaseManifest, ManifestCalls, any_verifies, hex_equal_fold, verify_release_manifest,
  verify_asset, verify_manifest_remote,
}
use lisstech_drain_ctl.Updater.Signed.{IsVouched, verify_manifest_remote-IsVouched}
use lisstech_drain_ctl.Updater.Order.{IsEarlier, less-IsEarlier}
use lisstech_drain_ctl.Updater.Retry.{record_failure-rises}
use lisstech_drain_ctl.Prelude.{◌↔◌}

abbrev digits_value : ℕ → Text → ℕ
digits_value total [] = total
digits_value total (c ∷ cs) = digits_value (total * 10 + (c - 48)) cs

-- "v26.7.1", on which every check passes.
abbrev newer_release : Release
newer_release = record {
  tag = 118 ∷ 50 ∷ 54 ∷ 46 ∷ 55 ∷ 46 ∷ 49 ∷ [];
  asset_url = 1 ∷ [];
  etag = 2 ∷ [];
  manifest_url = 3 ∷ [];
  sig_url = 4 ∷ [];
  not_modified = false;
  no_releases = false;
}

abbrev answers : Calls
answers = record {
  atoi = λ t. some (pos (digits_value 0 t));
  fetch = λ etag. fetched newer_release;
  download = λ url. some (5 ∷ []);
  verify_manifest = λ path manifest sig. true;
  verify_msi = λ path. true;
  spawn = λ path. true;
}

-- "26.6.17"
abbrev running : Text
running = 50 ∷ 54 ∷ 46 ∷ 54 ∷ 46 ∷ 49 ∷ 55 ∷ []

-- "26.8.1"
abbrev later_seen : Text
later_seen = 50 ∷ 54 ∷ 46 ∷ 56 ∷ 46 ∷ 49 ∷ []

abbrev idle : Updater
idle = record { etag = []; failures = 2; spawn_calls = [] }

installs : (run_tick answers true false running running idle).1.spawn_calls ≡ (5 ∷ []) ∷ []
unfolding run_tick after_fetch compared install less equals parse_version split_dots ltb_ℤ eqb_ℤ
installs = refl

refuses : (run_tick answers true false running later_seen idle).0 ≡ replay_fence
unfolding run_tick after_fetch compared install less equals parse_version split_dots ltb_ℤ eqb_ℤ
refuses = refl

newer-run_tick-Spawns :
    Spawns answers running running [] []
      (run_tick answers true false running running idle).1.spawn_calls
newer-run_tick-Spawns = run_tick-Spawns answers true false running running idle

third-record_failure-rises :
    (extra_delay (record_failure 2).0 ≡ (record_failure 2).1)
    × ((record_failure 2).1 ≤ (record_failure (record_failure 2).0).1)
    × (5 * 60 ≤ (record_failure 2).1)
    × ((record_failure 2).1 ≤ 24 * 3600)
third-record_failure-rises = record_failure-rises 2

abbrev june : Version
june = record { year = pos 26; month = pos 6; n = pos 17 }

abbrev july : Version
july = record { year = pos 26; month = pos 7; n = pos 1 }

june-less-IsEarlier :
    ((less june july ≡ true) ↔ IsEarlier june july) × ((equals june july ≡ true) ↔ (june ≡ july))
june-less-IsEarlier = less-IsEarlier june july

abbrev asked : Text
asked = 99 ∷ 49 ∷ []

abbrev first_trigger : Triggered
first_trigger = trigger_check_now answers false false (pos 1000) asked false running running [] idle

first-trigger_recorded :
    ((first_trigger.outcome ≡ ticked (run_tick answers false true running running idle).0)
      × (first_trigger.updater ≡ (run_tick answers false true running running idle).1)
      × (length first_trigger.commands ≤ 256)
      × (any_row (is_command asked) first_trigger.commands ≡ true))
    ⊎ (((first_trigger.outcome ≡ read_failed)
          ⊎ (first_trigger.outcome ≡ duplicate)
          ⊎ (first_trigger.outcome ≡ record_failed))
        × (first_trigger.commands ≡ [])
        × (first_trigger.updater ≡ idle))
first-trigger_recorded =
    trigger_recorded answers false false (pos 1000) asked false running running [] idle

abbrev spawned : TickOutcome
spawned =
    installer_spawned (record { year = pos 26; month = pos 6; n = pos 17 })
      (record { year = pos 26; month = pos 7; n = pos 1 })

first-ticked : first_trigger.outcome ≡ ticked spawned
unfolding trigger_check_now prune_commands delete_where any_row run_tick after_fetch compared
    install less equals parse_version split_dots ltb_ℤ eqb_ℤ
first-ticked = refl

in_window : pos 2000 -ℤ pos idempotency_window ≤ℤ pos 1000
unfolding ◌-ℤ◌
in_window = omega arith

second-trigger_again :
    trigger_check_now answers false false
      (pos 2000)
      asked
      true
      running
      running
      first_trigger.commands
      idle
    ≡ record { outcome = duplicate; commands = first_trigger.commands; updater = idle }
second-trigger_again =
    trigger_again answers false false (pos 1000) asked false running running [] idle answers false
      (pos 2000) true running running idle spawned (omega arith) in_window first-ticked

abbrev lower_hash : Text
lower_hash = replicate 64 97

abbrev signed_release : ReleaseManifest
signed_release = record {
  schema_version = pos 1;
  version = running;
  asset_name = 77 ∷ [];
  sha256 = replicate 64 65;
  signed_at = [];
}

abbrev signing : ManifestCalls
signing = record {
  ed25519_verify = λ key manifest sig. true;
  unmarshal = λ manifest. some signed_release;
  is_hex = λ t. true;
  hash_file = λ path. some lower_hash;
  download_bytes = λ url. some (replicate 64 1);
}

abbrev one_key : List Text
one_key = replicate 32 9 ∷ []

is_accepted : verify_manifest_remote signing (5 ∷ []) (77 ∷ []) (3 ∷ []) (4 ∷ []) one_key ≡ true
unfolding verify_manifest_remote verify_release_manifest verify_asset any_verifies hex_equal_fold
    bytes_equal eqb_ℤ
is_accepted = refl

upper_case-verify_manifest_remote-IsVouched :
    IsVouched signing (5 ∷ []) (77 ∷ []) (3 ∷ []) (4 ∷ []) one_key
upper_case-verify_manifest_remote-IsVouched =
    verify_manifest_remote-IsVouched signing (5 ∷ []) (77 ∷ []) (3 ∷ []) (4 ∷ []) one_key
      (omega arith) is_accepted
