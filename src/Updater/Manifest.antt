-- ===== src/Updater/Manifest.antt =====
-- The signed manifest of a release (internal/updater/manifest.go, and verifyManifestRemote of
-- updater_windows.go). Texts, keys and signatures are lists of bytes.
use lisstech_drain_ctl.Prelude.{
  ℕ, ◌+◌, Bool, true, false, not, ◌&&◌, ◌||◌, Option, none, some, List, [], ◌∷◌, leb, ◌==◌,
  if◌then◌else◌, length,
}
use lisstech_drain_ctl.Prelude.Bytes.{bytes_equal}
use lisstech_drain_ctl.Prelude.Int.{ℤ, pos, eqb_ℤ}
use lisstech_drain_ctl.Updater.{Text}

pub record ReleaseManifest : Type 0 where
  pub schema_version : ℤ
  pub version : Text
  pub asset_name : Text
  pub sha256 : Text
  pub signed_at : Text

-- ed25519.Verify, json.Unmarshal of a manifest, whether hex.DecodeString accepts a text, HashFileSHA256
-- and downloadAssetBytes; none is an error.
pub record ManifestCalls : Type 0 where
  pub ed25519_verify : Text → Text → Text → Bool
  pub unmarshal : Text → Option ReleaseManifest
  pub is_hex : Text → Bool
  pub hash_file : Text → Option Text
  pub download_bytes : Text → Option Text

-- ca += 'a' - 'A'
abbrev pub fold_hex : ℕ → ℕ
fold_hex c = if leb 65 c && leb c 70 then c + 32 else c

unfoldable pub hex_equal_fold : Text → Text → Bool
hex_equal_fold [] [] = true
hex_equal_fold [] (b ∷ bs) = false
hex_equal_fold (a ∷ as_) [] = false
hex_equal_fold (a ∷ as_) (b ∷ bs) =
    let rest = hex_equal_fold as_ bs in if fold_hex a == fold_hex b then rest else false

abbrev pub is_blank : Text → Bool
is_blank t = length t == 0

module _ (calls : ManifestCalls) where
  -- The loop over the keys.
  unfoldable pub any_verifies : List Text → Text → Text → Bool
  any_verifies [] manifest sig = false
  any_verifies (k ∷ ks) manifest sig =
      let rest = any_verifies ks manifest sig in
      if not (length k == 32)
      then rest
      else if calls.ed25519_verify k manifest sig
      then true
      else rest

  abbrev pub manifest_ok : ReleaseManifest → Bool
  manifest_ok m =
      not (not (eqb_ℤ m.schema_version (pos 0)) && not (eqb_ℤ m.schema_version (pos 1)))
      && not (is_blank m.version || is_blank m.asset_name)
      && length m.sha256 == 64
      && calls.is_hex m.sha256

  abbrev pub accepted_manifest : Option ReleaseManifest → Option ReleaseManifest
  accepted_manifest none = none
  accepted_manifest (some m) = if manifest_ok m then some m else none

  -- VerifyReleaseManifest
  unfoldable pub verify_release_manifest : Text → Text → List Text → Option ReleaseManifest
  unfolding any_verifies
  verify_release_manifest manifest sig keys =
      if length keys == 0
      then none
      else if not (length sig == 64)
      then none
      else if not (any_verifies keys manifest sig)
      then none
      else accepted_manifest (calls.unmarshal manifest)

  abbrev pub matches_hash : Option Text → ReleaseManifest → Bool
  matches_hash none m = false
  matches_hash (some got) m = hex_equal_fold got m.sha256

  -- VerifyAssetMatchesManifest
  unfoldable pub verify_asset : Text → Text → ReleaseManifest → Bool
  unfolding hex_equal_fold
  verify_asset path expected m =
      bytes_equal m.asset_name expected && matches_hash (calls.hash_file path) m

  abbrev pub asset_of : Text → Text → Option ReleaseManifest → Bool
  asset_of path expected none = false
  asset_of path expected (some m) = verify_asset path expected m

  abbrev pub verify_downloaded : Text → Text → List Text → Option Text → Option Text → Bool
  verify_downloaded path expected keys (some manifest) (some sig) =
      asset_of path expected (verify_release_manifest manifest sig keys)
  verify_downloaded path expected keys none sig = false
  verify_downloaded path expected keys (some manifest) none = false

  -- verifyManifestRemote; `expected` is msiAssetName.
  unfoldable pub verify_manifest_remote : Text → Text → Text → Text → List Text → Bool
  unfolding verify_release_manifest verify_asset
  verify_manifest_remote path expected manifest_url sig_url keys =
      if length keys == 0
      then true
      else if is_blank manifest_url || is_blank sig_url
      then false
      else verify_downloaded path expected keys (calls.download_bytes manifest_url)
          (calls.download_bytes sig_url)
