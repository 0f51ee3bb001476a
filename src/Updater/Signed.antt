-- ===== src/Updater/Signed.antt =====
-- What the acceptance of a release manifest says of the file that was downloaded.
use lisstech_drain_ctl.Prelude.{
  ◌<◌, ◌≡◌, true, false, ◌||◌, Option, none, some, List, [], ◌∷◌, arith, ◌==◌, length, map,
  Bool-cases, inl, inr, refl,
}
use lisstech_drain_ctl.Prelude.Bytes.{bytes_equal, bytes_equal→eq}
use lisstech_drain_ctl.Prelude.Rows.{Any}
use lisstech_drain_ctl.Updater.{Text}
use lisstech_drain_ctl.Updater.Manifest.{
  ReleaseManifest, ManifestCalls, fold_hex, hex_equal_fold, is_blank, any_verifies, manifest_ok,
  accepted_manifest, verify_release_manifest, matches_hash, verify_asset, asset_of,
  verify_downloaded, verify_manifest_remote,
}

hex_equal_fold-map : (a b : Text) → hex_equal_fold a b ≡ true → map fold_hex a ≡ map fold_hex b
unfolding hex_equal_fold
hex_equal_fold-map [] [] = λ h. refl
hex_equal_fold-map [] (b ∷ bs) = λ h. absurd (ground arith)
hex_equal_fold-map (a ∷ as_) [] = λ h. absurd (ground arith)
hex_equal_fold-map (a ∷ as_) (b ∷ bs) = elim (Bool-cases (fold_hex a == fold_hex b)) [
  | inl e ↦ rw e λ h.
      let same : fold_hex a ≡ fold_hex b = ground arith in
      rw (same, hex_equal_fold-map as_ bs h) refl
  | inr e ↦ rw e λ h. absurd (ground arith)
]

module _ (calls : ManifestCalls) where
  -- A key of 32 bytes verifies the signature.
  abbrev pub Signs : Text → Text → Text → Type 0
  Signs manifest sig k = (length k ≡ 32) × (calls.ed25519_verify k manifest sig ≡ true)

  any_verifies-Any :
      (ks : List Text) (manifest sig : Text)
      → any_verifies calls ks manifest sig ≡ true
      → Any (Signs manifest sig) ks
  unfolding any_verifies
  any_verifies-Any [] manifest sig = λ h. absurd (ground arith)
  any_verifies-Any (k ∷ ks) manifest sig = elim (Bool-cases (length k == 32)) [
    | inr e ↦ rw e λ h. inr (any_verifies-Any ks manifest sig h)
    | inl e ↦ elim (Bool-cases (calls.ed25519_verify k manifest sig)) [
      | inl v ↦ rw (e, v) λ h. inl (ground arith, refl)
      | inr v ↦ rw (e, v) λ h. inr (any_verifies-Any ks manifest sig h)
    ]
  ]

  -- The manifest and the signature that were downloaded vouch for the file at `path`.
  pub record IsVouched (path expected manifest_url sig_url : Text) (keys : List Text) : Type 0 where
    pub manifest : Text
    pub sig : Text
    pub release : ReleaseManifest
    pub got : Text
    pub manifest_downloaded : calls.download_bytes manifest_url ≡ some manifest
    pub sig_downloaded : calls.download_bytes sig_url ≡ some sig
    pub signed : Any (Signs manifest sig) keys
    pub is_parsed : calls.unmarshal manifest ≡ some release
    pub named : release.asset_name ≡ expected
    pub hashed : calls.hash_file path ≡ some got
    pub same_hash : map fold_hex got ≡ map fold_hex release.sha256

  verify_asset-parts :
      (path expected : Text) (m : ReleaseManifest)
      → verify_asset calls path expected m ≡ true
      → (m.asset_name ≡ expected)
        × (got : Text) × (calls.hash_file path ≡ some got)
        × (map fold_hex got ≡ map fold_hex m.sha256)
  unfolding verify_asset
  verify_asset-parts path expected m = elim (Bool-cases (bytes_equal m.asset_name expected)) [
    | inr e ↦ rw e λ h. absurd (ground arith)
    | inl e ↦ rw e λ h.
        let (got, is_hash, same) = hashed (calls.hash_file path) refl h in
        (bytes_equal→eq _ _ e, got, is_hash, same)
  ]
    where
      hashed :
          (g : Option Text)
          → calls.hash_file path ≡ g
          → matches_hash calls g m ≡ true
          → (got : Text) × (calls.hash_file path ≡ some got)
            × (map fold_hex got ≡ map fold_hex m.sha256)
      hashed none e h = absurd (ground arith)
      hashed (some got) e h = (got, e, hex_equal_fold-map got m.sha256 h)

  accepted_manifest-some :
      (parsed : Option ReleaseManifest) (m : ReleaseManifest)
      → accepted_manifest calls parsed ≡ some m
      → parsed ≡ some m
  accepted_manifest-some none m = λ h. absurd (ground arith)
  accepted_manifest-some (some r) m = elim (Bool-cases (manifest_ok calls r)) [
    | inl e ↦ rw e λ h. h
    | inr e ↦ rw e λ h. absurd (ground arith)
  ]

  verify_release_manifest-some :
      (manifest sig : Text) (keys : List Text) (m : ReleaseManifest)
      → verify_release_manifest calls manifest sig keys ≡ some m
      → Any (Signs manifest sig) keys × (calls.unmarshal manifest ≡ some m)
  unfolding verify_release_manifest
  verify_release_manifest-some manifest sig keys m = elim (Bool-cases (length keys == 0)) [
    | inl a ↦ rw a λ h. absurd (ground arith)
    | inr a ↦ elim (Bool-cases (length sig == 64)) [
      | inr b ↦ rw (a, b) λ h. absurd (ground arith)
      | inl b ↦ elim (Bool-cases (any_verifies calls keys manifest sig)) [
        | inr c ↦ rw (a, b, c) λ h. absurd (ground arith)
        | inl c ↦
            rw (a, b, c)
              λ h. (
                any_verifies-Any keys manifest sig c,
                accepted_manifest-some (calls.unmarshal manifest) m h,
              )
      ]
    ]
  ]

  module _ (path expected manifest_url sig_url : Text) (keys : List Text) where
    asset_of-IsVouched :
        (manifest sig : Text) (r : Option ReleaseManifest)
        → calls.download_bytes manifest_url ≡ some manifest
        → calls.download_bytes sig_url ≡ some sig
        → verify_release_manifest calls manifest sig keys ≡ r
        → asset_of calls path expected r ≡ true
        → IsVouched path expected manifest_url sig_url keys
    asset_of-IsVouched manifest sig none d e v h = absurd (ground arith)
    asset_of-IsVouched manifest sig (some m) d e v h =
        let (signs, parsed) = verify_release_manifest-some manifest sig keys m v in
        let (named, got, is_hash, same) = verify_asset-parts path expected m h in
        record {
          manifest = manifest;
          sig = sig;
          release = m;
          got = got;
          manifest_downloaded = d;
          sig_downloaded = e;
          signed = signs;
          is_parsed = parsed;
          named = named;
          hashed = is_hash;
          same_hash = same;
        }

    verify_downloaded-IsVouched :
        (a b : Option Text)
        → calls.download_bytes manifest_url ≡ a
        → calls.download_bytes sig_url ≡ b
        → verify_downloaded calls path expected keys a b ≡ true
        → IsVouched path expected manifest_url sig_url keys
    verify_downloaded-IsVouched none b d e h = absurd (ground arith)
    verify_downloaded-IsVouched (some manifest) none d e h = absurd (ground arith)
    verify_downloaded-IsVouched (some manifest) (some sig) d e h =
        asset_of-IsVouched manifest sig (verify_release_manifest calls manifest sig keys) d e refl h

    -- Where there are keys, a file is accepted only if the manifest that was downloaded names the asset and
    -- has the hash of the file, and one of the keys verifies the signature that was downloaded with it.
    pub verify_manifest_remote-IsVouched :
        0 < length keys
        → verify_manifest_remote calls path expected manifest_url sig_url keys ≡ true
        → IsVouched path expected manifest_url sig_url keys
    unfolding verify_manifest_remote
    verify_manifest_remote-IsVouched some_key =
        let keyed : length keys == 0 ≡ false = ground arith in
        elim (Bool-cases (is_blank manifest_url || is_blank sig_url)) [
          | inl e ↦ rw (keyed, e) λ h. absurd (ground arith)
          | inr e ↦
              rw (keyed, e)
                λ h.
                  verify_downloaded-IsVouched (calls.download_bytes manifest_url)
                    (calls.download_bytes sig_url) refl refl h
        ]
