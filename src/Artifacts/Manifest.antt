-- ===== src/Artifacts/Manifest.antt =====
-- The curated manifest: `parse_manifest`, `validate_artifact`, `select_artifacts` and
-- `current_platform` of crates/impossible-voice-artifacts/src/lib.rs. `serde_json` and the split of a
-- text into the components of a path are parameters.
use impossible_voice.Prelude.{
  ℕ, suc, Bool, not, ◌&&◌, ◌||◌, Option, List, [], ◌∷◌, Result, ok, err, ◌>>=◌, ◌>>◌, reject_if,
  ok_or, all, is_empty, length, if◌then◌else◌, ◌==◌,
}
use impossible_voice.Prelude.Bytes.{
  Bytes, ascii, bytes_eq, contains_bytes, is_ascii_alphanumeric, is_ascii_hexdigit,
}
use impossible_voice.Artifacts.{
  ArtifactError, manifest_malformed, manifest_identity, manifest_duplicate, manifest_entry,
  license_incomplete, platform_incomplete, platform_unsupported, LicenseSpec, ArtifactSpec,
  CuratedManifest, Component, safe_relative_path,
}

abbrev pub runtime : Bytes
runtime = ascii "runtime"

abbrev pub stt_model : Bytes
stt_model = ascii "stt-model"

abbrev pub tts_model : Bytes
tts_model = ascii "tts-model"

abbrev pub is_known_kind : Bytes → Bool
is_known_kind kind = bytes_eq kind runtime || bytes_eq kind stt_model || bytes_eq kind tts_model

abbrev is_identifier_byte : ℕ → Bool
is_identifier_byte b = is_ascii_alphanumeric b || b == b'-' || b == b'_' || b == b'.'

-- The condition of the first error.
unfoldable pub is_invalid_entry : ArtifactSpec → Bool
is_invalid_entry a =
    is_empty a.id
    || not (all is_identifier_byte a.id)
    || not (is_known_kind a.kind)
    || a.size == 0
    || a.max_unpacked_bytes == 0
    || not (length a.sha256 == 64)
    || not (all is_ascii_hexdigit a.sha256)
    || is_empty a.archive_root
    || is_empty a.required_paths
    || is_empty a.licenses

abbrev is_incomplete : LicenseSpec → Bool
is_incomplete l = is_empty l.scope || is_empty l.spdx || is_empty l.source || is_empty l.revision

unfoldable pub validate_licenses : List LicenseSpec → Result ArtifactError (Unit {0})
validate_licenses [] = ok tt
validate_licenses (l ∷ ls) = do reject_if (is_incomplete l) license_incomplete; validate_licenses ls

module _ (components : Bytes → List Component) where
  unfoldable pub validate_paths : List Bytes → Result ArtifactError (Unit {0})
  validate_paths [] = ok tt
  validate_paths (p ∷ ps) = do safe_relative_path (components p); validate_paths ps

  unfoldable pub validate_artifact : ArtifactSpec → Result ArtifactError (Unit {0})
  unfolding is_invalid_entry validate_licenses validate_paths
  validate_artifact a = do
    reject_if (is_invalid_entry a) manifest_entry
    validate_licenses a.licenses
    validate_paths a.required_paths

  -- The loop over the artifacts, with the identifiers seen.
  unfoldable pub validate_artifacts :
      List Bytes → List ArtifactSpec → Result ArtifactError (Unit {0})
  unfolding validate_artifact
  validate_artifacts ids [] = ok tt
  validate_artifacts ids (a ∷ as') = do
    validate_artifact a
    reject_if (contains_bytes a.id ids) manifest_duplicate
    validate_artifacts (a.id ∷ ids) as'

  -- `parsed` is what `serde_json` makes of the manifest.
  unfoldable pub parse_manifest : Option CuratedManifest → Result ArtifactError CuratedManifest
  unfolding validate_artifacts
  parse_manifest parsed = do
    manifest ← ok_or parsed manifest_malformed
    reject_if
        (not (manifest.schema_version == 1)
          || not (bytes_eq manifest.profile (ascii "impossible-voice-en-cpu-v1")))
        manifest_identity
    validate_artifacts [] manifest.artifacts
    ok manifest

-- `filter` by the platform.
unfoldable pub for_platform : Bytes → List ArtifactSpec → List ArtifactSpec
for_platform platform [] = []
for_platform platform (a ∷ as') =
    let rest = for_platform platform as' in
    if contains_bytes platform a.platforms then a ∷ rest else rest

-- The entry of `counts`.
unfoldable pub count_kind : Bytes → List ArtifactSpec → ℕ
count_kind kind [] = 0
count_kind kind (a ∷ as') =
    let rest = count_kind kind as' in if bytes_eq a.kind kind then suc rest else rest

-- Unless there is one artifact of each kind.
abbrev pub is_incomplete_profile : List ArtifactSpec → Bool
is_incomplete_profile selected =
    not (length selected == 3)
    || not (count_kind runtime selected == 1)
    || not (count_kind stt_model selected == 1)
    || not (count_kind tts_model selected == 1)

unfoldable pub select_artifacts : CuratedManifest → Bytes → Result ArtifactError (List ArtifactSpec)
unfolding for_platform count_kind
select_artifacts manifest platform = do
  let selected = for_platform platform manifest.artifacts
  reject_if (is_incomplete_profile selected) platform_incomplete
  ok selected

unfoldable pub current_platform : Bytes → Bytes → Result ArtifactError Bytes
current_platform os arch =
    if bytes_eq os (ascii "windows") && bytes_eq arch (ascii "x86_64")
    then ok (ascii "windows-x86_64")
    else if bytes_eq os (ascii "linux") && bytes_eq arch (ascii "x86_64")
    then ok (ascii "linux-x86_64")
    else err platform_unsupported

-- What `setup`, `status` and `verified_profile` begin with: the manifest, the platform and the
-- artifacts selected for it.
unfoldable pub selection :
    (Bytes → List Component)
    → Option CuratedManifest
    → Bytes
    → Bytes
    → Result ArtifactError (CuratedManifest × Bytes × List ArtifactSpec)
unfolding parse_manifest current_platform select_artifacts
selection components parsed os arch = do
  manifest ← parse_manifest components parsed
  platform ← current_platform os arch
  selected ← select_artifacts manifest platform
  ok (manifest, platform, selected)
