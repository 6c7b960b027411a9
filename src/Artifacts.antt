-- ===== src/Artifacts.antt =====
-- crates/impossible-voice-artifacts/src/lib.rs: the types of the curated artifact store, and its
-- paths. A path is the row of its components; how a text is split into them depends on the platform.
pub mod Manifest
pub mod Installed
pub mod Extract
pub mod World
pub mod Download
pub mod Store
pub mod Profile
pub mod Frame
pub mod Unchanged
pub mod Verified
pub mod Selection
pub mod Setup
pub mod Ready
pub mod Offline
pub mod Bounds
pub mod Walk
pub mod Complete
pub mod Finite
pub mod Downloaded
pub mod Intact
use impossible_voice.Prelude.{
  ℕ, ◌*◌, Bool, true, false, not, ◌||◌, List, [], ◌∷◌, ◌++◌, Result, ok, err, ◌>>=◌, ◌>>◌,
  reject_if, any, is_empty, if◌then◌else◌, ◌==◌, map,
}
use impossible_voice.Prelude.Bytes.{Bytes, ascii, bytes_eq}

-- `ArtifactError`: its messages.
pub data ArtifactError : Type 0 where
  manifest_malformed manifest_identity manifest_duplicate manifest_entry license_incomplete :
      ArtifactError
  profile_incomplete platform_incomplete platform_unsupported : ArtifactError
  path_invalid archive_root_invalid archive_path_invalid : ArtifactError
  archive_uninspected archive_size archive_digest archive_unopened archive_malformed : ArtifactError
  archive_too_many archive_entry archive_empty extraction_directory extraction_file : ArtifactError
  extraction_bound inventory_unencoded inventory_unwritten : ArtifactError
  inventory_missing inventory_malformed installation_identity inventory_duplicate : ArtifactError
  inventory_mismatch required_missing uninventoried redirected installed_path unsupported_entry :
      ArtifactError
  storage_failed lock_unopened lock_unacquired worker_failed offline_incomplete : ArtifactError
  staging_failed activation_failed recovery_failed unpreserved : ArtifactError
  url_invalid origin_forbidden download_failed download_size download_staging download_bound :
      ArtifactError
  download_integrity archive_activation client_failed : ArtifactError

pub record LicenseSpec : Type 0 where
  pub scope : Bytes
  pub spdx : Bytes
  pub source : Bytes
  pub revision : Bytes

pub record ArtifactSpec : Type 0 where
  pub id : Bytes
  pub kind : Bytes
  pub platforms : List Bytes
  pub url : Bytes
  pub size : ℕ
  pub sha256 : Bytes
  pub archive_root : Bytes
  pub max_unpacked_bytes : ℕ
  pub required_paths : List Bytes
  pub licenses : List LicenseSpec

pub record CuratedManifest : Type 0 where
  pub schema_version : ℕ
  pub profile : Bytes
  pub artifacts : List ArtifactSpec

pub record InstalledFile : Type 0 where
  pub path : Bytes
  pub size : ℕ
  pub sha256 : Bytes

pub record InstallationManifest : Type 0 where
  pub schema_version : ℕ
  pub artifact_id : Bytes
  pub archive_sha256 : Bytes
  pub files : List InstalledFile

pub record ArtifactResult : Type 0 where
  pub id : Bytes
  pub kind : Bytes
  pub state : Bytes

pub record SetupReport : Type 0 where
  pub profile : Bytes
  pub platform : Bytes
  pub status : Bytes
  pub artifacts : List ArtifactResult

abbrev pub installation_file : Bytes
installation_file = ascii ".impossible-voice-installation.json"

abbrev pub max_archive_entries : ℕ
max_archive_entries = 16_384

-- `std::path::Component`.
pub data Component : Type 0 where
  prefix root_dir cur_dir parent_dir : Component
  normal : Bytes → Component

abbrev pub is_normal : Component → Bool
is_normal (normal name) = true
is_normal _ = false

-- A root, or on Windows a prefix and a root, before anything else.
abbrev pub is_absolute : List Component → Bool
is_absolute (root_dir ∷ rest) = true
is_absolute (prefix ∷ (root_dir ∷ rest)) = true
is_absolute _ = false

-- A text that is not empty has a component.
unfoldable pub safe_relative_path : List Component → Result ArtifactError (Unit {0})
safe_relative_path path =
    reject_if (is_empty path || is_absolute path || any (λ c. not (is_normal c)) path) path_invalid

abbrev prepend_name : Bytes → Result ArtifactError (List Bytes) → Result ArtifactError (List Bytes)
prepend_name name (ok names) = ok (name ∷ names)
prepend_name name (err e) = err e

-- The loop of `strip_archive_root`: the names behind the root.
unfoldable pub normal_names : List Component → Result ArtifactError (List Bytes)
normal_names [] = ok []
normal_names (normal name ∷ rest) = prepend_name name (normal_names rest)
normal_names (_ ∷ rest) = err archive_path_invalid

unfoldable pub strip_archive_root : List Component → Bytes → Result ArtifactError (List Bytes)
unfolding normal_names
strip_archive_root (normal value ∷ rest) root =
    if bytes_eq value root then normal_names rest else err archive_root_invalid
strip_archive_root _ root = err archive_root_invalid

-- `to_str` and `replace('\\', "/")` on a path of names.
abbrev slash : ℕ → ℕ
slash b = if b == 92 then b'/' else b

unfoldable pub path_text : List Bytes → Bytes
path_text [] = []
path_text (name ∷ []) = map slash name
path_text (name ∷ (next ∷ rest)) = map slash name ++ (b'/' ∷ path_text (next ∷ rest))
