-- ===== src/Artifacts/Installed.antt =====
-- Verification of an installed object: `verify_archive_file`, `inventory_files` and `verify_object`
-- of crates/impossible-voice-artifacts/src/lib.rs. The file system is seen as it stands at one
-- time; the digest and `serde_json` are parameters.
use impossible_voice.Prelude.{
  ℕ, zero, suc, Bool, not, ◌&&◌, ◌||◌, Option, none, some, List, [], ◌∷◌, ◌++◌, Result, ok, err,
  ◌>>=◌, ◌>>◌, reject_if, ok_or, all, is_empty, if◌then◌else◌, ◌==◌,
}
use impossible_voice.Prelude.Bytes.{Bytes, bytes_eq, contains_bytes, hex_digest}
use impossible_voice.Artifacts.{
  ArtifactError, archive_uninspected, archive_size, archive_digest, inventory_missing,
  inventory_malformed, installation_identity, inventory_duplicate, inventory_mismatch,
  required_missing, uninventoried, redirected, installed_path, unsupported_entry, ArtifactSpec,
  InstalledFile, InstallationManifest, installation_file, Component, normal, safe_relative_path,
  path_text,
}

pub data FileType : Type 0 where
  symlink directory file other : FileType

-- An item of `read_dir`: an error, or a name, whose type may not be known.
pub data DirEntry : Type 0 where
  unreadable : DirEntry
  untyped : Bytes → DirEntry
  entry : Bytes → FileType → DirEntry

-- A directory and what is below it, by the components of the paths from it on.
pub record Disk : Type 0 where
  pub metadata : List Component → Option (Bool × ℕ)
  pub contents : List Component → Option Bytes
  pub exists : List Component → Bool
  pub read_dir : List Bytes → Option (List DirEntry)
  pub is_utf8 : Bytes → Bool

-- The contents, in one piece.
unfoldable pub verify_archive_file :
    Disk → (Bytes → Bytes) → List Component → ℕ → Bytes → Result ArtifactError (Unit {0})
verify_archive_file disk digest path size sha256 = do
  (is_file, len) ← ok_or (disk.metadata path) archive_uninspected
  reject_if (not is_file || not (len == size)) archive_size
  contents ← ok_or (disk.contents path) archive_uninspected
  reject_if (not (bytes_eq (hex_digest (digest contents)) sha256)) archive_digest

-- What the walk has found: the directories to visit, with the last one first, and the files.
pub record Inventory : Type 0 where
  pub pending : List (List Bytes)
  pub files : List Bytes

unfoldable pub insert_file : Bytes → List Bytes → List Bytes
insert_file name files = if contains_bytes name files then files else name ∷ files

module _ (disk : Disk) where
  -- A file below the root. The marker itself is not listed.
  unfoldable pub add_file : List Bytes → Inventory → Result ArtifactError Inventory
  unfolding insert_file
  add_file path found = do
    reject_if (not (all disk.is_utf8 path)) installed_path
    let relative = path_text path
    ok (
        if bytes_eq relative installation_file
        then found
        else record found { files = insert_file relative found.files })

  unfoldable pub add_entry : List Bytes → DirEntry → Inventory → Result ArtifactError Inventory
  unfolding add_file
  add_entry from unreadable found = err uninventoried
  add_entry from (untyped name) found = err uninventoried
  add_entry from (entry name symlink) found = err redirected
  add_entry from (entry name directory) found =
      ok (record found { pending = (from ++ (name ∷ [])) ∷ found.pending })
  add_entry from (entry name file) found = add_file (from ++ (name ∷ [])) found
  add_entry from (entry name other) found = err unsupported_entry

  unfoldable pub add_entries :
      List Bytes → List DirEntry → Inventory → Result ArtifactError Inventory
  unfolding add_entry
  add_entries from [] found = ok found
  add_entries from (e ∷ es) found = do more ← add_entry from e found; add_entries from es more

  -- The loop, on fuel: `none` where there is none left.
  unfoldable pub walk : ℕ → Inventory → Option (Result ArtifactError (List Bytes))
  unfolding add_entries
  walk zero found = none
  walk (suc fuel) found = elim found.pending [
    | [] ↦ some (ok found.files)
    | from ∷ rest ↦ elim (disk.read_dir from) [
      | none ↦ some (err uninventoried)
      | some entries ↦ elim (add_entries from entries (record found { pending = rest })) [
        | err e ↦ some (err e)
        | ok more ↦ walk fuel more
      ]
    ]
  ]

  abbrev pub start_at_root : Inventory
  start_at_root = record { pending = [] ∷ []; files = [] }

  unfoldable pub inventory_files : ℕ → Option (Result ArtifactError (List Bytes))
  unfolding walk
  inventory_files fuel = walk fuel start_at_root

-- `HashSet` equality.
abbrev pub includes : List Bytes → List Bytes → Bool
includes xs ys = all (λ y. contains_bytes y xs) ys

abbrev pub same_files : List Bytes → List Bytes → Bool
same_files xs ys = includes xs ys && includes ys xs

module _ (components : Bytes → List Component) (disk : Disk) (digest : Bytes → Bytes) where
  -- The loop over the entries, with the paths seen.
  unfoldable pub verify_entries :
      List Bytes → List InstalledFile → Result ArtifactError (List Bytes)
  unfolding verify_archive_file
  verify_entries expected [] = ok expected
  verify_entries expected (f ∷ fs) = do
    safe_relative_path (components f.path)
    reject_if (contains_bytes f.path expected) inventory_duplicate
    verify_archive_file disk digest (components f.path) f.size f.sha256
    verify_entries (f.path ∷ expected) fs

  unfoldable pub require_paths : List Bytes → Result ArtifactError (Unit {0})
  require_paths [] = ok tt
  require_paths (p ∷ ps) = do
    reject_if (not (disk.exists (components p))) required_missing
    require_paths ps

  unfoldable pub check_identity :
      InstallationManifest → ArtifactSpec → Result ArtifactError (Unit {0})
  check_identity installation artifact =
      reject_if
        (not (installation.schema_version == 1)
          || not (bytes_eq installation.artifact_id artifact.id)
          || not (bytes_eq installation.archive_sha256 artifact.sha256)
          || is_empty installation.files)
        installation_identity

  -- Behind the walk.
  unfoldable pub check_inventory :
      ArtifactSpec
      → List Bytes
      → Option (Result ArtifactError (List Bytes))
      → Option (Result ArtifactError (Unit {0}))
  unfolding require_paths
  check_inventory artifact expected none = none
  check_inventory artifact expected (some walked) = some (do
    actual ← walked
    reject_if (not (same_files actual expected)) inventory_mismatch
    require_paths artifact.required_paths)

  unfoldable pub inventory_of :
      (Bytes → Option InstallationManifest) → ArtifactSpec → Result ArtifactError (List Bytes)
  unfolding check_identity verify_entries
  inventory_of parse artifact = do
    marker ← ok_or (disk.contents (normal installation_file ∷ [])) inventory_missing
    installation ← ok_or (parse marker) inventory_malformed
    check_identity installation artifact
    verify_entries [] installation.files

  unfoldable pub verify_object :
      (Bytes → Option InstallationManifest)
      → ℕ
      → ArtifactSpec
      → Option (Result ArtifactError (Unit {0}))
  unfolding inventory_of check_inventory inventory_files
  verify_object parse fuel artifact = elim (inventory_of parse artifact) [
    | err e ↦ some (err e)
    | ok expected ↦ check_inventory artifact expected (inventory_files disk fuel)
  ]
