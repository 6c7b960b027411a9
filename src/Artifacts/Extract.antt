-- ===== src/Artifacts/Extract.antt =====
-- Extraction of an archive into a staging directory: `extract_verified_archive` and
-- `write_extracted_file` of crates/impossible-voice-artifacts/src/lib.rs. The decoders, the digest and
-- `serde_json` are parameters. `faults` tells which calls of the file system fail, by their number.
use impossible_voice.Prelude.{
  ℕ, suc, ◌+◌, ◌^◌, Bool, true, false, not, ◌&&◌, ◌||◌, Option, none, some, List, [], ◌∷◌, ◌++◌, ok,
  err, ok_or, any, all, is_empty, length, if◌then◌else◌, ltb, leb, ◌==◌,
}
use impossible_voice.Prelude.Bytes.{
  Bytes, bytes_eq, contains_bytes, bytes_leb, to_ascii_lowercase, hex_digest,
}
use impossible_voice.Prelude.Stateful.{Stateful, ◌>>=◌, ◌>>◌, pure, fail_if, modify, lift}
use impossible_voice.Artifacts.{
  ArtifactError, archive_malformed, archive_path_invalid, archive_too_many, archive_entry,
  archive_empty, extraction_directory, extraction_file, extraction_bound, inventory_unencoded,
  inventory_unwritten, ArtifactSpec, InstalledFile, InstallationManifest, installation_file,
  max_archive_entries, Component, strip_archive_root, path_text,
}

pub data EntryType : Type 0 where
  regular folder special : EntryType

-- An entry of the archive: its path, its type, and what the reads of its data return.
pub record TarEntry : Type 0 where
  pub path : Option (List Component)
  pub entry_type : EntryType
  pub reads : List (Option Bytes)

-- The staging directory, by the names of the paths below it, the last file first, with the
-- number of calls made and the bytes counted in `total`.
pub record Extraction : Type 0 where
  pub calls : ℕ
  pub directories : List (List Bytes)
  pub files : List (List Bytes × Bytes)
  pub marker : Option Bytes
  pub total : ℕ

abbrev pub Extract {ℓ} : Type ℓ → Type ℓ
Extract = Stateful Extraction ArtifactError

abbrev is_prefix_of : List Bytes → List Bytes → Bool
is_prefix_of [] names = true
is_prefix_of (x ∷ xs) [] = false
is_prefix_of (x ∷ xs) (y ∷ ys) = bytes_eq x y && is_prefix_of xs ys

-- Whether a file is at the path or above it.
abbrev pub is_blocked : List Bytes → List (List Bytes × Bytes) → Bool
is_blocked names files = any (λ f. is_prefix_of f.0 names) files

-- Whether anything is at the path.
abbrev pub is_occupied : List Bytes → Extraction → Bool
is_occupied names s =
    any (is_prefix_of names) s.directories || any (λ f. is_prefix_of names f.0) s.files

-- `destination.parent()`.
abbrev pub parent : List Bytes → List Bytes
parent [] = []
parent (name ∷ []) = []
parent (name ∷ (next ∷ rest)) = name ∷ parent (next ∷ rest)

-- `write_all` on the file opened last.
unfoldable pub append_to_last : Bytes → List (List Bytes × Bytes) → List (List Bytes × Bytes)
append_to_last chunk [] = []
append_to_last chunk ((names, contents) ∷ rest) = (names, contents ++ chunk) ∷ rest

-- `sort_by` on the paths.
unfoldable pub insert_installed : InstalledFile → List InstalledFile → List InstalledFile
insert_installed f [] = f ∷ []
insert_installed f (g ∷ gs) =
    let rest = insert_installed f gs in if bytes_leb f.path g.path then f ∷ g ∷ gs else g ∷ rest

unfoldable pub sort_installed : List InstalledFile → List InstalledFile
unfolding insert_installed
sort_installed [] = []
sort_installed (f ∷ fs) = insert_installed f (sort_installed fs)

module _ (faults : ℕ → Bool) where
  -- A call of the file system, with what else makes it fail.
  unfoldable pub call : (Extraction → Bool) → ArtifactError → Extract (Unit {0})
  call refused failure s =
      (record s { calls = suc s.calls }, if faults s.calls || refused s then err failure else ok tt)

  unfoldable pub create_dir_all : List Bytes → Extract (Unit {0})
  unfolding call
  create_dir_all names = do
    call (λ s. is_blocked names s.files) extraction_directory
    modify (λ s. record s { directories = names ∷ s.directories })

  -- With `create_new`.
  unfoldable pub create_file : List Bytes → Extract (Unit {0})
  unfolding call
  create_file names = do
    call (is_occupied names) extraction_file
    modify (λ s. record s { files = (names, []) ∷ s.files })

  module _ (digest : Bytes → Bytes) (max_unpacked_bytes : ℕ) where
    -- The three checks of a count that was read.
    unfoldable pub count_bytes : ℕ → ℕ → Extract ℕ
    count_bytes size count = do
      fail_if (λ _. not (ltb (size + count) (2 ^ 64))) extraction_bound
      fail_if (λ s. not (ltb (s.total + count) (2 ^ 64))) extraction_bound
      modify (λ s. record s { total = s.total + count })
      fail_if (λ s. ltb max_unpacked_bytes s.total) extraction_bound
      pure (size + count)

    -- One round: the checks, and the write. A write that fails leaves nothing.
    unfoldable pub copy_chunk : ℕ → Bytes → Extract ℕ
    unfolding count_bytes append_to_last call
    copy_chunk size chunk = do
      counted ← count_bytes size (length chunk)
      call (λ _. false) extraction_file
      modify (λ s. record s { files = append_to_last chunk s.files })
      pure counted

    -- The loop of `write_extracted_file`, with what was counted and hashed.
    unfoldable pub copy : List (Option Bytes) → ℕ → Bytes → Extract (ℕ × Bytes)
    unfolding copy_chunk
    copy [] size hashed = pure (size, hashed)
    copy (none ∷ reads) size hashed = do fail_if (λ _. true) extraction_file; pure (size, hashed)
    copy (some chunk ∷ reads) size hashed =
        let rest = copy reads in
        if length chunk == 0
        then pure (size, hashed)
        else copy_chunk size chunk >>= λ counted. rest counted (hashed ++ chunk)

    unfoldable pub finish_file : Bytes → ℕ × Bytes → Extract InstalledFile
    unfolding call
    finish_file relative_path (size, hashed) = do
      call (λ _. false) extraction_file
      pure (record { path = relative_path; size = size; sha256 = hex_digest (digest hashed) })

    unfoldable pub write_extracted_file :
        List (Option Bytes) → List Bytes → Bytes → Extract InstalledFile
    unfolding copy create_dir_all create_file finish_file
    write_extracted_file reads destination relative_path = do
      create_dir_all (parent destination)
      create_file destination
      copied ← copy reads 0 []
      finish_file relative_path copied

-- What the loop over the entries keeps.
pub record Found : Type 0 where
  pub installed : List InstalledFile
  pub seen : List Bytes

module _ (faults : ℕ → Bool) (digest : Bytes → Bytes) (is_utf8 : Bytes → Bool)
    (artifact : ArtifactSpec) where
  abbrev pub with_file : Bytes → Found → InstalledFile → Found
  with_file collision_key found file = record {
    installed = found.installed ++ (file ∷ []);
    seen = collision_key ∷ found.seen;
  }

  -- A regular file, unless one of the same name was seen, in any case.
  unfoldable pub extract_file : List (Option Bytes) → List Bytes → Found → Extract Found
  unfolding write_extracted_file
  extract_file reads relative found = do
    let relative_text = path_text relative
    let collision_key = to_ascii_lowercase relative_text
    fail_if (λ _. contains_bytes collision_key found.seen) archive_entry
    file ←
        write_extracted_file faults digest artifact.max_unpacked_bytes reads relative relative_text
    pure (with_file collision_key found file)

  unfoldable pub extract_as : EntryType → List (Option Bytes) → List Bytes → Found → Extract Found
  unfolding create_dir_all extract_file
  extract_as folder reads relative found = do create_dir_all faults relative; pure found
  extract_as special reads relative found = do fail_if (λ _. true) archive_entry; pure found
  extract_as regular reads relative found = extract_file reads relative found

  unfoldable pub extract_relative : TarEntry → List Bytes → Found → Extract Found
  unfolding extract_as
  extract_relative entry [] found = pure found
  extract_relative entry (name ∷ names) found = do
    fail_if (λ _. not (all is_utf8 (name ∷ names))) archive_path_invalid
    extract_as entry.entry_type entry.reads (name ∷ names) found

  unfoldable pub extract_entry : Option TarEntry → Found → Extract Found
  unfolding extract_relative
  extract_entry none found = do fail_if (λ _. true) archive_malformed; pure found
  extract_entry (some entry) found = do
    path ← lift (λ _. ok_or entry.path archive_path_invalid)
    relative ← lift (λ _. strip_archive_root path artifact.archive_root)
    extract_relative entry relative found

  -- The loop.
  unfoldable pub extract_entries : ℕ → List (Option TarEntry) → Found → Extract Found
  unfolding extract_entry
  extract_entries index [] found = pure found
  extract_entries index (entry ∷ entries) found = do
    fail_if (λ _. leb max_archive_entries index) archive_too_many
    more ← extract_entry entry found
    extract_entries (suc index) entries more

  abbrev pub manifest_for : List InstalledFile → InstallationManifest
  manifest_for installed = record {
    schema_version = 1;
    artifact_id = artifact.id;
    archive_sha256 = artifact.sha256;
    files = installed;
  }

  -- The marker, of what `serde_json` makes of the inventory.
  unfoldable pub write_marker : Option Bytes → Extract (Unit {0})
  write_marker none = fail_if (λ _. true) inventory_unencoded
  write_marker (some bytes) = do
    call faults (is_occupied (installation_file ∷ [])) inventory_unwritten
    call faults (λ _. false) inventory_unwritten
    modify (λ s. record s { marker = some bytes })

  unfoldable pub finish_extract : (InstallationManifest → Option Bytes) → Found → Extract (Unit {0})
  unfolding write_marker sort_installed
  finish_extract encode found = do
    let installed = sort_installed found.installed
    fail_if (λ _. is_empty installed) archive_empty
    write_marker (encode (manifest_for installed))

  -- The archive is verified and opened; `entries` is what the decoders make of it.
  unfoldable pub extract_archive :
      (InstallationManifest → Option Bytes) → Option (List (Option TarEntry)) → Extract (Unit {0})
  unfolding finish_extract extract_entries
  extract_archive encode entries = do
    listed ← lift (λ _. ok_or entries archive_malformed)
    found ← extract_entries 0 listed (record { installed = []; seen = [] })
    finish_extract encode found
