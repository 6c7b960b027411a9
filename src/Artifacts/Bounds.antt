-- ===== src/Artifacts/Bounds.antt =====
-- The bytes that `extract_verified_archive` writes, crates/impossible-voice-artifacts/src/lib.rs.
use impossible_voice.Prelude.{
  all, leb, ok_or, ℕ, suc, ◌+◌, ◌≤◌, Bool, false, not, Option, none, some, List, [], ◌∷◌, ◌++◌,
  arith, length, length-append, ◌==◌,
}
use impossible_voice.Prelude.Bytes.{hex_digest, Bytes, contains_bytes, to_ascii_lowercase}
use impossible_voice.Prelude.Stateful.{
  Keeps, bind-Keeps, if-Keeps, then-Keeps, ◌>>=◌, pure, fail_if, modify, lift,
}
use impossible_voice.Artifacts.{
  archive_empty, strip_archive_root, archive_too_many, archive_entry, is_empty, path_text,
  archive_path_invalid, max_archive_entries, archive_malformed, inventory_unwritten,
  installation_file, ArtifactError, ArtifactSpec, InstallationManifest, extraction_file,
  extraction_directory,
}
use impossible_voice.Artifacts.Store.{empty_extraction}
use impossible_voice.Artifacts.Extract.{
  manifest_for, with_file, sort_installed, extract_file, extract_relative, extract_as,
  finish_extract, finish_file, TarEntry, EntryType, folder, special, regular, Extraction,
  is_blocked, is_occupied, parent, append_to_last, call, create_dir_all, create_file, count_bytes,
  copy_chunk, copy, write_extracted_file, Found, extract_entry, extract_entries, write_marker,
  extract_archive,
}

-- The bytes that are in the staging directory.
unfoldable pub unpacked : List (List Bytes × Bytes) → ℕ
unpacked [] = 0
unpacked ((names, contents) ∷ files) = length contents + unpacked files

append_to_last-unpacked :
    (chunk : Bytes) (files : List (List Bytes × Bytes))
    → unpacked (append_to_last chunk files) ≤ unpacked files + length chunk
unfolding unpacked append_to_last
append_to_last-unpacked chunk [] = omega arith
append_to_last-unpacked chunk ((names, contents) ∷ files) =
    omega (arith, length-append contents chunk)

module _ (faults : ℕ → Bool) (digest : Bytes → Bytes) (limit : ℕ) where
  -- No more than was counted, and no more than is allowed.
  abbrev pub IsBounded : Extraction → Type 0
  IsBounded s = (unpacked s.files ≤ s.total) × (unpacked s.files ≤ limit)

  call-IsBounded :
      (refused : Extraction → Bool) (e : ArtifactError) → Keeps IsBounded (call faults refused e)
  unfolding call
  call-IsBounded refused e s h = h

  create_dir_all-IsBounded : (names : List Bytes) → Keeps IsBounded (create_dir_all faults names)
  unfolding create_dir_all call
  create_dir_all-IsBounded names =
      then-Keeps IsBounded (call faults (λ s. is_blocked names s.files) extraction_directory)
        (modify (λ s. record s { directories = names ∷ s.directories })) (λ s h. h) (λ s h. h)

  create_file-IsBounded : (names : List Bytes) → Keeps IsBounded (create_file faults names)
  unfolding create_file call unpacked
  create_file-IsBounded names =
      then-Keeps IsBounded (call faults (is_occupied names) extraction_file)
        (modify (λ s. record s { files = (names, []) ∷ s.files })) (λ s h. h)
        (λ s h. (omega arith, omega arith))

  copy_chunk-IsBounded :
      (size : ℕ) (chunk : Bytes) → Keeps IsBounded (copy_chunk faults digest limit size chunk)
  unfolding copy_chunk count_bytes call
  copy_chunk-IsBounded size chunk s (p, q) =
      let more = append_to_last-unpacked chunk s.files in ground arith

  copy-IsBounded :
      (reads : List (Option Bytes)) (size : ℕ) (hashed : Bytes)
      → Keeps IsBounded (copy faults digest limit reads size hashed)
  unfolding copy
  copy-IsBounded [] size hashed s h = h
  copy-IsBounded (none ∷ reads) size hashed s h = h
  copy-IsBounded (some chunk ∷ reads) size hashed s h =
      if-Keeps IsBounded (length chunk == 0) (pure (size, hashed))
        (copy_chunk faults digest limit size chunk >>= λ counted.
          copy faults digest limit reads counted (hashed ++ chunk))
        (λ s h. h)
        (bind-Keeps IsBounded (copy_chunk faults digest limit size chunk)
          (λ counted. copy faults digest limit reads counted (hashed ++ chunk))
          (copy_chunk-IsBounded size chunk)
          (λ counted. copy-IsBounded reads counted (hashed ++ chunk)))
        s h

  finish_file-IsBounded :
      (path : Bytes) (r : ℕ × Bytes) → Keeps IsBounded (finish_file faults digest limit path r)
  unfolding finish_file
  finish_file-IsBounded path (size, hashed) =
      then-Keeps IsBounded (call faults (λ _. false) extraction_file)
        (pure (record { path = path; size = size; sha256 = hex_digest (digest hashed) }))
        (call-IsBounded (λ _. false) extraction_file) (λ s h. h)

  write_extracted_file-IsBounded :
      (reads : List (Option Bytes)) (destination : List Bytes) (path : Bytes)
      → Keeps IsBounded (write_extracted_file faults digest limit reads destination path)
  unfolding write_extracted_file
  write_extracted_file-IsBounded reads destination path =
      then-Keeps IsBounded (create_dir_all faults (parent destination)) _
        (create_dir_all-IsBounded (parent destination))
        (then-Keeps IsBounded (create_file faults destination) _ (create_file-IsBounded destination)
          (bind-Keeps IsBounded (copy faults digest limit reads 0 []) _ (copy-IsBounded reads 0 [])
            (λ r. finish_file-IsBounded path r)))

module _ (faults : ℕ → Bool) (digest : Bytes → Bytes) (is_utf8 : Bytes → Bool)
    (artifact : ArtifactSpec) where
  abbrev IsWithin : Extraction → Type 0
  IsWithin = IsBounded faults digest artifact.max_unpacked_bytes

  extract_file-IsWithin :
      (reads : List (Option Bytes)) (relative : List Bytes) (found : Found)
      → Keeps IsWithin (extract_file faults digest is_utf8 artifact reads relative found)
  unfolding extract_file
  extract_file-IsWithin reads relative found =
      then-Keeps IsWithin
        (fail_if (λ _. contains_bytes (to_ascii_lowercase (path_text relative)) found.seen)
          archive_entry)
        _ (λ s h. h)
        (bind-Keeps IsWithin
          (write_extracted_file faults digest artifact.max_unpacked_bytes reads relative
            (path_text relative))
          (λ file. pure (
            with_file faults digest is_utf8 artifact (to_ascii_lowercase (path_text relative)) found
              file))
          (write_extracted_file-IsBounded faults digest artifact.max_unpacked_bytes reads relative
            (path_text relative))
          (λ file s h. h))

  extract_as-IsWithin :
      (kind : EntryType) (reads : List (Option Bytes)) (relative : List Bytes) (found : Found)
      → Keeps IsWithin (extract_as faults digest is_utf8 artifact kind reads relative found)
  unfolding extract_as
  extract_as-IsWithin folder reads relative found =
      then-Keeps IsWithin (create_dir_all faults relative) (pure found)
        (create_dir_all-IsBounded faults digest artifact.max_unpacked_bytes relative) (λ s h. h)
  extract_as-IsWithin special reads relative found = λ s h. h
  extract_as-IsWithin regular reads relative found = extract_file-IsWithin reads relative found

  extract_relative-IsWithin :
      (entry : TarEntry) (relative : List Bytes) (found : Found)
      → Keeps IsWithin (extract_relative faults digest is_utf8 artifact entry relative found)
  unfolding extract_relative
  extract_relative-IsWithin entry [] found = λ s h. h
  extract_relative-IsWithin entry (name ∷ names) found =
      then-Keeps IsWithin (fail_if (λ _. not (all is_utf8 (name ∷ names))) archive_path_invalid) _
        (λ s h. h) (extract_as-IsWithin entry.entry_type entry.reads (name ∷ names) found)

  extract_entry-IsWithin :
      (entry : Option TarEntry) (found : Found)
      → Keeps IsWithin (extract_entry faults digest is_utf8 artifact entry found)
  unfolding extract_entry
  extract_entry-IsWithin none found = λ s h. h
  extract_entry-IsWithin (some entry) found =
      bind-Keeps IsWithin (lift (λ _. ok_or entry.path archive_path_invalid)) _ (λ s h. h)
        (λ path.
          bind-Keeps IsWithin (lift (λ _. strip_archive_root path artifact.archive_root))
            (λ relative. extract_relative faults digest is_utf8 artifact entry relative found)
            (λ s h. h) (λ relative. extract_relative-IsWithin entry relative found))

  extract_entries-IsWithin :
      (index : ℕ) (entries : List (Option TarEntry)) (found : Found)
      → Keeps IsWithin (extract_entries faults digest is_utf8 artifact index entries found)
  unfolding extract_entries
  extract_entries-IsWithin index [] found s h = h
  extract_entries-IsWithin index (entry ∷ entries) found s h =
      then-Keeps IsWithin (fail_if (λ _. leb max_archive_entries index) archive_too_many)
        (extract_entry faults digest is_utf8 artifact entry found >>= λ more.
          extract_entries faults digest is_utf8 artifact (suc index) entries more)
        (λ s h. h)
        (bind-Keeps IsWithin (extract_entry faults digest is_utf8 artifact entry found)
          (λ more. extract_entries faults digest is_utf8 artifact (suc index) entries more)
          (extract_entry-IsWithin entry found)
          (λ more. extract_entries-IsWithin (suc index) entries more))
        s h

  write_marker-IsWithin :
      (encoded : Option Bytes)
      → Keeps IsWithin (write_marker faults digest is_utf8 artifact encoded)
  unfolding write_marker call
  write_marker-IsWithin none = λ s h. h
  write_marker-IsWithin (some bytes) =
      then-Keeps IsWithin (call faults (is_occupied (installation_file ∷ [])) inventory_unwritten) _
        (λ s h. h)
        (then-Keeps IsWithin (call faults (λ _. false) inventory_unwritten)
          (modify (λ s. record s { marker = some bytes })) (λ s h. h) (λ s h. h))

  extract_archive-IsWithin :
      (encode : InstallationManifest → Option Bytes) (entries : Option (List (Option TarEntry)))
      → Keeps IsWithin (extract_archive faults digest is_utf8 artifact encode entries)
  unfolding extract_archive finish_extract
  extract_archive-IsWithin encode entries =
      bind-Keeps IsWithin (lift (λ _. ok_or entries archive_malformed)) _ (λ s h. h)
        (λ listed.
          bind-Keeps IsWithin
            (extract_entries faults digest is_utf8 artifact 0 listed
              (record { installed = []; seen = [] }))
            (finish_extract faults digest is_utf8 artifact encode)
            (extract_entries-IsWithin 0 listed (record { installed = []; seen = [] }))
            (λ found.
              then-Keeps IsWithin
                (fail_if (λ _. is_empty (sort_installed found.installed)) archive_empty) _
                (λ s h. h)
                (write_marker-IsWithin (
                  encode (
                    manifest_for faults digest is_utf8 artifact
                      (sort_installed found.installed))))))

-- However an extraction ends, with an error or not, and whatever the archive holds: the files that
-- it has written to the staging directory have no more bytes than the artifact allows.
pub extract_archive-unpacked :
    (faults : ℕ → Bool) (digest : Bytes → Bytes) (is_utf8 : Bytes → Bool) (artifact : ArtifactSpec)
    (encode : InstallationManifest → Option Bytes) (entries : Option (List (Option TarEntry)))
    (calls : ℕ)
    → unpacked
        (extract_archive faults digest is_utf8 artifact encode entries
          (empty_extraction calls)).0.files
      ≤ artifact.max_unpacked_bytes
unfolding unpacked
extract_archive-unpacked faults digest is_utf8 artifact encode entries calls =
    (extract_archive-IsWithin faults digest is_utf8 artifact encode entries (empty_extraction calls)
      (omega arith, omega arith)).1
