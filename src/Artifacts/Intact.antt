-- ===== src/Artifacts/Intact.antt =====
-- What `verify_object` checks, crates/impossible-voice-artifacts/src/lib.rs.
use impossible_voice.Prelude.{
  ◌||◌, ok_injective, all, ok_or-eq-ok, ℕ, ◌≡◌, refl, sym, ap, ◌∙◌, true, not, Option, some, List,
  [], ◌∷◌, ok, err, Every, arith, >>=-eq-ok, >>-eq-ok, reject_if-eq-ok, reject_if, ok_or,
  some_injective, Result-cases, Option-cases, inl, inr,
}
use impossible_voice.Prelude.Bytes.{eq_of_bytes_eq, Bytes, contains_bytes}
use impossible_voice.Artifacts.{
  false, is_empty, Bool, installation_identity, map, inventory_missing, inventory_malformed,
  inventory_duplicate, inventory_mismatch, required_missing, ArtifactSpec, InstalledFile,
  InstallationManifest, installation_file, Component, normal, safe_relative_path,
}
use impossible_voice.Artifacts.Installed.{
  includes, Disk, verify_archive_file, verify_entries, require_paths, check_identity,
  check_inventory, inventory_of, verify_object, inventory_files, same_files,
}

module _ (components : Bytes → List Component) (disk : Disk) (digest : Bytes → Bytes) where
  -- A listed file: below the root, and of its size and digest.
  abbrev pub IsIntact : InstalledFile → Type 0
  IsIntact f =
      (safe_relative_path (components f.path) ≡ ok tt)
      × (verify_archive_file disk digest (components f.path) f.size f.sha256 ≡ ok tt)

  verify_entries-eq-ok :
      (seen : List Bytes) (files : List InstalledFile) {expected : List Bytes}
      → verify_entries components disk digest seen files ≡ ok expected
      → Every IsIntact files
  unfolding verify_entries
  verify_entries-eq-ok seen [] p = tt
  verify_entries-eq-ok seen (f ∷ files) p =
      let (safe, p1) = >>-eq-ok (safe_relative_path (components f.path)) _ p in
      let (_, p2) = >>-eq-ok (reject_if (contains_bytes f.path seen) inventory_duplicate) _ p1 in
      let (valid, p3) =
        >>-eq-ok (verify_archive_file disk digest (components f.path) f.size f.sha256) _ p2 in
      ((safe, valid), verify_entries-eq-ok (f.path ∷ seen) files p3)

  require_paths-eq-ok :
      (paths : List Bytes)
      → require_paths components disk digest paths ≡ ok tt
      → Every (λ p. disk.exists (components p) ≡ true) paths
  unfolding require_paths
  require_paths-eq-ok [] p = tt
  require_paths-eq-ok (path ∷ paths) p =
      let (there, p1) =
        >>-eq-ok (reject_if (not (disk.exists (components path))) required_missing) _ p in
      let e = reject_if-eq-ok (not (disk.exists (components path))) required_missing there in
      (ground arith, require_paths-eq-ok paths p1)

  -- What holds of all the paths collected holds of those seen before, and of each one listed.
  verify_entries-all :
      (q : Bytes → Bool) (seen : List Bytes) (files : List InstalledFile) {expected : List Bytes}
      → verify_entries components disk digest seen files ≡ ok expected
      → all q expected ≡ true
      → (all q seen ≡ true) × Every (λ f. q f.path ≡ true) files
  unfolding verify_entries
  verify_entries-all q seen [] p h = (rw (ok_injective p) h, tt)
  verify_entries-all q seen (f ∷ files) p h =
      let (_, p1) = >>-eq-ok (safe_relative_path (components f.path)) _ p in
      let (_, p2) = >>-eq-ok (reject_if (contains_bytes f.path seen) inventory_duplicate) _ p1 in
      let (_, p3) =
        >>-eq-ok (verify_archive_file disk digest (components f.path) f.size f.sha256) _ p2 in
      let (here, rest) = verify_entries-all q (f.path ∷ seen) files p3 h in
      (ground arith, (ground arith, rest))

  -- A path collected is one that was seen before or is listed.
  verify_entries-contains :
      (path : Bytes) (seen : List Bytes) (files : List InstalledFile) {expected : List Bytes}
      → verify_entries components disk digest seen files ≡ ok expected
      → contains_bytes path expected ≡ true
      → (contains_bytes path (map (λ f. f.path) files) || contains_bytes path seen) ≡ true
  unfolding verify_entries
  verify_entries-contains path seen [] p h = rw (ok_injective p) h
  verify_entries-contains path seen (f ∷ files) p h =
      let (_, p1) = >>-eq-ok (safe_relative_path (components f.path)) _ p in
      let (_, p2) = >>-eq-ok (reject_if (contains_bytes f.path seen) inventory_duplicate) _ p1 in
      let (_, p3) =
        >>-eq-ok (verify_archive_file disk digest (components f.path) f.size f.sha256) _ p2 in
      let found = verify_entries-contains path (f.path ∷ seen) files p3 h in ground arith

  walked-IsListed :
      (files : List InstalledFile) (expected actual : List Bytes)
      → verify_entries components disk digest [] files ≡ ok expected
      → includes expected actual ≡ true
      → Every (λ path. contains_bytes path (map (λ f. f.path) files) ≡ true) actual
  walked-IsListed files expected [] p h = tt
  walked-IsListed files expected (path ∷ actual) p h =
      let here = verify_entries-contains path [] files p in
      (ground (arith, here), walked-IsListed files expected actual p (ground arith))

  -- The marker is that of the artifact and of its archive, and lists a file.
  abbrev pub IsFor : InstallationManifest → ArtifactSpec → Type 0
  IsFor installation artifact =
      (installation.schema_version ≡ 1)
      × (installation.artifact_id ≡ artifact.id)
      × (installation.archive_sha256 ≡ artifact.sha256)
      × (is_empty installation.files ≡ false)

  check_identity-eq-ok :
      (installation : InstallationManifest) (artifact : ArtifactSpec)
      → check_identity components disk digest installation artifact ≡ ok tt
      → IsFor installation artifact
  unfolding check_identity
  check_identity-eq-ok installation artifact p =
      let e = reject_if-eq-ok _ installation_identity p in
      (
        ground arith,
        eq_of_bytes_eq installation.artifact_id artifact.id (ground arith),
        eq_of_bytes_eq installation.archive_sha256 artifact.sha256 (ground arith),
        ground arith,
      )

-- A verification that succeeds: the marker was read, and is an inventory for this artifact and
-- archive that lists a file; each file that it lists is below the root, with the size and the
-- digest listed; the walk of the directory ended, found each listed file, and found no file that is
-- not listed; and the paths that the artifact requires are there.
pub verify_object-IsIntact :
    (components : Bytes → List Component) (disk : Disk) (digest : Bytes → Bytes)
    (parse : Bytes → Option InstallationManifest) (fuel : ℕ) (artifact : ArtifactSpec)
    → verify_object components disk digest parse fuel artifact ≡ some (ok tt)
    → (marker : Bytes) × (installation : InstallationManifest) × (actual : List Bytes)
      × (disk.contents (normal installation_file ∷ []) ≡ some marker)
      × (parse marker ≡ some installation)
      × IsFor components disk digest installation artifact
      × Every (IsIntact components disk digest) installation.files
      × (inventory_files disk fuel ≡ some (ok actual))
      × Every (λ f. contains_bytes f.path actual ≡ true) installation.files
      × Every (λ path. contains_bytes path (map (λ f. f.path) installation.files) ≡ true) actual
      × Every (λ p. disk.exists (components p) ≡ true) artifact.required_paths
unfolding verify_object inventory_of check_inventory
verify_object-IsIntact components disk digest parse fuel artifact p =
    elim (Result-cases (inventory_of components disk digest parse artifact)) [
      | inl (e, q) ↦
          let r : verify_object components disk digest parse fuel artifact ≡ some (err e) =
            rw (q, verify_object) refl in
          let clash = sym r ∙ p in cc
      | inr (expected, q) ↦
          let r : verify_object components disk digest parse fuel artifact
              ≡ check_inventory components disk digest artifact expected
                  (inventory_files disk fuel) =
            rw (q, verify_object) refl in
          elim (Option-cases (inventory_files disk fuel)) [
            | inl w ↦
                let clash =
                  ap (check_inventory components disk digest artifact expected) (sym w)
                  ∙ sym r
                  ∙ p in
                cc
            | inr (walked, w) ↦
                let s = some_injective (
                  ap (check_inventory components disk digest artifact expected) (sym w)
                  ∙ sym r
                  ∙ p) in
                let (actual, w1, s1) = >>=-eq-ok walked _ s in
                let (same, s2) =
                  >>-eq-ok (reject_if (not (same_files actual expected)) inventory_mismatch) _ s1 in
                let (marker, m, q1) =
                  >>=-eq-ok
                    (ok_or (disk.contents (normal installation_file ∷ [])) inventory_missing) _ q in
                let (installation, i, q2) =
                  >>=-eq-ok (ok_or (parse marker) inventory_malformed) _ q1 in
                let (identity, q3) =
                  >>-eq-ok (check_identity components disk digest installation artifact) _ q2 in
                let intact = verify_entries-eq-ok components disk digest [] installation.files q3 in
                let e =
                  reject_if-eq-ok (not (same_files actual expected)) inventory_mismatch same in
                (
                  marker,
                  installation,
                  actual,
                  ok_or-eq-ok (disk.contents (normal installation_file ∷ [])) inventory_missing m,
                  ok_or-eq-ok (parse marker) inventory_malformed i,
                  check_identity-eq-ok components disk digest installation artifact identity,
                  intact,
                  w ∙ ap some w1,
                  (verify_entries-all components disk digest (λ path. contains_bytes path actual) []
                      installation.files q3 (ground arith)).1,
                  walked-IsListed components disk digest installation.files expected actual q3
                      (ground arith),
                  require_paths-eq-ok components disk digest artifact.required_paths s2,
                )
          ]
    ]
