-- ===== src/Tests/Trees.antt =====
-- Installed objects, and an archive that is fetched: crates/impossible-voice-artifacts/src/lib.rs.
use impossible_voice.Prelude.{
  map, ℕ, ◌<◌, ◌≡◌, refl, subst, some_injective, true, false, Option, none, some, List, [], ◌∷◌,
  Result, ok, arith, Every,
}
use mathlib.Core.List.{Memᴰ}
use impossible_voice.Prelude.Bytes.{contains_bytes, Bytes, ascii, hex_digest}
use impossible_voice.Artifacts.{
  installation_file, normal, ArtifactError, path_text, safe_relative_path, InstallationManifest,
}
use impossible_voice.Artifacts.Manifest.{runtime}
use impossible_voice.Artifacts.Installed.{
  Disk, DirEntry, entry, file, directory, inventory_files, verify_object,
}
use impossible_voice.Artifacts.World.{downloads, World}
use impossible_voice.Artifacts.Download.{download}
use impossible_voice.Artifacts.Store.{verify_archive_node}
use impossible_voice.Artifacts.Walk.{here, below, IsListed}
use impossible_voice.Artifacts.Complete.{inventory_files-IsListed}
use impossible_voice.Artifacts.Finite.{below_weight, inventory_files-terminates}
use impossible_voice.Artifacts.Downloaded.{download-valid}
use impossible_voice.Artifacts.Intact.{IsIntact, IsFor, verify_object-IsIntact}
use impossible_voice.Tests.Artifacts.{
  components, environment, item, inventory, mounted, repeat, empty_store,
}

abbrev nested : List Bytes → Option (List DirEntry)
nested [] = some (entry (ascii "s") directory ∷ [])
nested (name ∷ []) = some (entry (ascii "f") file ∷ [])
nested _ = none

abbrev tree : Disk
tree = record {
  metadata = λ _. none;
  contents = λ _. none;
  exists = λ _. false;
  read_dir = nested;
  is_utf8 = λ _. true;
}

walked : inventory_files tree 5 ≡ some (ok (ascii "s/f" ∷ []))
unfolding inventory_files path_text
walked = refl

inventory_files-IsListed_example :
    IsListed (ascii "s/f" ∷ []) (ascii "s" ∷ []) (entry (ascii "f") file)
inventory_files-IsListed_example =
    inventory_files-IsListed tree 5 (ascii "s/f" ∷ []) walked (ascii "s" ∷ [])
      (entry (ascii "f") file ∷ []) (entry (ascii "f") file)
      (below (entry (ascii "s") directory ∷ []) (ascii "s") refl (Memᴰ.head refl) here) refl
      (Memᴰ.head refl)

abbrev measure : List Bytes → ℕ
measure [] = 2
measure _ = 1

tree_finite :
    (d : List Bytes) (entries : List DirEntry)
    → tree.read_dir d ≡ some entries
    → below_weight measure d entries < measure d
unfolding below_weight
tree_finite [] entries p =
    subst (λ es. below_weight measure [] es < 2) (some_injective p) (omega arith)
tree_finite (name ∷ []) entries p =
    subst (λ es. below_weight measure (name ∷ []) es < 1) (some_injective p) (omega arith)
tree_finite (name ∷ (next ∷ rest)) entries p = cc

inventory_files-terminates_example :
    (r : Result ArtifactError (List Bytes)) × (inventory_files tree 3 ≡ some r)
inventory_files-terminates_example =
    inventory_files-terminates tree measure tree_finite 3 (omega arith)

abbrev fetched : World
fetched = (download environment (item (ascii "a") runtime) (downloads, ascii "x") empty_store).0

downloaded :
    download environment (item (ascii "a") runtime) (downloads, ascii "x") empty_store
    ≡ (fetched, ok tt)
unfolding download hex_digest
downloaded = refl

download-valid_example :
    verify_archive_node environment
      (item (ascii "a") runtime)
      (fetched.nodes (downloads, ascii "x"))
    ≡ ok tt
download-valid_example =
    download-valid environment (item (ascii "a") runtime) (downloads, ascii "x") empty_store fetched
      downloaded

abbrev object : Disk
object =
    mounted
      (record { calls = 0; directories = []; files = []; marker = some (ascii "a"); total = 0 })

abbrev parse : Bytes → Option InstallationManifest
parse bytes = some (inventory bytes)

verified :
    verify_object components object (λ _. repeat 32 170) parse 5 (item (ascii "a") runtime)
    ≡ some (ok tt)
unfolding verify_object hex_digest safe_relative_path path_text
verified = refl

verify_object-IsIntact_example :
    (marker : Bytes) × (installation : InstallationManifest) × (actual : List Bytes)
    × (object.contents (normal installation_file ∷ []) ≡ some marker)
    × (parse marker ≡ some installation)
    × IsFor components object (λ _. repeat 32 170) installation (item (ascii "a") runtime)
    × Every (IsIntact components object (λ _. repeat 32 170)) installation.files
    × (inventory_files object 5 ≡ some (ok actual))
    × Every (λ f. contains_bytes f.path actual ≡ true) installation.files
    × Every (λ path. contains_bytes path (map (λ f. f.path) installation.files) ≡ true) actual
    × Every (λ p. object.exists (components p) ≡ true) (item (ascii "a") runtime).required_paths
verify_object-IsIntact_example =
    verify_object-IsIntact components object (λ _. repeat 32 170) parse 5 (item (ascii "a") runtime)
      verified
