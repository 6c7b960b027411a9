-- ===== src/Artifacts/Store.antt =====
-- `ArtifactStore` of crates/impossible-voice-artifacts/src/lib.rs: `setup` and what it calls. A
-- verification that runs out of fuel counts as a worker that failed.
use impossible_voice.Prelude.{
  ℕ, Bool, true, false, Option, none, some, List, [], ◌∷◌, ◌++◌, take, Result, ok, err,
  if◌then◌else◌,
}
use impossible_voice.Prelude.Bytes.{Bytes, ascii}
use impossible_voice.Prelude.Stateful.{◌>>=◌, ◌>>◌, pure, fail_if, modify, lift}
use impossible_voice.Artifacts.{
  ArtifactError, storage_failed, lock_unopened, lock_unacquired, worker_failed, offline_incomplete,
  staging_failed, activation_failed, archive_unopened, archive_uninspected, ArtifactSpec,
  CuratedManifest, ArtifactResult, SetupReport,
}
use impossible_voice.Artifacts.Manifest.{selection}
use impossible_voice.Artifacts.Installed.{Disk, verify_archive_file, verify_object}
use impossible_voice.Artifacts.Extract.{Extraction, extract_archive}
use impossible_voice.Artifacts.World.{
  FilePath, objects, downloads, staging, World, Environment, Action, put, exists_at, call, rename,
  recover_path,
}
use impossible_voice.Artifacts.Download.{download}

-- In a valid manifest the digest has at least sixteen digits.
unfoldable pub object_path : ArtifactSpec → FilePath
object_path artifact = (objects, artifact.id ++ (b'-' ∷ take 16 artifact.sha256))

unfoldable pub archive_path : ArtifactSpec → FilePath
archive_path artifact = (downloads, artifact.id ++ (b'-' ∷ (artifact.sha256 ++ ascii ".tar.bz2")))

-- What is read of the archive.
abbrev pub contents_of : Option Disk → Bytes
contents_of none = []
contents_of (some disk) = elim (disk.contents []) [ none ↦ [] | some bytes ↦ bytes ]

abbrev pub empty_extraction : ℕ → Extraction
empty_extraction calls = record {
  calls = calls;
  directories = [];
  files = [];
  marker = none;
  total = 0;
}

abbrev pub is_ok {ℓ} : {A : Type ℓ} → Result ArtifactError A → Bool
is_ok (ok x) = true
is_ok (err e) = false

abbrev pub artifact_result : ArtifactSpec → Bytes → ArtifactResult
artifact_result artifact state = record { id = artifact.id; kind = artifact.kind; state = state }

abbrev pub ready_report : CuratedManifest → Bytes → List ArtifactResult → SetupReport
ready_report manifest platform results = record {
  profile = manifest.profile;
  platform = platform;
  status = ascii "ready";
  artifacts = results;
}

module _ (environment : Environment) where
  unfoldable pub verify_node : ArtifactSpec → Option Disk → Result ArtifactError (Unit {0})
  unfolding verify_object
  verify_node artifact none = err ArtifactError.inventory_missing
  verify_node artifact (some disk) =
      elim (verify_object environment.components disk environment.digest
        environment.parse_installation environment.fuel artifact) [
          | none ↦ err worker_failed
          | some result ↦ result
        ]

  unfoldable pub verify_archive_node : ArtifactSpec → Option Disk → Result ArtifactError (Unit {0})
  unfolding verify_archive_file
  verify_archive_node artifact none = err archive_uninspected
  verify_archive_node artifact (some disk) =
      verify_archive_file disk environment.digest [] artifact.size artifact.sha256

  unfoldable pub run_extraction :
      ArtifactSpec → World → Extraction × Result ArtifactError (Unit {0})
  unfolding extract_archive
  run_extraction artifact w =
      extract_archive environment.faults environment.digest environment.is_utf8 artifact
        environment.encode_installation
        (environment.unpack (contents_of (w.nodes (archive_path artifact))))
        (empty_extraction w.calls)

  -- The staging directory shows what the extraction left, also where it failed.
  unfoldable pub finish_extraction :
      FilePath → Extraction × Result ArtifactError (Unit {0}) → Action (Unit {0})
  unfolding put
  finish_extraction at (x, r) w =
      (record w { calls = x.calls; nodes = put at (some (environment.mount x)) w.nodes }, r)

  unfoldable pub extract_at : ArtifactSpec → FilePath → Action (Unit {0})
  unfolding run_extraction finish_extraction
  extract_at artifact at w = finish_extraction at (run_extraction artifact w) w

  unfoldable pub extract_verified_archive : ArtifactSpec → FilePath → Action (Unit {0})
  unfolding verify_archive_node extract_at call archive_path
  extract_verified_archive artifact at = do
    lift (λ w. verify_archive_node artifact (w.nodes (archive_path artifact)))
    call environment (λ _. false) archive_unopened
    extract_at artifact at

  unfoldable pub abandon : FilePath → ArtifactError → Action (Unit {0})
  unfolding recover_path
  abandon at e = do recover_path environment at (ascii "staging"); fail_if (λ _. true) e

  unfoldable pub abandon_on_error :
      FilePath → World × Result ArtifactError (Unit {0}) → World × Result ArtifactError (Unit {0})
  unfolding abandon
  abandon_on_error at (w, ok done) = (w, ok tt)
  abandon_on_error at (w, err e) = abandon at e w

  -- An error of a worker, behind which the staging directory is moved away.
  unfoldable pub or_abandon : FilePath → Action (Unit {0}) → Action (Unit {0})
  unfolding abandon_on_error
  or_abandon at attempt w = abandon_on_error at (attempt w)

  -- An archive of an earlier setup is kept when it is still valid.
  unfoldable pub keep_archive : ArtifactSpec → Action (Unit {0})
  unfolding recover_path verify_archive_node archive_path
  keep_archive artifact w =
      (if is_ok (verify_archive_node artifact (w.nodes (archive_path artifact)))
          then pure tt
          else recover_path environment (archive_path artifact) (ascii "archive"))
        w

  unfoldable pub check_archive : ArtifactSpec → Action (Unit {0})
  unfolding keep_archive archive_path call
  check_archive artifact w =
      (if exists_at (archive_path artifact) w
          then call environment (λ _. false) worker_failed >> keep_archive artifact
          else pure tt)
        w

  unfoldable pub download_if_missing : ArtifactSpec → Action (Unit {0})
  unfolding download archive_path
  download_if_missing artifact w =
      (if exists_at (archive_path artifact) w
          then pure tt
          else download environment artifact (archive_path artifact))
        w

  abbrev pub staged : FilePath → World → World
  staged at w = record w { nodes = put at (some (environment.mount (empty_extraction 0))) w.nodes }

  unfoldable pub create_staging : FilePath → Action (Unit {0})
  unfolding call put
  create_staging at = do call environment (exists_at at) staging_failed; modify (staged at)

  unfoldable pub verify_staging : ArtifactSpec → FilePath → Action (Unit {0})
  unfolding verify_node
  verify_staging artifact at w = (w, verify_node artifact (w.nodes at))

  unfoldable pub install_from : ArtifactSpec → FilePath → Action Bytes
  unfolding create_staging extract_verified_archive or_abandon verify_staging call rename
      object_path
  install_from artifact at = do
    create_staging at
    call environment (λ _. false) worker_failed
    or_abandon at (extract_verified_archive artifact at)
    call environment (λ _. false) worker_failed
    or_abandon at (verify_staging artifact at)
    rename environment at (object_path artifact) activation_failed
    pure (ascii "installed")

  unfoldable pub staging_path : ArtifactSpec → World → FilePath
  staging_path artifact w = (staging, environment.staging_name artifact.id w.calls)

  unfoldable pub install : ArtifactSpec → Action Bytes
  unfolding check_archive download_if_missing install_from staging_path
  install artifact = do
    check_archive artifact
    download_if_missing artifact
    λ w. install_from artifact (staging_path artifact w) w

  unfoldable pub install_unless : Bool → ArtifactSpec → Action Bytes
  unfolding install
  install_unless offline artifact = do fail_if (λ _. offline) offline_incomplete; install artifact

  unfoldable pub replace_object : Bool → ArtifactSpec → Action Bytes
  unfolding install_unless recover_path object_path
  replace_object offline artifact = do
    recover_path environment (object_path artifact) (ascii "object")
    install_unless offline artifact

  unfoldable pub keep_object : Bool → ArtifactSpec → Action Bytes
  unfolding replace_object verify_node object_path
  keep_object offline artifact w =
      (if is_ok (verify_node artifact (w.nodes (object_path artifact)))
          then pure (ascii "verified")
          else replace_object offline artifact)
        w

  unfoldable pub ensure_artifact : Bool → ArtifactSpec → Action Bytes
  unfolding install_unless keep_object object_path call
  ensure_artifact offline artifact w =
      (if exists_at (object_path artifact) w
          then call environment (λ _. false) worker_failed >> keep_object offline artifact
          else install_unless offline artifact)
        w

  -- The loop of `setup`.
  unfoldable pub ensure_all : Bool → List ArtifactSpec → Action (List ArtifactResult)
  unfolding ensure_artifact
  ensure_all offline [] = pure []
  ensure_all offline (artifact ∷ rest) = do
    state ← ensure_artifact offline artifact
    results ← ensure_all offline rest
    pure (artifact_result artifact state ∷ results)

  unfoldable pub prepare_storage : Action (Unit {0})
  unfolding call
  prepare_storage = do
    call environment (λ _. false) storage_failed
    call environment (λ _. false) storage_failed
    call environment (λ _. false) storage_failed
    call environment (λ _. false) storage_failed
    call environment (λ _. false) lock_unopened
    call environment (λ _. false) lock_unacquired

  abbrev pub selected_for : Result ArtifactError (CuratedManifest × Bytes × List ArtifactSpec)
  selected_for =
      selection environment.components environment.curated environment.os environment.arch

  unfoldable pub setup : Bool → Action SetupReport
  unfolding selection prepare_storage ensure_all
  setup offline = do
    (manifest, platform, selected) ← lift (λ _. selected_for)
    prepare_storage
    results ← ensure_all offline selected
    pure (ready_report manifest platform results)
