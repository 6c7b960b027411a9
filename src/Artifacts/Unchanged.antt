-- ===== src/Artifacts/Unchanged.antt =====
-- The other objects during an installation, crates/impossible-voice-artifacts/src/lib.rs.
use impossible_voice.Prelude.{◌≡◌, refl, Bool, true, false, Option, Result, ok, err}
use impossible_voice.Prelude.Bytes.{Bytes, ascii}
use impossible_voice.Prelude.Stateful.{
  Keeps, bind-Keeps, if-Keeps, then-Keeps, ◌>>◌, pure, fail_if, modify, lift,
}
use impossible_voice.Artifacts.{
  ArtifactError, ArtifactSpec, archive_unopened, worker_failed, staging_failed, activation_failed,
  offline_incomplete,
}
use impossible_voice.Artifacts.Installed.{Disk}
use impossible_voice.Artifacts.World.{
  FilePath, objects, World, Environment, Action, put, path_eq, exists_at, call, rename,
  recover_path,
}
use impossible_voice.Artifacts.Download.{download}
use impossible_voice.Artifacts.Store.{
  abandon, abandon_on_error, or_abandon, extract_verified_archive, extract_at, finish_extraction,
  verify_archive_node, archive_path, keep_archive, check_archive, download_if_missing,
  create_staging, staged, verify_staging, install_from, staging_path, install, install_unless,
  replace_object, keep_object, ensure_artifact, object_path, is_ok, verify_node,
}
use impossible_voice.Artifacts.Frame.{
  Holds, rename-Holds, call-Holds, recover_path-Holds, download-Holds,
}

module _ (environment : Environment) (name : Bytes) (shown : Option Disk) where
  abandon-Holds :
      (at : FilePath) (e : ArtifactError)
      → path_eq at (objects, name) ≡ false
      → Keeps (Holds environment name shown) (abandon environment at e)
  unfolding abandon
  abandon-Holds at e p =
      then-Keeps (Holds environment name shown) (recover_path environment at (ascii "staging"))
        (fail_if (λ _. true) e) (recover_path-Holds environment name shown at (ascii "staging") p)
        (λ s h. h)

  abandon_on_error-Holds :
      (at : FilePath) (r : World × Result ArtifactError (Unit {0}))
      → path_eq at (objects, name) ≡ false
      → Holds environment name shown r.0
      → Holds environment name shown (abandon_on_error environment at r).0
  unfolding abandon_on_error
  abandon_on_error-Holds at (w, ok done) p h = h
  abandon_on_error-Holds at (w, err e) p h = abandon-Holds at e p w h

  pub or_abandon-Holds :
      (at : FilePath) (attempt : Action (Unit {0}))
      → path_eq at (objects, name) ≡ false
      → Keeps (Holds environment name shown) attempt
      → Keeps (Holds environment name shown) (or_abandon environment at attempt)
  unfolding or_abandon
  or_abandon-Holds at attempt p keeps s h = abandon_on_error-Holds at (attempt s) p (keeps s h)

  pub extract_verified_archive-Holds :
      (artifact : ArtifactSpec) (at : FilePath)
      → path_eq at (objects, name) ≡ false
      → Keeps (Holds environment name shown) (extract_verified_archive environment artifact at)
  unfolding extract_verified_archive extract_at finish_extraction put call
  extract_verified_archive-Holds artifact at p =
      bind-Keeps (Holds environment name shown)
        (lift (λ w. verify_archive_node environment artifact (w.nodes (archive_path artifact)))) _
        (λ s h. h)
        (λ _.
          then-Keeps (Holds environment name shown) (call environment (λ _. false) archive_unopened)
            (extract_at environment artifact at) (λ s h. h) (λ s h. rw p h))

  check_archive-Holds :
      (artifact : ArtifactSpec)
      → Keeps (Holds environment name shown) (check_archive environment artifact)
  unfolding check_archive keep_archive archive_path
  check_archive-Holds artifact s h =
      if-Keeps (Holds environment name shown) (exists_at (archive_path artifact) s)
        (call environment (λ _. false) worker_failed >> keep_archive environment artifact) (pure tt)
        (then-Keeps (Holds environment name shown) (call environment (λ _. false) worker_failed)
          (keep_archive environment artifact)
          (call-Holds environment name shown (λ _. false) worker_failed)
          (λ s h.
            if-Keeps (Holds environment name shown)
              (is_ok (verify_archive_node environment artifact (s.nodes (archive_path artifact))))
              (pure tt) (recover_path environment (archive_path artifact) (ascii "archive"))
              (λ s h. h)
              (recover_path-Holds environment name shown (archive_path artifact) (ascii "archive")
                refl)
              s h))
        (λ s h. h) s h

  download_if_missing-Holds :
      (artifact : ArtifactSpec)
      → Keeps (Holds environment name shown) (download_if_missing environment artifact)
  unfolding download_if_missing archive_path
  download_if_missing-Holds artifact s h =
      if-Keeps (Holds environment name shown) (exists_at (archive_path artifact) s) (pure tt)
        (download environment artifact (archive_path artifact)) (λ s h. h)
        (download-Holds environment name shown artifact (archive_path artifact) refl) s h

  install_from-Holds :
      (artifact : ArtifactSpec) (at : FilePath)
      → path_eq at (objects, name) ≡ false
      → path_eq (object_path artifact) (objects, name) ≡ false
      → Keeps (Holds environment name shown) (install_from environment artifact at)
  unfolding install_from create_staging verify_staging put call
  install_from-Holds artifact at p q =
      then-Keeps (Holds environment name shown) (create_staging environment at) _
        (then-Keeps (Holds environment name shown) (call environment (exists_at at) staging_failed)
          (modify (staged environment at)) (λ s h. h) (λ s h. rw p h))
        (then-Keeps (Holds environment name shown) (call environment (λ _. false) worker_failed) _
          (λ s h. h)
          (then-Keeps (Holds environment name shown)
            (or_abandon environment at (extract_verified_archive environment artifact at)) _
            (or_abandon-Holds at (extract_verified_archive environment artifact at) p
              (extract_verified_archive-Holds artifact at p))
            (then-Keeps (Holds environment name shown) (call environment (λ _. false) worker_failed)
              _ (λ s h. h)
              (then-Keeps (Holds environment name shown)
                (or_abandon environment at (verify_staging environment artifact at)) _
                (or_abandon-Holds at (verify_staging environment artifact at) p (λ s h. h))
                (then-Keeps (Holds environment name shown)
                  (rename environment at (object_path artifact) activation_failed)
                  (pure (ascii "installed"))
                  (rename-Holds environment name shown at (object_path artifact) activation_failed p
                    q)
                  (λ s h. h))))))

  install_unless-Holds :
      (offline : Bool) (artifact : ArtifactSpec)
      → path_eq (object_path artifact) (objects, name) ≡ false
      → Keeps (Holds environment name shown) (install_unless environment offline artifact)
  unfolding install_unless install staging_path
  install_unless-Holds offline artifact q =
      then-Keeps (Holds environment name shown) (fail_if (λ _. offline) offline_incomplete)
        (install environment artifact) (λ s h. h)
        (then-Keeps (Holds environment name shown) (check_archive environment artifact) _
          (check_archive-Holds artifact)
          (then-Keeps (Holds environment name shown) (download_if_missing environment artifact) _
            (download_if_missing-Holds artifact)
            (λ s. install_from-Holds artifact (staging_path environment artifact s) refl q s)))

  keep_object-Holds :
      (offline : Bool) (artifact : ArtifactSpec)
      → path_eq (object_path artifact) (objects, name) ≡ false
      → Keeps (Holds environment name shown) (keep_object environment offline artifact)
  unfolding keep_object replace_object
  keep_object-Holds offline artifact q s h =
      if-Keeps (Holds environment name shown)
        (is_ok (verify_node environment artifact (s.nodes (object_path artifact))))
        (pure (ascii "verified")) (replace_object environment offline artifact) (λ s h. h)
        (then-Keeps (Holds environment name shown)
          (recover_path environment (object_path artifact) (ascii "object"))
          (install_unless environment offline artifact)
          (recover_path-Holds environment name shown (object_path artifact) (ascii "object") q)
          (install_unless-Holds offline artifact q))
        s h

  pub ensure_artifact-Holds :
      (offline : Bool) (artifact : ArtifactSpec)
      → path_eq (object_path artifact) (objects, name) ≡ false
      → Keeps (Holds environment name shown) (ensure_artifact environment offline artifact)
  unfolding ensure_artifact
  ensure_artifact-Holds offline artifact q s h =
      if-Keeps (Holds environment name shown) (exists_at (object_path artifact) s)
        (call environment (λ _. false) worker_failed >> keep_object environment offline artifact)
        (install_unless environment offline artifact)
        (then-Keeps (Holds environment name shown) (call environment (λ _. false) worker_failed)
          (keep_object environment offline artifact)
          (call-Holds environment name shown (λ _. false) worker_failed)
          (keep_object-Holds offline artifact q))
        (install_unless-Holds offline artifact q) s h
