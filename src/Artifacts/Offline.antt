-- ===== src/Artifacts/Offline.antt =====
-- The network of an offline `setup` in crates/impossible-voice-artifacts/src/lib.rs.
use impossible_voice.Prelude.{◌≡◌, refl, Bool, true, false, List, [], ◌∷◌}
use impossible_voice.Prelude.Bytes.{Bytes, ascii}
use impossible_voice.Prelude.Stateful.{
  Keeps, bind-Keeps, if-Keeps, then-Keeps, ◌>>◌, pure, modify, lift,
}
use impossible_voice.Artifacts.{
  ArtifactError, ArtifactSpec, worker_failed, storage_failed, lock_unopened, lock_unacquired,
  recovery_failed, unpreserved,
}
use impossible_voice.Artifacts.World.{
  FilePath, World, Environment, Action, exists_at, call, rename, renamed, recover_path, move_away,
  recovery_path,
}
use impossible_voice.Artifacts.Store.{
  install_unless, replace_object, keep_object, ensure_artifact, object_path, ensure_all, is_ok,
  verify_node, prepare_storage, setup, selected_for, artifact_result, ready_report,
}

module _ (environment : Environment) (urls : List Bytes) where
  abbrev HasRequested : World → Type 0
  HasRequested w = w.requests ≡ urls

  calls-HasRequested :
      (refused : World → Bool) (e : ArtifactError) → Keeps HasRequested (call environment refused e)
  unfolding call
  calls-HasRequested refused e s h = h

  recover_path-HasRequested :
      (from : FilePath) (label : Bytes) → Keeps HasRequested (recover_path environment from label)
  unfolding recover_path move_away rename call
  recover_path-HasRequested from label s h =
      if-Keeps HasRequested (exists_at from s) (move_away environment from label) (pure tt)
        (then-Keeps HasRequested (call environment (λ _. false) recovery_failed) _ (λ s h. h)
          (λ s.
            then-Keeps HasRequested
              (call environment (exists_at (recovery_path environment label s)) unpreserved)
              (modify (renamed environment from (recovery_path environment label s))) (λ s h. h)
              (λ s h. h) s))
        (λ s h. h) s h

  install_unless-HasRequested :
      (artifact : ArtifactSpec) → Keeps HasRequested (install_unless environment true artifact)
  unfolding install_unless
  install_unless-HasRequested artifact s h = h

  keep_object-HasRequested :
      (artifact : ArtifactSpec) → Keeps HasRequested (keep_object environment true artifact)
  unfolding keep_object replace_object
  keep_object-HasRequested artifact s h =
      if-Keeps HasRequested
        (is_ok (verify_node environment artifact (s.nodes (object_path artifact))))
        (pure (ascii "verified")) (replace_object environment true artifact) (λ s h. h)
        (then-Keeps HasRequested (recover_path environment (object_path artifact) (ascii "object"))
          (install_unless environment true artifact)
          (recover_path-HasRequested (object_path artifact) (ascii "object"))
          (install_unless-HasRequested artifact))
        s h

  ensure_artifact-HasRequested :
      (artifact : ArtifactSpec) → Keeps HasRequested (ensure_artifact environment true artifact)
  unfolding ensure_artifact
  ensure_artifact-HasRequested artifact s h =
      if-Keeps HasRequested (exists_at (object_path artifact) s)
        (call environment (λ _. false) worker_failed >> keep_object environment true artifact)
        (install_unless environment true artifact)
        (then-Keeps HasRequested (call environment (λ _. false) worker_failed)
          (keep_object environment true artifact) (calls-HasRequested (λ _. false) worker_failed)
          (keep_object-HasRequested artifact))
        (install_unless-HasRequested artifact) s h

  ensure_all-HasRequested :
      (selected : List ArtifactSpec) → Keeps HasRequested (ensure_all environment true selected)
  unfolding ensure_all
  ensure_all-HasRequested [] s h = h
  ensure_all-HasRequested (a ∷ selected) s h =
      bind-Keeps HasRequested (ensure_artifact environment true a) _
        (ensure_artifact-HasRequested a)
        (λ state.
          bind-Keeps HasRequested (ensure_all environment true selected)
            (λ results. pure (artifact_result a state ∷ results)) (ensure_all-HasRequested selected)
            (λ _ s h. h))
        s h

  next-HasRequested :
      (e : ArtifactError) (k : Action (Unit {0}))
      → Keeps HasRequested k
      → Keeps HasRequested (call environment (λ _. false) e >> k)
  next-HasRequested e k =
      then-Keeps HasRequested (call environment (λ _. false) e) k
        (calls-HasRequested (λ _. false) e)

  prepare_storage-HasRequested : Keeps HasRequested (prepare_storage environment)
  unfolding prepare_storage
  prepare_storage-HasRequested = next-HasRequested storage_failed _ (
      next-HasRequested storage_failed _ (
        next-HasRequested storage_failed _ (
          next-HasRequested storage_failed _
            (next-HasRequested lock_unopened _ (calls-HasRequested (λ _. false) lock_unacquired)))))

  setup-HasRequested : Keeps HasRequested (setup environment true)
  unfolding setup
  setup-HasRequested =
      bind-Keeps HasRequested (lift (λ _. selected_for environment)) _ (λ s h. h)
        (λ selection.
          then-Keeps HasRequested (prepare_storage environment) _ prepare_storage-HasRequested (
            bind-Keeps HasRequested (ensure_all environment true selection.2)
              (λ results. pure (ready_report selection.0 selection.1 results))
              (ensure_all-HasRequested selection.2) (λ _ s h. h)))

-- An offline setup requests nothing from the network, whether it succeeds or not.
pub setup-requests :
    (environment : Environment) (s : World) → (setup environment true s).0.requests ≡ s.requests
setup-requests environment s = setup-HasRequested environment s.requests s refl
