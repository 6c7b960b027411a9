-- ===== src/Artifacts/Profile.antt =====
-- `status` and `verified_profile` of crates/impossible-voice-artifacts/src/lib.rs, which only read.
use impossible_voice.Prelude.{
  Bool, not, ◌&&◌, Option, none, some, List, [], ◌∷◌, Result, ok, ◌>>=◌, ◌>>◌, ok_or, all,
  if◌then◌else◌, map,
}
use impossible_voice.Prelude.Bytes.{Bytes, ascii, bytes_eq}
use impossible_voice.Artifacts.{
  ArtifactError, profile_incomplete, ArtifactSpec, CuratedManifest, SetupReport,
}
use impossible_voice.Artifacts.Manifest.{runtime, stt_model, tts_model}
use impossible_voice.Artifacts.World.{FilePath, World, Environment, exists_at}
use impossible_voice.Artifacts.Store.{
  object_path, verify_node, is_ok, artifact_result, selected_for,
}

pub record VerifiedProfile : Type 0 where
  pub runtime_path : FilePath
  pub stt_path : FilePath
  pub tts_path : FilePath

unfoldable pub find_kind : Bytes → List ArtifactSpec → Option ArtifactSpec
find_kind kind [] = none
find_kind kind (a ∷ as') =
    let rest = find_kind kind as' in if bytes_eq a.kind kind then some a else rest

module _ (environment : Environment) (w : World) where
  abbrev pub is_verified : ArtifactSpec → Bool
  is_verified artifact = is_ok (verify_node environment artifact (w.nodes (object_path artifact)))

  unfoldable pub object_state : ArtifactSpec → Bytes
  unfolding object_path verify_node
  object_state artifact =
      if not (exists_at (object_path artifact) w)
      then ascii "missing"
      else if is_verified artifact
      then ascii "verified"
      else ascii "invalid"

  -- `ready` is cleared by an object that is not verified.
  unfoldable pub is_ready : List ArtifactSpec → Bool
  unfolding object_path verify_node
  is_ready selected = all (λ a. exists_at (object_path a) w && is_verified a) selected

  unfoldable pub status_report : CuratedManifest × Bytes × List ArtifactSpec → SetupReport
  unfolding object_state is_ready
  status_report (manifest, platform, selected) = record {
    profile = manifest.profile;
    platform = platform;
    status = (if is_ready selected then ascii "ready" else ascii "not-ready");
    artifacts = map (λ a. artifact_result a (object_state a)) selected;
  }

  unfoldable pub status : Result ArtifactError SetupReport
  unfolding status_report
  status = do selection ← selected_for environment; ok (status_report selection)

  unfoldable pub verified_kind_path : List ArtifactSpec → Bytes → Result ArtifactError FilePath
  unfolding find_kind object_path verify_node
  verified_kind_path selected kind = do
    artifact ← ok_or (find_kind kind selected) profile_incomplete
    verify_node environment artifact (w.nodes (object_path artifact))
    ok (object_path artifact)

  unfoldable pub verified_profile : Result ArtifactError VerifiedProfile
  unfolding verified_kind_path
  verified_profile = do
    (manifest, platform, selected) ← selected_for environment
    runtime_path ← verified_kind_path selected runtime
    stt_path ← verified_kind_path selected stt_model
    tts_path ← verified_kind_path selected tts_model
    ok (record { runtime_path = runtime_path; stt_path = stt_path; tts_path = tts_path })
