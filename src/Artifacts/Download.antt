-- ===== src/Artifacts/Download.antt =====
-- `download` of crates/impossible-voice-artifacts/src/lib.rs.
use impossible_voice.Prelude.{
  ℕ, ◌+◌, ◌^◌, Bool, true, false, not, ◌&&◌, ◌||◌, Option, none, some, List, [], ◌∷◌, ◌++◌, Result,
  ok_or, length, if◌then◌else◌, ltb, ◌==◌,
}
use impossible_voice.Prelude.Bytes.{Bytes, ascii, bytes_eq, hex_digest}
use impossible_voice.Prelude.Stateful.{◌>>=◌, ◌>>◌, pure, fail_if, modify, lift}
use impossible_voice.Artifacts.{
  ArtifactError, url_invalid, origin_forbidden, download_failed, download_size, download_staging,
  download_bound, download_integrity, archive_activation, recovery_failed, unpreserved,
  ArtifactSpec,
}
use impossible_voice.Artifacts.World.{
  FilePath, Response, World, Environment, Action, plain_file, put, exists_at, call, recovery_path,
}

-- `write_all` on the file opened last.
unfoldable pub append_to_first : Bytes → List Bytes → List Bytes
append_to_first chunk [] = []
append_to_first chunk (contents ∷ rest) = (contents ++ chunk) ∷ rest

-- What is left when it has been moved.
abbrev pub drop_first : List Bytes → List Bytes
drop_first [] = []
drop_first (contents ∷ rest) = rest

abbrev pub first_file : List Bytes → Bytes
first_file [] = []
first_file (contents ∷ rest) = contents

abbrev pub is_other_size : ℕ → Option ℕ → Bool
is_other_size size none = false
is_other_size size (some declared) = not (declared == size)

abbrev pub is_permitted_origin : Bytes × Option Bytes → Bool
is_permitted_origin (scheme, none) = false
is_permitted_origin (scheme, some host) =
    bytes_eq scheme (ascii "https") && bytes_eq host (ascii "github.com")

module _ (environment : Environment) where
  -- The checks of the new count, and the write. A write that fails leaves nothing.
  unfoldable pub store_chunk : ℕ → ℕ → Bytes → Action (Unit {0})
  unfolding append_to_first call
  store_chunk limit counted chunk = do
    fail_if (λ _. not (ltb counted (2 ^ 64))) download_bound
    fail_if (λ _. ltb limit counted) download_bound
    call environment (λ _. false) download_staging
    modify (λ w. record w { partials = append_to_first chunk w.partials })

  -- The loop over the stream, with what was counted and hashed.
  unfoldable pub receive : ℕ → List (Option Bytes) → ℕ → Bytes → Action (ℕ × Bytes)
  unfolding store_chunk
  receive limit [] size hashed = pure (size, hashed)
  receive limit (none ∷ stream) size hashed = do
    fail_if (λ _. true) download_failed
    pure (size, hashed)
  receive limit (some chunk ∷ stream) size hashed = do
    store_chunk limit (size + length chunk) chunk
    receive limit stream (size + length chunk) (hashed ++ chunk)

  unfoldable pub move_partial : FilePath → Action (Unit {0})
  unfolding call put
  move_partial to = do
    call environment (exists_at to) unpreserved
    modify (λ w. record w {
      nodes = put to (some (plain_file (first_file w.partials))) w.nodes;
      partials = drop_first w.partials;
    })

  unfoldable pub recover_partial : Action (Unit {0})
  unfolding call recovery_path move_partial
  recover_partial = do
    call environment (λ _. false) recovery_failed
    λ w. move_partial (recovery_path environment (ascii "download") w) w

  unfoldable pub is_damaged : ArtifactSpec → ℕ × Bytes → Bool
  is_damaged artifact (size, hashed) =
      not (size == artifact.size)
      || not (bytes_eq (hex_digest (environment.digest hashed)) artifact.sha256)

  unfoldable pub check_integrity : ArtifactSpec → ℕ × Bytes → Action (Unit {0})
  unfolding recover_partial is_damaged
  check_integrity artifact received =
      if is_damaged artifact received
      then recover_partial >> fail_if (λ _. true) download_integrity
      else pure tt

  abbrev pub activated : FilePath → World → World
  activated archive w = record w {
    nodes = put archive (some (plain_file (first_file w.partials))) w.nodes;
    partials = drop_first w.partials;
  }

  -- Behind the loop.
  unfoldable pub finish_download : ArtifactSpec → FilePath → ℕ × Bytes → Action (Unit {0})
  unfolding check_integrity call put
  finish_download artifact archive received = do
    call environment (λ _. false) download_staging
    check_integrity artifact received
    call environment (λ _. false) archive_activation
    modify (activated archive)

  abbrev pub opened : World → World
  opened w = record w { partials = [] ∷ w.partials }

  -- Behind the response.
  unfoldable pub save_response : ArtifactSpec → FilePath → Response → Action (Unit {0})
  unfolding receive finish_download call
  save_response artifact archive response = do
    fail_if (λ _. is_other_size artifact.size response.content_length) download_size
    call environment (λ _. false) download_staging
    modify opened
    received ← receive artifact.size response.stream 0 []
    finish_download artifact archive received

  unfoldable pub request : ArtifactSpec → World → World × Result ArtifactError Response
  request artifact w = (
    record w { requests = artifact.url ∷ w.requests },
    ok_or (environment.get artifact.url w.calls) download_failed,
  )

  unfoldable pub download : ArtifactSpec → FilePath → Action (Unit {0})
  unfolding request save_response
  download artifact archive = do
    url ← lift (λ _. ok_or (environment.parse_url artifact.url) url_invalid)
    fail_if (λ _. not (is_permitted_origin url)) origin_forbidden
    response ← request artifact
    save_response artifact archive response
