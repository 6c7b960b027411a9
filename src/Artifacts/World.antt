-- ===== src/Artifacts/World.antt =====
-- The root of the artifact store as the file system holds it, and the parameters of
-- crates/impossible-voice-artifacts/src/lib.rs: the file system's faults, the network, the decoders,
-- `serde_json` and the names that must be unique. `recover_path` is here too.
use impossible_voice.Prelude.{
  ℕ, suc, Bool, true, false, ◌&&◌, ◌||◌, Option, none, some, List, [], ok, err, length,
  if◌then◌else◌,
}
use impossible_voice.Prelude.Bytes.{Bytes, bytes_eq}
use impossible_voice.Prelude.Stateful.{Stateful, ◌>>◌, pure, modify}
use impossible_voice.Artifacts.{
  ArtifactError, unpreserved, recovery_failed, InstallationManifest, CuratedManifest, Component,
}
use impossible_voice.Artifacts.Installed.{Disk}
use impossible_voice.Artifacts.Extract.{TarEntry, Extraction}

-- The directories below the root.
pub data Place : Type 0 where
  objects downloads staging recovery : Place

abbrev pub FilePath : Type 0
FilePath = Place × Bytes

abbrev place_eq : Place → Place → Bool
place_eq objects objects = true
place_eq downloads downloads = true
place_eq staging staging = true
place_eq recovery recovery = true
place_eq _ _ = false

abbrev pub path_eq : FilePath → FilePath → Bool
path_eq (p, x) (q, y) = place_eq p q && bytes_eq x y

pub record Response : Type 0 where
  pub content_length : Option ℕ
  pub stream : List (Option Bytes)

-- `calls` counts what may fail, and `partials` are the downloads under way, the last one first.
pub record World : Type 0 where
  pub calls : ℕ
  pub nodes : FilePath → Option Disk
  pub partials : List Bytes
  pub requests : List Bytes

-- What the code takes from outside. `mount` is what the file system shows of what was extracted, and
-- `fuel` bounds the directories of an object.
pub record Environment : Type 0 where
  pub faults : ℕ → Bool
  pub curated : Option CuratedManifest
  pub os : Bytes
  pub arch : Bytes
  pub digest : Bytes → Bytes
  pub is_utf8 : Bytes → Bool
  pub components : Bytes → List Component
  pub parse_installation : Bytes → Option InstallationManifest
  pub encode_installation : InstallationManifest → Option Bytes
  pub parse_url : Bytes → Option (Bytes × Option Bytes)
  pub get : Bytes → ℕ → Option Response
  pub unpack : Bytes → Option (List (Option TarEntry))
  pub mount : Extraction → Disk
  pub recovery_name : Bytes → ℕ → Bytes
  pub staging_name : Bytes → ℕ → Bytes
  pub fuel : ℕ

abbrev pub Action {ℓ} : Type ℓ → Type ℓ
Action = Stateful World ArtifactError

-- A file with these contents.
abbrev pub file_metadata : Bytes → List Component → Option (Bool × ℕ)
file_metadata bytes [] = some (true, length bytes)
file_metadata bytes _ = none

abbrev pub file_contents : Bytes → List Component → Option Bytes
file_contents bytes [] = some bytes
file_contents bytes _ = none

abbrev pub file_exists : List Component → Bool
file_exists [] = true
file_exists _ = false

abbrev pub plain_file : Bytes → Disk
plain_file bytes = record {
  metadata = file_metadata bytes;
  contents = file_contents bytes;
  exists = file_exists;
  read_dir = λ _. none;
  is_utf8 = λ _. true;
}

abbrev pub is_some {ℓ} : {A : Type ℓ} → Option A → Bool
is_some none = false
is_some (some x) = true

unfoldable pub put : FilePath → Option Disk → (FilePath → Option Disk) → FilePath → Option Disk
put at shown nodes p = if path_eq at p then shown else nodes p

abbrev pub exists_at : FilePath → World → Bool
exists_at at w = is_some (w.nodes at)

module _ (environment : Environment) where
  -- A call of the file system or of a worker, with what else makes it fail.
  unfoldable pub call : (World → Bool) → ArtifactError → Action (Unit {0})
  call refused failure w = (
    record w { calls = suc w.calls },
    if environment.faults w.calls || refused w then err failure else ok tt,
  )

  abbrev pub renamed : FilePath → FilePath → World → World
  renamed from to w = record w { nodes = put to (w.nodes from) (put from none w.nodes) }

  -- A target that exists is refused, as the file system refuses to replace a directory that is not
  -- empty. A plain file it would replace; the callers rename to a path that they have just found free
  -- or moved away, or that they have made up.
  unfoldable pub rename : FilePath → FilePath → ArtifactError → Action (Unit {0})
  unfolding call put
  rename from to failure = do call (exists_at to) failure; modify (renamed from to)

  unfoldable pub recovery_path : Bytes → World → FilePath
  recovery_path label w = (recovery, environment.recovery_name label w.calls)

  unfoldable pub move_away : FilePath → Bytes → Action (Unit {0})
  unfolding call rename recovery_path
  move_away from label = do
    call (λ _. false) recovery_failed
    λ w. rename from (recovery_path label w) unpreserved w

  unfoldable pub recover_path : FilePath → Bytes → Action (Unit {0})
  unfolding move_away
  recover_path from label w = (if exists_at from w then move_away from label else pure tt) w
