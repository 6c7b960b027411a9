-- ===== src/Tests/Artifacts.antt =====
-- Runs of the artifact store, crates/impossible-voice-artifacts/src/lib.rs, on a small profile.
use impossible_voice.Prelude.{
  ℕ, zero, suc, ◌≡◌, ◌≤◌, refl, Bool, true, false, Option, none, some, List, [], ◌∷◌, ok,
  if◌then◌else◌, Every,
}
use impossible_voice.Prelude.Bytes.{contains_bytes, hex_digest, Bytes, ascii, bytes_eq}
use impossible_voice.Artifacts.{
  safe_relative_path, strip_archive_root, path_text, ArtifactSpec, CuratedManifest, LicenseSpec,
  InstalledFile, InstallationManifest, SetupReport, installation_file, Component, normal,
}
use impossible_voice.Artifacts.Manifest.{
  count_kind, runtime, stt_model, tts_model, parse_manifest, select_artifacts,
}
use impossible_voice.Artifacts.Installed.{Disk, DirEntry, entry, file}
use impossible_voice.Artifacts.Extract.{extract_archive, TarEntry, Extraction, regular}
use impossible_voice.Artifacts.World.{World, Environment}
use impossible_voice.Artifacts.Store.{empty_extraction, setup}
use impossible_voice.Artifacts.Profile.{find_kind, VerifiedProfile, verified_profile, status}
use impossible_voice.Artifacts.Ready.{setup-verified_profile, setup-status}
use impossible_voice.Artifacts.Offline.{setup-requests}
use impossible_voice.Artifacts.Bounds.{unpacked, extract_archive-unpacked}
use impossible_voice.Artifacts.Selection.{
  IsValid, IsDistinct, parse_manifest-IsDistinct, select_artifacts-find,
}

abbrev pub repeat : ℕ → ℕ → Bytes
repeat zero b = []
repeat (suc n) b = b ∷ repeat n b

abbrev pub sha : Bytes
sha = repeat 64 b'a'

abbrev license : LicenseSpec
license = record {
  scope = ascii "code";
  spdx = ascii "MIT";
  source = ascii "here";
  revision = ascii "1";
}

abbrev pub item : Bytes → Bytes → ArtifactSpec
item id kind = record {
  id = id;
  kind = kind;
  platforms = ascii "linux-x86_64" ∷ [];
  url = ascii "u";
  size = 3;
  sha256 = sha;
  archive_root = ascii "r";
  max_unpacked_bytes = 4;
  required_paths = ascii "f" ∷ [];
  licenses = license ∷ [];
}

abbrev curated : CuratedManifest
curated = record {
  schema_version = 1;
  profile = ascii "impossible-voice-en-cpu-v1";
  artifacts =
      item (ascii "a") runtime ∷ item (ascii "b") stt_model ∷ item (ascii "c") tts_model ∷ [];
}

-- Paths here have one component.
abbrev pub components : Bytes → List Component
components [] = []
components name = normal name ∷ []

abbrev listing : InstalledFile
listing = record { path = ascii "f"; size = 2; sha256 = sha }

abbrev pub inventory : Bytes → InstallationManifest
inventory id = record {
  schema_version = 1;
  artifact_id = id;
  archive_sha256 = sha;
  files = listing ∷ [];
}

abbrev is_data : List Component → Bool
is_data (normal name ∷ []) = bytes_eq name (ascii "f")
is_data _ = false

abbrev is_marker : List Component → Bool
is_marker (normal name ∷ []) = bytes_eq name installation_file
is_marker _ = false

abbrev marker_of : Extraction → Option Bytes
marker_of x = x.marker

abbrev below_root : List Bytes → Option (List DirEntry)
below_root [] = some (entry (ascii "f") file ∷ entry installation_file file ∷ [])
below_root _ = none

abbrev pub mounted : Extraction → Disk
mounted x = record {
  metadata = λ p. if is_data p then some (true, 2) else none;
  contents =
      λ p. if is_data p then some (1 ∷ 2 ∷ []) else if is_marker p then marker_of x else none;
  exists = λ p. is_data p;
  read_dir = below_root;
  is_utf8 = λ _. true;
}

abbrev tar_entry : TarEntry
tar_entry = record {
  path = some (normal (ascii "r") ∷ normal (ascii "f") ∷ []);
  entry_type = regular;
  reads = some (1 ∷ []) ∷ some (2 ∷ []) ∷ some [] ∷ [];
}

abbrev pub environment : Environment
environment = record {
  faults = λ _. false;
  curated = some curated;
  os = ascii "linux";
  arch = ascii "x86_64";
  digest = λ _. repeat 32 170;
  is_utf8 = λ _. true;
  components = components;
  parse_installation = λ bytes. some (inventory bytes);
  encode_installation = λ m. some m.artifact_id;
  parse_url = λ _. some (ascii "https", some (ascii "github.com"));
  get = λ _ _.
      some (record { content_length = some 3; stream = some (7 ∷ []) ∷ some (8 ∷ 9 ∷ []) ∷ [] });
  unpack = λ _. some (some tar_entry ∷ []);
  mount = mounted;
  recovery_name = λ label n. n ∷ label;
  staging_name = λ id n. n ∷ id;
  fuel = 5;
}

abbrev pub empty_store : World
empty_store = record { calls = 0; nodes = λ _. none; partials = []; requests = [] }

abbrev after : World
after = (setup environment false empty_store).0

abbrev report : SetupReport
report = record {
  profile = ascii "impossible-voice-en-cpu-v1";
  platform = ascii "linux-x86_64";
  status = ascii "ready";
  artifacts =
      record { id = ascii "a"; kind = runtime; state = ascii "installed" }
      ∷ record { id = ascii "b"; kind = stt_model; state = ascii "installed" }
      ∷ record { id = ascii "c"; kind = tts_model; state = ascii "installed" }
      ∷ [];
}

installed_all : setup environment false empty_store ≡ (after, ok report)
unfolding setup hex_digest safe_relative_path strip_archive_root path_text
installed_all = refl

setup-verified_profile_example :
    (profile : VerifiedProfile) × (verified_profile environment after ≡ ok profile)
setup-verified_profile_example =
    setup-verified_profile environment false empty_store after report installed_all

setup-status_example :
    (report.status ≡ ascii "ready")
    × ((seen : SetupReport) × (status environment after ≡ ok seen) × (seen.status ≡ report.status))
setup-status_example = setup-status environment false empty_store after report installed_all

setup-requests_example : (setup environment true empty_store).0.requests ≡ []
setup-requests_example = setup-requests environment empty_store

online : after.requests ≡ ascii "u" ∷ ascii "u" ∷ ascii "u" ∷ []
unfolding setup hex_digest safe_relative_path strip_archive_root path_text
online = refl

extract_archive-unpacked_example :
    unpacked
      (extract_archive
        (λ _. false)
        (λ _. [])
        (λ _. true)
        (item (ascii "a") runtime)
        (λ _. none)
        (some (some tar_entry ∷ []))
        (empty_extraction 0)).0.files
    ≤ 4
extract_archive-unpacked_example =
    extract_archive-unpacked (λ _. false) (λ _. []) (λ _. true) (item (ascii "a") runtime)
      (λ _. none) (some (some tar_entry ∷ [])) 0

accepted : parse_manifest components (some curated) ≡ ok curated
unfolding parse_manifest safe_relative_path
accepted = refl

parse_manifest-IsDistinct_example :
    Every (IsValid components) curated.artifacts × IsDistinct curated.artifacts
parse_manifest-IsDistinct_example =
    parse_manifest-IsDistinct components (some curated) curated accepted

chosen : select_artifacts curated (ascii "linux-x86_64") ≡ ok curated.artifacts
unfolding select_artifacts
chosen = refl

select_artifacts-find_example :
    (count_kind stt_model curated.artifacts ≡ 1)
    × ((a : ArtifactSpec) × (find_kind stt_model curated.artifacts ≡ some a)
        × (a.kind ≡ stt_model)
        × (contains_bytes (ascii "linux-x86_64") a.platforms ≡ true))
select_artifacts-find_example =
    select_artifacts-find curated (ascii "linux-x86_64") curated.artifacts chosen stt_model refl
