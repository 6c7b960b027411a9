-- ===== src/Tests/Configuration.antt =====
-- Layers of crates/impossible-voice-server/src/config.rs: addresses are ports, of which those below
-- 1000 are not loopback.
use impossible_voice.Prelude.{ℕ, ◌≡◌, refl, true, false, Option, none, some, leb, ◌==◌, ok, err}
use impossible_voice.Server.Config.{
  Field, bind, grpc_bind, problem, must_be_distinct, Platform, PartialConfig, RuntimeConfig,
  ServerOptions, no_values, or_else, path_in, config, overlay, read_file, read_layer,
  parse_environment, read_environment, resolve_layers, resolve,
}
use impossible_voice.Server.Config.Layers.{highest, resolve-eq-ok}

abbrev in_file : PartialConfig ℕ ℕ
in_file = record no_values { bind = some 1_111; queue_capacity = some 7 }

abbrev platform : Platform
platform = record {
  Address = ℕ;
  FilePath = ℕ;
  Value = ℕ;
  Text = ℕ;
  Limits = ℕ;
  is_loopback = λ a. leb 1_000 a;
  same_address = λ a b. a == b;
  default_bind = 8_080;
  default_grpc_bind = 50_051;
  path_from = λ v. v;
  path_is_empty = λ p. p == 0;
  default_artifact_root = 1;
  metadata = λ p. some (true, 100);
  read_to_string = λ p. some 0;
  parse_toml = λ t. some in_file;
  into_string = λ v. some v;
  parse_address = λ t. some t;
  parse_number = λ t. some t;
  server_limits = λ bytes queue concurrent request shutdown. ok queue;
}

abbrev options : ServerOptions ℕ ℕ
options = record { config = some 5; values = no_values }

abbrev environment : Field → Option ℕ
environment bind = some 2_222
environment _ = none

abbrev resolved : RuntimeConfig ℕ ℕ ℕ
resolved = record { bind = 2_222; grpc_bind = 50_051; limits = 7; artifact_root = 1 }

layered : resolve platform options environment ≡ ok resolved
unfolding resolve read_layer read_file read_environment parse_environment overlay resolve_layers
layered = refl

abbrev clashing : ServerOptions ℕ ℕ
clashing = record { config = none; values = record no_values { grpc_bind = some 2_222 } }

rejected : resolve platform clashing environment ≡ err (problem grpc_bind must_be_distinct)
unfolding resolve read_layer read_file read_environment parse_environment overlay resolve_layers
rejected = refl

resolve-eq-ok_example :
    (file : PartialConfig ℕ ℕ) × (env : PartialConfig ℕ ℕ) × (read_layer platform
        (or_else options.config (path_in platform (environment config)))
      ≡ ok file)
    × (read_environment platform environment ≡ ok env)
    × (resolved.bind ≡ highest none env.bind file.bind 8_080)
    × (resolved.grpc_bind ≡ highest none env.grpc_bind file.grpc_bind 50_051)
    × (resolved.artifact_root ≡ highest none env.artifact_root file.artifact_root 1)
    × (platform.server_limits
          (highest none env.max_request_bytes file.max_request_bytes 16_777_216)
          (highest none env.queue_capacity file.queue_capacity 128)
          (highest none env.max_concurrent_requests file.max_concurrent_requests 4)
          (highest none env.request_timeout_ms file.request_timeout_ms 60_000)
          (highest none env.shutdown_timeout_ms file.shutdown_timeout_ms 10_000)
        ≡ ok resolved.limits)
    × (platform.is_loopback resolved.bind ≡ true)
    × (platform.is_loopback resolved.grpc_bind ≡ true)
    × (platform.same_address resolved.grpc_bind resolved.bind ≡ false)
    × (platform.path_is_empty resolved.artifact_root ≡ false)
resolve-eq-ok_example = resolve-eq-ok platform options environment resolved layered
