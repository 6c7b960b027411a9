-- ===== src/Server/Config/Layers.antt =====
-- The precedence of the layers, and what a resolved configuration guarantees,
-- crates/impossible-voice-server/src/config.rs.
use impossible_voice.Prelude.{◌≡◌, refl, ◌∙◌, true, false, Option, none, some, arith, ok, >>=-eq-ok}
use impossible_voice.Server.Config.{
  Field, config, path_in, PartialConfig, Platform, RuntimeConfig, ServerOptions, or_else, unwrap_or,
  overlay, read_layer, read_environment, resolve_layers, resolve,
}

-- The value of the highest layer that has one: command line, environment, file, default.
abbrev pub highest : {A : Type 0} → Option A → Option A → Option A → A → A
highest (some cli) environment file default = cli
highest none (some environment) file default = environment
highest none none (some file) default = file
highest none none none default = default

highest-layers :
    {A : Type 0} (cli environment file : Option A) (default : A)
    → unwrap_or (or_else cli (or_else environment file)) default
      ≡ highest cli environment file default
highest-layers (some cli) environment file default = refl
highest-layers none (some environment) file default = refl
highest-layers none none (some file) default = refl
highest-layers none none none default = refl

module _ (platform : Platform) where
  open platform use {Address, FilePath, Value, Limits}

  resolve_layers-eq-ok :
      (values : PartialConfig Address FilePath) {c : RuntimeConfig Address FilePath Limits}
      → resolve_layers platform values ≡ ok c
      → (c.bind ≡ unwrap_or values.bind platform.default_bind)
        × (c.grpc_bind ≡ unwrap_or values.grpc_bind platform.default_grpc_bind)
        × (c.artifact_root ≡ unwrap_or values.artifact_root platform.default_artifact_root)
        × (platform.is_loopback c.bind ≡ true)
        × (platform.is_loopback c.grpc_bind ≡ true)
        × (platform.same_address c.grpc_bind c.bind ≡ false)
        × (platform.path_is_empty c.artifact_root ≡ false)
        × (platform.server_limits
              (unwrap_or values.max_request_bytes 16_777_216)
              (unwrap_or values.queue_capacity 128)
              (unwrap_or values.max_concurrent_requests 4)
              (unwrap_or values.request_timeout_ms 60_000)
              (unwrap_or values.shutdown_timeout_ms 10_000)
            ≡ ok c.limits)
  unfolding resolve_layers
  resolve_layers-eq-ok values h = ground arith

  -- If a configuration is resolved, then the file, or nothing where none is named, and the
  -- environment were read; every value is that of the highest layer that has one, the command line
  -- above the environment, the file and the default; both addresses are loopback and distinct, the
  -- artifact root is not empty, and the limits are admitted.
  pub resolve-eq-ok :
      (options : ServerOptions Address FilePath) (environment : Field → Option Value)
      (c : RuntimeConfig Address FilePath Limits)
      → resolve platform options environment ≡ ok c
      → (file : PartialConfig Address FilePath) × (env : PartialConfig Address FilePath)
        × (read_layer platform (or_else options.config (path_in platform (environment config)))
            ≡ ok file)
        × (read_environment platform environment ≡ ok env)
        × (c.bind ≡ highest options.values.bind env.bind file.bind platform.default_bind)
        × (c.grpc_bind
            ≡ highest options.values.grpc_bind env.grpc_bind file.grpc_bind
                platform.default_grpc_bind)
        × (c.artifact_root
            ≡ highest options.values.artifact_root env.artifact_root file.artifact_root
                platform.default_artifact_root)
        × (platform.server_limits
              (highest options.values.max_request_bytes env.max_request_bytes file.max_request_bytes
                16_777_216)
              (highest options.values.queue_capacity env.queue_capacity file.queue_capacity 128)
              (highest options.values.max_concurrent_requests env.max_concurrent_requests
                file.max_concurrent_requests 4)
              (highest options.values.request_timeout_ms env.request_timeout_ms
                file.request_timeout_ms 60_000)
              (highest options.values.shutdown_timeout_ms env.shutdown_timeout_ms
                file.shutdown_timeout_ms 10_000)
            ≡ ok c.limits)
        × (platform.is_loopback c.bind ≡ true)
        × (platform.is_loopback c.grpc_bind ≡ true)
        × (platform.same_address c.grpc_bind c.bind ≡ false)
        × (platform.path_is_empty c.artifact_root ≡ false)
  unfolding resolve overlay
  resolve-eq-ok options environment c h =
      let path = or_else options.config (path_in platform (environment config)) in
      let (file, read, more) = >>=-eq-ok (read_layer platform path) _ h in
      let (env, parsed, resolved) = >>=-eq-ok (read_environment platform environment) _ more in
      let (b, g, r, lb, lg, distinct, root, limits) =
        resolve_layers-eq-ok (overlay (overlay file env) options.values) resolved in
      let v = options.values in
      (
        file,
        env,
        read,
        parsed,
        b ∙ highest-layers v.bind env.bind file.bind platform.default_bind,
        g ∙ highest-layers v.grpc_bind env.grpc_bind file.grpc_bind platform.default_grpc_bind,
        r
            ∙ highest-layers v.artifact_root env.artifact_root file.artifact_root
                platform.default_artifact_root,
        rw
            (
              highest-layers v.max_request_bytes env.max_request_bytes file.max_request_bytes
                  16_777_216,
              highest-layers v.queue_capacity env.queue_capacity file.queue_capacity 128,
              highest-layers v.max_concurrent_requests env.max_concurrent_requests
                  file.max_concurrent_requests 4,
              highest-layers v.request_timeout_ms env.request_timeout_ms file.request_timeout_ms
                  60_000,
              highest-layers v.shutdown_timeout_ms env.shutdown_timeout_ms file.shutdown_timeout_ms
                  10_000,
            )
            at limits,
        lb,
        lg,
        distinct,
        root,
      )
