-- ===== src/Server/Config.antt =====
-- crates/impossible-voice-server/src/config.rs: layered configuration. Socket addresses, paths, the
-- file system, TOML and `ServerLimits::new` of the vendored core are parameters.
pub mod Layers
use impossible_voice.Prelude.{
  ℕ, ◌*◌, Bool, not, ◌&&◌, ◌||◌, Option, none, some, ltb, Result, ok, err, ◌>>=◌, ◌>>◌, reject_if,
  ok_or, map_err,
}

-- The fields, which also name the environment's variables.
pub data Field : Type 0 where
  config artifact_root bind grpc_bind max_request_bytes queue_capacity : Field
  max_concurrent_requests request_timeout_ms shutdown_timeout_ms : Field

pub data Message : Type 0 where
  could_not_be_read outside_bound malformed must_be_loopback must_be_distinct : Message

pub record ConfigError : Type 0 where
  pub field : Field
  pub message : Message

abbrev pub max_config_bytes : ℕ
max_config_bytes = 64 * 1_024

pub record PartialConfig (Address FilePath : Type 0) : Type 0 where
  pub artifact_root : Option FilePath
  pub bind : Option Address
  pub grpc_bind : Option Address
  pub max_request_bytes : Option ℕ
  pub queue_capacity : Option ℕ
  pub max_concurrent_requests : Option ℕ
  pub request_timeout_ms : Option ℕ
  pub shutdown_timeout_ms : Option ℕ

-- What the process runs on.
pub record Platform : Type 1 where
  pub Address : Type 0
  pub FilePath : Type 0
  pub Value : Type 0
  pub Text : Type 0
  pub Limits : Type 0
  pub is_loopback : Address → Bool
  pub same_address : Address → Address → Bool
  pub default_bind : Address
  pub default_grpc_bind : Address
  pub path_from : Value → FilePath
  pub path_is_empty : FilePath → Bool
  pub default_artifact_root : FilePath
  pub metadata : FilePath → Option (Bool × ℕ)
  pub read_to_string : FilePath → Option Text
  pub parse_toml : Text → Option (PartialConfig Address FilePath)
  pub into_string : Value → Option Text
  pub parse_address : Text → Option Address
  pub parse_number : Text → Option ℕ
  pub server_limits : ℕ → ℕ → ℕ → ℕ → ℕ → Result Field Limits

pub record RuntimeConfig (Address FilePath Limits : Type 0) : Type 0 where
  pub bind : Address
  pub grpc_bind : Address
  pub limits : Limits
  pub artifact_root : FilePath

pub record ServerOptions (Address FilePath : Type 0) : Type 0 where
  pub config : Option FilePath
  pub values : PartialConfig Address FilePath

abbrev pub or_else : {A : Type 0} → Option A → Option A → Option A
or_else (some a) lower = some a
or_else none lower = lower

abbrev pub unwrap_or : {A : Type 0} → Option A → A → A
unwrap_or (some a) default = a
unwrap_or none default = default

unfoldable pub overlay :
    {Address FilePath : Type 0}
    → PartialConfig Address FilePath
    → PartialConfig Address FilePath
    → PartialConfig Address FilePath
overlay lower higher = record {
  artifact_root = or_else higher.artifact_root lower.artifact_root;
  bind = or_else higher.bind lower.bind;
  grpc_bind = or_else higher.grpc_bind lower.grpc_bind;
  max_request_bytes = or_else higher.max_request_bytes lower.max_request_bytes;
  queue_capacity = or_else higher.queue_capacity lower.queue_capacity;
  max_concurrent_requests = or_else higher.max_concurrent_requests lower.max_concurrent_requests;
  request_timeout_ms = or_else higher.request_timeout_ms lower.request_timeout_ms;
  shutdown_timeout_ms = or_else higher.shutdown_timeout_ms lower.shutdown_timeout_ms;
}

abbrev pub no_values : {Address FilePath : Type 0} → PartialConfig Address FilePath
no_values = record {
  artifact_root = none;
  bind = none;
  grpc_bind = none;
  max_request_bytes = none;
  queue_capacity = none;
  max_concurrent_requests = none;
  request_timeout_ms = none;
  shutdown_timeout_ms = none;
}

abbrev pub problem : Field → Message → ConfigError
problem field message = record { field = field; message = message }

module _ (platform : Platform) where
  open platform use {Address, FilePath, Value, Text, Limits}

  unfoldable pub read_file : FilePath → Result ConfigError (PartialConfig Address FilePath)
  read_file path = do
    (is_file, size) ← ok_or (platform.metadata path) (problem config could_not_be_read)
    reject_if (not is_file || ltb max_config_bytes size) (problem config outside_bound)
    text ← ok_or (platform.read_to_string path) (problem config could_not_be_read)
    ok_or (platform.parse_toml text) (problem config malformed)

  unfoldable pub parse_environment :
      {A : Type 0}
      → (Text → Option A)
      → (Field → Option Value)
      → Field
      → Result ConfigError (Option A)
  parse_environment parse environment field = elim (environment field) [
    | none ↦ ok none
    | some value ↦ (do
      text ← ok_or (platform.into_string value) (problem field malformed)
      parsed ← ok_or (parse text) (problem field malformed)
      ok (some parsed))
  ]

  abbrev pub path_in : Option Value → Option FilePath
  path_in none = none
  path_in (some value) = some (platform.path_from value)

  unfoldable pub read_environment :
      (Field → Option Value) → Result ConfigError (PartialConfig Address FilePath)
  unfolding parse_environment
  read_environment environment = do
    bound ← parse_environment platform.parse_address environment bind
    grpc_bound ← parse_environment platform.parse_address environment grpc_bind
    bytes ← parse_environment platform.parse_number environment max_request_bytes
    queue ← parse_environment platform.parse_number environment queue_capacity
    concurrent ← parse_environment platform.parse_number environment max_concurrent_requests
    request ← parse_environment platform.parse_number environment request_timeout_ms
    shutdown ← parse_environment platform.parse_number environment shutdown_timeout_ms
    ok (record {
      artifact_root = path_in (environment artifact_root);
      bind = bound;
      grpc_bind = grpc_bound;
      max_request_bytes = bytes;
      queue_capacity = queue;
      max_concurrent_requests = concurrent;
      request_timeout_ms = request;
      shutdown_timeout_ms = shutdown;
    })

  unfoldable pub resolve_layers :
      PartialConfig Address FilePath → Result ConfigError (RuntimeConfig Address FilePath Limits)
  resolve_layers values = do
    let bound = unwrap_or values.bind platform.default_bind
    let grpc_bound = unwrap_or values.grpc_bind platform.default_grpc_bind
    let root = unwrap_or values.artifact_root platform.default_artifact_root
    reject_if (platform.path_is_empty root) (problem artifact_root malformed)
    reject_if (not (platform.is_loopback bound)) (problem bind must_be_loopback)
    reject_if (not (platform.is_loopback grpc_bound) || platform.same_address grpc_bound bound)
        (problem grpc_bind must_be_distinct)
    limits ←
        map_err (λ field. problem field outside_bound)
          (platform.server_limits (unwrap_or values.max_request_bytes (16 * 1_024 * 1_024))
            (unwrap_or values.queue_capacity 128) (unwrap_or values.max_concurrent_requests 4)
            (unwrap_or values.request_timeout_ms 60_000)
            (unwrap_or values.shutdown_timeout_ms 10_000))
    ok (record { bind = bound; grpc_bind = grpc_bound; limits = limits; artifact_root = root })

  unfoldable pub read_layer : Option FilePath → Result ConfigError (PartialConfig Address FilePath)
  unfolding read_file
  read_layer none = ok no_values
  read_layer (some path) = read_file path

  unfoldable pub resolve :
      ServerOptions Address FilePath
      → (Field → Option Value)
      → Result ConfigError (RuntimeConfig Address FilePath Limits)
  unfolding read_layer read_environment overlay resolve_layers
  resolve options environment = do
    file ← read_layer (or_else options.config (path_in (environment config)))
    from_environment ← read_environment environment
    resolve_layers (overlay (overlay file from_environment) options.values)
