-- ===== src/Cli.antt =====
-- cli.py: what the two commands hand to the settings. pydantic, which reads the environment and takes
-- the values that are handed to it, is a parameter of the theorems.
pub mod Endpoint
use Prim.Native.String.{◌++◌}
use duck_launcher.Base.{ℤ, Bool, Option, none, some, String, List, [], ◌∷◌, ◌++◌ as append}
use duck_launcher.Config.{Files, resolve_init_scripts_path}
use duck_launcher.Worker.Registration.{FilePath}

-- A value of a setting. The text of a float stands for its double.
pub data Value : Type 0 where
  string : String → Value
  whole : ℤ → Value
  float : String → Value
  flag : Bool → Value
  path : FilePath → Value

-- `{key: value for key, value in overrides.items() if value is not None}`
unfoldable pub build_values : List (String × Option Value) → List (String × Value)
build_values [] = []
build_values ((key, none) ∷ overrides) = build_values overrides
build_values ((key, some value) ∷ overrides) = (key, value) ∷ build_values overrides

abbrev pub given {ℓ} : {A : Type ℓ} → (A → Value) → Option A → Option Value
given f none = none
given f (some a) = some (f a)

-- The options of `ducklauncher coordinator` that are settings.
pub record CoordinatorOptions : Type 0 where
  pub init_scripts : Option String
  pub database_url : Option String
  pub heartbeat_interval_sec : Option ℤ
  pub worker_stale_sec : Option ℤ
  pub scheduler_interval_sec : Option String

unfoldable pub coordinator_values : Files → CoordinatorOptions → List (String × Value)
unfolding build_values
coordinator_values files options = build_values (
    ("init_scripts_path", given string (resolve_init_scripts_path files options.init_scripts))
    ∷ ("database_url", given string options.database_url)
    ∷ ("heartbeat_interval_sec", given whole options.heartbeat_interval_sec)
    ∷ ("worker_stale_sec", given whole options.worker_stale_sec)
    ∷ ("scheduler_interval_sec", given float options.scheduler_interval_sec)
    ∷ [])

-- The options of `ducklauncher worker`, but for the host.
pub record WorkerOptions : Type 0 where
  pub cpus : Option ℤ
  pub memory : Option ℤ
  pub disk_space : Option ℤ
  pub coordinator_url : Option String
  pub worker_endpoint : Option String
  pub duckdb_path : Option String
  pub max_concurrent_queries : Option ℤ
  pub connection_pool_size : Option ℤ
  pub worker_id : Option String
  pub worker_id_path : Option FilePath
  pub heartbeat_interval_sec : Option ℤ
  pub shutdown_cancel_queries : Option Bool
  pub port : ℤ

-- `worker_endpoint or …`: an empty text counts as none.
abbrev pub endpoint_or : String → Option String → String
endpoint_or default none = default
endpoint_or default (some String.[]) = default
endpoint_or default (some endpoint) = endpoint

-- `home` is Path.home(), and `str` the text of a number.
unfoldable pub default_worker_id_path : FilePath → (ℤ → String) → ℤ → FilePath
default_worker_id_path home str port =
    append home (".ducklauncher" ∷ "workers" ∷ str port ∷ "worker_id" ∷ [])

-- A path is never false.
abbrev pub path_or : FilePath → Option FilePath → FilePath
path_or default none = default
path_or default (some given_path) = given_path

unfoldable pub worker_values : FilePath → (ℤ → String) → WorkerOptions → List (String × Value)
unfolding build_values default_worker_id_path
worker_values home str options =
    let resolved_endpoint =
      endpoint_or ("http://127.0.0.1:" ++ str options.port) options.worker_endpoint in
    let resolved_worker_id_path =
      path_or (default_worker_id_path home str options.port) options.worker_id_path in
    build_values (
      ("cpus", given whole options.cpus)
      ∷ ("memory", given whole options.memory)
      ∷ ("disk_space", given whole options.disk_space)
      ∷ ("coordinator_url", given string options.coordinator_url)
      ∷ ("worker_endpoint", some (string resolved_endpoint))
      ∷ ("duckdb_path", given string options.duckdb_path)
      ∷ ("max_concurrent_queries", given whole options.max_concurrent_queries)
      ∷ ("connection_pool_size", given whole options.connection_pool_size)
      ∷ ("worker_id", given string options.worker_id)
      ∷ ("worker_id_path", some (path resolved_worker_id_path))
      ∷ ("heartbeat_interval_sec", given whole options.heartbeat_interval_sec)
      ∷ ("shutdown_cancel_queries", given flag options.shutdown_cancel_queries)
      ∷ [])
