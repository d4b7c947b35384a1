-- ===== src/Cli/Endpoint.antt =====
-- The endpoint that a worker registers when it is started from the command line.
use text.Mathlib.Text.{◌==◌ as str_eq}
use Prim.Native.String.{◌++◌}
use duck_launcher.Base.{ℤ, ◌≡◌, refl, ◌∙◌, Option, none, some, String, List, ◌∷◌, false, ℕ}
use duck_launcher.Worker.Dict.{find}
use duck_launcher.Worker.Registration.{FilePath, WorkerSettings, Resources, register_payload}
use duck_launcher.Cli.{
  Value, string, build_values, WorkerOptions, worker_values, endpoint_or, given, whole,
}

find-build_values :
    (key : String) (value : Option Value) (rest : List (String × Option Value)) (k : String)
    → str_eq k key ≡ false
    → find str_eq k (build_values ((key, value) ∷ rest)) ≡ find str_eq k (build_values rest)
unfolding build_values find
find-build_values key none rest k apart = refl
find-build_values key (some value) rest k apart = rw apart refl

endpoint_given :
    (home : FilePath) (str : ℤ → String) (options : WorkerOptions)
    → find str_eq "worker_endpoint" (worker_values home str options)
      ≡ some
          (string (endpoint_or ("http://127.0.0.1:" ++ str options.port) options.worker_endpoint))
unfolding worker_values build_values find
endpoint_given home str options =
    find-build_values "cpus" (given whole options.cpus) _ "worker_endpoint" refl
    ∙ find-build_values "memory" (given whole options.memory) _ "worker_endpoint" refl
    ∙ find-build_values "disk_space" (given whole options.disk_space) _ "worker_endpoint" refl
    ∙ find-build_values "coordinator_url" (given string options.coordinator_url) _ "worker_endpoint"
        refl

-- Where the settings take a value that is handed to them before the environment's: the worker that
-- the command starts registers the endpoint of its option, or, where that is not given or empty,
-- "http://127.0.0.1:" and its port, whatever the environment says, WORKER_ENDPOINT included.
pub environment_endpoint_ignored {ℓ} :
    {Environment : Type ℓ} (settings : Environment → List (String × Value) → WorkerSettings)
    (home : FilePath) (str : ℤ → String) (options : WorkerOptions) (environment : Environment)
    (resources : Resources) (id : ℕ)
    → ((e : Environment) (values : List (String × Value)) (endpoint : String)
        → find str_eq "worker_endpoint" values ≡ some (string endpoint)
        → (settings e values).worker_endpoint ≡ endpoint)
    → (register_payload
        (settings environment (worker_values home str options))
        resources
        id).endpoint
      ≡ endpoint_or ("http://127.0.0.1:" ++ str options.port) options.worker_endpoint
environment_endpoint_ignored settings home str options environment resources id takes =
    takes environment (worker_values home str options)
      (endpoint_or ("http://127.0.0.1:" ++ str options.port) options.worker_endpoint)
      (endpoint_given home str options)
