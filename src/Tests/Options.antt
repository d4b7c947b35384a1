-- ===== src/Tests/Options.antt =====
-- The options of a worker at concrete inputs.
use text.Mathlib.Text.{◌==◌ as str_eq}
use duck_launcher.Base.{◌≡◌, pos, Option, none, some, coalesce, String, List, [], ap}
use duck_launcher.Worker.Dict.{find}
use duck_launcher.Worker.Registration.{WorkerSettings, register_payload}
use duck_launcher.Cli.{Value, string, WorkerOptions, worker_values}
use duck_launcher.Cli.Endpoint.{environment_endpoint_ignored}
use duck_launcher.Tests.Starts.{new_worker, some_resources}

abbrev endpoint_of : String → Option Value → String
endpoint_of default (some (string endpoint)) = endpoint
endpoint_of default _ = default

-- The values first, then the environment, of which only WORKER_ENDPOINT is read.
abbrev read_settings : Option String → List (String × Value) → WorkerSettings
read_settings environment values = record new_worker {
  worker_endpoint =
      endpoint_of (coalesce environment "http://127.0.0.1:8001")
        (find str_eq "worker_endpoint" values);
}

abbrev port_only : WorkerOptions
port_only = record {
  cpus = none;
  memory = none;
  disk_space = none;
  coordinator_url = none;
  worker_endpoint = none;
  duckdb_path = none;
  max_concurrent_queries = none;
  connection_pool_size = none;
  worker_id = none;
  worker_id_path = none;
  heartbeat_interval_sec = none;
  shutdown_cancel_queries = none;
  port = pos 8001;
}

environment_endpoint_ignored_example :
    (register_payload
      (read_settings (some "http://worker-0:8001") (worker_values [] (λ n. "8001") port_only))
      some_resources
      7).endpoint
    ≡ "http://127.0.0.1:8001"
environment_endpoint_ignored_example =
    environment_endpoint_ignored read_settings [] (λ n. "8001") port_only
      (some "http://worker-0:8001") some_resources 7
      (λ e values endpoint given. ap (endpoint_of (coalesce e "http://127.0.0.1:8001")) given)
