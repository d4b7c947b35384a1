-- ===== src/Routes/WorkerRoutes.antt =====
-- coordinator/routes.py: the handlers that workers call, and the catalog.
use Prim.Native.String.{◌++◌}
use duck_launcher.Base.{ℕ, ℤ, Option, none, some, String, List, [], map, if◌then◌else◌}
use duck_launcher.Text.{rstrip_slash}
use duck_launcher.Db.{Db, Worker, WorkerStatus}
use duck_launcher.Queries.Workers.{
  register_worker, ready_worker, heartbeat_worker, shutdown_worker, list_workers,
  get_running_worker,
}
use duck_launcher.Accounts.Auth.{Answer, returned, raised}

pub record WorkerRegisterRequest : Type 0 where
  pub worker_id : Option ℕ
  pub endpoint : String
  pub cpus : ℤ
  pub memory : ℤ
  pub disk_space : ℤ
  pub max_concurrent_queries : ℤ

pub record WorkerRegisterResponse : Type 0 where
  pub worker_id : ℕ
  pub init_scripts : List String

-- `running_queries` of the request is not read.
pub record WorkerHeartbeatRequest : Type 0 where
  pub cpus : Option ℤ
  pub memory : Option ℤ
  pub disk_space : Option ℤ
  pub status : Option WorkerStatus
  pub memory_used_mb : Option ℤ
  pub cpu_usage : Option ℕ
  pub running_queries : Option ℕ

-- `init_scripts` is load_init_scripts(settings.init_scripts_path).
unfoldable pub register_worker_route :
    List String → Db → ℕ → ℕ → WorkerRegisterRequest → WorkerRegisterResponse × Db
register_worker_route init_scripts db uuid4 now body =
    let registered =
      register_worker db body.worker_id uuid4 now body.endpoint body.cpus body.memory
        body.disk_space body.max_concurrent_queries in
    (record { worker_id = registered.0; init_scripts = init_scripts }, registered.1)

-- The status of the response's body; the route then starts a task that schedules.
unfoldable pub ready_worker_route : Db → ℕ → ℕ → Answer String × Db
ready_worker_route db now worker_id =
    let updated = ready_worker db now worker_id in
    (if updated.0 then returned "ok" else raised 404, updated.1)

unfoldable pub heartbeat_worker_route : Db → ℕ → ℕ → WorkerHeartbeatRequest → Answer String × Db
heartbeat_worker_route db now worker_id body =
    let updated =
      heartbeat_worker db now worker_id body.cpus body.memory body.disk_space body.status
        body.memory_used_mb body.cpu_usage in
    (if updated.0 then returned "ok" else raised 404, updated.1)

unfoldable pub shutdown_worker_route : Db → ℕ → ℕ → Answer String × Db
shutdown_worker_route db now worker_id =
    let updated = shutdown_worker db now worker_id in
    (if updated.0 then returned "shutting_down" else raised 404, updated.1)

pub record WorkerResponse : Type 0 where
  pub worker_id : ℕ
  pub endpoint : String
  pub status : WorkerStatus
  pub cpus : ℤ
  pub memory : ℤ
  pub disk_space : ℤ
  pub max_concurrent_queries : ℤ
  pub running_queries : ℕ
  pub memory_used_mb : Option ℤ
  pub cpu_usage : Option ℕ
  pub started_at : ℕ
  pub last_heartbeat_at : ℕ

abbrev pub worker_response : Worker × ℕ → WorkerResponse
worker_response (row, running_queries) = record {
  worker_id = row.worker_id;
  endpoint = row.endpoint;
  status = row.status;
  cpus = row.cpus;
  memory = row.memory;
  disk_space = row.disk_space;
  max_concurrent_queries = row.max_concurrent_queries;
  running_queries = running_queries;
  memory_used_mb = row.memory_used_mb;
  cpu_usage = row.cpu_usage;
  started_at = row.started_at;
  last_heartbeat_at = row.last_heartbeat_at;
}

unfoldable pub list_workers_route : Db → List WorkerResponse
list_workers_route db = map worker_response (list_workers db)

-- CatalogResponse(databases=…). `get` is the HTTP client, with none where it raises.
unfoldable pub get_catalog {ℓ} : {A : Type ℓ} → (String → Option (List A)) → Db → List A
get_catalog get db = elim (get_running_worker db) [
  | none ↦ []
  | some worker ↦ elim (get (rstrip_slash worker.endpoint ++ "/catalog")) [
    | none ↦ []
    | some databases ↦ databases
  ]
]
