-- ===== src/Worker/Registration.antt =====
-- worker/registration.py, and what config.py settles for a worker: its id, its directories, its
-- resources; the registration with its attempts, the notices to the coordinator, the heartbeats.
use text.Mathlib.Text.{◌==◌ as str_eq}
use duck_launcher.Base.{
  ℕ, zero, suc, ℤ, pos, Bool, true, false, ◌&&◌, Option, none, some, coalesce, String, List, [],
  ◌∷◌, ◌++◌ as append, if◌then◌else◌,
}
use duck_launcher.Db.{WorkerStatus}
use duck_launcher.Routes.WorkerRoutes.{
  WorkerRegisterRequest, WorkerRegisterResponse, WorkerHeartbeatRequest,
}

-- The text of a uuid, or one from which UUID(…) raises ValueError.
pub data IdText : Type 0 where
  malformed : IdText
  uuid : ℕ → IdText

-- A path by its parts, as pathlib takes it apart.
abbrev pub FilePath : Type 0
FilePath = List String

-- An empty WORKER_ID counts as none.
pub record WorkerSettings : Type 0 where
  pub worker_endpoint : String
  pub worker_id : Option IdText
  pub duckdb_path : String
  pub duckdb_name : String
  pub max_concurrent_queries : ℤ
  pub connection_pool_size : Option ℤ
  pub cpus : Option ℤ
  pub memory : Option ℤ
  pub disk_space : Option ℤ
  pub result_dir : FilePath

pub record WorkerState : Type 0 where
  pub worker_id : Option ℕ
  pub shutting_down : Bool

pub record Metrics : Type 0 where
  pub memory_used_mb : ℤ
  pub memory_left_mb : ℤ
  pub cpu_count : ℤ
  pub cpu_usage : ℕ

abbrev pub parse_id : IdText → Option ℕ
parse_id malformed = none
parse_id (uuid id) = some id

-- `stored` is the text of the file at worker_id_path, if there is one. None: ValueError.
unfoldable pub resolve_local_worker_id : WorkerSettings → Option IdText → ℕ → Option ℕ
resolve_local_worker_id settings stored uuid4 = elim settings.worker_id [
  | some text ↦ parse_id text
  | none ↦ elim stored [ some text ↦ parse_id text | none ↦ some uuid4 ]
]

-- The file at worker_id_path afterwards.
abbrev pub persist_worker_id : ℕ → Option IdText
persist_worker_id worker_id = some (uuid worker_id)

abbrev pub worker_data_root : FilePath
worker_data_root = "/" ∷ "tmp" ∷ "ducklauncher" ∷ "workers" ∷ []

abbrev pub default_result_dir : FilePath
default_result_dir = "/" ∷ "tmp" ∷ "ducklauncher" ∷ "results" ∷ []

unfoldable pub same_path : FilePath → FilePath → Bool
same_path [] [] = true
same_path [] (q ∷ qs) = false
same_path (p ∷ ps) [] = false
same_path (p ∷ ps) (q ∷ qs) = str_eq p q && same_path ps qs

-- The DuckDB file, none where it is in memory, and the directory of the results. `str` is the text
-- of a uuid, and `duckdb_name` of the settings is Path(duckdb_path).name.
unfoldable pub resolve_worker_storage :
    (ℕ → String) → WorkerSettings → ℕ → Option FilePath × FilePath
unfolding same_path
resolve_worker_storage str settings worker_id =
    let worker_dir = append worker_data_root (str worker_id ∷ []) in
    (
      if str_eq settings.duckdb_path ":memory:"
          then none
          else some (append worker_dir (settings.duckdb_name ∷ [])),
      if same_path settings.result_dir default_result_dir
          then append worker_dir ("results" ∷ [])
          else append settings.result_dir (str worker_id ∷ []),
    )

-- `size or limit`: 0 counts as none.
abbrev pub pool_size_or : ℤ → Option ℤ → ℤ
pool_size_or limit none = limit
pool_size_or limit (some (pos zero)) = limit
pool_size_or limit (some size) = size

abbrev pub worker_connection_pool_size : WorkerSettings → ℤ
worker_connection_pool_size settings =
    pool_size_or settings.max_concurrent_queries settings.connection_pool_size

pub record Resources : Type 0 where
  pub cpus : ℤ
  pub memory : ℤ
  pub disk_space : ℤ

abbrev pub worker_resources : WorkerSettings → Metrics → ℤ → Resources
worker_resources settings metrics available_disk_space_mb = record {
  cpus = coalesce settings.cpus metrics.cpu_count;
  memory = coalesce settings.memory metrics.memory_left_mb;
  disk_space = coalesce settings.disk_space available_disk_space_mb;
}

abbrev pub register_payload : WorkerSettings → Resources → ℕ → WorkerRegisterRequest
register_payload settings resources existing_id = record {
  worker_id = some existing_id;
  endpoint = settings.worker_endpoint;
  cpus = resources.cpus;
  memory = resources.memory;
  disk_space = resources.disk_space;
  max_concurrent_queries = settings.max_concurrent_queries;
}

-- How the loop over the attempts ends: with the answer to one of them, or with the last error.
pub data Registered : Type 0 where
  registered : ℕ → WorkerRegisterResponse → Registered
  gave_up : Registered

module _ {ℓ} {S : Type ℓ}
    (post : ℕ → WorkerRegisterRequest → S → Option WorkerRegisterResponse × S) where
  -- `for attempt in range(1, max_attempts + 1)`, by the attempts that are left. `post` is the POST of
  -- an attempt, with none for httpx.HTTPError, and what others do until the next one.
  unfoldable pub attempts_from : ℕ → ℕ → WorkerRegisterRequest → S → Registered × S
  attempts_from zero attempt payload world = (gave_up, world)
  attempts_from (suc left) attempt payload world =
      let answer = post attempt payload world in
      elim (answer.0) [
        | some response ↦ (registered attempt response, answer.1)
        | none ↦ attempts_from left (suc attempt) payload answer.1
      ]

  -- The state and the stored id after the loop; the last error is raised.
  abbrev pub settle :
      WorkerState → Option IdText → Registered × S → Registered × WorkerState × Option IdText × S
  settle state stored (registered attempt response, world) = (
    registered attempt response,
    record state { worker_id = some response.worker_id },
    persist_worker_id response.worker_id,
    world,
  )
  settle state stored (gave_up, world) = (gave_up, state, stored, world)

  -- The outcome, the state and the stored id afterwards. `existing_id` is what
  -- resolve_local_worker_id gives here; max_attempts is 30 in the code's only call.
  unfoldable pub register_with_coordinator :
      WorkerSettings
      → Resources
      → ℕ
      → ℕ
      → WorkerState
      → Option IdText
      → S
      → Registered × WorkerState × Option IdText × S
  unfolding attempts_from
  register_with_coordinator settings resources existing_id max_attempts state stored world =
      settle state stored
        (attempts_from max_attempts 1 (register_payload settings resources existing_id) world)

-- What a round of the heartbeat loop finds: the metrics, the free disk space, the number of active
-- queries, whether the worker is shutting down, and whether the shutdown comes before the next round.
pub record Round : Type 0 where
  pub metrics : Metrics
  pub disk : ℤ
  pub active : Option ℕ
  pub shutting_down : Bool
  pub shut_down : Bool

abbrev pub heartbeat_payload : WorkerSettings → Round → WorkerHeartbeatRequest
heartbeat_payload settings round =
    let resources = worker_resources settings round.metrics round.disk in
    record {
      cpus = some resources.cpus;
      memory = some resources.memory;
      disk_space = some resources.disk_space;
      status =
          some (if round.shutting_down then WorkerStatus.shutting_down else WorkerStatus.running);
      memory_used_mb = some round.metrics.memory_used_mb;
      cpu_usage = some round.metrics.cpu_usage;
      running_queries = round.active;
    }

-- The heartbeats of the loop, with the id that each is for. Without an id a round only waits.
unfoldable pub heartbeat_loop :
    WorkerSettings → Option ℕ → List Round → List (ℕ × WorkerHeartbeatRequest)
heartbeat_loop settings worker_id [] = []
heartbeat_loop settings none (round ∷ rounds) =
    let rest = heartbeat_loop settings none rounds in if round.shut_down then [] else rest
heartbeat_loop settings (some id) (round ∷ rounds) =
    let rest = heartbeat_loop settings (some id) rounds in
    (id, heartbeat_payload settings round) ∷ (if round.shut_down then [] else rest)
