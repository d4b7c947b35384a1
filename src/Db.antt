-- ===== src/Db.antt =====
-- The tables of db/migrations.sql and the rows that the statements read and write.
-- A uuid is a number; a timestamp counts microseconds; an int column is an integer, and a double
-- precision column, which nothing computes with, is carried as the number of its bit pattern.
-- A column that may be NULL is an `Option`. `channel` holds what `pg_notify` has sent on
-- `query_status`, oldest first.
use duck_launcher.Base.{ℕ, ℤ, Bool, true, false, ◌&&◌, ◌==◌, Option, String, List, is_key}

-- The texts that the code writes into workers.status, and any other text that a heartbeat brings.
pub data WorkerStatus : Type 0 where
  initializing running unreachable shutting_down stopped : WorkerStatus
  other : String → WorkerStatus

pub data QueryStatus : Type 0 where
  pending running completed failed cancelled : QueryStatus

abbrev pub worker_running : WorkerStatus → Bool
worker_running WorkerStatus.running = true
worker_running _ = false

abbrev pub worker_initializing : WorkerStatus → Bool
worker_initializing WorkerStatus.initializing = true
worker_initializing _ = false

-- The number of a status among the five texts, to compare two of them.
abbrev pub status_number : QueryStatus → ℕ
status_number pending = 0
status_number QueryStatus.running = 1
status_number completed = 2
status_number failed = 3
status_number cancelled = 4

abbrev pub is_status : QueryStatus → QueryStatus → Bool
is_status s t = status_number s == status_number t

-- status IN ('pending', 'running')
abbrev pub is_active : QueryStatus → Bool
is_active pending = true
is_active QueryStatus.running = true
is_active _ = false

pub record Worker : Type 0 where
  pub worker_id : ℕ
  pub endpoint : String
  pub status : WorkerStatus
  pub cpus : ℤ
  pub memory : ℤ
  pub disk_space : ℤ
  pub max_concurrent_queries : ℤ
  pub memory_used_mb : Option ℤ
  pub cpu_usage : Option ℕ
  pub started_at : ℕ
  pub last_heartbeat_at : ℕ

pub record Query : Type 0 where
  pub query_id : ℕ
  pub worker_id : Option ℕ
  pub user_id : Option ℕ
  pub status : QueryStatus
  pub query : String
  pub error : Option String
  pub cpus : Option ℤ
  pub memory : Option ℤ
  pub disk_space : Option ℤ
  pub created_at : ℕ
  pub started_at : Option ℕ
  pub completed_at : Option ℕ
  pub result_row_count : Option ℤ

pub record User : Type 0 where
  pub user_id : ℕ
  pub sub : String
  pub email : Option String
  pub name : Option String
  pub created_at : ℕ
  pub last_login_at : ℕ

pub record Session : Type 0 where
  pub session_id : ℕ
  pub user_id : ℕ
  pub expires_at : ℕ
  pub created_at : ℕ

pub record Sheet : Type 0 where
  pub sheet_id : ℕ
  pub user_id : ℕ
  pub name : String
  pub sql : String
  pub created_at : ℕ
  pub updated_at : ℕ

-- A JSON object on the channel; a key that is left out is `none`.
pub record Payload : Type 0 where
  pub query_id : ℕ
  pub status : QueryStatus
  pub error : Option String
  pub result_row_count : Option ℤ

pub record Db : Type 0 where
  pub workers : List Worker
  pub users : List User
  pub sessions : List Session
  pub queries : List Query
  pub sheets : List Sheet
  pub channel : List Payload

-- worker_id = $1 AND status = 'running'
abbrev pub runs_on : ℕ → Query → Bool
runs_on worker_id q = is_key q.worker_id worker_id && is_status q.status QueryStatus.running

abbrev pub has_worker_id : ℕ → Worker → Bool
has_worker_id k w = w.worker_id == k

abbrev pub has_query_id : ℕ → Query → Bool
has_query_id k q = q.query_id == k
