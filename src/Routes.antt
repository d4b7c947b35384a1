-- ===== src/Routes.antt =====
-- coordinator/routes.py: what the handlers of queries and sheets answer. The middleware has given the
-- request a user; what other tasks commit while a handler waits is an argument, as is what the HTTP
-- client gets.
pub mod Submit
pub mod Cancel
pub mod SheetRoutes
pub mod WorkerRoutes
pub mod Access
pub mod Settled
pub mod Reports
pub mod Cancelled
use duck_launcher.Queries.Stale.{is_swept}
use duck_launcher.Queries.Workers.{get_running_worker}
use duck_launcher.Base.{
  ℕ, ℤ, ◌==◌, Bool, true, false, Option, none, some, String, List, if◌then◌else◌, leb, head?,
}
use duck_launcher.Db.{Db, User, Worker, Query, QueryStatus, has_worker_id}
use duck_launcher.Table.{fetch, order_by, select}
use duck_launcher.Queries.Life.{get_query}
use duck_launcher.Accounts.Auth.{Answer, returned, raised}

pub record QueryResponse : Type 0 where
  pub query_id : ℕ
  pub worker_id : Option ℕ
  pub user_id : Option ℕ
  pub status : QueryStatus
  pub query : String
  pub error : Option String
  pub cpus : Option ℤ
  pub memory : Option ℤ
  pub disk_space : Option ℤ
  pub created_at : ℕ
  pub started_at : Option ℕ
  pub completed_at : Option ℕ
  pub result_row_count : Option ℤ

unfoldable pub query_response : Query → QueryResponse
query_response row = record {
  query_id = row.query_id;
  worker_id = row.worker_id;
  user_id = row.user_id;
  status = row.status;
  query = row.query;
  error = row.error;
  cpus = row.cpus;
  memory = row.memory;
  disk_space = row.disk_space;
  created_at = row.created_at;
  started_at = row.started_at;
  completed_at = row.completed_at;
  result_row_count = row.result_row_count;
}

-- Whether `_assert_query_access` lets the user pass: the owner, and anyone where there is none.
abbrev pub may_access : Option ℕ → User → Bool
may_access none user = true
may_access (some query_user_id) user = query_user_id == user.user_id

-- The start of each handler of one query: its row, 404 without one, 403 for another user's.
unfoldable pub accessible : Db → User → ℕ → Answer Query
accessible db user query_id = elim (get_query db query_id) [
  | none ↦ raised 404
  | some row ↦ if may_access row.user_id user then returned row else raised 403
]

unfoldable pub get_query_route : Db → User → ℕ → Answer QueryResponse
unfolding accessible
get_query_route db user query_id = elim (accessible db user query_id) [
  | returned row ↦ returned (query_response row)
  | raised status_code ↦ raised status_code
]

-- completed, failed or cancelled: TERMINAL_QUERY_STATUSES
abbrev pub is_terminal : QueryStatus → Bool
is_terminal QueryStatus.pending = false
is_terminal QueryStatus.running = false
is_terminal _ = true

-- _get_worker_endpoint
unfoldable pub get_worker_endpoint : Db → Option ℕ → Option Worker
get_worker_endpoint db none = none
get_worker_endpoint db (some worker_id) = fetch (has_worker_id worker_id) db.workers

-- _get_first_worker, which nothing calls: a running worker, or else the one heard of last among those
-- that are running, shutting down or unreachable.
unfoldable pub get_first_worker : Db → Option Worker
unfolding get_running_worker
get_first_worker db = elim (get_running_worker db) [
  | some w ↦ some w
  | none ↦ head? (
      order_by (λ w v. leb v.last_heartbeat_at w.last_heartbeat_at)
        (select (λ w. is_swept w.status) db.workers))
]
