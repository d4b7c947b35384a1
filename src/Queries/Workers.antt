-- ===== src/Queries/Workers.antt =====
-- db/queries.py: workers register, report, become ready and shut down; who is listed.
use duck_launcher.Base.{
  ℕ, ℤ, Bool, true, false, ◌&&◌, Option, none, some, String, List, [], ◌∷◌, ◌++◌, map, leb,
  coalesce, coalesce_opt, head?,
}
use duck_launcher.Db.{
  Db, Worker, WorkerStatus, worker_running, worker_initializing, has_worker_id, runs_on,
}
use duck_launcher.Table.{update, select, fetch, count, ends_in_one, order_by}

-- INSERT INTO workers … ON CONFLICT (worker_id) DO UPDATE SET …
unfoldable pub register_worker : Db → Option ℕ → ℕ → ℕ → String → ℤ → ℤ → ℤ → ℤ → ℕ × Db
register_worker db worker_id uuid4 now endpoint cpus memory disk_space max_concurrent_queries =
    let resolved_id = coalesce worker_id uuid4 in
    (
      resolved_id,
      record db {
        workers = elim (fetch (has_worker_id resolved_id) db.workers) [
          | none ↦
              db.workers
              ++ record {
                worker_id = resolved_id;
                endpoint = endpoint;
                status = WorkerStatus.initializing;
                cpus = cpus;
                memory = memory;
                disk_space = disk_space;
                max_concurrent_queries = max_concurrent_queries;
                memory_used_mb = none;
                cpu_usage = none;
                started_at = now;
                last_heartbeat_at = now;
              }
                ∷ []
          | some _ ↦
              update (has_worker_id resolved_id)
                (λ w. record w {
                  endpoint = endpoint;
                  status = WorkerStatus.initializing;
                  cpus = cpus;
                  memory = memory;
                  disk_space = disk_space;
                  max_concurrent_queries = max_concurrent_queries;
                  last_heartbeat_at = now;
                })
                db.workers
        ];
      },
    )

unfoldable pub heartbeat_worker :
    Db
    → ℕ
    → ℕ
    → Option ℤ
    → Option ℤ
    → Option ℤ
    → Option WorkerStatus
    → Option ℤ
    → Option ℕ
    → Bool × Db
heartbeat_worker db now worker_id cpus memory disk_space status memory_used_mb cpu_usage = (
  ends_in_one (has_worker_id worker_id) db.workers,
  record db {
    workers =
        update (has_worker_id worker_id)
          (λ w. record w {
            last_heartbeat_at = now;
            cpus = coalesce cpus w.cpus;
            memory = coalesce memory w.memory;
            disk_space = coalesce disk_space w.disk_space;
            status = coalesce status w.status;
            memory_used_mb = coalesce_opt memory_used_mb w.memory_used_mb;
            cpu_usage = coalesce_opt cpu_usage w.cpu_usage;
          })
          db.workers;
  },
)

-- UPDATE workers SET status = …, last_heartbeat_at = now() WHERE worker_id = $1 AND status = …
set_status : Db → ℕ → (Worker → Bool) → WorkerStatus → ℕ → Bool × Db
set_status db worker_id from to now = (
  ends_in_one (λ w. has_worker_id worker_id w && from w) db.workers,
  record db {
    workers =
        update (λ w. has_worker_id worker_id w && from w)
          (λ w. record w { status = to; last_heartbeat_at = now }) db.workers;
  },
)

unfoldable pub ready_worker : Db → ℕ → ℕ → Bool × Db
unfolding set_status
ready_worker db now worker_id =
    set_status db worker_id (λ w. worker_initializing w.status) WorkerStatus.running now

unfoldable pub shutdown_worker : Db → ℕ → ℕ → Bool × Db
unfolding set_status
shutdown_worker db now worker_id =
    set_status db worker_id (λ w. worker_running w.status) WorkerStatus.shutting_down now

-- w.status IN ('running', 'shutting_down', 'unreachable', 'initializing')
abbrev pub is_listed : WorkerStatus → Bool
is_listed WorkerStatus.initializing = true
is_listed WorkerStatus.running = true
is_listed WorkerStatus.unreachable = true
is_listed WorkerStatus.shutting_down = true
is_listed _ = false

-- Each listed worker with `running_queries`, in the order of started_at.
unfoldable pub list_workers : Db → List (Worker × ℕ)
list_workers db =
    map (λ w. (w, count (runs_on w.worker_id) db.queries))
      (order_by (λ w v. leb w.started_at v.started_at)
        (select (λ w. is_listed w.status) db.workers))

unfoldable pub get_running_worker : Db → Option Worker
get_running_worker db = head? (
    order_by (λ w v. leb v.last_heartbeat_at w.last_heartbeat_at)
      (select (λ w. worker_running w.status) db.workers))
