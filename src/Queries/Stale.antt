-- ===== src/Queries/Stale.antt =====
-- db/queries.py: a worker becomes unreachable or stale, and its running queries go back.
use duck_launcher.Base.{
  ℕ, ◌+◌, ◌*◌, Bool, true, false, not, ◌&&◌, none, some, String, List, [], ◌∷◌, map, leb, any,
  is_key, if◌then◌else◌,
}
use duck_launcher.Db.{
  Db, Worker, WorkerStatus, Query, QueryStatus, is_status, has_worker_id, runs_on,
}
use duck_launcher.Table.{update, select, ends_in_one}
use duck_launcher.Queries.Notify.{notify_reverted}

abbrev pub unreachable_error : String
unreachable_error = "Worker became unreachable"

-- SET status = 'pending', worker_id = NULL, started_at = NULL, error = 'Worker became unreachable'
unfoldable pub reverted_row : Query → Query
reverted_row q = record q {
  status = QueryStatus.pending;
  worker_id = none;
  started_at = none;
  error = some unreachable_error;
}

-- UPDATE queries … RETURNING query_id, error, and the loop that notifies of each row.
unfoldable pub revert_queries : Db → (Query → Bool) → Db
unfolding reverted_row notify_reverted
revert_queries db test =
    notify_reverted (record db { queries = update test reverted_row db.queries })
      (map reverted_row (select test db.queries))

-- status IN ('running', 'shutting_down')
abbrev pub is_serving : WorkerStatus → Bool
is_serving WorkerStatus.running = true
is_serving WorkerStatus.shutting_down = true
is_serving _ = false

unfoldable pub mark_worker_unreachable : Db → ℕ → Db
mark_worker_unreachable db worker_id =
    let serving : Worker → Bool = λ w. has_worker_id worker_id w && is_serving w.status in
    let db' : Db = record db {
      workers = update serving (λ w. record w { status = WorkerStatus.unreachable }) db.workers;
    } in
    if not (ends_in_one serving db.workers) then db' else revert_queries db' (runs_on worker_id)

-- `last_heartbeat_at >= utcnow - timedelta(seconds=worker_stale_sec)`: the difference is moved to
-- the other side, since a difference of numbers stops at 0.
unfoldable pub is_fresh : ℕ → ℕ → Worker → Bool
is_fresh utcnow worker_stale_sec w = leb utcnow (w.last_heartbeat_at + worker_stale_sec * 1000000)

-- status IN ('running', 'shutting_down', 'unreachable')
abbrev pub is_swept : WorkerStatus → Bool
is_swept WorkerStatus.running = true
is_swept WorkerStatus.shutting_down = true
is_swept WorkerStatus.unreachable = true
is_swept _ = false

unfoldable pub is_stale : ℕ → ℕ → Worker → Bool
unfolding is_fresh
is_stale utcnow worker_stale_sec w = is_swept w.status && not (is_fresh utcnow worker_stale_sec w)

-- worker_id = ANY($1::uuid[]) AND status = 'running'
abbrev pub runs_on_any : List Worker → Query → Bool
runs_on_any workers q =
    any (λ w. is_key q.worker_id w.worker_id) workers && is_status q.status QueryStatus.running

-- `if not stale_workers: return`, and the UPDATE of the queries of the others.
unfoldable pub revert_from : Db → List Worker → Db
revert_from db [] = db
revert_from db (w ∷ ws) = revert_queries db (runs_on_any (w ∷ ws))

unfoldable pub sweep_stale_workers : Db → ℕ → ℕ → Db
unfolding is_stale revert_from
sweep_stale_workers db utcnow worker_stale_sec =
    revert_from
      (record db {
        workers =
            update (is_stale utcnow worker_stale_sec)
              (λ w. record w { status = WorkerStatus.stopped }) db.workers;
      })
      (select (is_stale utcnow worker_stale_sec) db.workers)
