-- ===== src/Worker/Dispatches.antt =====
-- worker/routes.py and coordinator/scheduler.py together: a dispatch that the worker itself answers.
use duck_launcher.Base.{
  ℕ, ◌+◌, ◌≡◌, ◌≤◌, refl, ◌⊎◌, inl, inr, pos, ℤ, Bool, true, false, not, ◌&&◌, ◌==◌, ==_refl, some,
  List, [], ◌∷◌, any, leb_ℤ, arith, Bool-cases,
}
use duck_launcher.Db.{Db, Worker, Query, running, has_worker_id}
use duck_launcher.Table.{count, fetch}
use duck_launcher.Queries.Life.{get_query}
use duck_launcher.Queries.Stale.{is_serving}
use duck_launcher.Queries.Claim.{Claimed}
use duck_launcher.Lifecycle.Valid.{IsValid}
use duck_launcher.Scheduler.{Response, answered, handle_response}
use duck_launcher.Scheduler.Dispatch.{GivenBack, failed_dispatch_gives_back}
use duck_launcher.Accounts.Auth.{Answer, returned, raised}
use duck_launcher.Worker.Handlers.{Task, WorkerApp, running_task_count, set_task, run_query}

-- What the scheduler sees of the handler's answer.
abbrev pub response_of : Answer ℕ → Response
response_of (returned query_id) = answered 202
response_of (raised status_code) = answered status_code

-- A task of the query that is not done.
abbrev pub runs_task : ℕ → WorkerApp → Bool
runs_task query_id app = any (λ task. task.query_id == query_id && not task.done) app.query_tasks

-- The two ways in which the handler answers: with what it leaves behind.
abbrev pub Taken : WorkerApp → Answer ℕ × WorkerApp → ℕ → Type 0
Taken app ran query_id =
    (ran.0 ≡ returned query_id)
    × (runs_task query_id ran.1 ≡ true)
    × (leb_ℤ (pos (running_task_count ran.1)) app.max_concurrent_queries ≡ true)

abbrev pub Refused : WorkerApp → Answer ℕ × WorkerApp → Type 0
Refused app ran = ((ran.0 ≡ raised 503) ⊎ (ran.0 ≡ raised 429)) × (ran.1 ≡ app)

pub set_task-runs :
    (k : ℕ) (tasks : List Task)
    → any (λ task. task.query_id == k && not task.done) (set_task k tasks) ≡ true
unfolding set_task
set_task-runs k [] = ground (arith, ==_refl k)
set_task-runs k (task ∷ tasks) = ground (arith, ==_refl k, set_task-runs k tasks)

pub count-set_task :
    (k : ℕ) (tasks : List Task)
    → count (λ task. not task.done) (set_task k tasks) ≤ count (λ task. not task.done) tasks + 1
unfolding set_task count
count-set_task k [] = omega arith
count-set_task k (task ∷ tasks) = ground (arith, count-set_task k tasks)

pub below_limit :
    (limit : ℤ) (n m : ℕ) → leb_ℤ limit (pos n) ≡ false → m ≤ n + 1 → leb_ℤ (pos m) limit ≡ true
below_limit limit n m h le = ground arith

-- The handler accepts a query, whose task then runs, or it leaves the worker alone.
pub run_query-outcome :
    (app : WorkerApp) (k : ℕ) → Taken app (run_query app k) k ⊎ Refused app (run_query app k)
unfolding run_query running_task_count
run_query-outcome app k = elim (Bool-cases app.shutting_down) [
  | inl down ↦ inr (rw down (inl refl), rw down refl)
  | inr up ↦ elim (Bool-cases (leb_ℤ app.max_concurrent_queries (pos (running_task_count app)))) [
    | inl full ↦ inr (rw (up, full) (inr refl), rw (up, full) refl)
    | inr free ↦ inl (
        rw (up, free)
          (
            refl,
            set_task-runs k app.query_tasks,
            below_limit app.max_concurrent_queries (running_task_count app)
                (count (λ task. not task.done) (set_task k app.query_tasks)) free
                (count-set_task k app.query_tasks),
          ))
  ]
]

-- From a valid database, for a query that runs on the claimed worker, which is running or shutting
-- down: where the worker itself answers the dispatch, either it accepts, the database stays as it is,
-- a task of the worker runs the query, and no more tasks run than its maximum; or it refuses with 503
-- or 429 and stays as it was, and the query is pending again with no worker and no start.
pub dispatch-run_query :
    (app : WorkerApp) (c : Claimed) (db : Db) (w : Worker) (q : Query)
    → IsValid db
    → fetch (has_worker_id c.worker_id) db.workers ≡ some w
    → get_query db c.query_id ≡ some q
    → q.status ≡ running
    → q.worker_id ≡ some c.worker_id
    → is_serving w.status ≡ true
    → let ran = run_query app c.query_id in
      let result = handle_response (response_of ran.0) c db in
      (Taken app ran c.query_id × (result ≡ (true, db)))
      ⊎ (Refused app ran × GivenBack result c.query_id)
unfolding handle_response
dispatch-run_query app c db w q v there found runs on serves =
    elim (run_query-outcome app c.query_id) [
      | inl taken ↦ inl (taken, rw taken.0 refl)
      | inr (inl busy, same) ↦ inr (
        (inl busy, same),
        rw busy (
            failed_dispatch_gives_back c db w q v there found runs on (answered 503) refl
              (inr serves)),
      )
      | inr (inr busy, same) ↦ inr (
        (inr busy, same),
        rw busy (
            failed_dispatch_gives_back c db w q v there found runs on (answered 429) refl
              (inr serves)),
      )
    ]
