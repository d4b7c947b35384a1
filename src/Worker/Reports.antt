-- ===== src/Worker/Reports.antt =====
-- worker/routes.py and coordinator/routes.py together: what becomes of the end of a query.
use duck_launcher.Table.Update.{All-fetch}
use duck_launcher.Lifecycle.Phase.{IsRow, Shape}
use duck_launcher.Base.{
  ℕ, ◌≡◌, refl, ◌∙◌, true, false, ◌==◌, some, List, [], ◌∷◌, any, arith, ◌≢◌, All, Bool-cases, inl,
  inr, subst, Option, none, pos,
}
use duck_launcher.Db.{Db, Query, is_active, QueryStatus, has_query_id}
use duck_launcher.Models.{to_status}
use duck_launcher.Table.{Unique}
use duck_launcher.Queries.Life.{get_query, completed_row}
use duck_launcher.Lifecycle.Valid.{IsValid}
use duck_launcher.Lifecycle.Reports.{complete_query_lem}
use duck_launcher.Routes.Submit.{complete_query_route}
use duck_launcher.Worker.Executor.{Execution, result, query_cancelled, failed}
use duck_launcher.Worker.Handlers.{
  Task, WorkerApp, CompleteQueryRequest, completion, pop_task, execute_query,
}

-- The coordinator as the other side of the report, at its clock's time.
abbrev pub coordinator_complete : ℕ → ℕ → CompleteQueryRequest → Db → Db
coordinator_complete now query_id body db =
    (complete_query_route db now query_id body.status body.error body.result_row_count).1

apart_any :
    (k : ℕ) (tasks : List Task)
    → All (λ task. task.query_id ≢ k) tasks
    → any (λ task. task.query_id == k) tasks ≡ false
apart_any k [] h = refl
apart_any k (task ∷ tasks) h = ground (arith, h.0, apart_any k tasks h.1)

pub pop_task-gone :
    (k : ℕ) (tasks : List Task)
    → Unique (λ task. task.query_id) tasks
    → any (λ task. task.query_id == k) (pop_task k tasks) ≡ false
unfolding pop_task
pop_task-gone k [] u = refl
pop_task-gone k (task ∷ tasks) u = elim (Bool-cases (task.query_id == k)) [
  | inl e ↦
      let same : task.query_id ≡ k = ground (arith, e) in
      rw e (
        subst (λ j. any (λ t. t.query_id == j) tasks ≡ false) same
          (apart_any task.query_id tasks u.0))
  | inr e ↦ rw e (ground (arith, e, pop_task-gone k tasks u.1))
]

-- What a row says of the end of an execution, next to the row before: the text of a failure or of a
-- cancellation, and the row count of a result; an error and a row count that the end does not have
-- are those of the row before.
abbrev pub Tells : Execution → Query → Query → Type 0
Tells (result none) q r =
    (r.status ≡ QueryStatus.completed)
    × (r.error ≡ q.error)
    × (r.result_row_count ≡ q.result_row_count)
Tells (result (some n)) q r =
    (r.status ≡ QueryStatus.completed) × (r.error ≡ q.error) × (r.result_row_count ≡ some (pos n))
Tells query_cancelled q r =
    (r.status ≡ QueryStatus.cancelled)
    × (r.error ≡ some "Query was cancelled")
    × (r.result_row_count ≡ q.result_row_count)
Tells (failed text) q r =
    (r.status ≡ QueryStatus.failed)
    × (r.error ≡ some text)
    × (r.result_row_count ≡ q.result_row_count)

-- The row after the end of an execution on a worker, with its times.
pub record Stored (now : ℕ) (e : Execution) (worker started : Option ℕ) (q r : Query) : Type 0 where
  pub tells : Tells e q r
  pub completed_at : r.completed_at ≡ some now
  pub worker_id : r.worker_id ≡ worker
  pub started_at : r.started_at ≡ started
  pub query_id : r.query_id ≡ q.query_id
  pub query : r.query ≡ q.query

completed_row-Tells :
    (now : ℕ) (e : Execution) (q : Query)
    → let body = completion e in
      Tells e q (completed_row now (to_status body.status) body.error body.result_row_count q)
unfolding completed_row
completed_row-Tells now (result none) q = (refl, refl, refl)
completed_row-Tells now (result (some n)) q = (refl, refl, refl)
completed_row-Tells now query_cancelled q = (refl, refl, refl)
completed_row-Tells now (failed text) q = (refl, refl, refl)

pub completed_row-Stored :
    (now : ℕ) (e : Execution) (q : Query)
    → q.completed_at ≡ none
    → let body = completion e in
      Stored now e q.worker_id q.started_at q
        (completed_row now (to_status body.status) body.error body.result_row_count q)
unfolding completed_row
completed_row-Stored now e q unended = record {
  tells = completed_row-Tells now e q;
  completed_at = rw unended refl;
  worker_id = refl;
  started_at = refl;
  query_id = refl;
  query = refl;
}

-- A valid row that is active has no time of its end.
active_open :
    (status : QueryStatus) (w s c : Option ℕ)
    → Shape status w s c
    → is_active status ≡ true
    → c ≡ none
active_open QueryStatus.pending w s c shape active = shape.2
active_open QueryStatus.running w s c shape active = shape.2
active_open QueryStatus.completed w s c shape active = cc
active_open QueryStatus.failed w s c shape active = cc
active_open QueryStatus.cancelled w s c shape active = cc

pub active_row_unended :
    (db : Db) (k : ℕ) (q : Query)
    → IsValid db
    → get_query db k ≡ some q
    → is_active q.status ≡ true
    → q.completed_at ≡ none
active_row_unended db k q v found active =
    let row =
      All-fetch (IsRow db.workers) (has_query_id k) db.queries q v.rows
        (unfold get_query in found) in
    active_open q.status q.worker_id q.started_at q.completed_at row.0.shape active

-- From a valid database, for an active query of a worker whose tasks have distinct ids, however the
-- execution ends: the worker keeps no task of the query, and the coordinator's row, with the worker,
-- the start and the text of before and with the time of the report, is completed with the row count,
-- where there is one, failed with the error, or cancelled with the text of a cancellation; a
-- completed row keeps the error that was there before.
pub outcome_recorded :
    (app : WorkerApp) (k now : ℕ) (execution : Execution) (db : Db) (q : Query)
    → Unique (λ task. task.query_id) app.query_tasks
    → IsValid db
    → get_query db k ≡ some q
    → is_active q.status ≡ true
    → let after = execute_query (coordinator_complete now) app k execution db in
      (any (λ task. task.query_id == k) after.0.query_tasks ≡ false)
      × (r : Query) × (get_query after.1 k ≡ some r)
      × Stored now execution q.worker_id q.started_at q r
unfolding execute_query complete_query_route
outcome_recorded app k now execution db q u v found active =
    let body = completion execution in
    (
      pop_task-gone k app.query_tasks u,
      completed_row now (to_status body.status) body.error body.result_row_count q,
      (complete_query_lem db now k (to_status body.status) body.error body.result_row_count q
            v.queries_unique found).1
          ∙ rw active refl,
      completed_row-Stored now execution q (active_row_unended db k q v found active),
    )
