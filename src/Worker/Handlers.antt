-- ===== src/Worker/Handlers.antt =====
-- worker/routes.py: the handlers of the worker, the task that runs a query, and the shutdown.
use duck_launcher.Base.{
  ℕ, ℤ, pos, Bool, false, not, ◌||◌, ◌==◌, Option, none, some, String, List, [], ◌∷◌, any, leb_ℤ,
  if◌then◌else◌, pos_part,
}
use duck_launcher.Table.{count, select}
use duck_launcher.Models.{CompletionStatus, completed, cancelled}
use duck_launcher.Accounts.Auth.{Answer, returned, raised}
use duck_launcher.Worker.Executor.{Executor, Execution, result, query_cancelled, cancel, cancel_all}

-- A task of app.state.query_tasks, and task.done().
pub record Task : Type 0 where
  pub query_id : ℕ
  pub done : Bool

pub record WorkerApp : Type 0 where
  pub shutting_down : Bool
  pub max_concurrent_queries : ℤ
  pub shutdown_cancel_queries : Bool
  pub query_tasks : List Task

unfoldable pub running_task_count : WorkerApp → ℕ
running_task_count app = count (λ task. not task.done) app.query_tasks

-- tasks[query_id] = task and tasks.pop(query_id, None)
unfoldable pub set_task : ℕ → List Task → List Task
set_task query_id [] = record { query_id = query_id; done = false } ∷ []
set_task query_id (task ∷ tasks) =
    if task.query_id == query_id
    then record { query_id = query_id; done = false } ∷ tasks
    else task ∷ set_task query_id tasks

unfoldable pub pop_task : ℕ → List Task → List Task
pop_task query_id [] = []
pop_task query_id (task ∷ tasks) =
    if task.query_id == query_id then tasks else task ∷ pop_task query_id tasks

-- The answer 202 has the id of the query.
unfoldable pub run_query : WorkerApp → ℕ → Answer ℕ × WorkerApp
unfolding running_task_count set_task
run_query app query_id =
    if app.shutting_down
    then (raised 503, app)
    else if leb_ℤ app.max_concurrent_queries (pos (running_task_count app))
    then (raised 429, app)
    else (returned query_id, record app { query_tasks = set_task query_id app.query_tasks })

-- What DuckDB answers to the three statements of read_result_page on a result file: count(*), the
-- columns, and the page, whose parameters are LIMIT and OFFSET. Its row_number() numbers the rows by a
-- constant, so which rows are on which page is DuckDB's.
pub record ResultFile {ℓ} (A : Type ℓ) : Type ℓ where
  pub total_rows : ℕ
  pub columns : List String
  pub page : ℕ → ℕ → List A

pub record QueryResultPage {ℓ} (A : Type ℓ) : Type ℓ where
  pub query_id : ℕ
  pub offset : ℕ
  pub limit : ℕ
  pub total_rows : ℕ
  pub columns : List String
  pub rows : List A

-- FileNotFoundError where the query has no file, ValueError where DuckDB cannot read it: `file` is
-- none.
unfoldable pub read_result_page {ℓ} :
    {A : Type ℓ} → Executor → Option (ResultFile A) → ℕ → ℕ → ℕ → Answer (QueryResultPage A)
read_result_page ex file query_id offset limit =
    if any (λ k. k == query_id) ex.results
    then elim file [
      | none ↦ raised 404
      | some content ↦ returned (record {
        query_id = query_id;
        offset = offset;
        limit = limit;
        total_rows = content.total_rows;
        columns = content.columns;
        rows = content.page limit offset;
      })
    ]
    else raised 404

-- `limit < 1 or limit > 1000`, and `offset < 0`
unfoldable pub get_result {ℓ} :
    {A : Type ℓ} → Executor → Option (ResultFile A) → ℕ → ℤ → ℤ → Answer (QueryResultPage A)
unfolding read_result_page
get_result ex file query_id offset limit =
    if not (leb_ℤ (pos 1) limit) || not (leb_ℤ limit (pos 1000))
    then raised 400
    else if not (leb_ℤ (pos 0) offset)
    then raised 400
    else read_result_page ex file query_id (pos_part offset) (pos_part limit)

-- The answer's status: whether a query is being cancelled; with the connections that are interrupted.
unfoldable pub cancel_query_route : Executor → Option ℕ → Answer Bool × List ℕ
unfolding cancel
cancel_query_route ex none = (raised 400, [])
cancel_query_route ex (some query_id) =
    let cancelled = cancel ex query_id in (returned (cancelled.0), cancelled.1)

-- What a task reports: the body of the request to the coordinator.
pub record CompleteQueryRequest : Type 0 where
  pub status : CompletionStatus
  pub error : Option String
  pub result_row_count : Option ℤ

abbrev pub row_count_of : Option ℕ → Option ℤ
row_count_of none = none
row_count_of (some n) = some (pos n)

abbrev pub completion : Execution → CompleteQueryRequest
completion (result row_count) = record {
  status = completed;
  error = none;
  result_row_count = row_count_of row_count;
}
completion query_cancelled = record {
  status = cancelled;
  error = some "Query was cancelled";
  result_row_count = none;
}
completion (Execution.failed text) = record {
  status = CompletionStatus.failed;
  error = some text;
  result_row_count = none;
}

-- `complete` is what the POST to the coordinator does to the rest of the world; the answer is not
-- read but for the log. A task that the shutdown cancels reports nothing.
unfoldable pub execute_query {ℓ} :
    {S : Type ℓ}
    → (ℕ → CompleteQueryRequest → S → S)
    → WorkerApp
    → ℕ
    → Execution
    → S
    → WorkerApp × S
unfolding pop_task
execute_query complete app query_id execution world = (
  record app { query_tasks = pop_task query_id app.query_tasks },
  complete query_id (completion execution) world,
)

abbrev pub ids_of : List Task → List ℕ
ids_of [] = []
ids_of (task ∷ tasks) = task.query_id ∷ ids_of tasks

-- What the shutdown does about the tasks that run: the connections that it interrupts, and the
-- queries whose tasks it cancels. `in_time` says that they end within 30 seconds.
unfoldable pub shutdown_worker_queries : WorkerApp → Executor → Bool → List ℕ × List ℕ
unfolding cancel_all select
shutdown_worker_queries app ex in_time =
    let tasks = select (λ task. not task.done) app.query_tasks in
    elim tasks [
      | [] ↦ ([], [])
      | task ∷ rest ↦
          if not app.shutdown_cancel_queries
          then ([], [])
          else ((cancel_all ex).1, if in_time then [] else ids_of (task ∷ rest))
    ]
