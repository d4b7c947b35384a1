-- ===== src/System/Explained.antt =====
-- db/queries.py and worker/routes.py: the rows of queries beside the executions that have ended.
use duck_launcher.Models.{to_status}
use duck_launcher.Routes.Submit.{complete_query_route}
use duck_launcher.Worker.Reports.{coordinator_complete}
use duck_launcher.Base.{
  ℕ, ℤ, ◌≡◌, refl, sym, subst, Bool, true, ◌&&◌, Option, none, some, String, List, ◌∷◌, All, arith,
}
use mathlib.Core.List.{Memᴰ}
use duck_launcher.Db.{
  Db, Query, QueryStatus, pending, running, completed, failed, cancelled, is_status, is_active,
  has_query_id,
}
use duck_launcher.Table.{update}
use duck_launcher.Table.Update.{All-update}
use duck_launcher.Queries.Life.{complete_query, completed_row}
use duck_launcher.Lifecycle.Calls.{run}
use duck_launcher.Lifecycle.Steps.{and_right, and_left}
use duck_launcher.Worker.Executor.{Execution, result, query_cancelled}
use duck_launcher.Worker.Handlers.{row_count_of, completion, CompleteQueryRequest}
use duck_launcher.System.Steps.{Run}

-- An execution of the query that has ended so.
abbrev pub Ended : List Run → ℕ → Execution → Type 0
Ended log k e = (r : Run) × Memᴰ r log × (r.query_id ≡ k) × (r.execution ≡ e)

-- What a row says of the executions, by its status.
abbrev pub ExplainedBy : List Run → ℕ → Option ℤ → Option String → QueryStatus → Type 0
ExplainedBy log k rows error pending = rows ≡ none
ExplainedBy log k rows error running = rows ≡ none
ExplainedBy log k rows error completed =
    (n : Option ℕ) × Ended log k (result n) × (rows ≡ row_count_of n)
ExplainedBy log k rows error failed =
    (text : String) × Ended log k (Execution.failed text) × (error ≡ some text)
ExplainedBy log k rows error cancelled = Unit

abbrev pub Explained : List Run → Query → Type 0
Explained log q = ExplainedBy log q.query_id q.result_row_count q.error q.status

module _ (log : List Run) where
  pub when_running :
      (k : ℕ) (rows : Option ℤ) (error : Option String) (s : QueryStatus)
      → ExplainedBy log k rows error s
      → is_status s running ≡ true
      → rows ≡ none
  when_running k rows error running h t = h
  when_running k rows error pending h t = cc
  when_running k rows error completed h t = cc
  when_running k rows error failed h t = cc
  when_running k rows error cancelled h t = cc

  pub when_active :
      (k : ℕ) (rows : Option ℤ) (error : Option String) (s : QueryStatus)
      → ExplainedBy log k rows error s
      → is_active s ≡ true
      → rows ≡ none
  when_active k rows error running h t = h
  when_active k rows error pending h t = h
  when_active k rows error completed h t = cc
  when_active k rows error failed h t = cc
  when_active k rows error cancelled h t = cc

  -- What the reported columns are, for an active row.
  reported :
      (now : ℕ) (e : Execution) (q : Query)
      → Ended log q.query_id e
      → Explained log q
      → is_active q.status ≡ true
      → let body = completion e in
        Explained log (completed_row now (to_status body.status) body.error body.result_row_count q)
  reported now (result none) q ended x active =
      unfold completed_row in (none, ended, when_active _ _ _ q.status x active)
  reported now (result (some n)) q ended x active = unfold completed_row in (some n, ended, refl)
  reported now query_cancelled q ended x active = unfold completed_row in tt
  reported now (Execution.failed text) q ended x active =
      unfold completed_row in (text, ended, refl)

  -- A report of an execution that has ended leaves every row explained.
  pub report_kept :
      (db : Db) (now k : ℕ) (e : Execution)
      → Ended log k e
      → All (Explained log) db.queries
      → All (Explained log) (coordinator_complete now k (completion e) db).queries
  report_kept db now k e ended h = subst (All (Explained log)) updates (
      All-update (Explained log) (Explained log) active set db.queries
        (λ q x t.
          let same : q.query_id ≡ k =
            ground (arith, and_left (has_query_id k q) (is_active q.status) t) in
          reported now e q (subst (λ j. Ended log j e) (sym same) ended) x (and_right _ _ t))
        (λ q x t. x) h)
    where
      body : CompleteQueryRequest
      body = completion e

      active : Query → Bool
      active q = has_query_id k q && is_active q.status

      set : Query → Query
      set = completed_row now (to_status body.status) body.error body.result_row_count

      updates :
          update active set db.queries ≡ (coordinator_complete now k (completion e) db).queries
      updates = unfold complete_query_route complete_query in ground arith

pub Ended-more :
    (r : Run) (log : List Run) (k : ℕ) (e : Execution) → Ended log k e → Ended (r ∷ log) k e
Ended-more r log k e (run, found, id, how) = (run, Memᴰ.tail found, id, how)

-- A longer log explains as much.
pub Explained-more :
    (r : Run) (log : List Run) (q : Query) → Explained log q → Explained (r ∷ log) q
Explained-more r log q = by_status q.status
  where
    by_status :
        (s : QueryStatus)
        → ExplainedBy log q.query_id q.result_row_count q.error s
        → ExplainedBy (r ∷ log) q.query_id q.result_row_count q.error s
    by_status pending h = h
    by_status running h = h
    by_status completed (n, ended, same) = (n, Ended-more r log q.query_id (result n) ended, same)
    by_status failed (text, ended, same) =
        (text, Ended-more r log q.query_id (Execution.failed text) ended, same)
    by_status cancelled h = tt
