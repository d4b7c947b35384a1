-- ===== src/Routes/Cancel.antt =====
-- coordinator/routes.py: cancel_query.
use Prim.Native.String.{◌++◌}
use duck_launcher.Base.{ℕ, zero, suc, Bool, Option, none, some, String, if◌then◌else◌}
use duck_launcher.Text.{rstrip_slash}
use duck_launcher.Db.{Db, User, Query, QueryStatus, is_status}
use duck_launcher.Queries.Life.{get_query, mark_query_cancelled}
use duck_launcher.Accounts.Auth.{Answer, returned, raised}
use duck_launcher.Routes.{
  QueryResponse, query_response, accessible, is_terminal, get_worker_endpoint,
}
use duck_launcher.Routes.Submit.{answer_row}

-- Where the handler lets other tasks run: after a call, or in a sleep between two polls.
pub data Await : Type 0 where
  after_read after_endpoint after_post after_mark : Await
  after_poll : ℕ → Await

-- `updated and updated["status"] == "cancelled"`
abbrev pub if_cancelled : Option Query → Option Query
if_cancelled none = none
if_cancelled (some row) = if is_status row.status QueryStatus.cancelled then some row else none

module _ (meanwhile : Await → Db → Db) (now : ℕ) where
  -- `for _ in range(20)`, by the rounds that are left.
  unfoldable pub poll : ℕ → ℕ → Db → Option Query × Db
  poll zero query_id db = (none, db)
  poll (suc left) query_id db =
      let rest = poll left query_id (meanwhile (after_poll left) db) in
      elim (if_cancelled (get_query db query_id)) [ none ↦ rest | some row ↦ (some row, db) ]

  -- The handler's last read, after it has marked the query.
  abbrev pub answer_marked : ℕ → Db → Answer QueryResponse × Db
  answer_marked query_id db = let db' = meanwhile after_mark db in (answer_row db' query_id, db')

  -- A pending query is cancelled in the table only.
  unfoldable pub cancel_pending : ℕ → Db → Answer QueryResponse × Db
  cancel_pending query_id db =
      let marked = mark_query_cancelled db now query_id (some "Cancelled before dispatch") in
      elim (marked.0) [ none ↦ (raised 409, marked.1) | some _ ↦ answer_marked query_id marked.1 ]

  unfoldable pub cancel_without_worker : ℕ → Db → Answer QueryResponse × Db
  cancel_without_worker query_id db =
      let marked = mark_query_cancelled db now query_id (some "Worker unavailable") in
      answer_marked query_id marked.1

  -- From the end of the polls on.
  unfoldable pub cancel_by_request : ℕ → Db → Answer QueryResponse × Db
  cancel_by_request query_id db =
      let marked = mark_query_cancelled db now query_id (some "Cancelled by request") in
      let db' = meanwhile after_mark marked.1 in
      elim (marked.0) [
        | some _ ↦ answer_marked query_id marked.1
        | none ↦ elim (if_cancelled (get_query db' query_id)) [
          | some row ↦ (returned (query_response row), db')
          | none ↦ (raised 409, db')
        ]
      ]

  -- The worker has accepted: wait until it reports the cancellation, and cancel after 20 polls.
  unfoldable pub await_cancelled : ℕ → Db → Answer QueryResponse × Db
  unfolding poll cancel_by_request
  await_cancelled query_id db =
      let polled = poll 20 query_id db in
      elim (polled.0) [
        | some row ↦ (returned (query_response row), polled.1)
        | none ↦ cancel_by_request query_id polled.1
      ]

  -- `post` is the HTTP client: whether the worker at the URL accepts to cancel the query.
  unfoldable pub cancel_running :
      (String → ℕ → Bool) → ℕ → Option ℕ → Db → Answer QueryResponse × Db
  unfolding cancel_without_worker await_cancelled
  cancel_running post query_id worker_id db =
      let db' = meanwhile after_endpoint db in
      elim (get_worker_endpoint db worker_id) [
        | none ↦ cancel_without_worker query_id db'
        | some worker ↦
            let accepted = post (rstrip_slash worker.endpoint ++ "/query/cancel") query_id in
            let db'' = meanwhile after_post db' in
            if accepted then await_cancelled query_id db'' else (raised 502, db'')
      ]

  unfoldable pub cancel_query : (String → ℕ → Bool) → Db → User → ℕ → Answer QueryResponse × Db
  unfolding cancel_pending cancel_running
  cancel_query post db user query_id =
      let db' = meanwhile after_read db in
      elim (accessible db user query_id) [
        | raised status_code ↦ (raised status_code, db)
        | returned row ↦
            if is_terminal row.status
            then (returned (query_response row), db)
            else if is_status row.status QueryStatus.pending
            then cancel_pending query_id db'
            else cancel_running post query_id row.worker_id db'
      ]
