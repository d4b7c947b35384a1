-- ===== src/Routes/Submit.antt =====
-- coordinator/routes.py: submitting a query, its completion and its result.
use Prim.Native.String.{◌++◌}
use duck_launcher.Base.{ℕ, ℤ, Bool, not, Option, none, some, String, List, map, if◌then◌else◌}
use duck_launcher.Text.{rstrip_slash}
use duck_launcher.Db.{Db, User, QueryStatus, is_status}
use duck_launcher.Models.{CompletionStatus, to_status}
use duck_launcher.Queries.Life.{create_query, get_query, complete_query, list_queries_for_user}
use duck_launcher.Queries.Claim.{Claimed, claim_query_by_id}
use duck_launcher.Accounts.Auth.{Answer, returned, raised}
use duck_launcher.Routes.{QueryResponse, query_response, accessible, get_worker_endpoint}

pub record SubmitQueryRequest : Type 0 where
  pub query : String
  pub cpus : Option ℤ
  pub memory : Option ℤ
  pub disk_space : Option ℤ

-- The uuid, the clocks and the locks that `submit_query` meets, and what others commit after each of
-- its first two calls.
pub record Submission : Type 0 where
  pub gen_uuid : ℕ
  pub created : ℕ
  pub locked : ℕ → Bool
  pub utcnow : ℕ
  pub claimed : ℕ
  pub after_create : Db → Db
  pub after_claim : Db → Db

-- `row = await db.get_query(…)`, then its response; 500 where it is None.
abbrev pub answer_row : Db → ℕ → Answer QueryResponse
answer_row db query_id = elim (get_query db query_id) [
  | none ↦ raised 500
  | some row ↦ returned (query_response row)
]

-- The claimed query is the one that a new task dispatches.
unfoldable pub submit_query :
    Submission → ℕ → Db → User → SubmitQueryRequest → Answer QueryResponse × Option Claimed × Db
submit_query s worker_stale_sec db user body =
    elim (create_query db s.gen_uuid s.created body.query body.cpus body.memory body.disk_space
      (some user.user_id)) [
        | none ↦ (raised 500, none, db)
        | some (query_id, db') ↦
            let claim =
              claim_query_by_id (s.after_create db') s.locked s.utcnow s.claimed query_id
                worker_stale_sec in
            let db'' = s.after_claim claim.1 in (answer_row db'' query_id, claim.0, db'')
      ]

unfoldable pub list_my_queries : Db → User → ℕ → ℕ → List QueryResponse
list_my_queries db user limit offset =
    map query_response (list_queries_for_user db user.user_id limit offset)

-- The body's status, once the database has it; then a task schedules.
unfoldable pub complete_query_route :
    Db → ℕ → ℕ → CompletionStatus → Option String → Option ℤ → Answer CompletionStatus × Db
complete_query_route db now query_id status error result_row_count =
    let done = complete_query db now query_id (to_status status) error result_row_count in
    (if done.0 then returned status else raised 404, done.1)

-- `get` is the HTTP client: the URL of the worker's results, the query, the offset and the limit.
unfoldable pub get_query_result {ℓ} :
    {A : Type ℓ} → (String → ℕ → ℕ → ℕ → Option A) → Db → User → ℕ → ℕ → ℕ → Answer A
get_query_result get db user query_id offset limit = elim (accessible db user query_id) [
  | raised status_code ↦ raised status_code
  | returned row ↦
      if not (is_status row.status QueryStatus.completed)
      then raised 409
      else elim row.result_row_count [
        | none ↦ raised 404
        | some _ ↦ elim (get_worker_endpoint db row.worker_id) [
          | none ↦ raised 502
          | some worker ↦
              elim (get (rstrip_slash worker.endpoint ++ "/results/") query_id offset limit) [
                | none ↦ raised 502
                | some page ↦ returned page
              ]
        ]
      ]
]
