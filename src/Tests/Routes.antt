-- ===== src/Tests/Routes.antt =====
-- Requests of the user of the running query, and of another user.
use duck_launcher.Base.{
  ℕ, pos, ◌≡◌, refl, Bool, true, Option, none, some, String, List, [], ◌∷◌, ◌++◌, arith,
}
use duck_launcher.Db.{Db, User, QueryStatus}
use duck_launcher.Table.{fetch}
use duck_launcher.Models.{CompletionStatus}
use duck_launcher.Queries.Life.{get_query, create_query}
use duck_launcher.Lifecycle.Calls.{Call, complete, run}
use duck_launcher.Accounts.Auth.{returned, raised}
use duck_launcher.Routes.{QueryResponse, get_query_route}
use duck_launcher.Routes.Submit.{SubmitQueryRequest, submit_query, get_query_result}
use duck_launcher.Routes.Cancel.{Await, after_poll, cancel_query}
use duck_launcher.Routes.Settled.{Settles}
use duck_launcher.Routes.Cancelled.{cancel_query-Settles}
use duck_launcher.Routes.Access.{others_are_refused, submitted, submission, Answers}
use duck_launcher.Tests.Fixture.{start, start-IsValid, running_query, unlocked}

abbrev owner : User
owner = record {
  user_id = 5;
  sub = "anon:5";
  email = none;
  name = none;
  created_at = 1;
  last_login_at = 1;
}

abbrev stranger : User
stranger = record {
  user_id = 6;
  sub = "anon:6";
  email = none;
  name = none;
  created_at = 1;
  last_login_at = 1;
}

abbrev accepts : String → ℕ → Bool
accepts url query_id = true

abbrev quiet : Await → Db → Db
quiet at db = db

-- The worker completes the query while the handler sleeps.
abbrev worker_reports : Await → List Call
worker_reports (after_poll left) =
    complete 500 11 CompletionStatus.completed none (some (pos 3)) ∷ []
worker_reports _ = []

cancel_query-Settles_example :
    Settles 11
      (cancel_query (λ at db. run (worker_reports at) db) 600 accepts start owner 11).0
      (cancel_query (λ at db. run (worker_reports at) db) 600 accepts start owner 11).1
cancel_query-Settles_example =
    cancel_query-Settles worker_reports 600 accepts start owner 11 start-IsValid

abbrev no_page : String → ℕ → ℕ → ℕ → Option ℕ
no_page url query_id offset limit = none

others_are_refused_example :
    (get_query_route start stranger 11 ≡ raised 403)
    × (get_query_result no_page start stranger 11 0 100 ≡ raised 403)
    × (cancel_query quiet 600 accepts start stranger 11 ≡ (raised 403, start))
others_are_refused_example =
    others_are_refused no_page accepts quiet start stranger 5 11 600 0 100 running_query
      (unfold get_query fetch in refl) refl (omega arith)

abbrev request : SubmitQueryRequest
request = record { query = "SELECT 2"; cpus = some (pos 1); memory = none; disk_space = none }

abbrev with_request : Db
with_request = record start {
  queries =
      start.queries
      ++ record {
        query_id = 13;
        worker_id = none;
        user_id = some 5;
        status = QueryStatus.pending;
        query = "SELECT 2";
        error = none;
        cpus = some (pos 1);
        memory = none;
        disk_space = none;
        created_at = 700;
        started_at = none;
        completed_at = none;
        result_row_count = none;
      }
        ∷ [];
}

submitted_example :
    (r : QueryResponse) × ((submit_query
        (submission 13 700 unlocked 700 701 [] [])
        30
        start
        owner
        request).0
      ≡ returned r)
    × Answers owner request 700 r
submitted_example =
    submitted start with_request owner request 13 13 700 700 701 30 unlocked [] [] start-IsValid
      (unfold create_query in refl)
