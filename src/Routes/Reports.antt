-- ===== src/Routes/Reports.antt =====
-- A worker that reports the end of a query twice.
use duck_launcher.Base.{
  ℕ, ℤ, ◌≡◌, refl, sym, ap, ◌∙◌, true, false, Option, some, String, if◌then◌else◌,
}
use duck_launcher.Db.{Db, Query, is_status, is_active}
use duck_launcher.Models.{CompletionStatus, to_status}
use duck_launcher.Queries.Life.{get_query, complete_query, completed_row}
use duck_launcher.Lifecycle.Valid.{IsValid, step-IsValid}
use duck_launcher.Lifecycle.Calls.{step, complete}
use duck_launcher.Lifecycle.Reports.{complete_query_lem}
use duck_launcher.Accounts.Auth.{returned, raised}
use duck_launcher.Routes.Submit.{complete_query_route}

to_status_finished : (s : CompletionStatus) → is_active (to_status s) ≡ false
to_status_finished CompletionStatus.completed = refl
to_status_finished CompletionStatus.failed = refl
to_status_finished CompletionStatus.cancelled = refl

-- From a valid database, after the report of an active query's end: a second report of the same
-- status is accepted too, one of another status is refused with 404, and neither changes the row.
report_again :
    (db : Db) (now later k : ℕ) (s s' : CompletionStatus) (error error' : Option String)
    (rows rows' : Option ℤ) (q : Query)
    → IsValid db
    → get_query db k ≡ some q
    → is_active q.status ≡ true
    → ((complete_query_route
          (complete_query_route db now k s error rows).1
          later
          k
          s'
          error'
          rows').0
        ≡ (if is_status (to_status s) (to_status s') then returned s' else raised 404))
      × (get_query
            (complete_query_route
              (complete_query_route db now k s error rows).1
              later
              k
              s'
              error'
              rows').1
            k
          ≡ get_query (complete_query_route db now k s error rows).1 k)
unfolding complete_query_route step completed_row
report_again db now later k s s' error error' rows rows' q v found active =
    let first = complete_query_lem db now k (to_status s) error rows q v.queries_unique found in
    let db' = (complete_query db now k (to_status s) error rows).1 in
    let row = completed_row now (to_status s) error rows q in
    let found' : get_query db' k ≡ some row = first.1 ∙ rw active refl in
    let v' = step-IsValid (complete now k s error rows) db v in
    let again =
      complete_query_lem db' later k (to_status s') error' rows' row v'.queries_unique found' in
    let over = to_status_finished s in
    (
      ap (λ b. if b then returned s' else raised 404) (again.0 ∙ rw over refl),
      again.1 ∙ rw over (sym found'),
    )
