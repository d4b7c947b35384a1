-- ===== src/Queries/Life.antt =====
-- db/queries.py: a query is created, read, completed, cancelled or taken back.
use duck_launcher.Base.{
  ℕ, ℤ, Bool, true, false, ◌&&◌, ◌==◌, Option, none, some, String, List, [], ◌∷◌, ◌++◌, leb,
  coalesce_opt, is_key, any, take, drop, if◌then◌else◌,
}
use duck_launcher.Db.{Db, User, Query, QueryStatus, is_status, is_active, has_query_id}
use duck_launcher.Table.{update, select, fetch, ends_in_one, order_by}
use duck_launcher.Queries.Notify.{notify_query_status}

-- The user of a new query, if one is given, must be there: REFERENCES users(user_id).
abbrev pub user_exists : List User → Option ℕ → Bool
user_exists users none = true
user_exists users (some user_id) = any (λ u. u.user_id == user_id) users

-- `gen_uuid` is the column's default, gen_random_uuid(). None: the INSERT breaks a constraint.
unfoldable pub create_query :
    Db → ℕ → ℕ → String → Option ℤ → Option ℤ → Option ℤ → Option ℕ → Option (ℕ × Db)
create_query db gen_uuid now query cpus memory disk_space user_id =
    if any (has_query_id gen_uuid) db.queries
    then none
    else if user_exists db.users user_id
    then some (
      gen_uuid,
      record db {
        queries =
            db.queries
            ++ record {
              query_id = gen_uuid;
              worker_id = none;
              user_id = user_id;
              status = QueryStatus.pending;
              query = query;
              error = none;
              cpus = cpus;
              memory = memory;
              disk_space = disk_space;
              created_at = now;
              started_at = none;
              completed_at = none;
              result_row_count = none;
            }
              ∷ [];
      },
    )
    else none

unfoldable pub list_queries_for_user : Db → ℕ → ℕ → ℕ → List Query
list_queries_for_user db user_id limit offset = take limit (
    drop offset (
      order_by (λ q r. leb r.created_at q.created_at)
        (select (λ q. is_key q.user_id user_id) db.queries)))

unfoldable pub get_query : Db → ℕ → Option Query
get_query db query_id = fetch (has_query_id query_id) db.queries

-- SELECT status FROM queries WHERE query_id = $1, compared with `status`.
abbrev pub existing_is : Option Query → QueryStatus → Bool
existing_is none status = false
existing_is (some q) status = is_status q.status status

-- The SET of `complete_query`.
unfoldable pub completed_row : ℕ → QueryStatus → Option String → Option ℤ → Query → Query
completed_row now status error result_row_count q = record q {
  status = status;
  error = coalesce_opt error q.error;
  result_row_count = coalesce_opt result_row_count q.result_row_count;
  completed_at = coalesce_opt q.completed_at (some now);
}

unfoldable pub complete_query : Db → ℕ → ℕ → QueryStatus → Option String → Option ℤ → Bool × Db
unfolding notify_query_status get_query completed_row
complete_query db now query_id status error result_row_count =
    let active : Query → Bool = λ q. has_query_id query_id q && is_active q.status in
    let db' : Db = record db {
      queries = update active (completed_row now status error result_row_count) db.queries;
    } in
    let existing = existing_is (get_query db' query_id) status in
    if ends_in_one active db.queries
    then (true, notify_query_status db' query_id status error result_row_count)
    else if existing
    then (true, notify_query_status db' query_id status error result_row_count)
    else (false, db')

-- The row that UPDATE … RETURNING gives: the row as the update has left it.
unfoldable pub cancelled_row : ℕ → Option String → Query → Query
cancelled_row now error q = record q {
  status = QueryStatus.cancelled;
  error = coalesce_opt error q.error;
  completed_at = some now;
}

unfoldable pub mark_query_cancelled : Db → ℕ → ℕ → Option String → Option Query × Db
unfolding notify_query_status cancelled_row
mark_query_cancelled db now query_id error =
    let active : Query → Bool = λ q. has_query_id query_id q && is_active q.status in
    let db' : Db = record db { queries = update active (cancelled_row now error) db.queries } in
    elim (fetch active db.queries) [
      | none ↦ (none, db')
      | some q ↦
          let row = cancelled_row now error q in
          (some row, notify_query_status db' query_id QueryStatus.cancelled row.error none)
    ]

-- The SET of `revert_query_to_pending`.
unfoldable pub pending_row : Query → Query
pending_row q = record q { status = QueryStatus.pending; worker_id = none; started_at = none }

unfoldable pub revert_query_to_pending : Db → ℕ → Db
unfolding notify_query_status pending_row
revert_query_to_pending db query_id =
    let running : Query → Bool =
      λ q. has_query_id query_id q && is_status q.status QueryStatus.running in
    let db' : Db = record db { queries = update running pending_row db.queries } in
    if ends_in_one running db.queries
    then notify_query_status db' query_id QueryStatus.pending none none
    else db'
