-- ===== src/Scheduler/Dispatch.antt =====
-- A dispatch that fails gives its query back, unless the worker serves no more.
use duck_launcher.Base.{
  ℕ, ◌≡◌, refl, ap, ◌∙◌, ◌⊎◌, inl, inr, Bool, true, false, ◌&&◌, ◌||◌, ◌==◌, ==_refl, none, some,
  arith, Bool-cases,
}
use duck_launcher.Db.{
  Db, Worker, Query, pending, running, is_status, has_worker_id, has_query_id, runs_on,
}
use duck_launcher.Table.{update, fetch}
use duck_launcher.Table.Update.{fetch-update, fetch-test}
use duck_launcher.Queries.Life.{get_query, pending_row, revert_query_to_pending}
use duck_launcher.Queries.Stale.{reverted_row, is_serving, mark_worker_unreachable}
use duck_launcher.Queries.Claim.{Claimed}
use duck_launcher.Lifecycle.Valid.{IsValid}
use duck_launcher.Recovery.Unreachable.{get_query-mark_worker_unreachable}
use duck_launcher.Scheduler.{Response, answered, http_error, handle_response}

-- The answers that `dispatch_query` takes for a worker that is not there.
abbrev pub is_gone : Response → Bool
is_gone (answered status_code) = (status_code == 502) || (status_code == 503)
is_gone http_error = true

abbrev pub is_accepted : Response → Bool
is_accepted (answered status_code) = status_code == 202
is_accepted http_error = false

pub queries-revert :
    (db : Db) (k : ℕ)
    → (revert_query_to_pending db k).queries
      ≡ update (λ q. has_query_id k q && is_status q.status running) pending_row db.queries
unfolding revert_query_to_pending
queries-revert db k = ground arith

revert_row :
    (db : Db) (k : ℕ) (q : Query)
    → get_query db k ≡ some q
    → q.status ≡ running
    → get_query (revert_query_to_pending db k) k ≡ some (pending_row q)
unfolding get_query
revert_row db k q found runs =
    ap (fetch (has_query_id k)) (queries-revert db k)
    ∙ fetch-update (λ r. r.query_id) k (λ r. has_query_id k r && is_status r.status running)
        pending_row db.queries (λ r. unfold pending_row in refl)
    ∙ rw (found, fetch-test (has_query_id k) db.queries q found, runs)

-- The query of a failed dispatch is pending again.
abbrev pub GivenBack : Bool × Db → ℕ → Type 0
GivenBack result query_id =
    (result.0 ≡ false)
    × (p : Query) × (get_query result.1 query_id ≡ some p)
    × (p.status ≡ pending)
    × (p.worker_id ≡ none)
    × (p.started_at ≡ none)

module _ (c : Claimed) (db : Db) (w : Worker) (q : Query) (v : IsValid db)
    (there : fetch (has_worker_id c.worker_id) db.workers ≡ some w)
    (found : get_query db c.query_id ≡ some q) (runs : q.status ≡ running)
    (on : q.worker_id ≡ some c.worker_id) where
  on_worker : runs_on c.worker_id q ≡ true
  on_worker = rw (on, runs, ==_refl c.worker_id)

  gone_back :
      is_serving w.status ≡ true
      → GivenBack (false, mark_worker_unreachable db c.worker_id) c.query_id
  gone_back serves = (
    refl,
    reverted_row q,
    get_query-mark_worker_unreachable db c.worker_id c.query_id w q v there found
        ∙ rw (serves, on_worker),
    unfold reverted_row in refl,
    unfold reverted_row in refl,
    unfold reverted_row in refl,
  )

  taken_back : GivenBack (false, revert_query_to_pending db c.query_id) c.query_id
  taken_back = (
    refl,
    pending_row q,
    revert_row db c.query_id q found runs,
    unfold pending_row in refl,
    unfold pending_row in refl,
    unfold pending_row in refl,
  )

  -- A dispatch that is not accepted reports failure, and the query, if it still runs on the claimed
  -- worker when the answer is there, is pending again with no worker and no start: always after an
  -- answer other than 502 and 503, and after those or an error where the worker is running or
  -- shutting down.
  pub failed_dispatch_gives_back :
      (r : Response)
      → is_accepted r ≡ false
      → (is_gone r ≡ false) ⊎ (is_serving w.status ≡ true)
      → GivenBack (handle_response r c db) c.query_id
  unfolding handle_response
  failed_dispatch_gives_back http_error refused (inl here) = cc
  failed_dispatch_gives_back http_error refused (inr serves) = gone_back serves
  failed_dispatch_gives_back (answered s) refused (inl here) = rw (refused, here) taken_back
  failed_dispatch_gives_back (answered s) refused (inr serves) =
      elim (Bool-cases ((s == 502) || (s == 503))) [
        | inl gone ↦ rw (refused, gone) (gone_back serves)
        | inr here ↦ rw (refused, here) taken_back
      ]

  -- After 502, 503 or an error from a worker that is neither running nor shutting down, such as one
  -- that has registered again, the query keeps its row: it stays running on that worker.
  failed_dispatch_leaves_running :
      (r : Response)
      → is_gone r ≡ true
      → is_serving w.status ≡ false
      → get_query (handle_response r c db).1 c.query_id ≡ some q
  unfolding handle_response
  failed_dispatch_leaves_running http_error gone idle =
      get_query-mark_worker_unreachable db c.worker_id c.query_id w q v there found ∙ rw idle
  failed_dispatch_leaves_running (answered s) gone idle =
      let refused : (s == 202) ≡ false = ground arith in
      rw (refused, gone)
        (get_query-mark_worker_unreachable db c.worker_id c.query_id w q v there found ∙ rw idle)
