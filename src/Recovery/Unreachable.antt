-- ===== src/Recovery/Unreachable.antt =====
-- What `mark_worker_unreachable` does to a worker and to each query.
use duck_launcher.Base.{ℕ, ◌≡◌, refl, ◌∙◌, inl, inr, ◌&&◌, some, Bool-cases, if◌then◌else◌}
use duck_launcher.Db.{Db, Worker, Query, has_worker_id, runs_on}
use duck_launcher.Table.{fetch, ends_in_one}
use duck_launcher.Table.Update.{fetch-update, ends_in_one_at_key}
use duck_launcher.Queries.Life.{get_query}
use duck_launcher.Queries.Stale.{reverted_row, is_serving, mark_worker_unreachable}
use duck_launcher.Lifecycle.Notices.{revert_queries_lem}
use duck_launcher.Lifecycle.Valid.{IsValid}

module _ (db : Db) (id k : ℕ) (w : Worker) (q : Query) (v : IsValid db)
    (there : fetch (has_worker_id id) db.workers ≡ some w) (found : get_query db k ≡ some q) where
  marks :
      ends_in_one (λ u. has_worker_id id u && is_serving u.status) db.workers ≡ is_serving w.status
  marks =
      ends_in_one_at_key (λ u. u.worker_id) id (λ u. is_serving u.status) db.workers
        v.workers_unique
      ∙ rw there

  -- For a worker that is running or shutting down every query that runs on it goes back to pending,
  -- with no worker, no start and the error text. For a worker in any other status no query changes.
  -- Queries that do not run on it never change.
  pub get_query-mark_worker_unreachable :
      get_query (mark_worker_unreachable db id) k
      ≡ some (if is_serving w.status && runs_on id q then reverted_row q else q)
  unfolding mark_worker_unreachable get_query
  get_query-mark_worker_unreachable = elim (Bool-cases (is_serving w.status)) [
    | inl s ↦
        rw (marks, s, revert_queries_lem)
          (fetch-update (λ r. r.query_id) k (runs_on id) reverted_row db.queries
              (λ r. unfold reverted_row in refl)
            ∙ rw found)
    | inr s ↦ rw (marks, s) found
  ]
