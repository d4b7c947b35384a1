-- ===== src/Recovery/Swept.antt =====
-- What `sweep_stale_workers` does to each worker and to each query.
use duck_launcher.Base.{
  ℕ, ◌≡◌, ◌≢◌, refl, ap, ◌∙◌, inl, inr, Bool, false, ◌&&◌, ◌==◌, Option, none, some, List, [], ◌∷◌,
  All, All-intro, All-mono, any, is_key, arith, Bool-cases, if◌then◌else◌,
}
use duck_launcher.Db.{Db, Worker, Query, running, is_status, has_query_id}
use duck_launcher.Table.{select, fetch, Unique}
use duck_launcher.Table.Update.{fetch-update, updated?, All-update}
use duck_launcher.Queries.Life.{get_query}
use duck_launcher.Queries.Stale.{
  reverted_row, revert_from, runs_on_any, is_stale, sweep_stale_workers,
}
use duck_launcher.Queries.Claim.{worker_of}
use duck_launcher.Lifecycle.Notices.{revert_queries_lem}
use duck_launcher.Lifecycle.Valid.{IsValid}

abbrev pub holds : (Worker → Bool) → Option Worker → Bool
holds test none = false
holds test (some w) = test w

module _ (test : Worker → Bool) where
  none_selected :
      (i : ℕ) (ws : List Worker)
      → All (λ v. v.worker_id ≢ i) ws
      → any (λ v. is_key (some i) v.worker_id) (select test ws) ≡ false
  unfolding select
  none_selected i [] h = refl
  none_selected i (v ∷ ws) h = ground (arith, h.0, none_selected i ws h.1)

  null_selected : (ws : List Worker) → any (λ v. is_key none v.worker_id) ws ≡ false
  null_selected [] = refl
  null_selected (v ∷ ws) = null_selected ws

  -- A worker is among the selected exactly when its row passes the test.
  pub any-select :
      (o : Option ℕ) (ws : List Worker)
      → Unique (λ w. w.worker_id) ws
      → any (λ v. is_key o v.worker_id) (select test ws) ≡ holds test (worker_of o ws)
  unfolding select fetch
  any-select none ws u = null_selected (select test ws)
  any-select (some i) [] u = refl
  any-select (some i) (v ∷ ws) u = elim (Bool-cases (v.worker_id == i)) [
    | inl hit ↦
        let away = none_selected i ws (All-mono _ _ ws (λ w ne. ground (arith, ne)) u.0) in
        ground (arith, away)
    | inr miss ↦ ground (arith, any-select (some i) ws u.1)
  ]

-- A query goes back exactly when it runs and its worker is stale.
abbrev pub goes_back : Db → ℕ → ℕ → Query → Bool
goes_back db utcnow stale q =
    holds (is_stale utcnow stale) (worker_of q.worker_id db.workers) && is_status q.status running

row_after : (Query → Bool) → Option Query → Option Query
row_after test none = none
row_after test (some q) = some (if test q then reverted_row q else q)

fetch-revert_from :
    (db : Db) (ws : List Worker) (k : ℕ)
    → get_query (revert_from db ws) k ≡ updated? (runs_on_any ws) reverted_row (get_query db k)
unfolding get_query revert_from
fetch-revert_from db [] k = nothing (fetch (has_query_id k) db.queries)
  where
    nothing : (o : Option Query) → o ≡ updated? (runs_on_any []) reverted_row o
    nothing none = refl
    nothing (some q) = refl
fetch-revert_from db (w ∷ ws) k = rw (revert_queries_lem db (runs_on_any (w ∷ ws))) (
    fetch-update (λ q. q.query_id) k (runs_on_any (w ∷ ws)) reverted_row db.queries
      (λ q. unfold reverted_row in refl))

pub get_query-sweep :
    (db : Db) (utcnow stale k : ℕ) (q : Query)
    → IsValid db
    → get_query db k ≡ some q
    → get_query (sweep_stale_workers db utcnow stale) k
      ≡ some (if goes_back db utcnow stale q then reverted_row q else q)
unfolding sweep_stale_workers get_query
get_query-sweep db utcnow stale k q v found =
    fetch-revert_from _ (select (is_stale utcnow stale) db.workers) k
    ∙ rw (found, any-select (is_stale utcnow stale) q.worker_id db.workers v.workers_unique)

workers-revert_from : (db : Db) (ws : List Worker) → (revert_from db ws).workers ≡ db.workers
unfolding revert_from
workers-revert_from db [] = refl
workers-revert_from db (w ∷ ws) =
    ap (λ (d : Db). d.workers) (revert_queries_lem db (runs_on_any (w ∷ ws)))

-- After the sweep, by the same clock reading, no row of `workers` is stale: what was, is stopped.
sweep_leaves_none_stale :
    (db : Db) (utcnow stale : ℕ)
    → All (λ w. is_stale utcnow stale w ≡ false) (sweep_stale_workers db utcnow stale).workers
unfolding sweep_stale_workers
sweep_leaves_none_stale db utcnow stale =
    rw (workers-revert_from _ (select (is_stale utcnow stale) db.workers)) (
      All-update (λ _. Unit {0}) _ (is_stale utcnow stale) _ db.workers
        (λ w _ _. unfold is_stale in refl) (λ w _ fresh. fresh) (All-intro _ db.workers (λ _. tt)))
