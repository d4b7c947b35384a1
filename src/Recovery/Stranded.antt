-- ===== src/Recovery/Stranded.antt =====
-- A worker that registers again under its id while a query runs on it: nobody takes the query back.
use duck_launcher.Queries.Claim.{Claimed}
use duck_launcher.Scheduler.{Response, answered, http_error, handle_response}
use duck_launcher.Base.{ℕ, ℤ, ◌≡◌, refl, ap, ◌∙◌, some, String, arith, ◌⊎◌, inl, inr}
use duck_launcher.Db.{Db, Worker, WorkerStatus, Query, running, has_worker_id}
use duck_launcher.Table.{update, fetch}
use duck_launcher.Table.Update.{fetch-update, fetch-test}
use duck_launcher.Queries.Life.{get_query}
use duck_launcher.Queries.Workers.{register_worker}
use duck_launcher.Queries.Stale.{is_stale, sweep_stale_workers, mark_worker_unreachable}
use duck_launcher.Lifecycle.Calls.{register, step}
use duck_launcher.Lifecycle.Valid.{IsValid, step-IsValid}
use duck_launcher.Recovery.Swept.{get_query-sweep}
use duck_launcher.Recovery.Unreachable.{get_query-mark_worker_unreachable}

-- The call registers the worker `id` again.
abbrev pub registered : Db → ℕ → ℕ → ℕ → String → ℤ → ℤ → ℤ → ℤ → Db
registered db id uuid now endpoint cpus memory disk limit =
    (register_worker db (some id) uuid now endpoint cpus memory disk limit).1

module _ (db : Db) (id uuid now : ℕ) (endpoint : String) (cpus memory disk limit : ℤ) where
  registered_row : Worker → Worker
  registered_row w = record w {
    endpoint = endpoint;
    status = WorkerStatus.initializing;
    cpus = cpus;
    memory = memory;
    disk_space = disk;
    max_concurrent_queries = limit;
    last_heartbeat_at = now;
  }

  workers-registered :
      (w : Worker)
      → fetch (has_worker_id id) db.workers ≡ some w
      → (registered db id uuid now endpoint cpus memory disk limit).workers
        ≡ update (has_worker_id id) registered_row db.workers
  unfolding register_worker registered_row
  workers-registered w there = ground arith

  initializing_there :
      (w : Worker)
      → fetch (has_worker_id id) db.workers ≡ some w
      → (u : Worker) × (fetch
            (has_worker_id id)
            (registered db id uuid now endpoint cpus memory disk limit).workers
          ≡ some u)
        × (u.status ≡ WorkerStatus.initializing)
  initializing_there w there = (
    registered_row w,
    ap (fetch (has_worker_id id)) (workers-registered w there)
        ∙ fetch-update (λ u. u.worker_id) id (has_worker_id id) registered_row db.workers
            (λ u. unfold registered_row in refl)
        ∙ rw (there, fetch-test (has_worker_id id) db.workers w there),
    unfold registered_row in refl,
  )

  -- When a worker registers again under its id, a query that runs on it keeps running there in the
  -- table, as long as the worker is initializing: no sweep, at whatever time, and no dispatch to that
  -- worker that ends without an answer, or with 502 or 503, takes it back.
  pub reregister_strands :
      (k utcnow stale : ℕ) (c : Claimed) (r : Response) (w : Worker) (q : Query)
      → IsValid db
      → fetch (has_worker_id id) db.workers ≡ some w
      → get_query db k ≡ some q
      → q.status ≡ running
      → q.worker_id ≡ some id
      → c.worker_id ≡ id
      → (r ≡ http_error) ⊎ (r ≡ answered 502) ⊎ (r ≡ answered 503)
      → let db' = registered db id uuid now endpoint cpus memory disk limit in
        (get_query (sweep_stale_workers db' utcnow stale) k ≡ some q)
        × (get_query (handle_response r c db').1 k ≡ some q)
  unfolding handle_response
  reregister_strands k utcnow stale c r w q v there found runs on to gone =
      let db' = registered db id uuid now endpoint cpus memory disk limit in
      let (u, at, init) = initializing_there w there in
      let v' : IsValid (registered db id uuid now endpoint cpus memory disk limit) =
        unfold step in
        step-IsValid (register (some id) uuid now endpoint cpus memory disk limit) db v in
      let found' : get_query (registered db id uuid now endpoint cpus memory disk limit) k
          ≡ some q =
        unfold get_query register_worker in found in
      (
        get_query-sweep (registered db id uuid now endpoint cpus memory disk limit) utcnow stale k q
              v' found'
            ∙ rw (on, at) (unfold is_stale in rw init),
        let stays : get_query (mark_worker_unreachable db' c.worker_id) k ≡ some q =
              rw to (get_query-mark_worker_unreachable db' id k u q v' at found' ∙ rw init) in
            elim gone [
              | inl lost ↦ rw lost stays
              | inr (inl answer) ↦ rw answer stays
              | inr (inr answer) ↦ rw answer stays
            ],
      )
