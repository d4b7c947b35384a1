-- ===== src/Queries/Claim.antt =====
-- db/queries.py: a pending query is given to a worker that has room for it.
use duck_launcher.Base.{
  ℕ, ℤ, pos, ◌+◌, ◌+ℤ◌, leb_ℤ, Bool, true, not, ◌&&◌, ◌||◌, ◌==◌, Option, none, some, String, List,
  [], ◌∷◌, ltb, leb, coalesce, head?, if◌then◌else◌,
}
use duck_launcher.Db.{
  Db, Worker, Query, QueryStatus, worker_running, is_status, has_worker_id, has_query_id, runs_on,
}
use duck_launcher.Table.{update, select, fetch, count, order_by}
use duck_launcher.Queries.Notify.{notify_query_status}
use duck_launcher.Queries.Stale.{is_fresh}

-- COALESCE(SUM(column), 0) over the running queries of a worker; SUM leaves NULL out.
unfoldable pub load : (Query → Option ℤ) → ℕ → List Query → ℤ
load column worker_id [] = pos 0
load column worker_id (q ∷ qs) =
    let rest = load column worker_id qs in
    if runs_on worker_id q then coalesce (column q) (pos 0) +ℤ rest else rest

-- COUNT(*) of the same rows
unfoldable pub running_queries : ℕ → List Query → ℕ
unfolding count
running_queries worker_id = count (runs_on worker_id)

-- $2::int IS NULL OR load + $2 <= capacity
unfoldable pub fits : Option ℤ → ℤ → ℤ → Bool
fits none used capacity = true
fits (some n) used capacity = leb_ℤ (used +ℤ n) capacity

-- The WHERE of _WORKER_FOR_QUERY_SQL.
unfoldable pub has_room : Db → ℕ → ℕ → Query → Worker → Bool
unfolding is_fresh fits running_queries load
has_room db utcnow worker_stale_sec pending w =
    worker_running w.status
    && is_fresh utcnow worker_stale_sec w
    && fits pending.cpus (load (λ q. q.cpus) w.worker_id db.queries) w.cpus
    && fits pending.memory (load (λ q. q.memory) w.worker_id db.queries) w.memory
    && fits pending.disk_space (load (λ q. q.disk_space) w.worker_id db.queries) w.disk_space
    && leb_ℤ (pos (running_queries w.worker_id db.queries + 1)) w.max_concurrent_queries

-- Its ORDER BY: the fewest queries first, of these the latest heartbeat.
unfoldable pub less_loaded : Db → Worker → Worker → Bool
unfolding running_queries
less_loaded db w v =
    let m = running_queries w.worker_id db.queries in
    let n = running_queries v.worker_id db.queries in
    ltb m n || ((m == n) && leb v.last_heartbeat_at w.last_heartbeat_at)

unfoldable pub worker_for_query : Db → ℕ → ℕ → Query → Option Worker
unfolding has_room less_loaded order_by select
worker_for_query db utcnow worker_stale_sec pending =
    head?
      (order_by (less_loaded db) (select (has_room db utcnow worker_stale_sec pending) db.workers))

pub record Claimed : Type 0 where
  pub query_id : ℕ
  pub query : String
  pub cpus : Option ℤ
  pub memory : Option ℤ
  pub disk_space : Option ℤ
  pub worker_id : ℕ
  pub endpoint : String

-- SELECT … FROM queries q JOIN workers w ON w.worker_id = q.worker_id WHERE q.query_id = $1
abbrev pub joined : Query → Option Worker → Option Claimed
joined q none = none
joined q (some w) = some (record {
  query_id = q.query_id;
  query = q.query;
  cpus = q.cpus;
  memory = q.memory;
  disk_space = q.disk_space;
  worker_id = w.worker_id;
  endpoint = w.endpoint;
})

abbrev pub worker_of : Option ℕ → List Worker → Option Worker
worker_of none workers = none
worker_of (some worker_id) workers = fetch (has_worker_id worker_id) workers

unfoldable pub select_claimed : Db → ℕ → Option Claimed
select_claimed db query_id = elim (fetch (has_query_id query_id) db.queries) [
  | none ↦ none
  | some q ↦ joined q (worker_of q.worker_id db.workers)
]

-- The UPDATE of `_claim_query`.
unfoldable pub claimed_row : ℕ → ℕ → Query → Query
claimed_row now worker_id q = record q {
  status = QueryStatus.running;
  worker_id = some worker_id;
  started_at = some now;
}

unfoldable pub claim_query : Db → ℕ → ℕ → ℕ → Query → Option Claimed × Db
unfolding notify_query_status select_claimed claimed_row
claim_query db utcnow now worker_stale_sec pending =
    elim (worker_for_query db utcnow worker_stale_sec pending) [
      | none ↦ (none, db)
      | some w ↦
          let db' : Db = record db {
            queries =
                update (has_query_id pending.query_id) (claimed_row now w.worker_id) db.queries;
          } in
          (
            select_claimed db' pending.query_id,
            notify_query_status db' pending.query_id QueryStatus.running none none,
          )
    ]

-- FOR UPDATE SKIP LOCKED: `locked` are the queries that other open transactions hold.
unfoldable pub is_claimable : (ℕ → Bool) → Query → Bool
is_claimable locked q = is_status q.status QueryStatus.pending && not (locked q.query_id)

unfoldable pub oldest_pending : Db → (ℕ → Bool) → Option Query
unfolding is_claimable
oldest_pending db locked =
    head?
      (order_by (λ q r. leb q.created_at r.created_at) (select (is_claimable locked) db.queries))

unfoldable pub claim_pending_query : Db → (ℕ → Bool) → ℕ → ℕ → ℕ → Option Claimed × Db
unfolding oldest_pending
claim_pending_query db locked utcnow now worker_stale_sec = elim (oldest_pending db locked) [
  | none ↦ (none, db)
  | some pending ↦ claim_query db utcnow now worker_stale_sec pending
]

unfoldable pub claim_query_by_id : Db → (ℕ → Bool) → ℕ → ℕ → ℕ → ℕ → Option Claimed × Db
unfolding is_claimable
claim_query_by_id db locked utcnow now query_id worker_stale_sec =
    elim (fetch (λ q. has_query_id query_id q && is_claimable locked q) db.queries) [
      | none ↦ (none, db)
      | some pending ↦ claim_query db utcnow now worker_stale_sec pending
    ]
