-- ===== src/Claiming/Overlap.antt =====
-- db/queries.py: _claim_query in a transaction that overlaps with others. What it locks is the row of
-- its query.
use duck_launcher.Base.{
  ℕ, ◌+◌, pos, ◌≡◌, ◌≢◌, refl, ap, ◌∙◌, false, ◌==◌, none, some, leb_ℤ, arith, Option-cases, inl,
  inr,
}
use duck_launcher.Db.{Db, Worker, Query, QueryStatus, has_query_id}
use duck_launcher.Table.{update, fetch}
use duck_launcher.Table.Update.{update-Unique, fetch-update}
use duck_launcher.Queries.Notify.{notify_query_status}
use duck_launcher.Queries.Claim.{worker_for_query, running_queries, claimed_row, claim_query}
use duck_launcher.Claiming.Load.{running_queries-claimed}
use duck_launcher.Lifecycle.Valid.{IsValid}

-- The database after `_claim_query`, where the SELECT of the worker reads the first database, and
-- others have committed up to the second one before the UPDATE.
unfoldable pub claim_reading : Db → Db → ℕ → ℕ → ℕ → Query → Db
unfolding worker_for_query claimed_row notify_query_status
claim_reading snapshot db utcnow now worker_stale_sec pending =
    elim (worker_for_query snapshot utcnow worker_stale_sec pending) [
      | none ↦ db
      | some w ↦
          notify_query_status
            (record db {
              queries =
                  update (has_query_id pending.query_id) (claimed_row now w.worker_id) db.queries;
            })
            pending.query_id QueryStatus.running none none
    ]

-- Where nothing comes in between it is the claim.
claim_reading-same :
    (db : Db) (utcnow now stale : ℕ) (p : Query)
    → claim_reading db db utcnow now stale p ≡ (claim_query db utcnow now stale p).1
unfolding claim_reading claim_query
claim_reading-same db utcnow now stale p =
    elim (Option-cases (worker_for_query db utcnow stale p)) [
      | inl n ↦ rw (claim_reading, claim_query, n) refl
      | inr (w, e) ↦ rw (claim_reading, claim_query, e) refl
    ]

queries-claim_reading :
    (snapshot db : Db) (utcnow now stale : ℕ) (p : Query) (w : Worker)
    → worker_for_query snapshot utcnow stale p ≡ some w
    → (claim_reading snapshot db utcnow now stale p).queries
      ≡ update (has_query_id p.query_id) (claimed_row now w.worker_id) db.queries
unfolding claim_reading notify_query_status
queries-claim_reading snapshot db utcnow now stale p w e = rw (claim_reading, e) refl

-- From a valid database, for two pending queries that a claim would each give to the same worker,
-- which has one place left: two claims that both read before either has committed give it both, and
-- then it runs more queries than its `max_concurrent_queries`.
pub overlap_overcommits :
    (db : Db) (utcnow now now' stale : ℕ) (p q : Query) (w : Worker)
    → IsValid db
    → fetch (has_query_id p.query_id) db.queries ≡ some p
    → fetch (has_query_id q.query_id) db.queries ≡ some q
    → p.status ≡ QueryStatus.pending
    → q.status ≡ QueryStatus.pending
    → p.query_id ≢ q.query_id
    → worker_for_query db utcnow stale p ≡ some w
    → worker_for_query db utcnow stale q ≡ some w
    → w.max_concurrent_queries ≡ pos (running_queries w.worker_id db.queries + 1)
    → let first = claim_reading db db utcnow now stale p in
      let second = claim_reading db first utcnow now' stale q in
      (running_queries w.worker_id second.queries ≡ running_queries w.worker_id db.queries + 2)
      × (leb_ℤ (pos (running_queries w.worker_id second.queries)) w.max_concurrent_queries ≡ false)
overlap_overcommits db utcnow now now' stale p q w v found found' waits waits' apart e e' room =
    let once = update (has_query_id p.query_id) (claimed_row now w.worker_id) db.queries in
    let twice = update (has_query_id q.query_id) (claimed_row now' w.worker_id) once in
    let unique =
      update-Unique (λ r. r.query_id) (has_query_id p.query_id) (claimed_row now w.worker_id)
        db.queries (λ r. unfold claimed_row in refl) v.queries_unique in
    let other : (q.query_id == p.query_id) ≡ false = ground (arith, apart) in
    let kept : fetch (has_query_id q.query_id) once ≡ some q =
      fetch-update (λ r. r.query_id) q.query_id (has_query_id p.query_id)
        (claimed_row now w.worker_id) db.queries (λ r. unfold claimed_row in refl)
      ∙ rw (found', other) refl in
    let one = running_queries-claimed p w.worker_id now waits db.queries v.queries_unique found in
    let two = running_queries-claimed q w.worker_id now' waits' once unique kept in
    let grown : running_queries w.worker_id twice ≡ running_queries w.worker_id db.queries + 2 =
      omega (arith, one, two) in
    let first = claim_reading db db utcnow now stale p in
    let both : (claim_reading db first utcnow now' stale q).queries ≡ twice =
      queries-claim_reading db first utcnow now' stale q w e'
      ∙ ap (update (has_query_id q.query_id) (claimed_row now' w.worker_id))
          (queries-claim_reading db db utcnow now stale p w e) in
    let counted = ap (running_queries w.worker_id) both ∙ grown in
    (counted, rw (counted, room) (ground arith))
