-- ===== src/Claiming/Guarantees.antt =====
-- What `claim_pending_query` guarantees: order, choice of the worker, capacity.
use duck_launcher.Table.Update.{All-fetch_self}
use duck_launcher.Base.{
  ℕ, ◌≤◌, ◌≡◌, ap, subst, ◌⊎◌, inl, inr, Bool, true, false, none, some, All, All-intro, All-mono,
  arith,
}
use duck_launcher.Db.{Db, Worker, Query, pending, running, has_worker_id, has_query_id}
use duck_launcher.Table.{fetch}
use duck_launcher.Queries.Notify.{notify_query_status}
use duck_launcher.Queries.Life.{get_query}
use duck_launcher.Queries.Claim.{
  Claimed, running_queries, has_room, less_loaded, worker_for_query, claimed_row, is_claimable,
  oldest_pending, claim_pending_query, claim_query,
}
use duck_launcher.Claiming.Chosen.{chosen_sound, chosen_least, chosen_none, none_chosen}
use duck_launcher.Claiming.Oldest.{oldest_sound, oldest_fetched, oldest_first, oldest_none}
use duck_launcher.Claiming.Outcome.{claim-Outcomes, claim_of, placed, row_placed}
use duck_launcher.Lifecycle.Valid.{IsValid}
use duck_launcher.Claiming.Safety.{WithinCapacity, placed-WithinCapacity}

module _ (db : Db) (locked : ℕ → Bool) (utcnow now stale : ℕ) where
  -- A claim that succeeds took the oldest claimable query to the worker that was chosen for it.
  Succeeds : Claimed → Db → Type 0
  Succeeds c db' =
      (p : Query) × (w : Worker) × (oldest_pending db locked ≡ some p)
      × (worker_for_query db utcnow stale p ≡ some w)
      × (claim_of p w ≡ c)
      × (placed db now p w ≡ db')

  claim-Succeeds :
      (c : Claimed) (db' : Db)
      → IsValid db
      → claim_pending_query db locked utcnow now stale ≡ (some c, db')
      → Succeeds c db'
  unfolding Succeeds
  claim-Succeeds c db' v e = elim (claim-Outcomes db locked utcnow now stale v) [
    | inl (o, out) ↦ absurd (cc (out, e))
    | inr (inl (p, o, none_fits, out)) ↦ absurd (cc (out, e))
    | inr (inr (p, w, o, chosen, out)) ↦
        (p, w, o, chosen, ground (arith, out, e), ground (arith, out, e))
  ]

  waits_and_unlocked :
      (p : Query)
      → is_claimable locked p ≡ true
      → (p.status ≡ pending) × (locked p.query_id ≡ false)
  unfolding is_claimable
  waits_and_unlocked p h = ground arith

  -- A claim that succeeds puts its query on a worker of the table that runs, and afterwards that
  -- worker has no more running queries than its `max_concurrent_queries`; for each of cpus, memory
  -- and disk space that the query asks for, the demands of the queries that run on the worker,
  -- the claimed one included, sum up to no more than the worker has.
  pub claim-WithinCapacity :
      (c : Claimed) (db' : Db)
      → IsValid db
      → claim_pending_query db locked utcnow now stale ≡ (some c, db')
      → (w : Worker) × (fetch (has_worker_id c.worker_id) db.workers ≡ some w)
        × WithinCapacity db' c w
  unfolding Succeeds
  claim-WithinCapacity c db' v e =
      let (p, w, o, chosen, claim, place) = claim-Succeeds c db' v e in
      let found = oldest_fetched db locked p v.queries_unique o in
      let claimable = (oldest_sound db locked (λ _. Unit {0}) p (All-intro _ _ (λ _. tt)) o).1 in
      let row =
        chosen_sound db utcnow stale p _ w
          (All-fetch_self (λ u. u.worker_id) db.workers v.workers_unique) chosen in
      (
        w,
        subst (λ (k : Claimed). fetch (has_worker_id k.worker_id) db.workers ≡ some w) claim row.0,
        subst (λ k. WithinCapacity db' k w) claim
            (subst (λ d. WithinCapacity d (claim_of p w) w) place
              (placed-WithinCapacity db utcnow now stale p w v found
                (waits_and_unlocked p claimable).0 row.1)),
      )

  -- A claim that succeeds takes a pending query that no other transaction holds, and no such query
  -- is older; the row is then running on the claimed worker since `now`, its other columns as before.
  pub claim_takes_oldest :
      (c : Claimed) (db' : Db)
      → IsValid db
      → claim_pending_query db locked utcnow now stale ≡ (some c, db')
      → (p : Query) × (get_query db c.query_id ≡ some p)
        × (p.status ≡ pending)
        × (locked p.query_id ≡ false)
        × All (λ r. is_claimable locked r ≡ true → p.created_at ≤ r.created_at) db.queries
        × (get_query db' c.query_id
            ≡ some (record p {
              status = running;
              worker_id = some c.worker_id;
              started_at = some now;
            }))
  unfolding Succeeds get_query
  claim_takes_oldest c db' v e =
      let (p, w, o, chosen, claim, place) = claim-Succeeds c db' v e in
      let found = oldest_fetched db locked p v.queries_unique o in
      let both =
        waits_and_unlocked p
          (oldest_sound db locked (λ _. Unit {0}) p (All-intro _ _ (λ _. tt)) o).1 in
      (
        p,
        rw (← claim) found,
        both.0,
        both.1,
        oldest_first db locked p o,
        rw (← claim, ← place)
            (unfold notify_query_status claimed_row in row_placed db utcnow now stale p v found w),
      )

  same_row :
      (p p' : Query) (k : ℕ)
      → fetch (has_query_id p.query_id) db.queries ≡ some p
      → p.query_id ≡ k
      → fetch (has_query_id k) db.queries ≡ some p'
      → p ≡ p'
  same_row p p' k found ids same =
      let found' : fetch (has_query_id k) db.queries ≡ some p = rw (← ids) found in
      ground (arith, found', same)

  -- A claim that succeeds chooses a fresh running worker with room, and of the workers with room
  -- none runs fewer queries.
  pub claim_least_loaded :
      (c : Claimed) (db' : Db) (p : Query)
      → IsValid db
      → claim_pending_query db locked utcnow now stale ≡ (some c, db')
      → get_query db c.query_id ≡ some p
      → (w : Worker) × (fetch (has_worker_id c.worker_id) db.workers ≡ some w)
        × (has_room db utcnow stale p w ≡ true)
        × All
            (λ u.
              has_room db utcnow stale p u ≡ true
              → running_queries w.worker_id db.queries ≤ running_queries u.worker_id db.queries)
            db.workers
  unfolding Succeeds get_query
  claim_least_loaded c db' p' v e same =
      let (p, w, o, chosen, claim, place) = claim-Succeeds c db' v e in
      let found = oldest_fetched db locked p v.queries_unique o in
      let row =
        chosen_sound db utcnow stale p _ w
          (All-fetch_self (λ u. u.worker_id) db.workers v.workers_unique) chosen in
      let ids : p.query_id ≡ c.query_id = ap (λ (k : Claimed). k.query_id) claim in
      let it = same_row p p' c.query_id found ids same in
      (
        w,
        subst (λ (k : Claimed). fetch (has_worker_id k.worker_id) db.workers ≡ some w) claim row.0,
        subst (λ q. has_room db utcnow stale q w ≡ true) it row.1,
        subst
            (λ q.
              All
                (λ u.
                  has_room db utcnow stale q u ≡ true
                  → running_queries w.worker_id db.queries ≤ running_queries u.worker_id db.queries)
                db.workers)
            it
            (All-mono _ _ db.workers (λ u first room. fewer w u (first room))
              (chosen_least db utcnow stale p w chosen)),
      )
    where
      fewer :
          (w u : Worker)
          → less_loaded db w u ≡ true
          → running_queries w.worker_id db.queries ≤ running_queries u.worker_id db.queries
      fewer w u h = unfold less_loaded in ground arith

  -- A claim that gives nothing changes nothing, and is for one of two reasons: no pending query is
  -- free, or no worker has room for the oldest free one.
  pub claim_none :
      (db' : Db)
      → IsValid db
      → claim_pending_query db locked utcnow now stale ≡ (none, db')
      → (db' ≡ db)
        × (All (λ r. is_claimable locked r ≡ false) db.queries
            ⊎ ((p : Query) × (oldest_pending db locked ≡ some p)
                × All (λ w. has_room db utcnow stale p w ≡ false) db.workers))
  claim_none db' v e = elim (claim-Outcomes db locked utcnow now stale v) [
    | inl (o, out) ↦ (ground (arith, out, e), inl (oldest_none db locked o))
    | inr (inl (p, o, full, out)) ↦
        (ground (arith, out, e), inr (p, o, chosen_none db utcnow stale p full))
    | inr (inr (p, w, o, chosen, out)) ↦ absurd (cc (out, e))
  ]

  -- Where no worker has room for the oldest free pending query, nothing is claimed, whatever other
  -- pending queries there are and whatever room there is for them.
  oldest_blocks :
      (p : Query)
      → oldest_pending db locked ≡ some p
      → All (λ w. has_room db utcnow stale p w ≡ false) db.workers
      → claim_pending_query db locked utcnow now stale ≡ (none, db)
  unfolding claim_pending_query claim_query
  oldest_blocks p o full =
      rw (o, claim_pending_query, none_chosen db utcnow stale p full, claim_query)
