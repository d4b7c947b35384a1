-- ===== src/Tests/Claims.antt =====
-- A claim at a concrete input: the waiting query goes to the idle second worker.
use duck_launcher.Base.{◌≡◌, ◌≤◌, refl, true, false, none, some, All, ◌+ℤ◌}
use duck_launcher.Db.{Worker, Query, QueryStatus, has_worker_id}
use duck_launcher.Table.{fetch, update}
use duck_launcher.Queries.Life.{get_query}
use duck_launcher.Queries.Claim.{
  claim_pending_query, claim_query, is_claimable, worker_for_query, has_room, running_queries,
}
use duck_launcher.Claiming.Outcome.{claim_of, placed}
use duck_launcher.Claiming.Safety.{WithinCapacity}
use duck_launcher.Claiming.Guarantees.{claim-WithinCapacity, claim_takes_oldest, claim_least_loaded}
use duck_launcher.Tests.Fixture.{start, start-IsValid, waiting_query, second_worker, unlocked}

claim_second :
    claim_pending_query start unlocked 110000000 9 30
    ≡ (some (claim_of waiting_query second_worker), placed start 9 waiting_query second_worker)
unfolding claim_pending_query claim_query worker_for_query ◌+ℤ◌ fetch update
claim_second = refl

claim-WithinCapacity_example :
    (w : Worker) × (fetch (has_worker_id 2) start.workers ≡ some w)
    × WithinCapacity
        (placed start 9 waiting_query second_worker)
        (claim_of waiting_query second_worker)
        w
claim-WithinCapacity_example =
    claim-WithinCapacity start unlocked 110000000 9 30 (claim_of waiting_query second_worker)
      (placed start 9 waiting_query second_worker) start-IsValid claim_second

claim_takes_oldest_example :
    (p : Query) × (get_query start 10 ≡ some p)
    × (p.status ≡ QueryStatus.pending)
    × (unlocked p.query_id ≡ false)
    × All (λ r. is_claimable unlocked r ≡ true → p.created_at ≤ r.created_at) start.queries
    × (get_query (placed start 9 waiting_query second_worker) 10
        ≡ some (record p { status = QueryStatus.running; worker_id = some 2; started_at = some 9 }))
claim_takes_oldest_example =
    claim_takes_oldest start unlocked 110000000 9 30 (claim_of waiting_query second_worker)
      (placed start 9 waiting_query second_worker) start-IsValid claim_second

claim_least_loaded_example :
    (w : Worker) × (fetch (has_worker_id 2) start.workers ≡ some w)
    × (has_room start 110000000 30 waiting_query w ≡ true)
    × All
        (λ u.
          has_room start 110000000 30 waiting_query u ≡ true
          → running_queries w.worker_id start.queries ≤ running_queries u.worker_id start.queries)
        start.workers
claim_least_loaded_example =
    claim_least_loaded start unlocked 110000000 9 30 (claim_of waiting_query second_worker)
      (placed start 9 waiting_query second_worker) waiting_query start-IsValid claim_second
      (unfold get_query fetch in refl)

-- A second later the workers' heartbeats are too old for a limit of 0 s.
nothing_fresh : claim_pending_query start unlocked 110000000 9 0 ≡ (none, start)
unfolding claim_pending_query claim_query worker_for_query ◌+ℤ◌ fetch update
nothing_fresh = refl
