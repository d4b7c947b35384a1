-- ===== src/Scheduler/Batch.antt =====
-- A batch: how many rounds it makes, and when it ends early.
use duck_launcher.Base.{
  ℕ, suc, zero, ◌+◌, ◌≤◌, ◌<◌, ◌≡◌, ◌⊎◌, inl, inr, false, ◌==◌, Option, none, some, arith,
  Bool-cases, Option-cases, All, ◌||◌, subst, sym,
}
use duck_launcher.Db.{Db, Query}
use duck_launcher.Queries.Claim.{
  Claimed, claim_pending_query, is_claimable, oldest_pending, has_room,
}
use duck_launcher.Queries.Life.{revert_query_to_pending}
use duck_launcher.Queries.Stale.{mark_worker_unreachable}
use duck_launcher.Lifecycle.Calls.{step, claim, claim_by_id, revert, unreachable}
use duck_launcher.Lifecycle.Valid.{IsValid, step-IsValid}
use duck_launcher.Claiming.Guarantees.{claim_none}
use duck_launcher.Scheduler.{
  World, Response, answered, http_error, handle_response, dispatch_query, claim_next,
  schedule_rounds, schedule_pending_queries, dispatch_url, dispatch_payload,
}

-- The batch, one round at a time: it stops at a claim that gives nothing, or goes on.
rounds_stop :
    (world : World) (stale : ℕ) (id : Option ℕ) (left n : ℕ) (db : Db)
    → (claim_next world stale id n db).0 ≡ none
    → schedule_rounds world stale id (suc left) n db ≡ (n, (claim_next world stale id n db).1)
unfolding schedule_rounds
rounds_stop world stale id left n db e = rw (e, schedule_rounds)

rounds_go :
    (world : World) (stale : ℕ) (id : Option ℕ) (left n : ℕ) (db : Db) (c : Claimed)
    → (claim_next world stale id n db).0 ≡ some c
    → schedule_rounds world stale id (suc left) n db
      ≡ schedule_rounds world stale id left
          (suc n)
          (dispatch_query world n c (claim_next world stale id n db).1).1
unfolding schedule_rounds
rounds_go world stale id left n db c e = rw (e, schedule_rounds)

pub claim_next-IsValid :
    (world : World) (stale : ℕ) (id : Option ℕ) (n : ℕ) (db : Db)
    → IsValid db
    → IsValid (claim_next world stale id n db).1
unfolding claim_next
claim_next-IsValid world stale none n db v =
    unfold step in step-IsValid (claim (world.locked n) (world.utcnow n) (world.now n) stale) db v
claim_next-IsValid world stale (some id) n db v = elim (Bool-cases (n == 0)) [
  | inl first ↦ rw first (
      unfold step in
      step-IsValid (claim_by_id (world.locked n) (world.utcnow n) (world.now n) id stale) db v)
  | inr later ↦ rw later (
      unfold step in
      step-IsValid (claim (world.locked n) (world.utcnow n) (world.now n) stale) db v)
]

handle_response-IsValid :
    (r : Response) (c : Claimed) (db : Db) → IsValid db → IsValid (handle_response r c db).1
unfolding handle_response
handle_response-IsValid http_error c db v =
    unfold step in step-IsValid (unreachable c.worker_id) db v
handle_response-IsValid (answered s) c db v =
    let gone : IsValid (mark_worker_unreachable db c.worker_id) =
      unfold step in step-IsValid (unreachable c.worker_id) db v in
    let back : IsValid (revert_query_to_pending db c.query_id) =
      unfold step in step-IsValid (revert c.query_id) db v in
    elim (Bool-cases (s == 202)) [
      | inl ok ↦ rw ok v
      | inr refused ↦ elim (Bool-cases ((s == 502) || (s == 503))) [
        | inl e ↦ rw (refused, e) gone
        | inr e ↦ rw (refused, e) back
      ]
    ]

-- The other tasks keep the invariant.
abbrev pub IsFair : World → Type 0
IsFair world = (n : ℕ) (db : Db) → IsValid db → IsValid (world.meanwhile n db)

dispatch_query-IsValid :
    (world : World) (n : ℕ) (c : Claimed) (db : Db)
    → IsValid (world.meanwhile n db)
    → IsValid (dispatch_query world n c db).1
unfolding dispatch_query
dispatch_query-IsValid world n c db v =
    handle_response-IsValid (world.post n (dispatch_url c) (dispatch_payload c)) c
      (world.meanwhile n db) v

-- What holds of a batch of at most `limit` rounds that has made `n` of them.
pub record IsBatch (world : World) (stale : ℕ) (id : Option ℕ) (limit n : ℕ) (result : ℕ × Db)
    : Type 0 where
  pub not_fewer : n ≤ result.0
  pub bounded : result.0 ≤ limit
  pub valid : IsValid result.1
  pub ended :
      result.0 < limit
      → (last : Db) × IsValid last × (claim_next world stale id result.0 last ≡ (none, result.1))

pub rounds-IsBatch :
    (world : World) (stale : ℕ) (id : Option ℕ) (fair : IsFair world) (left n : ℕ) (db : Db)
    → IsValid db
    → IsBatch world stale id (left + n) n (schedule_rounds world stale id left n db)
rounds-IsBatch world stale id fair zero n db v =
    unfold schedule_rounds in
    record {
      not_fewer = omega arith;
      bounded = omega arith;
      valid = v;
      ended = λ h. absurd (omega arith);
    }
rounds-IsBatch world stale id fair (suc left) n db v =
    let after : IsValid (claim_next world stale id n db).1 =
      claim_next-IsValid world stale id n db v in
    elim (Option-cases (claim_next world stale id n db).0) [
      | inl e ↦ rw (rounds_stop world stale id left n db e) (record {
        not_fewer = omega arith;
        bounded = omega arith;
        valid = after;
        ended = λ h. (db, v, rw (← e));
      })
      | inr (c, e) ↦
          let ih =
            rounds-IsBatch world stale id fair left (suc n)
              (dispatch_query world n c (claim_next world stale id n db).1).1
              (dispatch_query-IsValid world n c _ (fair n _ after)) in
          rw (rounds_go world stale id left n db c e) (record {
            not_fewer = omega (arith, ih.not_fewer);
            bounded = omega (arith, ih.bounded);
            valid = ih.valid;
            ended = λ h. ih.ended (omega arith);
          })
    ]

-- Nothing more can be claimed: no pending query is free, or no worker has room for the oldest.
abbrev pub IsDrained : World → ℕ → ℕ → Db → Type 0
IsDrained world stale n db =
    All (λ q. is_claimable (world.locked n) q ≡ false) db.queries
    ⊎ ((p : Query) × (oldest_pending db (world.locked n) ≡ some p)
        × All (λ w. has_room db (world.utcnow n) stale p w ≡ false) db.workers)

pending-IsDrained :
    (world : World) (stale n : ℕ) (last db : Db)
    → IsValid last
    → claim_pending_query last (world.locked n) (world.utcnow n) (world.now n) stale ≡ (none, db)
    → IsDrained world stale n db
pending-IsDrained world stale n last db v e =
    let (same, why) =
      claim_none last (world.locked n) (world.utcnow n) (world.now n) stale db v e in
    subst (IsDrained world stale n) (sym same) why

next-IsDrained :
    (world : World) (stale : ℕ) (id : Option ℕ) (n : ℕ) (last db : Db)
    → IsValid last
    → claim_next world stale id n last ≡ (none, db)
    → (id ≡ none) ⊎ (0 < n)
    → IsDrained world stale n db
unfolding claim_next
next-IsDrained world stale none n last db v e other = pending-IsDrained world stale n last db v e
next-IsDrained world stale (some id) n last db v e (inl other) = cc
next-IsDrained world stale (some id) n last db v e (inr other) =
    let later : (n == 0) ≡ false = ground arith in
    pending-IsDrained world stale n last db v (rw later at e)

-- A batch claims at most `max_batch` queries and ends in a valid database, if it starts in one and
-- the other tasks keep the invariant.
schedule_bounded :
    (world : World) (stale : ℕ) (id : Option ℕ) (max_batch : ℕ) (db : Db)
    → IsFair world
    → IsValid db
    → ((schedule_pending_queries world stale id max_batch db).0 ≤ max_batch)
      × IsValid (schedule_pending_queries world stale id max_batch db).1
unfolding schedule_pending_queries
schedule_bounded world stale id max_batch db fair v =
    let batch = rounds-IsBatch world stale id fair max_batch 0 db v in
    (omega (arith, batch.bounded), batch.valid)

-- A batch that starts in a valid database, among tasks that keep the invariant, and claims fewer
-- than `max_batch` queries leaves nothing to claim: no pending query is free, or no worker has room
-- for the oldest free one. (A batch for a given query must have claimed that query first.)
pub schedule_drains :
    (world : World) (stale : ℕ) (id : Option ℕ) (max_batch : ℕ) (db : Db)
    → IsFair world
    → IsValid db
    → (schedule_pending_queries world stale id max_batch db).0 < max_batch
    → (id ≡ none) ⊎ (0 < (schedule_pending_queries world stale id max_batch db).0)
    → IsDrained world stale
        (schedule_pending_queries world stale id max_batch db).0
        (schedule_pending_queries world stale id max_batch db).1
unfolding schedule_pending_queries
schedule_drains world stale id max_batch db fair v early other =
    let batch = rounds-IsBatch world stale id fair max_batch 0 db v in
    let (last, valid, stopped) = batch.ended (omega arith) in
    next-IsDrained world stale id _ last _ valid stopped other
