-- ===== src/Scheduler/Loop.antt =====
-- scheduler_loop: iterations that may fail, with what other tasks commit in between.
use duck_launcher.Base.{ℕ, Bool, List, [], ◌∷◌, All, if◌then◌else◌, none, true, false}
use duck_launcher.Db.{Db}
use duck_launcher.Queries.Stale.{sweep_stale_workers}
use duck_launcher.Lifecycle.Calls.{step, sweep}
use duck_launcher.Lifecycle.Valid.{IsValid, step-IsValid}
use duck_launcher.Scheduler.{
  World, claim_next, schedule_rounds, schedule_pending_queries, scheduler_iteration,
}
use duck_launcher.Scheduler.Batch.{IsFair, rounds-IsBatch, claim_next-IsValid}

-- Where an exception ends an iteration: in the sweep, or after a number of rounds of the batch, in the
-- claim of the next one, which is rolled back, or in its dispatch, behind the claim.
pub data Failure : Type 0 where
  no_failure in_sweep : Failure
  in_claim : ℕ → Failure
  in_dispatch : ℕ → Failure

-- `between` is what commits between the sweep and the batch, and `sleep` what does before the next
-- iteration.
pub record Iteration : Type 0 where
  pub stopped : Bool
  pub world : World
  pub utcnow : ℕ
  pub between : Db → Db
  pub failure : Failure
  pub sleep : Db → Db

abbrev pub rounds_done : Iteration → ℕ → ℕ → Db → ℕ × Db
rounds_done it stale n db =
    schedule_rounds it.world stale none n 0 (it.between (sweep_stale_workers db it.utcnow stale))

abbrev pub after_failure : Failure → Iteration → ℕ → Db → Db
after_failure no_failure it stale db =
    (scheduler_iteration it.world it.between it.utcnow stale db).1
after_failure in_sweep it stale db = db
after_failure (in_claim n) it stale db = (rounds_done it stale n db).1
after_failure (in_dispatch n) it stale db =
    let done = rounds_done it stale n db in (claim_next it.world stale none (done.0) (done.1)).1

unfoldable pub scheduler_loop : ℕ → List Iteration → Db → Db
unfolding sweep_stale_workers schedule_rounds claim_next scheduler_iteration
scheduler_loop stale [] db = db
scheduler_loop stale (it ∷ its) db =
    if it.stopped
    then db
    else scheduler_loop stale its (it.sleep (after_failure it.failure it stale db))

-- The other tasks keep the invariant.
pub record Fair (it : Iteration) : Type 0 where
  pub batch : IsFair it.world
  pub between : (db : Db) → IsValid db → IsValid (it.between db)
  pub sleep : (db : Db) → IsValid db → IsValid (it.sleep db)

after_failure-IsValid :
    (f : Failure) (it : Iteration) (stale : ℕ) (db : Db)
    → Fair it
    → IsValid db
    → IsValid (after_failure f it stale db)
unfolding scheduler_iteration schedule_pending_queries
after_failure-IsValid f it stale db fair v =
    let swept : IsValid (sweep_stale_workers db it.utcnow stale) =
      unfold step in step-IsValid (sweep it.utcnow stale) db v in
    let start = fair.between (sweep_stale_workers db it.utcnow stale) swept in
    let rounds : (n : ℕ) → IsValid (rounds_done it stale n db).1 = λ n.
      (rounds-IsBatch it.world stale none fair.batch n 0
        (it.between (sweep_stale_workers db it.utcnow stale)) start).valid in
    go f v rounds
  where
    go :
        (f : Failure)
        → IsValid db
        → ((n : ℕ) → IsValid (rounds_done it stale n db).1)
        → IsValid (after_failure f it stale db)
    go no_failure v rounds = rounds 10
    go in_sweep v rounds = v
    go (in_claim n) v rounds = rounds n
    go (in_dispatch n) v rounds =
        let done = rounds_done it stale n db in
        claim_next-IsValid it.world stale none (done.0) (done.1) (rounds n)

either : (stopped : Bool) (a b : Db) → IsValid a → IsValid b → IsValid (if stopped then a else b)
either true a b v w = v
either false a b v w = w

-- The loop keeps a database valid, however many iterations there are, wherever each of them fails,
-- and whenever it is stopped, if the other tasks keep it valid.
scheduler_loop-IsValid :
    (stale : ℕ) (its : List Iteration) (db : Db)
    → All Fair its
    → IsValid db
    → IsValid (scheduler_loop stale its db)
unfolding scheduler_loop
scheduler_loop-IsValid stale [] db fair v = v
scheduler_loop-IsValid stale (it ∷ its) db fair v =
    let next = it.sleep (after_failure it.failure it stale db) in
    let after : IsValid next =
      fair.0.sleep (after_failure it.failure it stale db)
        (after_failure-IsValid it.failure it stale db fair.0 v) in
    either it.stopped db (scheduler_loop stale its next) v
      (scheduler_loop-IsValid stale its next fair.1 after)
