-- ===== src/Tests/Batches.antt =====
-- Dispatches and batches at concrete inputs.
use duck_launcher.Base.{◌≡◌, refl, inl, inr, none, [], ◌∷◌, arith, ◌+ℤ◌}
use duck_launcher.Db.{Db, WorkerStatus}
use duck_launcher.Table.{fetch, update}
use duck_launcher.Queries.Life.{get_query}
use duck_launcher.Queries.Claim.{claim_pending_query, claim_query, worker_for_query}
use duck_launcher.Claiming.Outcome.{claim_of}
use duck_launcher.Lifecycle.Valid.{IsValid}
use duck_launcher.Scheduler.{
  World, answered, handle_response, schedule_pending_queries, claim_next, dispatch_query,
}
use duck_launcher.Scheduler.Dispatch.{GivenBack, failed_dispatch_gives_back}
use duck_launcher.Scheduler.Batch.{IsFair, IsDrained, schedule_drains}
use duck_launcher.Tests.Fixture.{
  start, start-IsValid, running_query, first_worker, worker_at, unlocked,
}

-- Every worker accepts, and nobody else writes.
abbrev calm : World
calm = record {
  post = λ round url payload. answered 202;
  meanwhile = λ round db. db;
  locked = λ round. unlocked;
  utcnow = λ round. 110000000;
  now = λ round. 9;
}

calm-IsFair : IsFair calm
calm-IsFair n db v = v

failed_dispatch_gives_back_example :
    GivenBack (handle_response (answered 503) (claim_of running_query first_worker) start) 11
failed_dispatch_gives_back_example =
    failed_dispatch_gives_back (claim_of running_query first_worker) start first_worker
      running_query start-IsValid (unfold fetch in refl) (unfold get_query fetch in refl) refl refl
      (answered 503) refl (inr refl)

-- The first worker has registered again.
abbrev restarted : Db
restarted = record start {
  workers =
      worker_at 1 WorkerStatus.initializing 100000000
      ∷ worker_at 2 WorkerStatus.running 90000000
      ∷ [];
}

restarted-IsValid : IsValid restarted
restarted-IsValid = record {
  workers_unique = omega arith;
  queries_unique = start-IsValid.queries_unique;
  rows = (
    record { shape = (refl, refl, refl); refers = refl },
    (
      record { shape = (refl, refl, refl); refers = refl },
      (record { shape = refl; refers = refl }, tt),
    ),
  );
}

one_claimed : (schedule_pending_queries calm 30 none 10 start).0 ≡ 1
unfolding schedule_pending_queries claim_next dispatch_query claim_pending_query claim_query
    worker_for_query ◌+ℤ◌ fetch update
one_claimed = refl

schedule_drains_example :
    IsDrained calm 30
      (schedule_pending_queries calm 30 none 10 start).0
      (schedule_pending_queries calm 30 none 10 start).1
schedule_drains_example =
    schedule_drains calm 30 none 10 start calm-IsFair start-IsValid (omega (arith, one_claimed))
      (inl refl)
