-- ===== src/Tests/Queries.antt =====
-- Histories of a query at concrete inputs.
use duck_launcher.Queries.Claim.{Claimed}
use duck_launcher.Scheduler.{http_error, handle_response}
use duck_launcher.Base.{pos, ◌≡◌, refl, none, some, List, [], ◌∷◌, inl}
use duck_launcher.Db.{Query}
use duck_launcher.Models.{CompletionStatus}
use duck_launcher.Queries.Life.{get_query}
use duck_launcher.Queries.Stale.{sweep_stale_workers}
use duck_launcher.Table.{fetch}
use duck_launcher.Lifecycle.Phase.{Follows}
use duck_launcher.Lifecycle.Calls.{Call, cancel, complete, sweep, unreachable, claim, run, step}
use duck_launcher.Lifecycle.Valid.{IsValid, run-IsValid}
use duck_launcher.Lifecycle.Refinement.{step-Follows}
use duck_launcher.Recovery.Stranded.{reregister_strands, registered}
use duck_launcher.Tests.Fixture.{start, start-IsValid, running_query, first_worker, unlocked}

abbrev history : List Call
history =
    claim unlocked 110000000 9 30
    ∷ complete 10 12 CompletionStatus.failed (some "late") none
    ∷ cancel 11 12 none
    ∷ unreachable 2
    ∷ sweep 900000000 30
    ∷ []

run-IsValid_example : IsValid (run history start)
run-IsValid_example = run-IsValid history start start-IsValid

step-Follows_example :
    (r : Query) × (get_query (step (sweep 900000000 30) start) 11 ≡ some r)
    × Follows running_query r
step-Follows_example =
    step-Follows (sweep 900000000 30) start 11 running_query start-IsValid
      (unfold get_query fetch in refl)

abbrev late_dispatch : Claimed
late_dispatch = record {
  query_id = 11;
  query = "SELECT 1";
  cpus = none;
  memory = none;
  disk_space = none;
  worker_id = 1;
  endpoint = "http://w1";
}

reregister_strands_example :
    (get_query
        (sweep_stale_workers
          (registered start 1 77 200 "http://w" (pos 4) (pos 9) (pos 9) (pos 2))
          900000000
          30)
        11
      ≡ some running_query)
    × (get_query
          (handle_response http_error late_dispatch
            (registered start 1 77 200 "http://w" (pos 4) (pos 9) (pos 9) (pos 2))).1
          11
        ≡ some running_query)
reregister_strands_example =
    reregister_strands start 1 77 200 "http://w" (pos 4) (pos 9) (pos 9) (pos 2) 11 900000000 30
      late_dispatch http_error first_worker running_query start-IsValid (unfold fetch in refl)
      (unfold get_query fetch in refl) refl refl refl (inl refl)
