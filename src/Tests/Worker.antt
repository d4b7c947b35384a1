-- ===== src/Tests/Worker.antt =====
-- Workers at concrete inputs.
use duck_launcher.Db.{Query}
use duck_launcher.Base.{
  ℕ, ◌+◌, ◌≡◌, ◌≤◌, ◌⊎◌, refl, true, false, some, [], ◌∷◌, pos, length, any, ◌==◌, arith,
}
use duck_launcher.Table.{fetch, delete}
use duck_launcher.Queries.Life.{get_query}
use duck_launcher.Queries.Claim.{Claimed}
use duck_launcher.Claiming.Outcome.{claim_of}
use duck_launcher.Scheduler.{handle_response}
use duck_launcher.Scheduler.Dispatch.{GivenBack}
use duck_launcher.Worker.Executor.{
  warm_pool, acquire, result, get_active, interrupted, set_active, pop_active, enter_active,
  run_statements, leave_active, release,
}
use duck_launcher.Worker.Threads.{
  waiting, acquired, running, finished, System, update, acquires, Reach, here, next, enters, runs,
  leaves, releases, ran, left, dropped,
}
use duck_launcher.Worker.Places.{times, has, has_any, total, has_lost}
use duck_launcher.Worker.Conserved.{pool_conserved}
use duck_launcher.Worker.Interrupts.{wrong_query_interrupted}
use duck_launcher.Worker.Handlers.{WorkerApp, run_query, execute_query}
use duck_launcher.Worker.Dispatches.{response_of, Taken, Refused, dispatch-run_query}
use duck_launcher.Worker.Reports.{coordinator_complete, outcome_recorded, Stored}
use duck_launcher.Tests.Fixture.{start, start-IsValid, running_query, first_worker}

-- Thread 0 has taken the only connection, its query was interrupted, and the reconnect raised.
abbrev one_lost : System
one_lost = record {
  executor = record { available = []; active = []; next_connection = 1; results = [] };
  pc =
      update
        (update
          (update (update (update (λ i. waiting) 0 (acquired 0)) 0 (running 0)) 0 (ran 0 true)) 0
          (left 0 true))
        0 dropped;
  interrupting = [];
}

one_lost-Reach : Reach (λ i. i + 10) 2 1 one_lost
unfolding warm_pool acquire enter_active set_active run_statements delete leave_active pop_active
    release
one_lost-Reach =
    next
      (next
        (next
          (next (next here (acquires 0 0 _ (omega arith) refl refl))
            (enters 0 0 (omega arith) refl))
          (runs 0 0 interrupted (omega arith) refl))
        (leaves 0 0 true (omega arith) refl))
      (releases 0 0 true (some "cannot open file") (omega arith) refl)

pool_conserved_example :
    (length one_lost.executor.available + total has_any 2 one_lost.pc + total has_lost 2 one_lost.pc
      ≡ 1)
    × (times 0 one_lost.executor.available + total (has 0) 2 one_lost.pc ≤ 1)
pool_conserved_example = pool_conserved (λ i. i + 10) 2 1 one_lost 0 one_lost-Reach

wrong_query_interrupted_example :
    (s : System) × (conn : ℕ) × Reach (λ i. i + 10) 2 1 s
    × (s.interrupting ≡ (10, conn) ∷ [])
    × (s.pc 1 ≡ running conn)
    × (get_active 11 s.executor.active ≡ some conn)
    × (s.pc 0 ≡ finished)
wrong_query_interrupted_example =
    wrong_query_interrupted (λ i. i + 10) 2 0 1 (omega arith) (omega arith) (omega arith)

abbrev busy_app : WorkerApp
busy_app = record {
  shutting_down = false;
  max_concurrent_queries = pos 1;
  shutdown_cancel_queries = true;
  query_tasks = record { query_id = 11; done = false } ∷ [];
}

abbrev idle_app : WorkerApp
idle_app = record busy_app { query_tasks = [] }

abbrev dispatched : Claimed
dispatched = claim_of running_query first_worker

dispatch-run_query_example :
    let ran = run_query busy_app 11 in
    let outcome = handle_response (response_of ran.0) dispatched start in
    (Taken busy_app ran 11 × (outcome ≡ (true, start)))
    ⊎ (Refused busy_app ran × GivenBack outcome 11)
dispatch-run_query_example =
    dispatch-run_query busy_app dispatched start first_worker running_query start-IsValid
      (unfold fetch in refl) (unfold get_query fetch in refl) refl refl refl

outcome_recorded_example :
    let after = execute_query (coordinator_complete 800) busy_app 11 (result (some 3)) start in
    (any (λ task. task.query_id == 11) after.0.query_tasks ≡ false)
    × (r : Query) × (get_query after.1 11 ≡ some r)
    × Stored 800 (result (some 3)) (some 1) running_query.started_at running_query r
outcome_recorded_example =
    outcome_recorded busy_app 11 800 (result (some 3)) start running_query (tt, tt) start-IsValid
      (unfold get_query fetch in refl) refl
