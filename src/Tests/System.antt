-- ===== src/Tests/System.antt =====
-- The whole system at concrete inputs: one worker, one query, and the messages between them.
use duck_launcher.System.Calls.{reached-IsValid, new-IsValid}
use duck_launcher.System.Progress.{can_be_completed}
use duck_launcher.System.Calm.{CalmReach, asks, ran}
use duck_launcher.System.Once.{executed_once}
use duck_launcher.System.Limits.{IsBounded, tasks-IsBounded}
use duck_launcher.System.Provenance.{Executed, Recorded, finished_by_execution}
use duck_launcher.Routes.Submit.{complete_query_route}
use duck_launcher.Worker.Reports.{coordinator_complete, Stored}
use duck_launcher.Queries.Life.{create_query, get_query, complete_query, completed_row}
use duck_launcher.Queries.Workers.{register_worker, ready_worker}
use duck_launcher.Table.{fetch, update, count, ends_in_one, select, order_by}
use duck_launcher.Base.{
  ◌≡◌, ◌+◌, ◌≤◌, refl, pos, false, Option, none, some, [], ◌∷◌, ◌+ℤ◌, String, ℤ, inl, inr,
}
use duck_launcher.Db.{Query, WorkerStatus, QueryStatus}
use duck_launcher.Queries.Claim.{
  Claimed, claim_pending_query, claim_query, worker_for_query, oldest_pending, claimed_row,
}
use duck_launcher.Lifecycle.Calls.{register, ready, create, step}
use duck_launcher.Scheduler.{answered, handle_response}
use duck_launcher.Worker.Executor.{Execution, result}
use duck_launcher.Worker.Handlers.{completion, run_query, running_task_count}
use duck_launcher.System.Nodes.{Node, Job, Stage, executing, reporting, ending, accept, to_stage}
use duck_launcher.System.Steps.{System, Step, Reach, IsNew, claimed_by, arrived, arrival, set_node}
use duck_launcher.Tests.Fixture.{unlocked}

abbrev pub idle_node : Node
idle_node = record {
  app = record {
    shutting_down = false;
    max_concurrent_queries = pos 2;
    shutdown_cancel_queries = false;
    query_tasks = [];
  };
  jobs = [];
}

-- A new installation.
abbrev pub fresh : System
fresh = record {
  db = record { workers = []; users = []; sessions = []; queries = []; sheets = []; channel = [] };
  nodes = λ w. idle_node;
  sent = [];
  abandoned = [];
  answers = [];
  log = [];
}

fresh-IsNew : IsNew fresh
fresh-IsNew = record {
  no_workers = refl;
  no_queries = refl;
  no_jobs = λ w. refl;
  no_tasks = λ w. refl;
  none_sent = refl;
  none_abandoned = refl;
  no_answers = refl;
  no_log = refl;
}

-- Worker 1 registers and is ready, and query 10 is created.
abbrev pub waiting : System
waiting = record fresh {
  db = step (create 10 7 "SELECT 1" none none none none) (
      step (ready 5 1)
        (step (register (some 1) 0 4 "http://w/" (pos 4) (pos 1000) (pos 1000) (pos 2)) fresh.db));
}

waiting_reached : Reach fresh waiting
waiting_reached =
    Reach.later (Reach.later (Reach.later Reach.here (Step.call _ refl)) (Step.call _ refl))
      (Step.call _ refl)

-- The dispatch, and the worker's answer to it.
abbrev pub dispatch : Claimed
dispatch = record {
  query_id = 10;
  query = "SELECT 1";
  cpus = none;
  memory = none;
  disk_space = none;
  worker_id = 1;
  endpoint = "http://w/";
}

abbrev pub claimed : System
claimed = claimed_by (claim_pending_query waiting.db unlocked 6 8 30) waiting

abbrev pub accepted : System
accepted = record claimed {
  nodes = arrived dispatch claimed.nodes;
  sent = [];
  answers = (dispatch, arrival dispatch claimed) ∷ [];
}

pub accepted_reached : Reach fresh accepted
unfolding claim_pending_query claim_query worker_for_query ◌+ℤ◌ fetch update step register_worker
    ready_worker create_query
accepted_reached =
    Reach.later (Reach.later waiting_reached (Step.claims unlocked 6 8 30))
      (Step.arrives 0 dispatch refl)

abbrev pub job_at : Stage → Job
job_at stage = record { query_id = 10; query = "SELECT 1"; stage = stage }

-- The answer is there, the query has executed, and its end is reported.
abbrev pub settled : System
settled = record accepted { answers = [] }

abbrev executed : Execution → System
executed e = record settled {
  nodes = set_node 1 (to_stage (reporting e) 0 (job_at executing) (settled.nodes 1)) settled.nodes;
  log = record { worker_id = 1; query_id = 10; query = "SELECT 1"; execution = e } ∷ [];
}

abbrev reported : Execution → System
reported e = record (executed e) {
  db = coordinator_complete 20 10 (completion e) settled.db;
  nodes =
      set_node 1 (to_stage ending 0 (job_at (reporting e)) ((executed e).nodes 1))
        (executed e).nodes;
}

settled_reached : Reach fresh settled
unfolding claim_pending_query claim_query worker_for_query ◌+ℤ◌ fetch update step register_worker
    ready_worker create_query handle_response accept run_query running_task_count count
settled_reached = Reach.later accepted_reached (Step.settles 0 dispatch (answered 202) refl)

executed_reached : (e : Execution) → Reach fresh (executed e)
unfolding accept run_query running_task_count count
executed_reached e = Reach.later settled_reached (Step.executes 1 0 (job_at executing) e refl refl)

reported_reached : (e : Execution) → Reach fresh (reported e)
unfolding accept run_query running_task_count count
reported_reached e =
    Reach.later (executed_reached e) (Step.reports 1 0 20 (job_at (reporting e)) e refl refl)

waiting_calm : CalmReach fresh waiting
waiting_calm =
    CalmReach.later
      (CalmReach.later (CalmReach.later CalmReach.here (Step.call _ refl) refl) (Step.call _ refl)
        refl)
      (Step.call _ refl) refl

-- The same steps lose nothing and end no worker.
executed_calm : (e : Execution) → CalmReach fresh (executed e)
unfolding claim_pending_query claim_query worker_for_query ◌+ℤ◌ fetch update step register_worker
    ready_worker create_query handle_response accept run_query running_task_count count
executed_calm e =
    CalmReach.later
      (CalmReach.later
        (CalmReach.later (CalmReach.later waiting_calm (Step.claims unlocked 6 8 30) tt)
          (Step.arrives 0 dispatch refl) tt)
        (Step.settles 0 dispatch (answered 202) refl) tt)
      (Step.executes 1 0 (job_at executing) e refl refl) tt

executed_once_example :
    (count (ran 10) (executed (result (some 1))).log ≤ 1)
    × (count (asks 10) (executed (result (some 1))).sent
          + count (ran 10) (executed (result (some 1))).log
        ≤ 1)
executed_once_example =
    executed_once fresh (executed (result (some 1))) 10 (executed_calm (result (some 1)))
      fresh-IsNew (λ w. refl)

abbrev row_of : QueryStatus → Option String → Option ℤ → Query
row_of status error rows = record {
  query_id = 10;
  worker_id = some 1;
  user_id = none;
  status = status;
  query = "SELECT 1";
  error = error;
  cpus = none;
  memory = none;
  disk_space = none;
  created_at = 7;
  started_at = some 8;
  completed_at = some 20;
  result_row_count = rows;
}

finished_by_execution_example :
    (e : Execution) × Executed
      (reported (Execution.failed "no"))
      (row_of QueryStatus.failed (some "no") none)
      e
    × Recorded (row_of QueryStatus.failed (some "no") none) e
unfolding claim_pending_query claim_query worker_for_query ◌+ℤ◌ fetch update step register_worker
    ready_worker create_query complete_query_route complete_query get_query count ends_in_one
finished_by_execution_example =
    finished_by_execution fresh (reported (Execution.failed "no")) 10
      (row_of QueryStatus.failed (some "no") none) (reported_reached (Execution.failed "no"))
      fresh-IsNew refl (inr refl)

-- The execution on the log gives the row count that the table holds.
counted :
    (e : Execution) × Executed
      (reported (result (some 1)))
      (row_of QueryStatus.completed none (some (pos 1)))
      e
    × Recorded (row_of QueryStatus.completed none (some (pos 1))) e
unfolding claim_pending_query claim_query worker_for_query ◌+ℤ◌ fetch update step register_worker
    ready_worker create_query complete_query_route complete_query get_query count ends_in_one
counted =
    finished_by_execution fresh (reported (result (some 1))) 10
      (row_of QueryStatus.completed none (some (pos 1))) (reported_reached (result (some 1)))
      fresh-IsNew refl (inl refl)

tasks-IsBounded_example : IsBounded (accepted.nodes 1).app
tasks-IsBounded_example = tasks-IsBounded fresh accepted 1 accepted_reached fresh-IsNew

can_be_completed_example :
    (t : System) × (r : Query) × Reach waiting t
    × (get_query t.db 10 ≡ some r)
    × Stored 20
        (result (some 1))
        (some 1)
        (some 8)
        (record (row_of QueryStatus.pending none none) {
          worker_id = none;
          started_at = none;
          completed_at = none;
        })
        r
    × (t.sent ≡ [])
    × (t.answers ≡ [])
    × ((t.nodes 1).jobs ≡ [])
unfolding oldest_pending worker_for_query claimed_row completed_row fetch update select order_by
    ◌+ℤ◌ step register_worker ready_worker create_query running_task_count count
can_be_completed_example =
    can_be_completed waiting unlocked 6 8 30 20
      (record (row_of QueryStatus.pending none none) {
        worker_id = none;
        started_at = none;
        completed_at = none;
      })
      (record {
        worker_id = 1;
        endpoint = "http://w/";
        status = WorkerStatus.running;
        cpus = pos 4;
        memory = pos 1000;
        disk_space = pos 1000;
        max_concurrent_queries = pos 2;
        memory_used_mb = none;
        cpu_usage = none;
        started_at = 4;
        last_heartbeat_at = 5;
      })
      (result (some 1)) (reached-IsValid waiting_reached (new-IsValid fresh fresh-IsNew)) refl refl
      (record { up = refl; below = refl })
