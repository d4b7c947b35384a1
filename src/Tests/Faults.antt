-- ===== src/Tests/Faults.antt =====
-- The whole system at concrete inputs where messages are lost or late, and a query runs twice.
use duck_launcher.System.Refusal.{refusal_takes_all_back}
use duck_launcher.Claiming.Outcome.{claim_of}
use duck_launcher.Queries.Stale.{mark_worker_unreachable, revert_queries}
use duck_launcher.System.Calls.{ended_for_good}
use duck_launcher.Worker.Dispatches.{runs_task}
use duck_launcher.System.Lost.{Beat, calls_of, lost_report_strands}
use duck_launcher.System.Twice.{second_job_unseen, lost_answer_gives_back}
use duck_launcher.Worker.Reports.{coordinator_complete}
use duck_launcher.Queries.Life.{create_query, get_query}
use duck_launcher.Queries.Workers.{register_worker, ready_worker, heartbeat_worker}
use duck_launcher.Table.{fetch, update, count, ends_in_one}
use duck_launcher.Base.{
  ℕ, ◌≡◌, refl, false, none, some, [], ◌∷◌, arith, ◌+ℤ◌, length, suc, List, ◌+◌, true,
}
use duck_launcher.Db.{Query, WorkerStatus, QueryStatus}
use duck_launcher.Queries.Claim.{claim_pending_query, claim_query, worker_for_query}
use duck_launcher.Lifecycle.Calls.{step, run, heartbeat}
use duck_launcher.Scheduler.{answered, handle_response, dispatch_payload, http_error}
use duck_launcher.Worker.Executor.{result}
use duck_launcher.Worker.Handlers.{completion, run_query, running_task_count}
use duck_launcher.System.Nodes.{
  Node, Job, Stage, executing, reporting, ending, accept, to_stage, end_job,
}
use duck_launcher.System.Steps.{System, Step, Reach, claimed_by, arrived, arrival, set_node}
use duck_launcher.Tests.Fixture.{
  unlocked, start, start-IsValid, running_query, done_query, first_worker, waiting_query,
}
use duck_launcher.Tests.System.{idle_node, fresh, dispatch, accepted, job_at, accepted_reached}

-- The query is accepted a second time while its first task executes.
abbrev busy_node : Node
busy_node = record {
  app = record idle_node.app { query_tasks = record { query_id = 10; done = false } ∷ [] };
  jobs = job_at executing ∷ [];
}

second_job_unseen_example :
    let twice = (accept busy_node (dispatch_payload dispatch)).1 in
    let left = end_job 0 (job_at executing) twice in
    (running_task_count twice.app ≡ running_task_count busy_node.app)
    × (length twice.jobs ≡ 2)
    × (suc (running_task_count left.app) ≡ running_task_count busy_node.app)
    × (length left.jobs ≡ 1)
    × (runs_task 10 left.app ≡ false)
second_job_unseen_example =
    second_job_unseen busy_node (dispatch_payload dispatch) (tt, tt) refl
      (unfold accept run_query running_task_count count in refl) 0 (job_at executing)
      (unfold accept run_query running_task_count count in refl) refl

-- The report of the running query of the fixture is lost, and worker 1 goes on for two rounds.
abbrev at_report : System
at_report = record fresh {
  db = start;
  nodes = λ w. record busy_node {
    jobs = record { query_id = 11; query = "SELECT 1"; stage = reporting (result none) } ∷ [];
  };
}

abbrev beat_at : ℕ → Beat
beat_at now = record {
  now = now;
  utcnow = now + 5000000;
  cpus = none;
  memory = none;
  disk_space = none;
  status = some WorkerStatus.running;
  memory_used_mb = none;
  cpu_usage = none;
}

abbrev two_beats : List Beat
two_beats = beat_at 110000000 ∷ beat_at 120000000 ∷ []

lost_report_strands_example :
    (t : System) × Reach at_report t
    × (t.db ≡ run (calls_of 1 30 two_beats) start)
    × (get_query t.db 11 ≡ some running_query)
    × ((t.nodes 1).jobs ≡ [])
lost_report_strands_example =
    lost_report_strands at_report 1 0 30
      (record { query_id = 11; query = "SELECT 1"; stage = reporting (result none) }) (result none)
      running_query two_beats start-IsValid refl refl (unfold get_query fetch in refl) refl
      (omega arith)

-- A dispatch is on its way to a worker without tasks.
abbrev sending : System
sending = record fresh { db = start; sent = claim_of running_query first_worker ∷ [] }

abbrev lost_answer : System
lost_answer = record sending {
  db = (handle_response http_error (claim_of running_query first_worker) start).1;
  nodes = arrived (claim_of running_query first_worker) sending.nodes;
  sent = [];
}

lost_answer_gives_back_example :
    Reach sending lost_answer
    × (arrival (claim_of running_query first_worker) sending ≡ answered 202)
    × ((lost_answer.nodes 1).jobs
        ≡ record { query_id = 11; query = running_query.query; stage = executing } ∷ [])
    × (p : Query) × (get_query lost_answer.db 11 ≡ some p)
    × (p.status ≡ QueryStatus.pending)
    × (p.worker_id ≡ none)
    × (p.started_at ≡ none)
unfolding running_task_count count
lost_answer_gives_back_example =
    lost_answer_gives_back sending 0 (claim_of running_query first_worker) first_worker
      running_query start-IsValid refl (record { up = refl; below = refl }) (unfold fetch in refl)
      refl (unfold get_query fetch in refl) refl refl

-- A late report of a query that has ended.
abbrev late_job : Stage → Job
late_job stage = record { query_id = 12; query = "SELECT 1"; stage = stage }

abbrev before_late : System
before_late = record fresh {
  db = start;
  nodes = λ w. record idle_node { jobs = late_job (reporting (result (some 3))) ∷ [] };
}

abbrev after_late : System
after_late = record before_late {
  db = coordinator_complete 30 12 (completion (result (some 3))) start;
  nodes =
      set_node 1 (to_stage ending 0 (late_job (reporting (result (some 3)))) (before_late.nodes 1))
        before_late.nodes;
}

ended_for_good_example : get_query after_late.db 12 ≡ some done_query
ended_for_good_example =
    ended_for_good before_late after_late 12 done_query
      (Reach.later Reach.here
        (Step.reports 1 0 30 (late_job (reporting (result (some 3)))) (result (some 3)) refl refl))
      start-IsValid (unfold get_query fetch in refl) refl

-- The worker's answer to the dispatch is lost: the worker is marked unreachable, its next heartbeat
-- makes it running again, and the query, which it executes, is claimed for it a second time.
abbrev given_up : System
given_up = record accepted { answers = (dispatch, http_error) ∷ [] }

abbrev beating : System
beating = record given_up {
  db =
      step (heartbeat 12 1 none none none (some WorkerStatus.running) none none)
        ((handle_response http_error dispatch given_up.db).1);
  answers = [];
}

abbrev claimed_again : System
claimed_again = claimed_by (claim_pending_query beating.db unlocked 13 14 30) beating

abbrev accepted_again : System
accepted_again = record claimed_again {
  nodes = arrived dispatch claimed_again.nodes;
  sent = [];
  answers = (dispatch, arrival dispatch claimed_again) ∷ [];
}

twice_reached :
    Reach fresh accepted_again
    × ((accepted_again.nodes 1).jobs ≡ job_at executing ∷ job_at executing ∷ [])
    × (running_task_count (accepted_again.nodes 1).app ≡ 1)
unfolding claim_pending_query claim_query worker_for_query ◌+ℤ◌ fetch update step register_worker
    ready_worker create_query heartbeat_worker handle_response mark_worker_unreachable accept
    run_query running_task_count count ends_in_one revert_queries
twice_reached = (
  Reach.later
      (Reach.later
        (Reach.later
          (Reach.later
            (Reach.later accepted_reached (Step.loses_answer 0 dispatch _ http_error refl refl))
            (Step.settles 0 dispatch http_error refl))
          (Step.call (heartbeat 12 1 none none none (some WorkerStatus.running) none none) refl))
        (Step.claims unlocked 13 14 30))
      (Step.arrives 0 dispatch refl),
  refl,
  refl,
)

-- Worker 1 shuts down while it executes query 11, and a dispatch of query 10 is on its way to it.
abbrev going_down : System
going_down = record fresh {
  db = start;
  nodes = λ w. record busy_node {
    app = record busy_node.app { shutting_down = true };
    jobs = record { query_id = 11; query = "SELECT 1"; stage = executing } ∷ [];
  };
  sent = claim_of waiting_query first_worker ∷ [];
}

abbrev refused : System
refused =
    let c = claim_of waiting_query first_worker in
    record going_down {
      db = (handle_response (arrival c going_down) c going_down.db).1;
      nodes = arrived c going_down.nodes;
      sent = [];
    }

refusal_takes_all_back_example :
    (arrival (claim_of waiting_query first_worker) going_down ≡ answered 503)
    × Reach going_down refused
    × (p : Query) × (get_query refused.db 11 ≡ some p)
    × (p.status ≡ QueryStatus.pending)
    × (p.worker_id ≡ none)
    × (p.started_at ≡ none)
    × ((v : ℕ) → (refused.nodes v).jobs ≡ (going_down.nodes v).jobs)
refusal_takes_all_back_example =
    refusal_takes_all_back going_down 0 11 (claim_of waiting_query first_worker) first_worker
      running_query start-IsValid refl refl (unfold fetch in refl) refl
      (unfold get_query fetch in refl) refl refl
