-- ===== src/System/Nodes.antt =====
-- worker/routes.py: a worker process, with the tasks of `_execute_query` that its event loop runs.
use duck_launcher.Base.{ℕ, String, List, [], ◌∷◌, ◌++◌, replace_at, remove_at}
use duck_launcher.Accounts.Auth.{Answer, returned, raised}
use duck_launcher.Scheduler.{DispatchPayload}
use duck_launcher.Worker.Executor.{Execution}
use duck_launcher.Worker.Handlers.{WorkerApp, run_query, pop_task}

-- Where `_execute_query` stands: in the thread that executes, at the POST of `_report_completion`
-- with what the execution gave, or at `finally`.
pub data Stage : Type 0 where
  executing : Stage
  reporting : Execution → Stage
  ending : Stage

pub record Job : Type 0 where
  pub query_id : ℕ
  pub query : String
  pub stage : Stage

-- The dictionary `query_tasks` of the application holds one task for each query id; `jobs` are the
-- tasks of the event loop, in the order in which they were created.
pub record Node : Type 0 where
  pub app : WorkerApp
  pub jobs : List Job

-- asyncio.create_task, where the handler gets so far
abbrev pub created_jobs : Answer ℕ → DispatchPayload → List Job → List Job
created_jobs (returned query_id) body jobs =
    jobs ++ record { query_id = body.query_id; query = body.query; stage = executing } ∷ []
created_jobs (raised status_code) body jobs = jobs

-- The handler of POST /query, with the task that it creates.
unfoldable pub accept : Node → DispatchPayload → Answer ℕ × Node
unfolding run_query
accept node body =
    let ran = run_query node.app body.query_id in
    (ran.0, record { app = ran.1; jobs = created_jobs ran.0 body node.jobs })

abbrev pub to_stage : Stage → ℕ → Job → Node → Node
to_stage stage i job node = record node {
  jobs = replace_at i (record job { stage = stage }) node.jobs;
}

-- `finally: app.state.query_tasks.pop(body.query_id, None)`, the last thing that a task does.
unfoldable pub end_job : ℕ → Job → Node → Node
unfolding pop_task
end_job i job node = record {
  app = record node.app { query_tasks = pop_task job.query_id node.app.query_tasks };
  jobs = remove_at i node.jobs;
}
