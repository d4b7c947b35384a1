-- ===== src/System/Twice.antt =====
-- worker/routes.py: a query that a worker accepts while an earlier task of the same query runs.
use duck_launcher.System.Progress.{IsFree, accepted}
use duck_launcher.System.Steps.{System, Step, Reach, arrived, arrival}
use duck_launcher.Scheduler.Dispatch.{failed_dispatch_gives_back}
use duck_launcher.Lifecycle.Valid.{IsValid}
use duck_launcher.Queries.Stale.{is_serving}
use duck_launcher.Queries.Claim.{Claimed}
use duck_launcher.Queries.Life.{get_query}
use duck_launcher.Db.{Worker, Query, running, pending, has_worker_id}
use duck_launcher.Worker.Reports.{pop_task-gone}
use duck_launcher.Base.{
  ℕ, suc, ◌+◌, ◌≡◌, ◌≢◌, refl, inl, inr, pos, Bool, true, false, not, ◌&&◌, ◌==◌, some, List, [],
  ◌∷◌, All, any, leb_ℤ, length, length-append, get_elem?, remove_at, arith, Bool-cases,
  length-remove_at, none, ◌++◌, ==_refl,
}
use duck_launcher.Table.{count, Unique, fetch}
use duck_launcher.Accounts.Auth.{returned}
use duck_launcher.Scheduler.{
  DispatchPayload, http_error, handle_response, answered, dispatch_payload,
}
use duck_launcher.Worker.Handlers.{
  Task, WorkerApp, running_task_count, set_task, pop_task, run_query,
}
use duck_launcher.Worker.Dispatches.{runs_task, set_task-runs}
use duck_launcher.System.Nodes.{Node, Job, accept, end_job, executing}
use duck_launcher.System.Limits.{taken_app, set_task-Unique}

abbrev is_task : ℕ → Task → Bool
is_task k task = task.query_id == k && not task.done

no_task :
    (k : ℕ) (tasks : List Task)
    → All (λ task. task.query_id ≢ k) tasks
    → any (is_task k) tasks ≡ false
no_task k [] h = refl
no_task k (task ∷ tasks) h = ground (arith, h.0, no_task k tasks h.1)

-- A task that is replaced is counted once, and its replacement is taken out once.
module _ (k : ℕ) where
  count-set_task_again :
      (tasks : List Task)
      → Unique (λ task. task.query_id) tasks
      → any (is_task k) tasks ≡ true
      → count (λ task. not task.done) (set_task k tasks) ≡ count (λ task. not task.done) tasks
  unfolding set_task count
  count-set_task_again [] u h = cc
  count-set_task_again (task ∷ tasks) u h = elim (Bool-cases (task.query_id == k)) [
    | inl e ↦
        let same : task.query_id ≡ k = ground (arith, e) in
        let away : any (is_task k) tasks ≡ false = no_task k tasks (rw (← same) u.0) in
        ground (arith, away)
    | inr e ↦ ground (arith, count-set_task_again tasks u.1)
  ]

  count-pop_task_of :
      (tasks : List Task)
      → Unique (λ task. task.query_id) tasks
      → any (is_task k) tasks ≡ true
      → count (λ task. not task.done) (pop_task k tasks) + 1 ≡ count (λ task. not task.done) tasks
  unfolding pop_task count
  count-pop_task_of [] u h = cc
  count-pop_task_of (task ∷ tasks) u h = elim (Bool-cases (task.query_id == k)) [
    | inl e ↦
        let same : task.query_id ≡ k = ground (arith, e) in
        let away : any (is_task k) tasks ≡ false = no_task k tasks (rw (← same) u.0) in
        ground (arith, away)
    | inr e ↦ ground (arith, count-pop_task_of tasks u.1)
  ]

pop_task-idle :
    (k : ℕ) (tasks : List Task)
    → any (λ task. task.query_id == k) tasks ≡ false
    → any (is_task k) tasks ≡ false
pop_task-idle k [] h = refl
pop_task-idle k (task ∷ tasks) h = ground (arith, pop_task-idle k tasks)

-- An accepted query is the one that the handler was asked for.
accepted_app :
    (app : WorkerApp) (k : ℕ)
    → (run_query app k).0 ≡ returned k
    → (run_query app k).1 ≡ record app { query_tasks = set_task k app.query_tasks }
accepted_app app k taken = elim (Bool-cases app.shutting_down) [
  | inl down ↦ absurd (refused_down down)
  | inr up ↦ elim (Bool-cases (leb_ℤ app.max_concurrent_queries (pos (running_task_count app)))) [
    | inl full ↦ absurd (refused_full up full)
    | inr free ↦ taken_app app k up free
  ]
]
  where
    refused_down : app.shutting_down ≡ true → ⊥
    refused_down down = unfold run_query in let h = rw down at taken in cc

    refused_full :
        app.shutting_down ≡ false
        → leb_ℤ app.max_concurrent_queries (pos (running_task_count app)) ≡ true
        → ⊥
    refused_full up full = unfold run_query in let h = rw (up, full) at taken in cc

abbrev job_of : DispatchPayload → Job
job_of body = record { query_id = body.query_id; query = body.query; stage = executing }

module _ (node : Node) (body : DispatchPayload)
    (u : Unique (λ task. task.query_id) node.app.query_tasks)
    (busy : runs_task body.query_id node.app ≡ true)
    (taken : (accept node body).0 ≡ returned body.query_id) where
  app_twice :
      (accept node body).1.app
      ≡ record node.app { query_tasks = set_task body.query_id node.app.query_tasks }
  app_twice = unfold accept in accepted_app node.app body.query_id (unfold accept in taken)

  jobs_twice : length (accept node body).1.jobs ≡ suc (length node.jobs)
  jobs_twice =
      unfold accept in
      let ran : (run_query node.app body.query_id).0 ≡ returned body.query_id =
        unfold accept in taken in
      rw ran (omega (arith, length-append node.jobs (job_of body ∷ [])))

  count_twice : running_task_count (accept node body).1.app ≡ running_task_count node.app
  count_twice =
      unfold running_task_count in
      rw app_twice (count-set_task_again body.query_id node.app.query_tasks u busy)

  -- A worker with distinct task ids that runs a task of a query and accepts the query again has one
  -- task more, but counts as many as before. As soon as either of the two tasks ends, it counts one
  -- less than before and has as many tasks as before: the other one runs on uncounted, under no id.
  pub second_job_unseen :
      (i : ℕ) (job : Job)
      → get_elem? (accept node body).1.jobs i ≡ some job
      → job.query_id ≡ body.query_id
      → let twice = (accept node body).1 in
        let left = end_job i job twice in
        (running_task_count twice.app ≡ running_task_count node.app)
        × (length twice.jobs ≡ suc (length node.jobs))
        × (suc (running_task_count left.app) ≡ running_task_count node.app)
        × (length left.jobs ≡ length node.jobs)
        × (runs_task body.query_id left.app ≡ false)
  second_job_unseen i job at same =
      let tasks = set_task body.query_id node.app.query_tasks in
      let u' = set_task-Unique body.query_id node.app.query_tasks u in
      (
        count_twice,
        jobs_twice,
        unfold end_job running_task_count in
            rw (same, app_twice)
              (omega (
                arith,
                count-pop_task_of body.query_id tasks u'
                    (set_task-runs body.query_id node.app.query_tasks),
                count-set_task_again body.query_id node.app.query_tasks u busy,
              )),
        unfold end_job in
            omega (arith, length-remove_at (accept node body).1.jobs i job at, jobs_twice),
        unfold end_job in
            rw (same, app_twice)
              (pop_task-idle body.query_id (pop_task body.query_id tasks)
                (pop_task-gone body.query_id tasks u')),
      )

-- From a state with a valid database where a dispatch is on its way to a worker that is free, and its
-- query runs on the claimed worker, whose row is running or shutting down: the worker accepts the
-- query with 202 and gets a task that executes it, the answer can be lost, and then what the
-- scheduler makes of httpx.HTTPError leaves the query pending, with no worker and no start, in a
-- state that is reached and where the task is on the worker.
pub lost_answer_gives_back :
    (s : System) (i : ℕ) (c : Claimed) (w : Worker) (q : Query)
    → IsValid s.db
    → get_elem? s.sent i ≡ some c
    → IsFree (s.nodes c.worker_id).app
    → fetch (has_worker_id c.worker_id) s.db.workers ≡ some w
    → is_serving w.status ≡ true
    → get_query s.db c.query_id ≡ some q
    → q.status ≡ running
    → q.worker_id ≡ some c.worker_id
    → let job : Job = record { query_id = c.query_id; query = c.query; stage = executing } in
      let t : System = record s {
        db = (handle_response http_error c s.db).1;
        nodes = arrived c s.nodes;
        sent = remove_at i s.sent;
      } in
      Reach s t
      × (arrival c s ≡ answered 202)
      × ((t.nodes c.worker_id).jobs ≡ (s.nodes c.worker_id).jobs ++ job ∷ [])
      × (p : Query) × (get_query t.db c.query_id ≡ some p)
      × (p.status ≡ pending)
      × (p.worker_id ≡ none)
      × (p.started_at ≡ none)
lost_answer_gives_back s i c w q v sent free there serves found runs on =
    let (taken, jobs) = accepted (s.nodes c.worker_id) (dispatch_payload c) free in
    let (given_up, p, again, waits, off, unstarted) =
      failed_dispatch_gives_back c s.db w q v there found runs on http_error refl (inr serves) in
    (
      Reach.later
          (Reach.later (Reach.later Reach.here (Step.arrives i c sent))
            (Step.loses_answer 0 c (arrival c s) http_error refl refl))
          (Step.settles 0 c http_error refl),
      rw taken refl,
      rw (==_refl c.worker_id) jobs,
      p,
      again,
      waits,
      off,
      unstarted,
    )
