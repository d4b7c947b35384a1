-- ===== src/System/Limits.antt =====
-- worker/routes.py: how many queries a worker counts as running, and what it does not count.
use duck_launcher.Base.{
  ℕ, ◌+◌, ◌≡◌, ◌≢◌, ◌≤◌, refl, ◌⊎◌, inl, inr, pos, ℤ, Bool, true, false, not, ◌==◌, List, [], ◌∷◌,
  All, leb_ℤ, arith, Bool-cases, subst, sym,
}
use duck_launcher.Table.{count, Unique}
use duck_launcher.Queries.Claim.{Claimed}
use duck_launcher.Worker.Handlers.{
  Task, WorkerApp, running_task_count, set_task, pop_task, run_query,
}
use duck_launcher.Worker.Dispatches.{count-set_task, below_limit}
use duck_launcher.System.Nodes.{Node, accept, end_job}
use duck_launcher.System.Steps.{System, Step, IsNew, Reach, set_node, arrived}

-- The dictionary's keys are distinct, no task in it is done, and where it holds any task, it holds
-- no more than `max_concurrent_queries`.
pub record IsBounded (app : WorkerApp) : Type 0 where
  pub distinct : Unique (λ task. task.query_id) app.query_tasks
  pub bounded :
      (running_task_count app ≡ 0)
      ⊎ (leb_ℤ (pos (running_task_count app)) app.max_concurrent_queries ≡ true)

set_task-All :
    (P : ℕ → Type 0) (k : ℕ) (tasks : List Task)
    → P k
    → All (λ task. P task.query_id) tasks
    → All (λ task. P task.query_id) (set_task k tasks)
unfolding set_task
set_task-All P k [] p h = (p, tt)
set_task-All P k (task ∷ tasks) p h = elim (Bool-cases (task.query_id == k)) [
  | inl e ↦ rw e (p, h.1)
  | inr e ↦ rw e (h.0, set_task-All P k tasks p h.1)
]

pub set_task-Unique :
    (k : ℕ) (tasks : List Task)
    → Unique (λ task. task.query_id) tasks
    → Unique (λ task. task.query_id) (set_task k tasks)
unfolding set_task
set_task-Unique k [] u = (tt, tt)
set_task-Unique k (task ∷ tasks) u = elim (Bool-cases (task.query_id == k)) [
  | inl e ↦ let same : task.query_id ≡ k = ground (arith, e) in rw e (rw (← same) (u.0, u.1))
  | inr e ↦ rw e (
    set_task-All (λ j. j ≢ task.query_id) k tasks (ground (arith, e)) u.0,
    set_task-Unique k tasks u.1,
  )
]

pop_task-All :
    (P : Task → Type 0) (k : ℕ) (tasks : List Task) → All P tasks → All P (pop_task k tasks)
unfolding pop_task
pop_task-All P k [] h = tt
pop_task-All P k (task ∷ tasks) h = elim (Bool-cases (task.query_id == k)) [
  | inl e ↦ rw e h.1
  | inr e ↦ rw e (h.0, pop_task-All P k tasks h.1)
]

pop_task-Unique :
    (k : ℕ) (tasks : List Task)
    → Unique (λ task. task.query_id) tasks
    → Unique (λ task. task.query_id) (pop_task k tasks)
unfolding pop_task
pop_task-Unique k [] u = tt
pop_task-Unique k (task ∷ tasks) u = elim (Bool-cases (task.query_id == k)) [
  | inl e ↦ rw e u.1
  | inr e ↦ rw e (pop_task-All _ k tasks u.0, pop_task-Unique k tasks u.1)
]

count-pop_task :
    (p : Task → Bool) (k : ℕ) (tasks : List Task) → count p (pop_task k tasks) ≤ count p tasks
unfolding pop_task count
count-pop_task p k [] = omega arith
count-pop_task p k (task ∷ tasks) = ground (arith, count-pop_task p k tasks)

empty-IsBounded : (app : WorkerApp) → app.query_tasks ≡ [] → IsBounded app
unfolding running_task_count count
empty-IsBounded app none_left = record {
  distinct = rw none_left tt;
  bounded = inl (rw none_left refl);
}

count_after_set :
    (app : WorkerApp) (k : ℕ)
    → count (λ task. not task.done) (set_task k app.query_tasks) ≤ running_task_count app + 1
unfolding running_task_count
count_after_set app k = count-set_task k app.query_tasks

still_below :
    (limit : ℤ) (m n : ℕ)
    → m ≤ n
    → (n ≡ 0) ⊎ (leb_ℤ (pos n) limit ≡ true)
    → (m ≡ 0) ⊎ (leb_ℤ (pos m) limit ≡ true)
still_below limit m n le (inl z) = inl (omega arith)
still_below limit m n le (inr h) = inr (ground arith)

pop-IsBounded :
    (app : WorkerApp) (k : ℕ)
    → IsBounded app
    → IsBounded (record app { query_tasks = pop_task k app.query_tasks })
unfolding running_task_count
pop-IsBounded app k b = record {
  distinct = pop_task-Unique k app.query_tasks b.distinct;
  bounded =
      still_below app.max_concurrent_queries _ _
        (count-pop_task (λ task. not task.done) k app.query_tasks) b.bounded;
}

pub taken_app :
    (app : WorkerApp) (k : ℕ)
    → app.shutting_down ≡ false
    → leb_ℤ app.max_concurrent_queries (pos (running_task_count app)) ≡ false
    → (run_query app k).1 ≡ record app { query_tasks = set_task k app.query_tasks }
unfolding run_query
taken_app app k up free = rw (up, free) refl

run_query-IsBounded : (app : WorkerApp) (k : ℕ) → IsBounded app → IsBounded (run_query app k).1
unfolding run_query
run_query-IsBounded app k b = elim (Bool-cases app.shutting_down) [
  | inl down ↦ let same : (run_query app k).1 ≡ app = rw down refl in subst IsBounded (sym same) b
  | inr up ↦ elim (Bool-cases (leb_ℤ app.max_concurrent_queries (pos (running_task_count app)))) [
    | inl full ↦
        let same : (run_query app k).1 ≡ app = rw (up, full) refl in subst IsBounded (sym same) b
    | inr free ↦
        rw (up, free)
          (record {
            distinct = set_task-Unique k app.query_tasks b.distinct;
            bounded = inr (below_limit app.max_concurrent_queries _ _ free (count_after_set app k));
          })
  ]
]

-- A step of the system keeps the bound of each worker.
IsBounded-set_node :
    (w k : ℕ) (node : Node) (nodes : ℕ → Node)
    → IsBounded node.app
    → IsBounded (nodes k).app
    → IsBounded (set_node w node nodes k).app
IsBounded-set_node w k node nodes changed same = elim (Bool-cases (k == w)) [
  | inl e ↦ rw e changed
  | inr e ↦ rw e same
]

IsBounded-arrived :
    (c : Claimed) (nodes : ℕ → Node) (k : ℕ)
    → ((w : ℕ) → IsBounded (nodes w).app)
    → IsBounded (arrived c nodes k).app
IsBounded-arrived c nodes k b =
    IsBounded-set_node c.worker_id k _ nodes
      (unfold accept in run_query-IsBounded (nodes c.worker_id).app c.query_id (b c.worker_id))
      (b k)

Step-IsBounded :
    {s t : System}
    → Step s t
    → ((w : ℕ) → IsBounded (s.nodes w).app)
    → (k : ℕ) → IsBounded (t.nodes k).app
Step-IsBounded (Step.call c other) b k = b k
Step-IsBounded (Step.claims locked utcnow now stale) b k = b k
Step-IsBounded (Step.claims_id locked utcnow now id stale) b k = b k
Step-IsBounded (Step.settles i c r at) b k = b k
Step-IsBounded (Step.gives_up i c r at lost) b k = b k
Step-IsBounded (Step.loses_answer i c r lost at refused) b k = b k
Step-IsBounded {s} (Step.arrives i c at) b k = IsBounded-arrived c s.nodes k b
Step-IsBounded {s} (Step.arrives_late i c at) b k = IsBounded-arrived c s.nodes k b
Step-IsBounded {s} (Step.reports w i now job e at stage) b k =
    IsBounded-set_node w k _ s.nodes (b w) (b k)
Step-IsBounded {s} (Step.executes w i job e at stage) b k =
    IsBounded-set_node w k _ s.nodes (b w) (b k)
Step-IsBounded {s} (Step.loses_report w i job e at stage) b k =
    IsBounded-set_node w k _ s.nodes (b w) (b k)
Step-IsBounded {s} (Step.shuts_down w) b k =
    IsBounded-set_node w k _ s.nodes
      (unfold running_task_count in record { distinct = (b w).distinct; bounded = (b w).bounded })
      (b k)
Step-IsBounded {s} (Step.ends w i job at) b k =
    IsBounded-set_node w k _ s.nodes
      (unfold end_job in pop-IsBounded (s.nodes w).app job.query_id (b w)) (b k)
Step-IsBounded {s} (Step.restarts w app none_left) b k =
    IsBounded-set_node w k _ s.nodes (empty-IsBounded app none_left) (b k)

-- In every state that a new installation reaches, each worker's dictionary of tasks has distinct
-- keys, and where the worker counts any running task, it counts no more than its maximum.
pub tasks-IsBounded : (s t : System) (w : ℕ) → Reach s t → IsNew s → IsBounded (t.nodes w).app
tasks-IsBounded s t w Reach.here new = empty-IsBounded (s.nodes w).app (new.no_tasks w)
tasks-IsBounded s u w (Reach.later {t} before last) new =
    Step-IsBounded last (λ k. tasks-IsBounded s t k before new) w
