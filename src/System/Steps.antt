-- ===== src/System/Steps.antt =====
-- The steps of the whole system: the database, the worker processes, and the messages between them.
-- A POST of a worker id's endpoint reaches the process of that id, and only the tasks of the workers
-- report completions.
use duck_launcher.Base.{
  ℕ, ◌≡◌, Bool, true, false, ◌==◌, Option, none, some, String, List, [], ◌∷◌, get_elem?, remove_at,
  if◌then◌else◌,
}
use duck_launcher.Db.{Db}
use duck_launcher.Queries.Claim.{Claimed, claim_pending_query, claim_query_by_id}
use duck_launcher.Lifecycle.Calls.{Call, complete, claim, claim_by_id, step}
use duck_launcher.Scheduler.{Response, handle_response, dispatch_payload}
use duck_launcher.Scheduler.Dispatch.{is_accepted}
use duck_launcher.Worker.Executor.{Execution}
use duck_launcher.Worker.Handlers.{WorkerApp, completion}
use duck_launcher.Worker.Dispatches.{response_of}
use duck_launcher.Worker.Reports.{coordinator_complete}
use duck_launcher.System.Nodes.{Node, Job, executing, reporting, ending, accept, to_stage, end_job}

-- An execution that has ended: where, of which query, with which text, and how.
pub record Run : Type 0 where
  pub worker_id : ℕ
  pub query_id : ℕ
  pub query : String
  pub execution : Execution

-- `sent` are dispatches on the way to a worker, `abandoned` those that the scheduler waits for no
-- more, though they may still arrive, and `answers` those that the scheduler is to handle. `log` is
-- no part of the program: it holds the executions, the latest first.
pub record System : Type 0 where
  pub db : Db
  pub nodes : ℕ → Node
  pub sent : List Claimed
  pub abandoned : List Claimed
  pub answers : List (Claimed × Response)
  pub log : List Run

abbrev pub set_node : ℕ → Node → (ℕ → Node) → ℕ → Node
set_node worker_id node nodes k = if k == worker_id then node else nodes k

-- The calls that neither claim nor complete a query.
abbrev pub is_other : Call → Bool
is_other (complete _ _ _ _ _) = false
is_other (claim _ _ _ _) = false
is_other (claim_by_id _ _ _ _ _) = false
is_other _ = true

-- What a claim leaves: its dispatch is sent.
abbrev pub sends : Option Claimed → List Claimed → List Claimed
sends none sent = sent
sends (some claimed) sent = claimed ∷ sent

abbrev pub claimed_by : Option Claimed × Db → System → System
claimed_by (claimed, db) s = record s { db = db; sent = sends claimed s.sent }

-- The worker's answer to a dispatch that reaches it.
abbrev pub arrival : Claimed → System → Response
arrival c s = response_of (accept (s.nodes c.worker_id) (dispatch_payload c)).0

abbrev pub arrived : Claimed → (ℕ → Node) → ℕ → Node
arrived c nodes = set_node c.worker_id (accept (nodes c.worker_id) (dispatch_payload c)).1 nodes

abbrev pub with_node : ℕ → Node → System → System
with_node w node s = record s { nodes = set_node w node s.nodes }

pub data Step (s : System) : System → Type 0 where
  -- any other call: of a route, of the sweep, of a worker
  call : (c : Call) → is_other c ≡ true → Step s (record s { db = step c s.db })
  claims :
      (locked : ℕ → Bool) (utcnow now stale : ℕ)
      → Step s (claimed_by (claim_pending_query s.db locked utcnow now stale) s)
  claims_id :
      (locked : ℕ → Bool) (utcnow now id stale : ℕ)
      → Step s (claimed_by (claim_query_by_id s.db locked utcnow now id stale) s)
  arrives :
      (i : ℕ) (c : Claimed)
      → get_elem? s.sent i ≡ some c
      → Step s (record s {
        nodes = arrived c s.nodes;
        sent = remove_at i s.sent;
        answers = (c, arrival c s) ∷ s.answers;
      })
  -- The POST ends without the worker's answer: with httpx.HTTPError, or with one of a proxy.
  gives_up :
      (i : ℕ) (c : Claimed) (r : Response)
      → get_elem? s.sent i ≡ some c
      → is_accepted r ≡ false
      → Step s (record s {
        sent = remove_at i s.sent;
        abandoned = c ∷ s.abandoned;
        answers = (c, r) ∷ s.answers;
      })
  arrives_late :
      (i : ℕ) (c : Claimed)
      → get_elem? s.abandoned i ≡ some c
      → Step s (record s { nodes = arrived c s.nodes; abandoned = remove_at i s.abandoned })
  -- The answer is lost on its way to the scheduler.
  loses_answer :
      (i : ℕ) (c : Claimed) (r lost : Response)
      → get_elem? s.answers i ≡ some (c, r)
      → is_accepted lost ≡ false
      → Step s (record s { answers = (c, lost) ∷ remove_at i s.answers })
  settles :
      (i : ℕ) (c : Claimed) (r : Response)
      → get_elem? s.answers i ≡ some (c, r)
      → Step s (record s { db = (handle_response r c s.db).1; answers = remove_at i s.answers })
  executes :
      (w i : ℕ) (job : Job) (e : Execution)
      → get_elem? (s.nodes w).jobs i ≡ some job
      → job.stage ≡ executing
      → Step s (record s {
        nodes = set_node w (to_stage (reporting e) i job (s.nodes w)) s.nodes;
        log =
            record { worker_id = w; query_id = job.query_id; query = job.query; execution = e }
            ∷ s.log;
      })
  reports :
      (w i now : ℕ) (job : Job) (e : Execution)
      → get_elem? (s.nodes w).jobs i ≡ some job
      → job.stage ≡ reporting e
      → Step s (record s {
        db = coordinator_complete now job.query_id (completion e) s.db;
        nodes = set_node w (to_stage ending i job (s.nodes w)) s.nodes;
      })
  -- httpx.HTTPError in `_report_completion`, which is logged
  loses_report :
      (w i : ℕ) (job : Job) (e : Execution)
      → get_elem? (s.nodes w).jobs i ≡ some job
      → job.stage ≡ reporting e
      → Step s (with_node w (to_stage ending i job (s.nodes w)) s)
  -- A task ends: after its report, or where the shutdown cancels it.
  ends :
      (w i : ℕ) (job : Job)
      → get_elem? (s.nodes w).jobs i ≡ some job
      → Step s (with_node w (end_job i job (s.nodes w)) s)
  shuts_down :
      (w : ℕ)
      → Step s (
          with_node w
            (record (s.nodes w) { app = record (s.nodes w).app { shutting_down = true } })
            s)
  -- The process ends, and another one starts.
  restarts :
      (w : ℕ) (app : WorkerApp)
      → app.query_tasks ≡ []
      → Step s (with_node w (record { app = app; jobs = [] }) s)

-- A new installation: no queries, no tasks, nothing under way.
pub record IsNew (s : System) : Type 0 where
  pub no_workers : s.db.workers ≡ []
  pub no_queries : s.db.queries ≡ []
  pub no_jobs : (w : ℕ) → (s.nodes w).jobs ≡ []
  pub no_tasks : (w : ℕ) → (s.nodes w).app.query_tasks ≡ []
  pub none_sent : s.sent ≡ []
  pub none_abandoned : s.abandoned ≡ []
  pub no_answers : s.answers ≡ []
  pub no_log : s.log ≡ []

pub data Reach (s : System) : System → Type 0 where
  here : Reach s s
  later : {t u : System} → Reach s t → Step t u → Reach s u
