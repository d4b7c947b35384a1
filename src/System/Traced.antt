-- ===== src/System/Traced.antt =====
-- What goes with a query through worker/routes.py, coordinator/scheduler.py and db/queries.py: its
-- text, and what its executions give.
use duck_launcher.Base.{
  ℕ, ◌≡◌, inl, inr, ◌==◌, some, List, ◌∷◌, All, All-append, All-mono, All-get_elem?, All-replace_at,
  get_elem?, Bool-cases,
}
use duck_launcher.Db.{Db}
use duck_launcher.Queries.Claim.{Claimed}
use duck_launcher.Accounts.Auth.{Answer, returned, raised}
use duck_launcher.Lifecycle.Valid.{IsValid}
use duck_launcher.Scheduler.{dispatch_payload}
use duck_launcher.Worker.Handlers.{run_query}
use duck_launcher.System.Nodes.{
  Node, Job, Stage, executing, reporting, ending, accept, created_jobs, to_stage,
}
use duck_launcher.System.Steps.{System, Run, set_node, arrived}
use duck_launcher.System.Calls.{ByCalls, ByPlain, by-IsValid}
use duck_launcher.System.Explained.{Ended, Explained, Ended-more}
use duck_launcher.System.Kept.{run_kept}
use duck_launcher.System.Texts.{HasText, Asks, by-HasText}

-- A task at its report has executed.
abbrev pub Reports : List Run → ℕ → Stage → Type 0
Reports log k executing = Unit
Reports log k (reporting e) = Ended log k e
Reports log k ending = Unit

abbrev pub IsHonest : Db → List Run → Job → Type 0
IsHonest db log job = HasText db job.query_id job.query × Reports log job.query_id job.stage

pub Reports-more :
    (r : Run) (log : List Run) (k : ℕ) (stage : Stage)
    → Reports log k stage
    → Reports (r ∷ log) k stage
Reports-more r log k executing h = tt
Reports-more r log k (reporting e) h = Ended-more r log k e h
Reports-more r log k ending h = tt

-- The executions have the texts of their queries, and the rows are those that the executions give.
pub record AreTraced (db : Db) (log : List Run) : Type 0 where
  pub valid : IsValid db
  pub rows : All (Explained log) db.queries
  pub runs : All (λ r. HasText db r.query_id r.query) log

-- So have the dispatches and the tasks.
pub record IsTraced (s : System) : Type 0 where
  pub tables : AreTraced s.db s.log
  pub sent : All (Asks s.db) s.sent
  pub abandoned : All (Asks s.db) s.abandoned
  pub jobs : (w : ℕ) → All (IsHonest s.db s.log) (s.nodes w).jobs

-- The calls on the database leave the texts as they are.
pub IsTraced-after :
    (s : System) (db : Db)
    → ByCalls s.db db
    → IsTraced s
    → All (Explained s.log) db.queries
    → IsTraced (record s { db = db })
IsTraced-after s db by t rows = record {
  tables = record {
    valid = by-IsValid s.db db by t.tables.valid;
    rows = rows;
    runs = All-mono _ _ s.log (λ r a. by-HasText s.db db _ _ by t.tables.valid a) t.tables.runs;
  };
  sent = All-mono _ _ s.sent (λ c a. by-HasText s.db db _ _ by t.tables.valid a) t.sent;
  abandoned =
      All-mono _ _ s.abandoned (λ c a. by-HasText s.db db _ _ by t.tables.valid a) t.abandoned;
  jobs = λ w.
      All-mono _ _ (s.nodes w).jobs (λ job h. (by-HasText s.db db _ _ by t.tables.valid h.0, h.1))
        (t.jobs w);
}

pub IsTraced-plain :
    (s : System) (db : Db) → ByPlain s.db db → IsTraced s → IsTraced (record s { db = db })
IsTraced-plain s db (cs, same, plain) t =
    IsTraced-after s db (cs, same) t
      (rw same (run_kept s.log cs s.db plain t.tables.valid t.tables.rows))

-- A worker whose tasks are as honest as before may take the place of another.
pub traced_node :
    (s : System) (w : ℕ) (node : Node)
    → All (IsHonest s.db s.log) node.jobs
    → IsTraced s
    → (k : ℕ) → All (IsHonest s.db s.log) (set_node w node s.nodes k).jobs
traced_node s w node honest t k = elim (Bool-cases (k == w)) [
  | inl e ↦ rw e honest
  | inr e ↦ rw e (t.jobs k)
]

pub IsHonest-arrived :
    (s : System) (c : Claimed)
    → Asks s.db c
    → IsTraced s
    → (k : ℕ) → All (IsHonest s.db s.log) (arrived c s.nodes k).jobs
IsHonest-arrived s c asks t =
    traced_node s c.worker_id _
      (unfold accept in by_answer_of (run_query (s.nodes c.worker_id).app c.query_id).0) t
  where
    by_answer_of :
        (a : Answer ℕ)
        → All (IsHonest s.db s.log) (created_jobs a (dispatch_payload c) (s.nodes c.worker_id).jobs)
    by_answer_of (returned k) =
        All-append (IsHonest s.db s.log) (s.nodes c.worker_id).jobs _ (t.jobs c.worker_id)
          ((asks, tt), tt)
    by_answer_of (raised status_code) = t.jobs c.worker_id

module _ (s : System) (t : IsTraced s) where
  pub IsHonest-at :
      (w i : ℕ) (job : Job) → get_elem? (s.nodes w).jobs i ≡ some job → IsHonest s.db s.log job
  IsHonest-at w i job at = All-get_elem? (IsHonest s.db s.log) (s.nodes w).jobs i job (t.jobs w) at

  -- A task goes on to another stage.
  pub IsHonest-staged :
      (w i : ℕ) (job : Job) (stage : Stage)
      → get_elem? (s.nodes w).jobs i ≡ some job
      → Reports s.log job.query_id stage
      → (k : ℕ)
      → All (IsHonest s.db s.log) (set_node w (to_stage stage i job (s.nodes w)) s.nodes k).jobs
  IsHonest-staged w i job stage at reports =
      traced_node s w _
        (All-replace_at (IsHonest s.db s.log) i _ (s.nodes w).jobs
          ((IsHonest-at w i job at).0, reports) (t.jobs w))
        t
