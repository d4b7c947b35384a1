-- ===== src/System/Progress.antt =====
-- The way of a query when nothing is lost: coordinator/scheduler.py, worker/routes.py and
-- coordinator/routes.py, from the claim to the row of the end.
use duck_launcher.System.Calls.{reached-IsValid}
use duck_launcher.Table.{fetch}
use duck_launcher.Queries.Notify.{notify_query_status}
use duck_launcher.Routes.Submit.{complete_query_route}
use duck_launcher.Lifecycle.Reports.{complete_query_lem}
use duck_launcher.Base.{
  ℕ, ◌≡◌, refl, ap, ◌∙◌, subst, pos, Bool, false, ==_refl, some, [], ◌∷◌, ◌++◌, leb_ℤ, length,
  get_elem?, replace_at, remove_at, get_elem?-replace_at, remove_at-replace_at, get_elem?-append,
  remove_at-append, All-intro, none,
}
use duck_launcher.Db.{Db, Worker, Query, has_query_id}
use duck_launcher.Models.{to_status}
use duck_launcher.Queries.Life.{get_query, completed_row}
use duck_launcher.Queries.Claim.{
  Claimed, claimed_row, claim_pending_query, oldest_pending, worker_for_query,
}
use duck_launcher.Claiming.Oldest.{oldest_fetched, claimable_pending, oldest_sound}
use duck_launcher.Claiming.Outcome.{claim_of, placed, claim_query_lem, row_placed}
use duck_launcher.Lifecycle.Valid.{IsValid}
use duck_launcher.Accounts.Auth.{returned}
use duck_launcher.Scheduler.{handle_response, dispatch_payload, DispatchPayload}
use duck_launcher.Worker.Executor.{Execution, result, query_cancelled, failed}
use duck_launcher.Worker.Handlers.{WorkerApp, running_task_count, run_query, completion}
use duck_launcher.Worker.Reports.{
  coordinator_complete, Stored, Tells, completed_row-Stored, active_row_unended,
}
use duck_launcher.System.Nodes.{Node, Job, executing, reporting, ending, accept, to_stage, end_job}
use duck_launcher.System.Steps.{
  System, Step, Reach, set_node, arrived, arrival, with_node, claimed_by,
}

-- A worker that is not shutting down and counts fewer tasks than its maximum.
pub record IsFree (app : WorkerApp) : Type 0 where
  pub up : app.shutting_down ≡ false
  pub below : leb_ℤ app.max_concurrent_queries (pos (running_task_count app)) ≡ false

abbrev pub job_of : DispatchPayload → Job
job_of body = record { query_id = body.query_id; query = body.query; stage = executing }

-- What changes while a task goes from its creation to its end: its worker and the database.
abbrev SameWires : System → System → Type 0
SameWires s t = (t.sent ≡ s.sent) × (t.answers ≡ s.answers) × (t.abandoned ≡ s.abandoned)

-- A task that executes can come to its end, with any result, and be reported.
run_to_end :
    (s t : System) (w i now : ℕ) (job : Job) (e : Execution)
    → Reach s t
    → get_elem? (t.nodes w).jobs i ≡ some job
    → job.stage ≡ executing
    → (u : System) × Reach s u
      × (u.db ≡ coordinator_complete now job.query_id (completion e) t.db)
      × ((u.nodes w).jobs ≡ remove_at i (t.nodes w).jobs)
      × SameWires t u
run_to_end s t w i now job e reached at begins =
    let started = record job { stage = reporting e } in
    let ended = record job { stage = ending } in
    let a = record t {
      nodes = set_node w (to_stage (reporting e) i job (t.nodes w)) t.nodes;
      log =
          record { worker_id = w; query_id = job.query_id; query = job.query; execution = e }
          ∷ t.log;
    } in
    let at_report : get_elem? (a.nodes w).jobs i ≡ some started =
      rw (==_refl w) (get_elem?-replace_at i started (t.nodes w).jobs job at) in
    let b = record a {
      db = coordinator_complete now job.query_id (completion e) t.db;
      nodes = set_node w (to_stage ending i started (a.nodes w)) a.nodes;
    } in
    let at_end : get_elem? (b.nodes w).jobs i ≡ some ended = rw (==_refl w) (
      get_elem?-replace_at i ended (replace_at i started (t.nodes w).jobs) started
        (get_elem?-replace_at i started (t.nodes w).jobs job at)) in
    (
      with_node w (end_job i ended (b.nodes w)) b,
      Reach.later
          (Reach.later (Reach.later reached (Step.executes w i job e at begins))
            (Step.reports w i now started e at_report refl))
          (Step.ends w i ended at_end),
      refl,
      unfold end_job in
          rw (==_refl w) (
            remove_at-replace_at i ended (replace_at i started (t.nodes w).jobs)
            ∙ remove_at-replace_at i started (t.nodes w).jobs),
      (refl, refl, refl),
    )

pub accepted :
    (node : Node) (body : DispatchPayload)
    → IsFree node.app
    → ((accept node body).0 ≡ returned body.query_id)
      × ((accept node body).1.jobs ≡ node.jobs ++ job_of body ∷ [])
accepted node body free =
    unfold accept in
    let ran : (run_query node.app body.query_id).0 ≡ returned body.query_id =
      unfold run_query in rw (free.up, free.below) refl in
    (ran, rw ran refl)

-- A dispatch that a free worker accepts starts a task of its query.
accepted_dispatch :
    (s t : System) (c : Claimed)
    → Reach s t
    → get_elem? t.sent 0 ≡ some c
    → IsFree (t.nodes c.worker_id).app
    → Reach s (record t { nodes = arrived c t.nodes; sent = remove_at 0 t.sent })
accepted_dispatch s t c reached sent free =
    let settled : (handle_response (arrival c t) c t.db).1 ≡ t.db =
      unfold handle_response in
      rw (accepted (t.nodes c.worker_id) (dispatch_payload c) free).0 refl in
    subst (λ d. Reach s (record t { db = d; nodes = arrived c t.nodes; sent = remove_at 0 t.sent }))
      settled
      (Reach.later (Reach.later reached (Step.arrives 0 c sent))
        (Step.settles 0 c (arrival c t) refl))

claimed_oldest :
    (db : Db) (locked : ℕ → Bool) (utcnow now stale : ℕ) (p : Query) (w : Worker)
    → IsValid db
    → oldest_pending db locked ≡ some p
    → worker_for_query db utcnow stale p ≡ some w
    → claim_pending_query db locked utcnow now stale ≡ (some (claim_of p w), placed db now p w)
unfolding claim_pending_query
claimed_oldest db locked utcnow now stale p w v oldest room =
    rw (oldest, claim_pending_query)
      (claim_query_lem db utcnow now stale p v (oldest_fetched db locked p v.queries_unique oldest)
        w room)

row_reported :
    (db : Db) (now done : ℕ) (p : Query) (w : Worker) (e : Execution)
    → IsValid db
    → fetch (has_query_id p.query_id) db.queries ≡ some p
    → IsValid (placed db now p w)
    → let body = completion e in
      get_query (coordinator_complete done p.query_id (completion e) (placed db now p w)) p.query_id
      ≡ some (
          completed_row done
            (to_status body.status)
            body.error
            body.result_row_count
            (claimed_row now w.worker_id p))
row_reported db now done p w e v found v' =
    let body = completion e in
    let claimed : get_query (placed db now p w) p.query_id ≡ some (claimed_row now w.worker_id p) =
      unfold get_query notify_query_status in row_placed db 0 now 0 p v found w in
    unfold complete_query_route claimed_row in
    (complete_query_lem (placed db now p w) done p.query_id (to_status body.status) body.error
      body.result_row_count (claimed_row now w.worker_id p) v'.queries_unique claimed).1

-- The row that a claim leaves, once the end of its execution is reported.
claimed-Stored :
    (now done : ℕ) (p : Query) (w : Worker) (e : Execution)
    → p.completed_at ≡ none
    → let body = completion e in
      Stored done e (some w.worker_id) (some now) p (
        completed_row done
          (to_status body.status)
          body.error
          body.result_row_count
          (claimed_row now w.worker_id p))
unfolding claimed_row
claimed-Stored now done p w e unended =
    let stored = completed_row-Stored done e (claimed_row now w.worker_id p) unended in
    record {
      tells = same_Tells e p _ stored.tells;
      completed_at = stored.completed_at;
      worker_id = stored.worker_id;
      started_at = stored.started_at;
      query_id = stored.query_id;
      query = stored.query;
    }
  where
    same_Tells :
        (e : Execution) (p r : Query) → Tells e (claimed_row now w.worker_id p) r → Tells e p r
    same_Tells (result none) p r t = t
    same_Tells (result (some n)) p r t = t
    same_Tells query_cancelled p r t = t
    same_Tells (failed text) p r t = t

-- From a state with a valid database where the claim of the oldest pending query finds a worker, and
-- that worker has a task less than its maximum and is not shutting down: for every end that the
-- execution can have, a state can be reached where the dispatches and answers under way and the tasks
-- of the worker are those of before, and the row of the query, with that worker and the times of the
-- claim and of the report, is completed with the row count, where there is one, failed with the
-- error, or cancelled with the text of a cancellation; a completed row keeps the error that the
-- pending row had.
pub can_be_completed :
    (s : System) (locked : ℕ → Bool) (utcnow now stale done : ℕ) (p : Query) (w : Worker)
    (e : Execution)
    → IsValid s.db
    → oldest_pending s.db locked ≡ some p
    → worker_for_query s.db utcnow stale p ≡ some w
    → IsFree (s.nodes w.worker_id).app
    → (t : System) × (r : Query) × Reach s t
      × (get_query t.db p.query_id ≡ some r)
      × Stored done e (some w.worker_id) (some now) p r
      × (t.sent ≡ s.sent)
      × (t.answers ≡ s.answers)
      × ((t.nodes w.worker_id).jobs ≡ (s.nodes w.worker_id).jobs)
can_be_completed s locked utcnow now stale done p w e v oldest room free =
    let c = claim_of p w in
    let claim : claim_pending_query s.db locked utcnow now stale ≡ (some c, placed s.db now p w) =
      claimed_oldest s.db locked utcnow now stale p w v oldest room in
    let sent : Reach s (record s { db = placed s.db now p w; sent = c ∷ s.sent }) =
      subst (λ r. Reach s (claimed_by r s)) claim
        (Reach.later Reach.here (Step.claims locked utcnow now stale)) in
    let begun : Reach s (record s { db = placed s.db now p w; nodes = arrived c s.nodes }) =
      accepted_dispatch s _ c sent refl free in
    let jobs = (s.nodes w.worker_id).jobs in
    let job = job_of (dispatch_payload c) in
    let grown : (arrived c s.nodes w.worker_id).jobs ≡ jobs ++ job ∷ [] =
      rw (==_refl w.worker_id) (accepted (s.nodes w.worker_id) (dispatch_payload c) free).1 in
    let found = oldest_fetched s.db locked p v.queries_unique oldest in
    let (u, reached, db, left, wires) =
      run_to_end s _ w.worker_id (length jobs) done job e begun
        (ap (λ js. get_elem? js (length jobs)) grown ∙ get_elem?-append jobs job) refl in
    let waits =
      claimable_pending locked p
        (oldest_sound s.db locked (λ _. Unit {0}) p (All-intro _ _ (λ _. tt)) oldest).1 in
    let unended : p.completed_at ≡ none =
      active_row_unended s.db p.query_id p v (unfold get_query in found) (rw waits refl) in
    (
      u,
      _,
      reached,
      ap (λ d. get_query d p.query_id) db
          ∙ row_reported s.db now done p w e v found (reached-IsValid sent v),
      claimed-Stored now done p w e unended,
      wires.0,
      wires.1,
      left ∙ ap (remove_at (length jobs)) grown ∙ remove_at-append jobs job,
    )
