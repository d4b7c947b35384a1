-- ===== src/System/Lost.antt =====
-- worker/routes.py: `_report_completion` meets httpx.HTTPError, which is logged, and its task ends;
-- db/queries.py: what the heartbeats of the worker and the sweeps make of it.
use duck_launcher.Base.{
  ℕ, ℤ, ◌+◌, ◌*◌, ◌≡◌, ◌≤◌, refl, ap, ◌∙◌, subst, inl, inr, Bool, true, false, not, ◌&&◌, ◌==◌,
  ==_refl, Option, some, List, [], ◌∷◌, All, any, le→leb, arith, coalesce, coalesce_opt, get_elem?,
  remove_at, Bool-cases, if◌then◌else◌, get_elem?-replace_at, remove_at-replace_at,
}
use duck_launcher.Db.{Db, Worker, WorkerStatus, Query, has_worker_id, has_query_id}
use duck_launcher.Table.{fetch}
use duck_launcher.Table.Update.{fetch-update, fetch-test, All-fetch}
use duck_launcher.Queries.Life.{get_query}
use duck_launcher.Queries.Workers.{heartbeat_worker}
use duck_launcher.Queries.Stale.{is_stale, is_fresh, reverted_row, is_swept}
use duck_launcher.Lifecycle.Phase.{worker_exists}
use duck_launcher.Lifecycle.Calls.{Call, heartbeat, sweep, step, run}
use duck_launcher.Lifecycle.Valid.{IsValid, step-IsValid}
use duck_launcher.Recovery.Swept.{get_query-sweep, goes_back}
use duck_launcher.Worker.Executor.{Execution}
use duck_launcher.System.Nodes.{Job, reporting, ending, to_stage, end_job}
use duck_launcher.System.Steps.{System, Step, Reach, with_node}

-- A heartbeat of a worker at `now`, and the next sweep, which reads the clock at `utcnow`.
pub record Beat : Type 0 where
  pub now : ℕ
  pub utcnow : ℕ
  pub cpus : Option ℤ
  pub memory : Option ℤ
  pub disk_space : Option ℤ
  pub status : Option WorkerStatus
  pub memory_used_mb : Option ℤ
  pub cpu_usage : Option ℕ

abbrev pub InTime : ℕ → Beat → Type 0
InTime stale b = b.utcnow ≤ b.now + stale * 1000000

abbrev heartbeat_of : ℕ → Beat → Call
heartbeat_of w b =
    heartbeat b.now w b.cpus b.memory b.disk_space b.status b.memory_used_mb b.cpu_usage

abbrev pub calls_of : ℕ → ℕ → List Beat → List Call
calls_of w stale [] = []
calls_of w stale (b ∷ beats) = heartbeat_of w b ∷ sweep b.utcnow stale ∷ calls_of w stale beats

any-fetch :
    (k : ℕ) (ws : List Worker)
    → any (has_worker_id k) ws ≡ true
    → (u : Worker) × (fetch (has_worker_id k) ws ≡ some u)
unfolding fetch
any-fetch k [] h = cc
any-fetch k (u ∷ ws) h = elim (Bool-cases (u.worker_id == k)) [
  | inl e ↦ (u, rw e refl)
  | inr e ↦ let (v, found) = any-fetch k ws (ground arith) in (v, rw e found)
]

-- The SET of a heartbeat.
abbrev beaten : Beat → Worker → Worker
beaten b u = record u {
  last_heartbeat_at = b.now;
  cpus = coalesce b.cpus u.cpus;
  memory = coalesce b.memory u.memory;
  disk_space = coalesce b.disk_space u.disk_space;
  status = coalesce b.status u.status;
  memory_used_mb = coalesce_opt b.memory_used_mb u.memory_used_mb;
  cpu_usage = coalesce_opt b.cpu_usage u.cpu_usage;
}

not_back : (swept other : Bool) → ((swept && not true) && other) ≡ false
not_back true other = refl
not_back false other = refl

module _ (db : Db) (k w : ℕ) (q : Query) (v : IsValid db) (found : get_query db k ≡ some q)
    (on : q.worker_id ≡ some w) where
  -- A query in a valid table refers to a worker that is there.
  there : (u : Worker) × (fetch (has_worker_id w) db.workers ≡ some u)
  there =
      let row = (All-fetch _ (has_query_id k) db.queries q v.rows (unfold get_query in found)).0 in
      any-fetch w db.workers (subst (λ o. worker_exists db.workers o ≡ true) on row.refers)

  beat_row :
      (b : Beat)
      → (u : Worker) × (fetch (has_worker_id w) (step (heartbeat_of w b) db).workers ≡ some u)
        × (u.last_heartbeat_at ≡ b.now)
  beat_row b =
      unfold step heartbeat_worker in
      let (u, at) = there in
      (
        beaten b u,
        fetch-update (λ x. x.worker_id) w (has_worker_id w) (beaten b) db.workers (λ x. refl)
            ∙ rw (at, fetch-test (has_worker_id w) db.workers u at),
        refl,
      )

  beat_kept :
      (stale : ℕ) (b : Beat)
      → InTime stale b
      → get_query (step (sweep b.utcnow stale) (step (heartbeat_of w b) db)) k ≡ some q
  beat_kept stale b in_time =
      let beat = step (heartbeat_of w b) db in
      let (u, at, beats_at) = beat_row b in
      let found' : get_query beat k ≡ some q = unfold get_query step heartbeat_worker in found in
      let fresh : is_fresh b.utcnow stale u ≡ true =
        unfold is_fresh in rw beats_at (le→leb b.utcnow (b.now + stale * 1000000) in_time) in
      let stays : goes_back beat b.utcnow stale q ≡ false =
        rw (on, at) (unfold is_stale in rw fresh (not_back (is_swept u.status) _)) in
      unfold step in
      get_query-sweep beat b.utcnow stale k q (step-IsValid (heartbeat_of w b) db v) found'
      ∙ ap (λ back. some (if back then reverted_row q else q)) stays

module _ (w stale k : ℕ) (q : Query) (on : q.worker_id ≡ some w) where
  beats_kept :
      (beats : List Beat) (db : Db)
      → IsValid db
      → get_query db k ≡ some q
      → All (InTime stale) beats
      → get_query (run (calls_of w stale beats) db) k ≡ some q
  unfolding run
  beats_kept [] db v found in_time = found
  beats_kept (b ∷ beats) db v found in_time =
      let beat = heartbeat_of w b in
      let after = step-IsValid beat db v in
      beats_kept beats (step (sweep b.utcnow stale) (step beat db))
        (step-IsValid (sweep b.utcnow stale) (step beat db) after)
        (beat_kept db k w q v found on stale b in_time.0) in_time.1

-- Heartbeats and sweeps are steps of the system.
beats_reach :
    (w stale : ℕ) (beats : List Beat) (s t : System)
    → Reach s t
    → Reach s (record t { db = run (calls_of w stale beats) t.db })
unfolding run
beats_reach w stale [] s t reached = reached
beats_reach w stale (b ∷ beats) s t reached = beats_reach w stale beats s _ (
    Reach.later (Reach.later reached (Step.call (heartbeat_of w b) refl))
      (Step.call (sweep b.utcnow stale) refl))

-- From any state with a valid database where a task of worker w is at its report and its query runs
-- on w in the table: the report may be lost and the task end, and whatever number of heartbeats of w
-- and sweeps follow, each sweep within the limit after its heartbeat, a state can be reached where w
-- has one task less and the query still runs on w in the table.
pub lost_report_strands :
    (s : System) (w i stale : ℕ) (job : Job) (e : Execution) (q : Query) (beats : List Beat)
    → IsValid s.db
    → get_elem? (s.nodes w).jobs i ≡ some job
    → job.stage ≡ reporting e
    → get_query s.db job.query_id ≡ some q
    → q.worker_id ≡ some w
    → All (InTime stale) beats
    → (t : System) × Reach s t
      × (t.db ≡ run (calls_of w stale beats) s.db)
      × (get_query t.db job.query_id ≡ some q)
      × ((t.nodes w).jobs ≡ remove_at i (s.nodes w).jobs)
lost_report_strands s w i stale job e q beats v at stage found on in_time =
    let lost = with_node w (to_stage ending i job (s.nodes w)) s in
    let ended : Job = record job { stage = ending } in
    let left = with_node w (end_job i ended (lost.nodes w)) lost in
    let still : get_elem? (lost.nodes w).jobs i ≡ some ended =
      rw (==_refl w) (get_elem?-replace_at i ended (s.nodes w).jobs job at) in
    (
      record left { db = run (calls_of w stale beats) s.db },
      beats_reach w stale beats s left (
          Reach.later (Reach.later Reach.here (Step.loses_report w i job e at stage))
            (Step.ends w i ended still)),
      refl,
      beats_kept w stale job.query_id q on beats s.db v found in_time,
      unfold end_job in rw (==_refl w) (remove_at-replace_at i ended (s.nodes w).jobs),
    )
