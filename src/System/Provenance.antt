-- ===== src/System/Provenance.antt =====
-- From the text that a user has sent to the result that the user reads: worker/routes.py,
-- coordinator/scheduler.py and db/queries.py together.
use duck_launcher.Routes.Submit.{complete_query_route}
use duck_launcher.Worker.Reports.{coordinator_complete}
use duck_launcher.Lifecycle.Calls.{step, claim, claim_by_id, complete, run}
use duck_launcher.Base.{
  ℕ, ◌≡◌, refl, sym, ap, ◌∙◌, subst, inl, inr, ◌==◌, Option, some, List, [], ◌∷◌, All, All-mono,
  All-get_elem?, All-replace_at, All-remove_at, get_elem?, arith, Bool-cases, All-Mem, ◌⊎◌,
}
use mathlib.Core.List.{Memᴰ}
use duck_launcher.Db.{Db, Query, completed, failed, has_query_id}
use duck_launcher.Queries.Life.{get_query}
use duck_launcher.Queries.Claim.{Claimed}
use duck_launcher.Table.Update.{All-fetch}
use duck_launcher.Worker.Executor.{Execution, result, query_cancelled}
use duck_launcher.Worker.Handlers.{row_count_of, completion}
use duck_launcher.System.Nodes.{Job, reporting, ending, to_stage, end_job}
use duck_launcher.System.Steps.{System, Step, Reach, IsNew, Run, set_node, sends}
use duck_launcher.System.Calls.{ByPlain, by_call, by_answer, other_plain, new-IsValid}
use duck_launcher.System.Explained.{Ended, Explained, ExplainedBy, report_kept, Explained-more}
use duck_launcher.System.Texts.{
  HasText, Asks, sends-Asks, claim_pending_query-Asks, claim_query_by_id-Asks,
}
use duck_launcher.System.Traced.{
  IsTraced, IsTraced-plain, IsTraced-after, traced_node, IsHonest-arrived, IsHonest-at,
  IsHonest-staged, Reports, IsHonest, Reports-more,
}

-- The calls of a claim, with the dispatch that it sends.
IsTraced-claim :
    (s : System) (claimed : Option Claimed) (db : Db)
    → ByPlain s.db db
    → ((c : Claimed) → claimed ≡ some c → Asks db c)
    → IsTraced s
    → IsTraced (record s { db = db; sent = sends claimed s.sent })
IsTraced-claim s claimed db by asks t =
    let after = IsTraced-plain s db by t in
    record {
      tables = after.tables;
      sent = sends-Asks db claimed s.sent asks after.sent;
      abandoned = after.abandoned;
      jobs = after.jobs;
    }

-- The end of an execution is put on the log.
IsTraced-run :
    (s : System) (w i : ℕ) (job : Job) (e : Execution)
    → get_elem? (s.nodes w).jobs i ≡ some job
    → IsTraced s
    → IsTraced (record s {
      nodes = set_node w (to_stage (reporting e) i job (s.nodes w)) s.nodes;
      log =
          record { worker_id = w; query_id = job.query_id; query = job.query; execution = e }
          ∷ s.log;
    })
IsTraced-run s w i job e at t =
    let r : Run = record {
      worker_id = w;
      query_id = job.query_id;
      query = job.query;
      execution = e;
    } in
    let longer : (jobs : List Job)
        → All (IsHonest s.db s.log) jobs
        → All (IsHonest s.db (r ∷ s.log)) jobs =
      λ jobs.
        All-mono (IsHonest s.db s.log) (IsHonest s.db (r ∷ s.log)) jobs
          (λ j h. (h.0, Reports-more r s.log j.query_id j.stage h.1)) in
    record {
      tables = record {
        valid = t.tables.valid;
        rows = All-mono _ _ s.db.queries (Explained-more r s.log) t.tables.rows;
        runs = ((IsHonest-at s t w i job at).0, t.tables.runs);
      };
      sent = t.sent;
      abandoned = t.abandoned;
      jobs = λ k. elim (Bool-cases (k == w)) [
        | inl same ↦ rw same (
            All-replace_at (IsHonest s.db (r ∷ s.log)) i _ (s.nodes w).jobs
              ((IsHonest-at s t w i job at).0, (r, Memᴰ.head refl, refl, refl))
              (longer (s.nodes w).jobs (t.jobs w)))
        | inr other ↦ rw other (longer (s.nodes k).jobs (t.jobs k))
      ];
    }

-- The end of an execution is reported.
IsTraced-report :
    (s : System) (w i now : ℕ) (job : Job) (e : Execution)
    → get_elem? (s.nodes w).jobs i ≡ some job
    → Ended s.log job.query_id e
    → IsTraced s
    → IsTraced (record s {
      db = coordinator_complete now job.query_id (completion e) s.db;
      nodes = set_node w (to_stage ending i job (s.nodes w)) s.nodes;
    })
IsTraced-report s w i now job e at ended t =
    let body = completion e in
    let cs = complete now job.query_id body.status body.error body.result_row_count ∷ [] in
    let same : coordinator_complete now job.query_id (completion e) s.db ≡ run cs s.db =
      unfold run step complete_query_route in refl in
    let after =
      IsTraced-after s _ (cs, same) t
        (report_kept s.log s.db now job.query_id e ended t.tables.rows) in
    record {
      tables = after.tables;
      sent = after.sent;
      abandoned = after.abandoned;
      jobs =
          IsHonest-staged
            (record s { db = coordinator_complete now job.query_id (completion e) s.db }) after w i
            job ending at tt;
    }

Step-IsTraced : {s t : System} → Step s t → IsTraced s → IsTraced t
Step-IsTraced {s} (Step.call c other) t =
    IsTraced-plain s _ (by_call s.db c (other_plain c other)) t
Step-IsTraced {s} (Step.claims locked utcnow now stale) t =
    IsTraced-claim s _ _ (unfold step in by_call s.db (claim locked utcnow now stale) refl)
      (λ c e. claim_pending_query-Asks s.db utcnow now stale c locked e) t
Step-IsTraced {s} (Step.claims_id locked utcnow now id stale) t =
    IsTraced-claim s _ _ (unfold step in by_call s.db (claim_by_id locked utcnow now id stale) refl)
      (λ c e. claim_query_by_id-Asks s.db utcnow now stale c locked id e) t
Step-IsTraced {s} (Step.settles i c r at) t =
    let after = IsTraced-plain s _ (by_answer r c s.db) t in
    record {
      tables = after.tables;
      sent = after.sent;
      abandoned = after.abandoned;
      jobs = after.jobs;
    }
Step-IsTraced {s} (Step.arrives i c at) t = record {
  tables = t.tables;
  sent = All-remove_at (Asks s.db) i s.sent t.sent;
  abandoned = t.abandoned;
  jobs = IsHonest-arrived s c (All-get_elem? (Asks s.db) s.sent i c t.sent at) t;
}
Step-IsTraced {s} (Step.gives_up i c r at lost) t = record {
  tables = t.tables;
  sent = All-remove_at (Asks s.db) i s.sent t.sent;
  abandoned = (All-get_elem? (Asks s.db) s.sent i c t.sent at, t.abandoned);
  jobs = t.jobs;
}
Step-IsTraced {s} (Step.arrives_late i c at) t = record {
  tables = t.tables;
  sent = t.sent;
  abandoned = All-remove_at (Asks s.db) i s.abandoned t.abandoned;
  jobs = IsHonest-arrived s c (All-get_elem? (Asks s.db) s.abandoned i c t.abandoned at) t;
}
Step-IsTraced {s} (Step.loses_answer i c r lost at refused) t = record {
  tables = t.tables;
  sent = t.sent;
  abandoned = t.abandoned;
  jobs = t.jobs;
}
Step-IsTraced {s} (Step.executes w i job e at stage) t = IsTraced-run s w i job e at t
Step-IsTraced {s} (Step.reports w i now job e at stage) t =
    IsTraced-report s w i now job e at
      (subst (Reports s.log job.query_id) stage (IsHonest-at s t w i job at).1) t
Step-IsTraced {s} (Step.loses_report w i job e at stage) t = record {
  tables = t.tables;
  sent = t.sent;
  abandoned = t.abandoned;
  jobs = IsHonest-staged s t w i job ending at tt;
}
Step-IsTraced {s} (Step.ends w i job at) t = record {
  tables = t.tables;
  sent = t.sent;
  abandoned = t.abandoned;
  jobs =
      traced_node s w _
        (unfold end_job in All-remove_at (IsHonest s.db s.log) i (s.nodes w).jobs (t.jobs w)) t;
}
Step-IsTraced {s} (Step.shuts_down w) t = record {
  tables = t.tables;
  sent = t.sent;
  abandoned = t.abandoned;
  jobs = traced_node s w _ (t.jobs w) t;
}
Step-IsTraced {s} (Step.restarts w app none_left) t = record {
  tables = t.tables;
  sent = t.sent;
  abandoned = t.abandoned;
  jobs = traced_node s w _ tt t;
}

new-IsTraced : (s : System) → IsNew s → IsTraced s
new-IsTraced s new = record {
  tables = record {
    valid = new-IsValid s new;
    rows = rw new.no_queries tt;
    runs = rw new.no_log tt;
  };
  sent = rw new.none_sent tt;
  abandoned = rw new.none_abandoned tt;
  jobs = λ w. rw (new.no_jobs w) tt;
}

reached-IsTraced : {s t : System} → Reach s t → IsNew s → IsTraced t
reached-IsTraced {s} Reach.here new = new-IsTraced s new
reached-IsTraced (Reach.later before last) new = Step-IsTraced last (reached-IsTraced before new)

some_same {ℓ} : {A : Type ℓ} → (a b : A) → ◌≡◌ {A = Option A} (some a) (some b) → a ≡ b
some_same a b e = cc

-- An execution on the log, of this very text.
abbrev pub Executed : System → Query → Execution → Type 0
Executed s q e =
    (r : Run) × Memᴰ r s.log × (r.query_id ≡ q.query_id) × (r.query ≡ q.query) × (r.execution ≡ e)

Ended-Executed :
    (s : System) (q : Query) (e : Execution)
    → IsTraced s
    → get_query s.db q.query_id ≡ some q
    → Ended s.log q.query_id e
    → Executed s q e
Ended-Executed s q e t found (r, on_log, id, how) =
    let (p, found', text) =
      All-Mem (λ x. HasText s.db x.query_id x.query) s.log r t.tables.runs on_log in
    let again : get_query s.db r.query_id ≡ some q =
      subst (λ k. get_query s.db k ≡ some q) (sym id) found in
    let same : p ≡ q = some_same p q (sym found' ∙ again) in
    (r, on_log, id, sym text ∙ ap (λ x. x.query) same, how)

-- The row of a query, in a state that a new installation reaches.
explained_row :
    (s t : System) (k : ℕ) (q : Query)
    → Reach s t
    → IsNew s
    → get_query t.db k ≡ some q
    → IsTraced t × (get_query t.db q.query_id ≡ some q) × Explained t.log q
explained_row s t k q reached new found =
    let traced = reached-IsTraced reached new in
    let (row, named) =
      All-fetch (Explained t.log) (has_query_id k) t.db.queries q traced.tables.rows
        (unfold get_query in found) in
    let id : q.query_id ≡ k = ground (arith, named) in
    (traced, subst (λ j. get_query t.db j ≡ some q) (sym id) found, row)

-- What a row records of an execution that was reported.
abbrev pub Recorded : Query → Execution → Type 0
Recorded q (result n) = (q.status ≡ completed) × (q.result_row_count ≡ row_count_of n)
Recorded q (Execution.failed text) = (q.status ≡ failed) × (q.error ≡ some text)
Recorded q query_cancelled = ⊥

-- In every state that a new installation reaches, whatever was lost, given up or done twice on the
-- way: where a query is completed or has failed, a worker has executed the very text of the query to
-- its end, and the table records this end: completed, with the row count that the execution gave, or
-- failed, with its error.
pub finished_by_execution :
    (s t : System) (k : ℕ) (q : Query)
    → Reach s t
    → IsNew s
    → get_query t.db k ≡ some q
    → (q.status ≡ completed) ⊎ (q.status ≡ failed)
    → (e : Execution) × Executed t q e × Recorded q e
finished_by_execution s t k q reached new found (inl status) =
    let (traced, fetched, row) = explained_row s t k q reached new found in
    let (n, ended, rows) =
      subst (ExplainedBy t.log q.query_id q.result_row_count q.error) status row in
    (result n, Ended-Executed t q (result n) traced fetched ended, (status, rows))
finished_by_execution s t k q reached new found (inr status) =
    let (traced, fetched, row) = explained_row s t k q reached new found in
    let (text, ended, error) =
      subst (ExplainedBy t.log q.query_id q.result_row_count q.error) status row in
    (
      Execution.failed text,
      Ended-Executed t q (Execution.failed text) traced fetched ended,
      (status, error),
    )
