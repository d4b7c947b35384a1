-- ===== src/System/Refusal.antt =====
-- worker/routes.py answers 503 while it shuts down, and coordinator/scheduler.py takes that for a
-- worker that is gone.
use duck_launcher.Base.{
  ℕ, ◌≡◌, refl, ◌∙◌, ap, inl, inr, true, ◌==◌, ==_refl, some, get_elem?, remove_at, Bool-cases,
  arith, none,
}
use duck_launcher.Db.{Worker, Query, running, has_worker_id, pending}
use duck_launcher.Table.{fetch}
use duck_launcher.Queries.Life.{get_query}
use duck_launcher.Queries.Stale.{reverted_row, is_serving}
use duck_launcher.Queries.Claim.{Claimed}
use duck_launcher.Lifecycle.Valid.{IsValid}
use duck_launcher.Recovery.Unreachable.{get_query-mark_worker_unreachable}
use duck_launcher.Accounts.Auth.{raised}
use duck_launcher.Scheduler.{handle_response, dispatch_payload, DispatchPayload, answered}
use duck_launcher.Worker.Handlers.{run_query}
use duck_launcher.System.Nodes.{Node, accept}
use duck_launcher.System.Steps.{System, Step, Reach, arrived, arrival}

accept_refused :
    (node : Node) (body : DispatchPayload)
    → node.app.shutting_down ≡ true
    → ((accept node body).0 ≡ raised 503) × ((accept node body).1.jobs ≡ node.jobs)
accept_refused node body down =
    unfold accept in
    let ran : (run_query node.app body.query_id).0 ≡ raised 503 =
      unfold run_query in rw down refl in
    (ran, rw ran refl)

-- From a state with a valid database where a dispatch is on its way to a worker that shuts down, and
-- whose row is still running or shutting down: the worker answers 503, and in the state that is
-- reached when the scheduler has handled this answer, any query that runs on this worker is pending,
-- with no worker and no start, while every task of every worker is still there.
pub refusal_takes_all_back :
    (s : System) (i k : ℕ) (c : Claimed) (w : Worker) (q : Query)
    → IsValid s.db
    → get_elem? s.sent i ≡ some c
    → (s.nodes c.worker_id).app.shutting_down ≡ true
    → fetch (has_worker_id c.worker_id) s.db.workers ≡ some w
    → is_serving w.status ≡ true
    → get_query s.db k ≡ some q
    → q.status ≡ running
    → q.worker_id ≡ some c.worker_id
    → let t : System = record s {
      db = (handle_response (arrival c s) c s.db).1;
      nodes = arrived c s.nodes;
      sent = remove_at i s.sent;
    } in
      (arrival c s ≡ answered 503)
      × Reach s t
      × (p : Query) × (get_query t.db k ≡ some p)
      × (p.status ≡ pending)
      × (p.worker_id ≡ none)
      × (p.started_at ≡ none)
      × ((v : ℕ) → (t.nodes v).jobs ≡ (s.nodes v).jobs)
refusal_takes_all_back s i k c w q valid sent down there serves found runs on =
    let (refused, same) = accept_refused (s.nodes c.worker_id) (dispatch_payload c) down in
    (
      rw refused refl,
      Reach.later (Reach.later Reach.here (Step.arrives i c sent))
          (Step.settles 0 c (arrival c s) refl),
      reverted_row q,
      rw refused (
          unfold handle_response in
          (get_query-mark_worker_unreachable s.db c.worker_id k w q valid there found
            ∙ rw (serves, on, runs, ==_refl c.worker_id) refl)),
      unfold reverted_row in refl,
      unfold reverted_row in refl,
      unfold reverted_row in refl,
      λ v. elim (Bool-cases (v == c.worker_id)) [
        | inl here ↦
            let at_worker : c.worker_id ≡ v = ground (arith, here) in
            rw here (same ∙ ap (λ u. (s.nodes u).jobs) at_worker)
        | inr other ↦ rw other refl
      ],
    )
