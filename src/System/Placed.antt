-- ===== src/System/Placed.antt =====
-- A query at one place of the calm system, and what a worker answers to its dispatch.
use duck_launcher.Base.{
  ℕ, ◌+◌, ◌≡◌, refl, sym, ap, ◌∙◌, subst, ◌⊎◌, inl, inr, pos, Bool, true, false, ◌&&◌, ◌==◌, Option,
  [], ◌∷◌, ◌++◌, leb_ℤ, arith, Bool-cases,
}
use duck_launcher.Db.{Db}
use duck_launcher.Table.{count}
use duck_launcher.Queries.Claim.{Claimed}
use duck_launcher.Claiming.Outcome.{claim_of}
use duck_launcher.Accounts.Auth.{returned, raised}
use duck_launcher.Scheduler.{DispatchPayload}
use duck_launcher.Worker.Handlers.{WorkerApp, running_task_count, run_query}
use duck_launcher.System.Nodes.{Node, executing, accept}
use duck_launcher.System.Steps.{System, set_node, claimed_by}
use duck_launcher.System.Calm.{
  Place, at_row, in_dispatch, in_refusal, in_task, is_done, one_if, in_sent, in_answers, in_jobs,
  asks, executes, At, count-cons,
}
use duck_launcher.System.Waiting.{waits, Places}

-- A query is at one place, and a query that waits is at its row only.
abbrev pub Once : ℕ → System → Type 0
Once k s = (p : Place) × At k p s × (waits k s.db ≡ true → p ≡ at_row)

pub from_sent : (p : Place) (n : ℕ) → 1 + n ≡ in_sent p → p ≡ in_dispatch
from_sent in_dispatch n e = refl
from_sent at_row n e = absurd (omega arith)
from_sent in_refusal n e = absurd (omega arith)
from_sent (in_task w) n e = absurd (omega arith)
from_sent is_done n e = absurd (omega arith)

pub from_answers : (p : Place) (n : ℕ) → 1 + n ≡ in_answers p → p ≡ in_refusal
from_answers in_refusal n e = refl
from_answers at_row n e = absurd (omega arith)
from_answers in_dispatch n e = absurd (omega arith)
from_answers (in_task w) n e = absurd (omega arith)
from_answers is_done n e = absurd (omega arith)

pub from_jobs : (p : Place) (w n : ℕ) → 1 + n ≡ in_jobs p w → p ≡ in_task w
from_jobs (in_task v) w n e = ap (λ u. in_task u) (sym (at_one w v n e))
  where
    at_one : (w v n : ℕ) → 1 + n ≡ one_if (w == v) → w ≡ v
    at_one w v n e = ground arith
from_jobs in_refusal w n e = absurd (omega arith)
from_jobs at_row w n e = absurd (omega arith)
from_jobs in_dispatch w n e = absurd (omega arith)
from_jobs is_done w n e = absurd (omega arith)

pub and_false : (b : Bool) → (b && false) ≡ false
and_false true = refl
and_false false = refl

pub run_query-up :
    (app : WorkerApp) (k : ℕ)
    → app.shutting_down ≡ false
    → (run_query app k).1.shutting_down ≡ false
unfolding run_query
run_query-up app k up = ground arith

-- The two ways in which a worker that is not shutting down answers a dispatch.
pub accept-cases :
    (node : Node) (body : DispatchPayload)
    → node.app.shutting_down ≡ false
    → ((accept node body).1.app.shutting_down ≡ false)
      × ((((accept node body).0 ≡ returned body.query_id)
            × ((accept node body).1.jobs
                ≡ node.jobs
                  ++ record { query_id = body.query_id; query = body.query; stage = executing }
                    ∷ []))
          ⊎ (((accept node body).0 ≡ raised 429) × ((accept node body).1.jobs ≡ node.jobs)))
unfolding accept
accept-cases node body up = (
  run_query-up node.app body.query_id up,
  elim (Bool-cases (leb_ℤ node.app.max_concurrent_queries (pos (running_task_count node.app)))) [
    | inl full ↦
        let said : (run_query node.app body.query_id).0 ≡ raised 429 =
          unfold run_query in rw (up, full) refl in
        inr (said, rw said refl)
    | inr free ↦
        let said : (run_query node.app body.query_id).0 ≡ returned body.query_id =
          unfold run_query in rw (up, free) refl in
        inl (said, rw said refl)
  ],
)

-- The tasks of one worker change by `more` and `fewer` of the query.
pub jobs_change :
    (k w v : ℕ) (node : Node) (nodes : ℕ → Node) (p r : Place) (more fewer : ℕ)
    → ((u : ℕ) → count (executes k) (nodes u).jobs ≡ in_jobs p u)
    → fewer + count (executes k) node.jobs ≡ more + count (executes k) (nodes w).jobs
    → fewer + in_jobs r w ≡ more + in_jobs p w
    → ((u : ℕ) → (u == w) ≡ false → in_jobs r u ≡ in_jobs p u)
    → count (executes k) (set_node w node nodes v).jobs ≡ in_jobs r v
jobs_change k w v node nodes p r more fewer before change at_worker apart =
    elim (Bool-cases (v == w)) [
      | inl e ↦
          let same : v ≡ w = ground (arith, e) in
          let now : count (executes k) node.jobs ≡ in_jobs r w =
            omega (arith, before w, change, at_worker) in
          rw e (now ∙ ap (in_jobs r) (sym same))
      | inr e ↦ rw e (before v ∙ sym (apart v e))
    ]

module _ (k : ℕ) (s : System) where
  pub claimed-Once : (r : Option Claimed × Db) → Places s.db r → Once k s → Once k (claimed_by r s)
  claimed-Once r (inl same) (p, at, idle) =
      subst (λ x. Once k (claimed_by x s)) (sym same)
        (p, record { sent = at.sent; answers = at.answers; jobs = at.jobs; log = at.log }, idle)
  claimed-Once r (inr (now, q, w, same, waited, before)) (p, at, idle) =
      subst (λ x. Once k (claimed_by x s)) (sym same)
        (elim (Bool-cases (q.query_id == k)) [
          | inl hit ↦
              let id : q.query_id ≡ k = ground (arith, hit) in
              let at' : At k at_row s =
                subst (λ x. At k x s) (idle (subst (λ j. waits j s.db ≡ true) id waited)) at in
              (
                in_dispatch,
                record {
                  sent =
                      omega
                        (arith, count-cons (asks k) (claim_of q w) s.sent, ap one_if hit, at'.sent);
                  answers = at'.answers;
                  jobs = at'.jobs;
                  log = at'.log;
                },
                λ t. absurd ((before k t).1 (sym id)),
              )
          | inr miss ↦ (
            p,
            record {
              sent =
                  omega (arith, count-cons (asks k) (claim_of q w) s.sent, ap one_if miss, at.sent);
              answers = at.answers;
              jobs = at.jobs;
              log = at.log;
            },
            λ t. idle (before k t).0,
          )
        ])
