-- ===== src/System/Once.antt =====
-- A query on its way through the calm system: worker/routes.py, coordinator/scheduler.py and
-- db/queries.py together.
use duck_launcher.Base.{
  ℕ, ◌+◌, ◌≤◌, ◌≡◌, refl, inl, inr, false, ◌==◌, All, All-get_elem?, All-remove_at, arith,
  Bool-cases,
}
use duck_launcher.Table.{count}
use duck_launcher.Queries.Claim.{Claimed}
use duck_launcher.Lifecycle.Valid.{IsValid}
use duck_launcher.Scheduler.{dispatch_payload}
use duck_launcher.Scheduler.Dispatch.{is_gone}
use duck_launcher.System.Nodes.{Node, ending, end_job}
use duck_launcher.System.Steps.{System, Step, IsNew, set_node, arrival}
use duck_launcher.System.Calls.{Step-calls, by-IsValid, new-IsValid}
use duck_launcher.System.Calm.{
  IsCalm, CalmReach, Place, at_row, in_dispatch, in_refusal, in_task, is_done, in_sent, in_log,
  asks, ran,
}
use duck_launcher.System.Waiting.{
  waits_before, waits_before_report, claim_pending_query-Places, claim_query_by_id-Places,
}
use duck_launcher.System.Placed.{Once, accept-cases, claimed-Once}
use duck_launcher.System.Answering.{arrives-Once, settles-Once}
use duck_launcher.System.Executing.{executes-Once, staged-Once, ends-Once}

-- No worker shuts down, and no answer says that one is gone.
pub record IsQuiet (s : System) : Type 0 where
  pub up : (w : ℕ) → (s.nodes w).app.shutting_down ≡ false
  pub answers : All (λ a. is_gone a.1 ≡ false) s.answers

-- A calm step keeps a query at one place.
step-Once :
    {s t : System} (k : ℕ) (last : Step s t)
    → IsCalm last
    → IsValid s.db
    → IsQuiet s
    → Once k s
    → Once k t
step-Once {s} k (Step.call c other) calm v quiet (p, at, idle) = (
  p,
  record { sent = at.sent; answers = at.answers; jobs = at.jobs; log = at.log },
  λ t. idle (waits_before s.db k c other calm t),
)
step-Once {s} k (Step.claims locked utcnow now stale) calm v quiet once =
    claimed-Once k s _ (claim_pending_query-Places s.db v locked utcnow now stale) once
step-Once {s} k (Step.claims_id locked utcnow now id stale) calm v quiet once =
    claimed-Once k s _ (claim_query_by_id-Places s.db v locked utcnow now id stale) once
step-Once {s} k (Step.arrives i c at) calm v quiet once =
    arrives-Once k s i c at once (quiet.up c.worker_id)
step-Once {s} k (Step.gives_up i c r at lost) calm v quiet once = absurd calm
step-Once {s} k (Step.arrives_late i c at) calm v quiet once = absurd calm
step-Once {s} k (Step.loses_answer i c r lost at refused) calm v quiet once = absurd calm
step-Once {s} k (Step.settles i c r at) calm v quiet once =
    settles-Once k s i c r at
      (All-get_elem? (λ a. is_gone a.1 ≡ false) s.answers i (c, r) quiet.answers at) once
step-Once {s} k (Step.executes w i job e at stage) calm v quiet once =
    executes-Once k s w i job at once e stage
step-Once {s} k (Step.reports w i now job e at stage) calm v quiet once =
    staged-Once k s w i job at once _ ending (rw stage refl) refl
      (λ t. waits_before_report s.db k now job.query_id e t)
step-Once {s} k (Step.loses_report w i job e at stage) calm v quiet once =
    staged-Once k s w i job at once s.db ending (rw stage refl) refl (λ t. t)
step-Once {s} k (Step.ends w i job at) calm v quiet once =
    ends-Once k s w i job at once (rw calm refl)
step-Once {s} k (Step.shuts_down w) calm v quiet once = absurd calm
step-Once {s} k (Step.restarts w app none_left) calm v quiet once = absurd calm

up_after :
    (w v : ℕ) (node : Node) (nodes : ℕ → Node)
    → node.app.shutting_down ≡ false
    → (nodes v).app.shutting_down ≡ false
    → (set_node w node nodes v).app.shutting_down ≡ false
up_after w v node nodes new old = elim (Bool-cases (v == w)) [ inl e ↦ rw e new | inr e ↦ rw e old ]

not_gone :
    (s : System) (c : Claimed)
    → (s.nodes c.worker_id).app.shutting_down ≡ false
    → is_gone (arrival c s) ≡ false
not_gone s c up = elim (accept-cases (s.nodes c.worker_id) (dispatch_payload c) up).1 [
  | inl (said, jobs) ↦ rw said refl
  | inr (said, jobs) ↦ rw said refl
]

step-IsQuiet : {s t : System} (last : Step s t) → IsCalm last → IsQuiet s → IsQuiet t
step-IsQuiet (Step.call c other) calm q = record { up = q.up; answers = q.answers }
step-IsQuiet (Step.claims locked utcnow now stale) calm q = record {
  up = q.up;
  answers = q.answers;
}
step-IsQuiet (Step.claims_id locked utcnow now id stale) calm q = record {
  up = q.up;
  answers = q.answers;
}
step-IsQuiet {s} (Step.arrives i c at) calm q = record {
  up = λ v.
      up_after c.worker_id v _ s.nodes
        (accept-cases (s.nodes c.worker_id) (dispatch_payload c) (q.up c.worker_id)).0 (q.up v);
  answers = (not_gone s c (q.up c.worker_id), q.answers);
}
step-IsQuiet (Step.gives_up i c r at lost) calm q = absurd calm
step-IsQuiet (Step.arrives_late i c at) calm q = absurd calm
step-IsQuiet (Step.loses_answer i c r lost at refused) calm q = absurd calm
step-IsQuiet {s} (Step.settles i c r at) calm q = record {
  up = q.up;
  answers = All-remove_at (λ a. is_gone a.1 ≡ false) i s.answers q.answers;
}
step-IsQuiet {s} (Step.executes w i job e at stage) calm q = record {
  up = λ v. up_after w v _ s.nodes (q.up w) (q.up v);
  answers = q.answers;
}
step-IsQuiet {s} (Step.reports w i now job e at stage) calm q = record {
  up = λ v. up_after w v _ s.nodes (q.up w) (q.up v);
  answers = q.answers;
}
step-IsQuiet {s} (Step.loses_report w i job e at stage) calm q = record {
  up = λ v. up_after w v _ s.nodes (q.up w) (q.up v);
  answers = q.answers;
}
step-IsQuiet {s} (Step.ends w i job at) calm q = record {
  up = λ v. up_after w v _ s.nodes (unfold end_job in q.up w) (q.up v);
  answers = q.answers;
}
step-IsQuiet (Step.shuts_down w) calm q = absurd calm
step-IsQuiet (Step.restarts w app none_left) calm q = absurd calm

-- What is kept on the way from a new installation.
record Keeps (k : ℕ) (s : System) : Type 0 where
  valid : IsValid s.db
  quiet : IsQuiet s
  once : Once k s

new-Keeps :
    (k : ℕ) (s : System) → IsNew s → ((w : ℕ) → (s.nodes w).app.shutting_down ≡ false) → Keeps k s
new-Keeps k s new up = record {
  valid = new-IsValid s new;
  quiet = record { up = up; answers = rw new.no_answers tt };
  once = (
    at_row,
    record {
      sent = unfold count in rw new.none_sent refl;
      answers = unfold count in rw new.no_answers refl;
      jobs = λ w. unfold count in rw (new.no_jobs w) refl;
      log = unfold count in rw new.no_log refl;
    },
    λ t. refl,
  );
}

calm-Keeps : {s t : System} (k : ℕ) → CalmReach s t → Keeps k s → Keeps k t
calm-Keeps k CalmReach.here keeps = keeps
calm-Keeps k (CalmReach.later before last calm) keeps =
    let kept = calm-Keeps k before keeps in
    record {
      valid = by-IsValid _ _ (Step-calls last) kept.valid;
      quiet = step-IsQuiet last calm kept.quiet;
      once = step-Once k last calm kept.valid kept.quiet kept.once;
    }

held_below : (p : Place) → in_sent p + in_log p ≤ 1
held_below at_row = omega arith
held_below in_dispatch = omega arith
held_below in_refusal = omega arith
held_below (in_task w) = omega arith
held_below is_done = omega arith

-- From a new installation whose workers are up, where no message to or from the scheduler is lost, no
-- worker shuts down or restarts, no sweep, no unreachable worker and no other call takes a query
-- back, and the tasks come to their ends: each query is executed once at most, and at any time at
-- most one dispatch of it is on its way, whatever is refused, cancelled or reported in whatever order.
pub executed_once :
    (s t : System) (k : ℕ)
    → CalmReach s t
    → IsNew s
    → ((w : ℕ) → (s.nodes w).app.shutting_down ≡ false)
    → (count (ran k) t.log ≤ 1) × (count (asks k) t.sent + count (ran k) t.log ≤ 1)
executed_once s t k reached new up =
    let kept = calm-Keeps k reached (new-Keeps k s new up) in
    let (p, at, idle) = kept.once in
    (omega (arith, at.log, held_below p), omega (arith, at.sent, at.log, held_below p))
