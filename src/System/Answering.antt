-- ===== src/System/Answering.antt =====
-- A dispatch of worker/routes.py and its answer in coordinator/scheduler.py: the query stays at one place.
use duck_launcher.Queries.Life.{revert_query_to_pending}
use duck_launcher.Base.{
  ℕ, ◌+◌, ◌≡◌, refl, sym, ap, ◌∙◌, subst, inl, inr, true, false, ◌==◌, ==_refl, some, ◌∷◌,
  get_elem?, remove_at, arith, Bool-cases,
}
use duck_launcher.Db.{Db}
use duck_launcher.Table.{count}
use duck_launcher.Queries.Claim.{Claimed}
use duck_launcher.Scheduler.{Response, answered, http_error, handle_response, dispatch_payload}
use duck_launcher.Scheduler.Dispatch.{is_gone}
use duck_launcher.System.Nodes.{Job, executing, accept}
use duck_launcher.System.Steps.{System, arrived, arrival}
use duck_launcher.System.Calm.{
  at_row, in_dispatch, in_refusal, in_task, one_if, in_sent, asks, refuses, executes, At,
  count-cons, count-remove_at, count-append_one,
}
use duck_launcher.System.Waiting.{waits, waits_before_revert}
use duck_launcher.System.Placed.{
  Once, from_sent, from_answers, and_false, accept-cases, jobs_change,
}

module _ (k : ℕ) (s : System) (i : ℕ) (c : Claimed) (sent : get_elem? s.sent i ≡ some c)
    (once : Once k s) where
  away : count (asks k) s.sent ≡ one_if (c.query_id == k) + count (asks k) (remove_at i s.sent)
  away = count-remove_at (asks k) s.sent i c sent

  -- The dispatch is of this query, so the query is in it, and does not wait.
  dispatched : (c.query_id == k) ≡ true → At k in_dispatch s × (waits k s.db ≡ true → ⊥)
  dispatched hit =
      let (p, at, idle) = once in
      let eq : p ≡ in_dispatch =
        from_sent p (count (asks k) (remove_at i s.sent))
          (omega (arith, away, ap one_if hit, at.sent)) in
      (
        subst (λ x. At k x s) eq at,
        λ t.
            let off : in_sent in_dispatch ≡ in_sent at_row = ap in_sent (sym eq ∙ idle t) in
            omega (arith, off),
      )

  pub arrives-Once :
      (s.nodes c.worker_id).app.shutting_down ≡ false
      → Once k (record s {
        nodes = arrived c s.nodes;
        sent = remove_at i s.sent;
        answers = (c, arrival c s) ∷ s.answers;
      })
  arrives-Once up =
      let (p, at, idle) = once in
      let body = dispatch_payload c in
      let w = c.worker_id in
      let job : Job = record { query_id = c.query_id; query = c.query; stage = executing } in
      let added = count-cons (refuses k) (c, arrival c s) s.answers in
      elim (accept-cases (s.nodes w) body up).1 [
        | inl (said, jobs) ↦
            let kept : refuses k (c, arrival c s) ≡ false = rw said (ground arith) in
            let grown : count (executes k) (accept (s.nodes w) body).1.jobs
                ≡ one_if (executes k job) + count (executes k) (s.nodes w).jobs =
              rw jobs (count-append_one (executes k) (s.nodes w).jobs job) in
            elim (Bool-cases (c.query_id == k)) [
              | inl hit ↦
                  let begun : one_if (executes k job) ≡ 1 = rw hit refl in
                  let (at', never) = dispatched hit in
                  (
                    in_task w,
                    record {
                      sent = omega (arith, away, ap one_if hit, at'.sent);
                      answers = omega (arith, added, ap one_if kept, at'.answers);
                      jobs = λ v.
                          jobs_change k w v (accept (s.nodes w) body).1 s.nodes in_dispatch
                            (in_task w) 1 0 at'.jobs (omega (arith, grown, begun))
                            (omega (arith, ap one_if (==_refl w))) (λ u apart. ap one_if apart);
                      log = at'.log;
                    },
                    λ t. absurd (never t),
                  )
              | inr miss ↦
                  let idles : one_if (executes k job) ≡ 0 = rw miss refl in
                  (
                    p,
                    record {
                      sent = omega (arith, away, ap one_if miss, at.sent);
                      answers = omega (arith, added, ap one_if kept, at.answers);
                      jobs = λ v.
                          jobs_change k w v (accept (s.nodes w) body).1 s.nodes p p 0 0 at.jobs
                            (omega (arith, grown, idles)) refl (λ u apart. refl);
                      log = at.log;
                    },
                    idle,
                  )
            ]
        | inr (said, jobs) ↦
            let same : count (executes k) (accept (s.nodes w) body).1.jobs
                ≡ count (executes k) (s.nodes w).jobs =
              rw jobs refl in
            elim (Bool-cases (c.query_id == k)) [
              | inl hit ↦
                  let kept : refuses k (c, arrival c s) ≡ true = rw (said, hit) refl in
                  let (at', never) = dispatched hit in
                  (
                    in_refusal,
                    record {
                      sent = omega (arith, away, ap one_if hit, at'.sent);
                      answers = omega (arith, added, ap one_if kept, at'.answers);
                      jobs = λ v.
                          jobs_change k w v (accept (s.nodes w) body).1 s.nodes in_dispatch
                            in_refusal 0 0 at'.jobs (omega (arith, same)) refl (λ u apart. refl);
                      log = at'.log;
                    },
                    λ t. absurd (never t),
                  )
              | inr miss ↦
                  let kept : refuses k (c, arrival c s) ≡ false = rw (said, miss) refl in
                  (
                    p,
                    record {
                      sent = omega (arith, away, ap one_if miss, at.sent);
                      answers = omega (arith, added, ap one_if kept, at.answers);
                      jobs = λ v.
                          jobs_change k w v (accept (s.nodes w) body).1 s.nodes p p 0 0 at.jobs
                            (omega (arith, same)) refl (λ u apart. refl);
                      log = at.log;
                    },
                    idle,
                  )
            ]
      ]

module _ (k : ℕ) (s : System) (i : ℕ) (c : Claimed) (r : Response)
    (found : get_elem? s.answers i ≡ some (c, r)) (once : Once k s) where
  handled :
      count (refuses k) s.answers
      ≡ one_if (refuses k (c, r)) + count (refuses k) (remove_at i s.answers)
  handled = count-remove_at (refuses k) s.answers i (c, r) found

  -- An answer that is none of a refused dispatch of the query.
  unchanged :
      (db : Db)
      → refuses k (c, r) ≡ false
      → (waits k db ≡ true → waits k s.db ≡ true)
      → Once k (record s { db = db; answers = remove_at i s.answers })
  unchanged db kept before =
      let (p, at, idle) = once in
      (
        p,
        record {
          sent = at.sent;
          answers = omega (arith, handled, ap one_if kept, at.answers);
          jobs = at.jobs;
          log = at.log;
        },
        λ t. idle (before t),
      )

  taken_back :
      (db : Db)
      → refuses k (c, r) ≡ true
      → Once k (record s { db = db; answers = remove_at i s.answers })
  taken_back db refused =
      let (p, at, idle) = once in
      let eq : p ≡ in_refusal =
        from_answers p (count (refuses k) (remove_at i s.answers))
          (omega (arith, handled, ap one_if refused, at.answers)) in
      let at' : At k in_refusal s = subst (λ x. At k x s) eq at in
      (
        at_row,
        record {
          sent = at'.sent;
          answers = omega (arith, handled, ap one_if refused, at'.answers);
          jobs = at'.jobs;
          log = at'.log;
        },
        λ t. refl,
      )

pub settles-Once :
    (k : ℕ) (s : System) (i : ℕ) (c : Claimed) (r : Response)
    → get_elem? s.answers i ≡ some (c, r)
    → is_gone r ≡ false
    → Once k s
    → Once k (record s { db = (handle_response r c s.db).1; answers = remove_at i s.answers })
unfolding handle_response
settles-Once k s i c http_error found alive once = cc
settles-Once k s i c (answered st) found alive once = elim (Bool-cases (st == 202)) [
  | inl ok ↦
      let same : (handle_response (answered st) c s.db).1 ≡ s.db = rw ok refl in
      let kept : refuses k (c, answered st) ≡ false = rw ok (and_false (c.query_id == k)) in
      unchanged k s i c (answered st) found once _ kept
        (λ t. subst (λ db. waits k db ≡ true) same t)
  | inr refused ↦
      let same : (handle_response (answered st) c s.db).1
          ≡ revert_query_to_pending s.db c.query_id =
        rw (refused, alive) refl in
      elim (Bool-cases (c.query_id == k)) [
        | inl hit ↦ taken_back k s i c (answered st) found once _ (rw (hit, refused) refl)
        | inr miss ↦ unchanged k s i c (answered st) found once _ (rw miss refl) (λ t.
            waits_before_revert s.db k c.query_id miss (subst (λ db. waits k db ≡ true) same t))
      ]
]
