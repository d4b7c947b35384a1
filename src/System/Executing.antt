-- ===== src/System/Executing.antt =====
-- A task of worker/routes.py: the query stays at one place while it executes and ends.
use duck_launcher.Base.{
  ℕ, ◌≡◌, refl, sym, ap, ◌∙◌, subst, inl, inr, true, false, ◌==◌, ==_refl, some, List, ◌∷◌,
  get_elem?, remove_at, arith, Bool-cases,
}
use duck_launcher.Db.{Db}
use duck_launcher.Table.{count}
use duck_launcher.Worker.Executor.{Execution}
use duck_launcher.System.Nodes.{Node, Job, Stage, executing, reporting, to_stage, end_job}
use duck_launcher.System.Steps.{System, Run, set_node, with_node}
use duck_launcher.System.Calm.{
  at_row, in_task, is_done, one_if, in_jobs, is_executing, executes, ran, At, count-cons,
  count-remove_at, count-replace_at,
}
use duck_launcher.System.Waiting.{waits}
use duck_launcher.System.Placed.{Once, from_jobs, and_false, jobs_change}

module _ (k : ℕ) (s : System) (w i : ℕ) (job : Job)
    (found : get_elem? (s.nodes w).jobs i ≡ some job) (once : Once k s) where
  -- A task that executes the query has it, and it does not wait.
  in_its_task : executes k job ≡ true → At k (in_task w) s × (waits k s.db ≡ true → ⊥)
  in_its_task runs =
      let (p, at, idle) = once in
      let eq : p ≡ in_task w = from_jobs p w (count (executes k) (remove_at i (s.nodes w).jobs)) (
        omega (
          arith,
          count-remove_at (executes k) (s.nodes w).jobs i job found,
          ap one_if runs,
          at.jobs w,
        )) in
      (
        subst (λ x. At k x s) eq at,
        λ t.
            let off : in_jobs (in_task w) w ≡ in_jobs at_row w =
              ap (λ x. in_jobs x w) (sym eq ∙ idle t) in
            omega (arith, off, ap one_if (==_refl w)),
      )

  -- The worker's tasks of the query stay as many as they were.
  same_jobs :
      (db : Db) (node : Node) (log : List Run)
      → count (executes k) node.jobs ≡ count (executes k) (s.nodes w).jobs
      → count (ran k) log ≡ count (ran k) s.log
      → (waits k db ≡ true → waits k s.db ≡ true)
      → Once k (record s { db = db; nodes = set_node w node s.nodes; log = log })
  same_jobs db node log same logged before =
      let (p, at, idle) = once in
      (
        p,
        record {
          sent = at.sent;
          answers = at.answers;
          jobs = λ v.
              jobs_change k w v node s.nodes p p 0 0 at.jobs (omega (arith, same)) refl
                (λ u apart. refl);
          log = logged ∙ at.log;
        },
        λ t. idle (before t),
      )

  pub executes-Once :
      (e : Execution)
      → job.stage ≡ executing
      → Once k (record s {
        nodes = set_node w (to_stage (reporting e) i job (s.nodes w)) s.nodes;
        log =
            record { worker_id = w; query_id = job.query_id; query = job.query; execution = e }
            ∷ s.log;
      })
  executes-Once e stage =
      let node = to_stage (reporting e) i job (s.nodes w) in
      let run : Run = record {
        worker_id = w;
        query_id = job.query_id;
        query = job.query;
        execution = e;
      } in
      let staged : Job = record job { stage = reporting e } in
      let change = count-replace_at (executes k) (s.nodes w).jobs i job staged found in
      let logged = count-cons (ran k) run s.log in
      let stops : executes k staged ≡ false = and_false (job.query_id == k) in
      elim (Bool-cases (job.query_id == k)) [
        | inl hit ↦
            let runs : executes k job ≡ true = rw (hit, stage) refl in
            let (at, never) = in_its_task runs in
            (
              is_done,
              record {
                sent = at.sent;
                answers = at.answers;
                jobs = λ v.
                    jobs_change k w v node s.nodes (in_task w) is_done 0 1 at.jobs
                      (omega (arith, change, ap one_if runs, ap one_if stops))
                      (omega (arith, ap one_if (==_refl w))) (λ u apart. sym (ap one_if apart));
                log = omega (arith, logged, ap one_if hit, at.log);
              },
              λ t. absurd (never t),
            )
        | inr miss ↦
            let others : executes k job ≡ false = rw miss refl in
            same_jobs s.db node (run ∷ s.log)
              (omega (arith, change, ap one_if others, ap one_if stops))
              (omega (arith, logged, ap one_if miss)) (λ t. t)
      ]

  -- A task that does not execute goes on to another stage at which it does not.
  pub staged-Once :
      (db : Db) (stage : Stage)
      → is_executing job.stage ≡ false
      → is_executing stage ≡ false
      → (waits k db ≡ true → waits k s.db ≡ true)
      → Once k (record s { db = db; nodes = set_node w (to_stage stage i job (s.nodes w)) s.nodes })
  staged-Once db stage before after_it waited =
      let staged : Job = record job { stage = stage } in
      let idle_job : executes k job ≡ false = rw before (and_false (job.query_id == k)) in
      let idle_staged : executes k staged ≡ false = rw after_it (and_false (job.query_id == k)) in
      same_jobs db (to_stage stage i job (s.nodes w)) s.log
        (omega (
          arith,
          count-replace_at (executes k) (s.nodes w).jobs i job staged found,
          ap one_if idle_job,
          ap one_if idle_staged,
        ))
        refl waited

  pub ends-Once :
      is_executing job.stage ≡ false → Once k (with_node w (end_job i job (s.nodes w)) s)
  ends-Once before =
      unfold end_job in
      let idle_job : executes k job ≡ false = rw before (and_false (job.query_id == k)) in
      same_jobs s.db _ s.log
        (omega
          (arith, count-remove_at (executes k) (s.nodes w).jobs i job found, ap one_if idle_job))
        refl (λ t. t)
