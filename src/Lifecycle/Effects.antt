-- ===== src/Lifecycle/Effects.antt =====
-- Every call on the database has an effect that the specification knows.
use duck_launcher.Base.{
  ℕ, ℤ, ◌≡◌, ◌≢◌, refl, sym, ap, subst, inl, inr, Bool, true, false, ◌&&◌, Option, none, some,
  String, List, [], ◌∷◌, All, any, arith, Bool-cases, Option-cases, coalesce,
}
use duck_launcher.Db.{Db, Worker, Query, running, is_status, has_worker_id, has_query_id, runs_on}
use duck_launcher.Table.{fetch, ends_in_one, Unique}
use duck_launcher.Queries.Workers.{register_worker, heartbeat_worker, ready_worker, shutdown_worker}
use duck_launcher.Queries.Life.{
  create_query, complete_query, mark_query_cancelled, revert_query_to_pending, user_exists,
}
use duck_launcher.Queries.Stale.{
  revert_queries, mark_worker_unreachable, sweep_stale_workers, is_stale, is_serving, runs_on_any,
  revert_from,
}
use duck_launcher.Queries.Claim.{claim_query, claim_pending_query, claim_query_by_id, Claimed}
use duck_launcher.Lifecycle.Phase.{Edit, keeps, adds}
use duck_launcher.Lifecycle.Calls.{
  Call, register, heartbeat, ready, shutdown, create, complete, cancel, revert, unreachable, sweep,
  claim, claim_by_id, step,
}
use duck_launcher.Lifecycle.Notices.{revert_queries_lem}
use duck_launcher.Lifecycle.Kept.{Kept, Kept-refl, Kept-update, Kept-append}
use duck_launcher.Lifecycle.Steps.{
  complete_query-Edit, mark_query_cancelled-Edit, revert_query_to_pending-Edit, revert_queries-Edit,
  claim_pending_query-Edit, claim_query_by_id-Edit, and_right,
}

-- What a call does, in the words of the specification.
pub record Effect (db db' : Db) : Type 0 where
  pub kept : Kept db.workers db'.workers
  pub edit : Edit db'.workers db.queries db'.queries

Effect-workers :
    (db : Db) (ws : List Worker) → Kept db.workers ws → Effect db (record db { workers = ws })
Effect-workers db ws kept = record { kept = kept; edit = keeps refl }

Effect-queries :
    (db db' : Db)
    → db'.workers ≡ db.workers
    → Edit db.workers db.queries db'.queries
    → Effect db db'
Effect-queries db db' same edit = record {
  kept = rw same (Kept-refl db.workers);
  edit = rw same edit;
}

module _ (db : Db) where
  register-Effect :
      (id : Option ℕ) (uuid now : ℕ) (endpoint : String) (cpus memory disk limit : ℤ)
      → Effect db (register_worker db id uuid now endpoint cpus memory disk limit).1
  unfolding register_worker
  register-Effect id uuid now endpoint cpus memory disk limit =
      elim (Option-cases (fetch (has_worker_id (coalesce id uuid)) db.workers)) [
        | inl e ↦ rw e (Effect-workers db _ (Kept-append db.workers _ e))
        | inr (w, e) ↦ rw e (Effect-workers db _ (Kept-update _ _ db.workers (λ v. refl)))
      ]

  absent_query :
      (k : ℕ) (qs : List Query) → any (has_query_id k) qs ≡ false → All (λ q. q.query_id ≢ k) qs
  absent_query k [] h = tt
  absent_query k (q ∷ qs) h = (ground arith, absent_query k qs (ground arith))

  create-Effect :
      (uuid now : ℕ) (query : String) (cpus memory disk : Option ℤ) (user : Option ℕ)
      → Effect db (step (create uuid now query cpus memory disk user) db)
  unfolding step create_query
  create-Effect uuid now query cpus memory disk user =
      elim (Bool-cases (any (has_query_id uuid) db.queries)) [
        | inl e ↦ rw e (Effect-queries db db refl (keeps refl))
        | inr e ↦ elim (Bool-cases (user_exists db.users user)) [
          | inl u ↦
              rw (e, u)
                (Effect-queries db _ refl (
                  adds _ refl (record { shape = (refl, refl, refl); refers = refl })
                    (absent_query uuid db.queries e) refl))
          | inr u ↦ rw (e, u) (Effect-queries db db refl (keeps refl))
        ]
      ]

  reverts-Effect :
      (ws : List Worker) (test : Query → Bool)
      → Kept db.workers ws
      → ((q : Query) → test q ≡ true → is_status q.status running ≡ true)
      → Effect db (revert_queries (record db { workers = ws }) test)
  reverts-Effect ws test kept active =
      let same : ws ≡ (revert_queries (record db { workers = ws }) test).workers =
        sym (ap (λ (d : Db). d.workers) (revert_queries_lem (record db { workers = ws }) test)) in
      record {
        kept = subst (Kept db.workers) same kept;
        edit =
            subst
              (λ v. Edit v db.queries (revert_queries (record db { workers = ws }) test).queries)
              same (revert_queries-Edit (record db { workers = ws }) test active);
      }

  unreachable-Effect : (id : ℕ) → Effect db (mark_worker_unreachable db id)
  unfolding mark_worker_unreachable
  unreachable-Effect id =
      elim (Bool-cases (ends_in_one (λ w. has_worker_id id w && is_serving w.status) db.workers)) [
        | inl e ↦ rw e (
            reverts-Effect _ (runs_on id) (Kept-update _ _ db.workers (λ w. refl))
              (λ q t. and_right _ _ t))
        | inr e ↦ rw e (Effect-workers db _ (Kept-update _ _ db.workers (λ w. refl)))
      ]

  revert_from-Effect :
      (ws stale : List Worker)
      → Kept db.workers ws
      → Effect db (revert_from (record db { workers = ws }) stale)
  unfolding revert_from
  revert_from-Effect ws [] kept = Effect-workers db ws kept
  revert_from-Effect ws (v ∷ vs) kept =
      reverts-Effect ws (runs_on_any (v ∷ vs)) kept (λ q t. and_right _ _ t)

  sweep-Effect : (utcnow stale : ℕ) → Effect db (sweep_stale_workers db utcnow stale)
  unfolding sweep_stale_workers
  sweep-Effect utcnow stale =
      revert_from-Effect _ _ (Kept-update (is_stale utcnow stale) _ db.workers (λ w. refl))

  workers-claim_query :
      (utcnow now stale : ℕ) (p : Query)
      → (claim_query db utcnow now stale p).1.workers ≡ db.workers
  unfolding claim_query
  workers-claim_query utcnow now stale p = ground arith

claimed_workers :
    (db : Db) (utcnow now stale : ℕ) (o : Option Query)
    → (elim o as (λ _. Option Claimed × Db) [
      | none ↦ (none, db)
      | some p ↦ claim_query db utcnow now stale p
    ]).1.workers
      ≡ db.workers
claimed_workers db utcnow now stale none = refl
claimed_workers db utcnow now stale (some p) = workers-claim_query db utcnow now stale p

-- Every call has an effect that the specification knows.
pub step-Effect : (c : Call) (db : Db) → Unique (λ q. q.query_id) db.queries → Effect db (step c db)
unfolding step
step-Effect (register id uuid now endpoint cpus memory disk limit) db u =
    register-Effect db id uuid now endpoint cpus memory disk limit
step-Effect (heartbeat now id cpus memory disk status used usage) db u =
    unfold heartbeat_worker in Effect-workers db _ (Kept-update _ _ db.workers (λ w. refl))
step-Effect (ready now id) db u =
    unfold ready_worker in Effect-workers db _ (Kept-update _ _ db.workers (λ w. refl))
step-Effect (shutdown now id) db u =
    unfold shutdown_worker in Effect-workers db _ (Kept-update _ _ db.workers (λ w. refl))
step-Effect (create uuid now query cpus memory disk user) db u =
    create-Effect db uuid now query cpus memory disk user
step-Effect (complete now id s error rows) db u =
    Effect-queries db _ (unfold complete_query in ground arith)
      (complete_query-Edit db now id s error rows)
step-Effect (cancel now id error) db u =
    Effect-queries db _ (unfold mark_query_cancelled in ground arith)
      (mark_query_cancelled-Edit db now id error)
step-Effect (revert id) db u =
    Effect-queries db _ (unfold revert_query_to_pending in ground arith)
      (revert_query_to_pending-Edit db id)
step-Effect (unreachable id) db u = unreachable-Effect db id
step-Effect (sweep utcnow stale) db u = sweep-Effect db utcnow stale
step-Effect (claim locked utcnow now stale) db u =
    Effect-queries db _ (unfold claim_pending_query in claimed_workers db utcnow now stale _)
      (claim_pending_query-Edit db locked utcnow now stale u)
step-Effect (claim_by_id locked utcnow now id stale) db u =
    Effect-queries db _ (unfold claim_query_by_id in claimed_workers db utcnow now stale _)
      (claim_query_by_id-Edit db locked utcnow now id stale u)
