-- ===== src/System/Waiting.antt =====
-- db/queries.py: which calls can make a query wait.
use duck_launcher.Base.{
  ℕ, ℤ, ◌≡◌, ◌≢◌, refl, ap, ◌∙◌, subst, ◌⊎◌, inl, inr, Bool, true, false, ◌&&◌, ◌==◌, Option, none,
  some, String, List, [], ◌∷◌, ◌++◌, All-intro, any, arith, Bool-cases, Option-cases,
}
use duck_launcher.Db.{Db, Worker, Query, pending, running, is_status, is_active, has_query_id}
use duck_launcher.Models.{CompletionStatus, to_status}
use duck_launcher.Table.{update, fetch}
use duck_launcher.Table.Update.{fetch-update, fetch-test, updated?, All-fetch, All-fetch_self}
use duck_launcher.Queries.Life.{
  get_query, create_query, mark_query_cancelled, complete_query, completed_row, cancelled_row,
  pending_row, revert_query_to_pending, user_exists,
}
use duck_launcher.Queries.Notify.{notify_query_status}
use duck_launcher.Queries.Workers.{register_worker, heartbeat_worker, ready_worker, shutdown_worker}
use duck_launcher.Queries.Claim.{
  Claimed, claimed_row, claim_pending_query, claim_query_by_id, claim_query, worker_for_query,
  is_claimable, oldest_pending,
}
use duck_launcher.Claiming.Oldest.{claimable_pending, oldest_sound, oldest_fetched}
use duck_launcher.Claiming.Outcome.{claim_of, placed, claim_query_lem, row_placed}
use duck_launcher.Lifecycle.Steps.{and_right}
use duck_launcher.Lifecycle.Calls.{
  Call, register, heartbeat, ready, shutdown, create, complete, cancel, revert, unreachable, sweep,
  claim, claim_by_id, step,
}
use duck_launcher.Lifecycle.Valid.{IsValid}
use duck_launcher.Scheduler.Dispatch.{queries-revert}
use duck_launcher.Worker.Executor.{Execution}
use duck_launcher.Worker.Handlers.{completion}
use duck_launcher.Worker.Reports.{coordinator_complete}
use duck_launcher.Routes.Submit.{complete_query_route}
use duck_launcher.System.Steps.{is_other}
use duck_launcher.System.Calm.{is_forward}

-- The query is pending, or not there.
abbrev waits_row : Option Query → Bool
waits_row none = true
waits_row (some q) = is_status q.status pending

abbrev pub waits : ℕ → Db → Bool
waits k db = waits_row (get_query db k)

-- An update to another status makes no query wait.
waits_updated :
    (test : Query → Bool) (set : Query → Query) (o : Option Query)
    → ((q : Query) → is_status (set q).status pending ≡ false)
    → waits_row (updated? test set o) ≡ true
    → waits_row o ≡ true
waits_updated test set none over h = refl
waits_updated test set (some q) over h = elim (Bool-cases (test q)) [
  | inl t ↦ let h' = rw t at h in absurd (ground (arith, over q))
  | inr t ↦ rw t at h
]

waits_update :
    (test : Query → Bool) (set : Query → Query) (k : ℕ) (qs : List Query)
    → ((q : Query) → (set q).query_id ≡ q.query_id)
    → ((q : Query) → is_status (set q).status pending ≡ false)
    → waits_row (fetch (has_query_id k) (update test set qs)) ≡ true
    → waits_row (fetch (has_query_id k) qs) ≡ true
waits_update test set k qs same over h =
    waits_updated test set (fetch (has_query_id k) qs) over
      (subst (λ o. waits_row o ≡ true) (fetch-update (λ q. q.query_id) k test set qs same) h)

waits_append :
    (k : ℕ) (qs rest : List Query)
    → waits_row (fetch (has_query_id k) (qs ++ rest)) ≡ true
    → waits_row (fetch (has_query_id k) qs) ≡ true
unfolding fetch
waits_append k [] rest h = refl
waits_append k (q ∷ qs) rest h = elim (Bool-cases (q.query_id == k)) [
  | inl t ↦ rw t (rw t at h)
  | inr t ↦ rw t (waits_append k qs rest (rw t at h))
]

finished_status : (s : CompletionStatus) → is_status (to_status s) pending ≡ false
finished_status CompletionStatus.completed = refl
finished_status CompletionStatus.failed = refl
finished_status CompletionStatus.cancelled = refl

module _ (db : Db) (k : ℕ) where
  create_by :
      (P : List Query → Type 0)
      → P db.queries
      → ((q : Query) → P (db.queries ++ q ∷ []))
      → (uuid now : ℕ) (query : String) (cpus memory disk : Option ℤ) (user : Option ℕ)
      → P (step (create uuid now query cpus memory disk user) db).queries
  unfolding step create_query
  create_by P same more uuid now query cpus memory disk user =
      elim (Bool-cases (any (has_query_id uuid) db.queries)) [
        | inl e ↦ rw e same
        | inr e ↦ elim (Bool-cases (user_exists db.users user)) [
          | inl u ↦ rw (e, u) (more _)
          | inr u ↦ rw (e, u) same
        ]
      ]

  cancel_updates :
      (now id : ℕ) (error : Option String)
      → (mark_query_cancelled db now id error).1.queries
        ≡ update (λ q. has_query_id id q && is_active q.status) (cancelled_row now error) db.queries
  unfolding mark_query_cancelled
  cancel_updates now id error = ground arith

  report_updates :
      (now id : ℕ) (e : Execution)
      → let body = completion e in
        (coordinator_complete now id (completion e) db).queries
        ≡ update
            (λ q. has_query_id id q && is_active q.status)
            (completed_row now (to_status body.status) body.error body.result_row_count)
            db.queries
  unfolding complete_query_route complete_query
  report_updates now id e = ground arith

  -- A call that takes no query back makes no query wait.
  pub waits_before :
      (c : Call)
      → is_other c ≡ true
      → is_forward c ≡ true
      → waits k (step c db) ≡ true
      → waits k db ≡ true
  unfolding step get_query
  waits_before (register id uuid now endpoint cpus memory disk limit) other forward h =
      unfold register_worker in h
  waits_before (heartbeat now id cpus memory disk status used usage) other forward h =
      unfold heartbeat_worker in h
  waits_before (ready now id) other forward h = unfold ready_worker in h
  waits_before (shutdown now id) other forward h = unfold shutdown_worker in h
  waits_before (create uuid now query cpus memory disk user) other forward h =
      create_by
        (λ qs.
          waits_row (fetch (has_query_id k) qs) ≡ true
          → waits_row (fetch (has_query_id k) db.queries) ≡ true)
        (λ t. t) (λ q t. waits_append k db.queries (q ∷ []) t) uuid now query cpus memory disk user
        (unfold step in h)
  waits_before (cancel now id error) other forward h =
      waits_update (λ q. has_query_id id q && is_active q.status) (cancelled_row now error) k
        db.queries (λ q. unfold cancelled_row in refl) (λ q. unfold cancelled_row in refl)
        (subst (λ qs. waits_row (fetch (has_query_id k) qs) ≡ true) (cancel_updates now id error) h)
  waits_before (complete now id status error rows) other forward h = cc
  waits_before (revert id) other forward h = cc
  waits_before (unreachable id) other forward h = cc
  waits_before (sweep utcnow stale) other forward h = cc
  waits_before (claim locked utcnow now stale) other forward h = cc
  waits_before (claim_by_id locked utcnow now id stale) other forward h = cc

  -- Nor does a report.
  pub waits_before_report :
      (now id : ℕ) (e : Execution)
      → waits k (coordinator_complete now id (completion e) db) ≡ true
      → waits k db ≡ true
  unfolding get_query
  waits_before_report now id e h =
      let body = completion e in
      waits_update (λ q. has_query_id id q && is_active q.status)
        (completed_row now (to_status body.status) body.error body.result_row_count) k db.queries
        (λ q. unfold completed_row in refl)
        (λ q. unfold completed_row in finished_status body.status)
        (subst (λ qs. waits_row (fetch (has_query_id k) qs) ≡ true) (report_updates now id e) h)

  -- A query that is taken back is the only one to wait by that.
  pub waits_before_revert :
      (id : ℕ)
      → (id == k) ≡ false
      → waits k (revert_query_to_pending db id) ≡ true
      → waits k db ≡ true
  waits_before_revert id apart h =
      unfold get_query in
      stays (fetch (has_query_id k) db.queries) refl (
        subst (λ o. waits_row o ≡ true)
          (ap (fetch (has_query_id k)) (queries-revert db id)
            ∙ fetch-update (λ q. q.query_id) k
                (λ q. has_query_id id q && is_status q.status running) pending_row db.queries
                (λ q. unfold pending_row in refl))
          (unfold get_query in h))
    where
      stays :
          (o : Option Query)
          → fetch (has_query_id k) db.queries ≡ o
          → waits_row
              (updated? (λ q. has_query_id id q && is_status q.status running) pending_row o)
            ≡ true
          → waits_row o ≡ true
      stays none found t = refl
      stays (some q) found t =
          let named : (q.query_id == k) ≡ true = fetch-test (has_query_id k) db.queries q found in
          let other : (q.query_id == id) ≡ false = ground (arith, named, apart) in rw other at t

-- A claim does nothing, or it places a query that waited.
abbrev pub Places : Db → Option Claimed × Db → Type 0
Places db result =
    (result ≡ (none, db))
    ⊎ ((now : ℕ) × (p : Query) × (w : Worker) × (result ≡ (some (claim_of p w), placed db now p w))
        × (waits p.query_id db ≡ true)
        × ((k : ℕ) → waits k (placed db now p w) ≡ true → (waits k db ≡ true) × (k ≢ p.query_id)))

module _ (db : Db) (v : IsValid db) where
  waits-placed :
      (now stale utcnow : ℕ) (p : Query) (w : Worker) (k : ℕ)
      → fetch (has_query_id p.query_id) db.queries ≡ some p
      → waits k (placed db now p w) ≡ true
      → (waits k db ≡ true) × (k ≢ p.query_id)
  unfolding get_query notify_query_status
  waits-placed now stale utcnow p w k found h = (
    waits_update (has_query_id p.query_id) (claimed_row now w.worker_id) k db.queries
        (λ q. unfold claimed_row in refl) (λ q. unfold claimed_row in refl) h,
    λ same.
        let row = row_placed db utcnow now stale p v found w in
        let h' : waits_row (
              fetch (has_query_id p.query_id)
                (update (has_query_id p.query_id) (claimed_row now w.worker_id) db.queries))
            ≡ true =
          subst
            (λ j.
              waits_row (
                fetch (has_query_id j)
                  (update (has_query_id p.query_id) (claimed_row now w.worker_id) db.queries))
              ≡ true)
            same h in
        absurd (not_waiting (subst (λ o. waits_row o ≡ true) row h')),
  )
    where
      not_waiting : waits_row (some (claimed_row now w.worker_id p)) ≡ true → ⊥
      not_waiting t = unfold claimed_row in cc

  claim_query-Places :
      (utcnow now stale : ℕ) (p : Query)
      → fetch (has_query_id p.query_id) db.queries ≡ some p
      → p.status ≡ pending
      → Places db (claim_query db utcnow now stale p)
  claim_query-Places utcnow now stale p found pends =
      elim (Option-cases (worker_for_query db utcnow stale p)) [
        | inl e ↦ inl (unfold claim_query in rw (e, claim_query))
        | inr (w, e) ↦ inr (
          now,
          p,
          w,
          claim_query_lem db utcnow now stale p v found w e,
          unfold get_query in rw (found, pends),
          λ k h. waits-placed now stale utcnow p w k found h,
        )
      ]

  pub claim_pending_query-Places :
      (locked : ℕ → Bool) (utcnow now stale : ℕ)
      → Places db (claim_pending_query db locked utcnow now stale)
  claim_pending_query-Places locked utcnow now stale =
      elim (Option-cases (oldest_pending db locked)) [
        | inl e ↦ inl (unfold claim_pending_query in rw (e, claim_pending_query))
        | inr (p, e) ↦
            unfold claim_pending_query in
            rw (e, claim_pending_query)
              (claim_query-Places utcnow now stale p (oldest_fetched db locked p v.queries_unique e)
                (claimable_pending locked p
                  (oldest_sound db locked (λ _. Unit {0}) p (All-intro _ _ (λ _. tt)) e).1))
      ]

  pub claim_query_by_id-Places :
      (locked : ℕ → Bool) (utcnow now id stale : ℕ)
      → Places db (claim_query_by_id db locked utcnow now id stale)
  unfolding claim_query_by_id
  claim_query_by_id-Places locked utcnow now id stale =
      elim (Option-cases (fetch (λ q. has_query_id id q && is_claimable locked q) db.queries)) [
        | inl e ↦ inl (rw (e, claim_query_by_id))
        | inr (p, e) ↦
            let hit =
              All-fetch _ (λ q. has_query_id id q && is_claimable locked q) db.queries p
                (All-fetch_self (λ q. q.query_id) db.queries v.queries_unique) e in
            rw (e, claim_query_by_id)
              (claim_query-Places utcnow now stale p hit.0
                (claimable_pending locked p (and_right _ _ hit.1)))
      ]
