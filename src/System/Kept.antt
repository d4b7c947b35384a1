-- ===== src/System/Kept.antt =====
-- db/queries.py: calls other than reports, on rows that the executions explain.
use duck_launcher.Claiming.Oldest.{claimable_pending, oldest_sound, oldest_fetched}
use duck_launcher.Queries.Workers.{register_worker, heartbeat_worker, ready_worker, shutdown_worker}
use duck_launcher.Scheduler.Dispatch.{queries-revert}
use duck_launcher.Base.{
  ℕ, ℤ, ◌≡◌, refl, ◌∙◌, subst, inl, inr, Bool, true, ◌&&◌, ◌==◌, Option, some, String, List, [],
  ◌∷◌, All, All-append, All-both, any, arith, Bool-cases, Option-cases, All-intro,
}
use duck_launcher.Db.{
  Db, Worker, Query, pending, running, is_status, is_active, has_query_id, runs_on,
}
use duck_launcher.Table.{update, fetch, ends_in_one, Unique}
use duck_launcher.Table.Update.{All-update, All-fetch, All-fetch_self, fetch-only}
use duck_launcher.Queries.Life.{
  create_query, mark_query_cancelled, revert_query_to_pending, cancelled_row, pending_row,
  user_exists,
}
use duck_launcher.Queries.Stale.{
  reverted_row, revert_queries, mark_worker_unreachable, sweep_stale_workers, revert_from,
  runs_on_any, is_serving,
}
use duck_launcher.Queries.Claim.{
  claim_query, claimed_row, claim_pending_query, claim_query_by_id, worker_for_query, is_claimable,
  oldest_pending,
}
use duck_launcher.Lifecycle.Calls.{
  Call, register, heartbeat, ready, shutdown, create, complete, cancel, revert, unreachable, sweep,
  claim, claim_by_id, step, run,
}
use duck_launcher.Lifecycle.Steps.{and_right}
use duck_launcher.Lifecycle.Notices.{revert_queries_lem}
use duck_launcher.Lifecycle.Valid.{IsValid, step-IsValid}
use duck_launcher.System.Steps.{Run}
use duck_launcher.System.Calls.{is_plain, Plain}
use duck_launcher.System.Explained.{Explained, when_running, when_active}

module _ (log : List Run) where
  -- A statement that takes running queries back.
  back :
      (test : Query → Bool) (set : Query → Query) (qs : List Query)
      → ((q : Query) → test q ≡ true → is_status q.status running ≡ true)
      → ((q : Query) → (set q).status ≡ pending)
      → ((q : Query) → (set q).result_row_count ≡ q.result_row_count)
      → All (Explained log) qs
      → All (Explained log) (update test set qs)
  back test set qs active waits same h =
      All-update (Explained log) (Explained log) test set qs
        (λ q x t. rw (waits q) (same q ∙ when_running log _ _ _ q.status x (active q t)))
        (λ q x t. x) h

  reverts :
      (db : Db) (test : Query → Bool)
      → ((q : Query) → test q ≡ true → is_status q.status running ≡ true)
      → All (Explained log) db.queries
      → All (Explained log) (revert_queries db test).queries
  reverts db test active h = rw (revert_queries_lem db test) (
      back test reverted_row db.queries active (λ q. unfold reverted_row in refl)
        (λ q. unfold reverted_row in refl) h)

  module _ (db : Db) (h : All (Explained log) db.queries) where
    revert_kept : (k : ℕ) → All (Explained log) (revert_query_to_pending db k).queries
    revert_kept k = rw (queries-revert db k) (
        back (λ q. has_query_id k q && is_status q.status running) pending_row db.queries
          (λ q t. and_right _ _ t) (λ q. unfold pending_row in refl)
          (λ q. unfold pending_row in refl) h)

    unreachable_kept : (k : ℕ) → All (Explained log) (mark_worker_unreachable db k).queries
    unreachable_kept k =
        unfold mark_worker_unreachable in
        elim (Bool-cases
          (ends_in_one (λ w. (w.worker_id == k) && is_serving w.status) db.workers)) [
            | inl e ↦ rw e (reverts _ (runs_on k) (λ q t. and_right _ _ t) h)
            | inr e ↦ rw e h
          ]

    from_kept :
        (ws stale : List Worker)
        → All (Explained log) (revert_from (record db { workers = ws }) stale).queries
    unfolding revert_from
    from_kept ws [] = h
    from_kept ws (v ∷ vs) = reverts _ (runs_on_any (v ∷ vs)) (λ q t. and_right _ _ t) h

    cancel_kept :
        (now k : ℕ) (error : Option String)
        → All (Explained log) (mark_query_cancelled db now k error).1.queries
    cancel_kept now k error = subst (All (Explained log)) updates (
        All-update (Explained log) (Explained log) active (cancelled_row now error) db.queries
          (λ q x t. unfold cancelled_row in tt) (λ q x t. x) h)
      where
        active : Query → Bool
        active q = has_query_id k q && is_active q.status

        updates :
            update active (cancelled_row now error) db.queries
            ≡ (mark_query_cancelled db now k error).1.queries
        updates = unfold mark_query_cancelled in ground arith

    create_kept :
        (uuid now : ℕ) (query : String) (cpus memory disk : Option ℤ) (user : Option ℕ)
        → All (Explained log) (step (create uuid now query cpus memory disk user) db).queries
    create_kept uuid now query cpus memory disk user =
        unfold step create_query in
        elim (Bool-cases (any (has_query_id uuid) db.queries)) [
          | inl e ↦ rw e h
          | inr e ↦ elim (Bool-cases (user_exists db.users user)) [
            | inl u ↦ rw (e, u) (All-append (Explained log) db.queries _ h (refl, tt))
            | inr u ↦ rw (e, u) h
          ]
        ]

    place_kept :
        (now w : ℕ) (p : Query)
        → Unique (λ q. q.query_id) db.queries
        → fetch (has_query_id p.query_id) db.queries ≡ some p
        → p.status ≡ pending
        → All (Explained log) (update (has_query_id p.query_id) (claimed_row now w) db.queries)
    place_kept now w p u found waits =
        All-update (λ q. Explained log q × ((q.query_id == p.query_id) ≡ true → q ≡ p))
          (Explained log) (has_query_id p.query_id) (claimed_row now w) db.queries
          (λ q x t.
            unfold claimed_row in
            let waiting : is_active q.status ≡ true = rw (x.1 t, waits) refl in
            when_active log _ _ _ q.status x.0 waiting)
          (λ q x t. x.0)
          (All-both _ _ db.queries h (fetch-only (λ q. q.query_id) p.query_id db.queries p u found))

    claim_kept :
        (utcnow now stale : ℕ) (p : Query)
        → Unique (λ q. q.query_id) db.queries
        → fetch (has_query_id p.query_id) db.queries ≡ some p
        → p.status ≡ pending
        → All (Explained log) (claim_query db utcnow now stale p).1.queries
    claim_kept utcnow now stale p u found waits =
        unfold claim_query in
        elim (Option-cases (worker_for_query db utcnow stale p)) [
          | inl e ↦ rw (e, claim_query) h
          | inr (w, e) ↦ rw (e, claim_query) (place_kept now w.worker_id p u found waits)
        ]

    module _ (v : IsValid db) (locked : ℕ → Bool) (utcnow now stale : ℕ) where
      oldest_kept : All (Explained log) (claim_pending_query db locked utcnow now stale).1.queries
      unfolding claim_pending_query
      oldest_kept = elim (Option-cases (oldest_pending db locked)) [
        | inl e ↦ rw (e, claim_pending_query) h
        | inr (p, e) ↦
            rw (e, claim_pending_query)
              (claim_kept utcnow now stale p v.queries_unique
                (oldest_fetched db locked p v.queries_unique e)
                (claimable_pending locked p
                  (oldest_sound db locked (λ _. Unit {0}) p (All-intro _ _ (λ _. tt)) e).1))
      ]

      by_id_kept :
          (id : ℕ) → All (Explained log) (claim_query_by_id db locked utcnow now id stale).1.queries
      unfolding claim_query_by_id
      by_id_kept id =
          elim (Option-cases (fetch (λ q. has_query_id id q && is_claimable locked q) db.queries)) [
            | inl e ↦ rw (e, claim_query_by_id) h
            | inr (p, e) ↦
                let hit =
                  All-fetch _ (λ q. has_query_id id q && is_claimable locked q) db.queries p
                    (All-fetch_self (λ q. q.query_id) db.queries v.queries_unique) e in
                rw (e, claim_query_by_id)
                  (claim_kept utcnow now stale p v.queries_unique hit.0
                    (claimable_pending locked p (and_right _ _ hit.1)))
          ]

    plain_kept :
        (c : Call) → is_plain c ≡ true → IsValid db → All (Explained log) (step c db).queries
    unfolding step
    plain_kept (register id uuid now endpoint cpus memory disk limit) plain v =
        unfold register_worker in h
    plain_kept (heartbeat now id cpus memory disk status used usage) plain v =
        unfold heartbeat_worker in h
    plain_kept (ready now id) plain v = unfold ready_worker in h
    plain_kept (shutdown now id) plain v = unfold shutdown_worker in h
    plain_kept (create uuid now query cpus memory disk user) plain v =
        create_kept uuid now query cpus memory disk user
    plain_kept (complete now id status error rows) plain v = cc
    plain_kept (cancel now id error) plain v = cancel_kept now id error
    plain_kept (revert id) plain v = revert_kept id
    plain_kept (unreachable id) plain v = unreachable_kept id
    plain_kept (sweep utcnow stale) plain v = unfold sweep_stale_workers in from_kept _ _
    plain_kept (claim locked utcnow now stale) plain v = oldest_kept v locked utcnow now stale
    plain_kept (claim_by_id locked utcnow now id stale) plain v =
        by_id_kept v locked utcnow now stale id

  -- Calls other than reports leave every row explained.
  pub run_kept :
      (cs : List Call) (db : Db)
      → Plain cs
      → IsValid db
      → All (Explained log) db.queries
      → All (Explained log) (run cs db).queries
  unfolding run
  run_kept [] db plain v h = h
  run_kept (c ∷ cs) db plain v h =
      run_kept cs (step c db) plain.1 (step-IsValid c db v) (plain_kept db h c plain.0 v)
