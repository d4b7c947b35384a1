-- ===== src/Lifecycle/Steps.antt =====
-- Every call edits the table `queries` by the specification.
use duck_launcher.Base.{
  ℕ, ℤ, ◌≡◌, refl, inl, inr, Bool, true, ◌&&◌, Option, some, String, List, [], ◌∷◌, All, All-intro,
  any, arith, Option-cases, subst, All-mono,
}
use duck_launcher.Db.{
  Db, Worker, Query, pending, running, is_active, is_status, has_worker_id, has_query_id,
}
use duck_launcher.Models.{CompletionStatus, to_status}
use duck_launcher.Table.{update, fetch, Unique}
use duck_launcher.Table.Update.{All-fetch_self, All-fetch}
use duck_launcher.Queries.Life.{
  complete_query, mark_query_cancelled, revert_query_to_pending, completed_row, cancelled_row,
  pending_row,
}
use duck_launcher.Queries.Stale.{reverted_row, revert_queries}
use duck_launcher.Queries.Claim.{
  claim_query, worker_for_query, claim_pending_query, claim_query_by_id, is_claimable,
  oldest_pending,
}
use duck_launcher.Claiming.Chosen.{chosen_sound}
use duck_launcher.Claiming.Oldest.{claimable_pending, oldest_sound, oldest_fetched}
use duck_launcher.Lifecycle.Phase.{Edit, keeps}
use duck_launcher.Lifecycle.Notices.{revert_queries_lem}
use duck_launcher.Lifecycle.Edits.{finish_Edit, back_Edit, place_Edit}

pub and_left : (a b : Bool) → (a && b) ≡ true → a ≡ true
and_left a b h = ground arith

pub and_right : (a b : Bool) → (a && b) ≡ true → b ≡ true
and_right a b h = ground arith

-- The worker table holds each of its rows.
any_self : (ws : List Worker) → All (λ w. any (has_worker_id w.worker_id) ws ≡ true) ws
any_self [] = tt
any_self (w ∷ ws) = (ground arith, All-mono _ _ ws (λ v h. rw (h) (ground arith)) (any_self ws))

module _ (db : Db) where
  pub complete_query-Edit :
      (now id : ℕ) (s : CompletionStatus) (error : Option String) (rows : Option ℤ)
      → Edit db.workers db.queries (complete_query db now id (to_status s) error rows).1.queries
  unfolding complete_query
  complete_query-Edit now id s error rows = subst (Edit db.workers db.queries) updates (
      finish_Edit db active (completed_row now (to_status s) error rows) s
        (λ q t. and_right (has_query_id id q) (is_active q.status) t) (λ q. ground arith)
        (λ q. refl))
    where
      active : Query → Bool
      active q = has_query_id id q && is_active q.status

      updates :
          update active (completed_row now (to_status s) error rows) db.queries
          ≡ (complete_query db now id (to_status s) error rows).1.queries
      updates = ground arith

  pub mark_query_cancelled-Edit :
      (now id : ℕ) (error : Option String)
      → Edit db.workers db.queries (mark_query_cancelled db now id error).1.queries
  unfolding mark_query_cancelled
  mark_query_cancelled-Edit now id error = subst (Edit db.workers db.queries) updates (
      finish_Edit db active (cancelled_row now error) CompletionStatus.cancelled
        (λ q t. and_right (has_query_id id q) (is_active q.status) t) (λ q. refl) (λ q. refl))
    where
      active : Query → Bool
      active q = has_query_id id q && is_active q.status

      updates :
          update active (cancelled_row now error) db.queries
          ≡ (mark_query_cancelled db now id error).1.queries
      updates = ground arith

  pub revert_query_to_pending-Edit :
      (id : ℕ) → Edit db.workers db.queries (revert_query_to_pending db id).queries
  unfolding revert_query_to_pending
  revert_query_to_pending-Edit id = subst (Edit db.workers db.queries) updates (
      back_Edit db on_run pending_row
        (λ q t. and_right (has_query_id id q) (is_status q.status running) t) (λ q. refl))
    where
      on_run : Query → Bool
      on_run q = has_query_id id q && is_status q.status running

      updates : update on_run pending_row db.queries ≡ (revert_query_to_pending db id).queries
      updates = ground arith

  pub revert_queries-Edit :
      (test : Query → Bool)
      → ((q : Query) → test q ≡ true → is_status q.status running ≡ true)
      → Edit db.workers db.queries (revert_queries db test).queries
  unfolding reverted_row
  revert_queries-Edit test active =
      rw (revert_queries_lem db test) (back_Edit db test reverted_row active (λ q. refl))

  pub claim_query-Edit :
      (utcnow now stale : ℕ) (p : Query)
      → Unique (λ q. q.query_id) db.queries
      → fetch (has_query_id p.query_id) db.queries ≡ some p
      → p.status ≡ pending
      → Edit db.workers db.queries (claim_query db utcnow now stale p).1.queries
  unfolding claim_query
  claim_query-Edit utcnow now stale p unique found waits =
      elim (Option-cases (worker_for_query db utcnow stale p)) [
        | inl e ↦ rw (e, claim_query) (keeps refl)
        | inr (w, e) ↦
            rw (e, claim_query)
              (place_Edit db now w.worker_id p unique found waits
                (chosen_sound db utcnow stale p _ w (any_self db.workers) e).0)
      ]

  pub claim_pending_query-Edit :
      (locked : ℕ → Bool) (utcnow now stale : ℕ)
      → Unique (λ q. q.query_id) db.queries
      → Edit db.workers db.queries (claim_pending_query db locked utcnow now stale).1.queries
  unfolding claim_pending_query
  claim_pending_query-Edit locked utcnow now stale unique =
      elim (Option-cases (oldest_pending db locked)) [
        | inl e ↦ rw (e, claim_pending_query) (keeps refl)
        | inr (p, e) ↦
            rw (e, claim_pending_query)
              (claim_query-Edit utcnow now stale p unique (oldest_fetched db locked p unique e) (
                claimable_pending locked p
                  (oldest_sound db locked (λ _. Unit {0}) p (All-intro _ _ (λ _. tt)) e).1))
      ]

  pub claim_query_by_id-Edit :
      (locked : ℕ → Bool) (utcnow now id stale : ℕ)
      → Unique (λ q. q.query_id) db.queries
      → Edit db.workers db.queries (claim_query_by_id db locked utcnow now id stale).1.queries
  unfolding claim_query_by_id
  claim_query_by_id-Edit locked utcnow now id stale unique =
      elim (Option-cases (fetch (λ q. has_query_id id q && is_claimable locked q) db.queries)) [
        | inl e ↦ rw (e, claim_query_by_id) (keeps refl)
        | inr (p, e) ↦
            let hit =
              All-fetch _ (λ q. has_query_id id q && is_claimable locked q) db.queries p
                (All-fetch_self (λ q. q.query_id) db.queries unique) e in
            rw (e, claim_query_by_id)
              (claim_query-Edit utcnow now stale p unique hit.0
                (claimable_pending locked p (and_right _ _ hit.1)))
      ]
