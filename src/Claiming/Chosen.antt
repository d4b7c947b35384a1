-- ===== src/Claiming/Chosen.antt =====
-- The worker that `_WORKER_FOR_QUERY_SQL` selects.
use duck_launcher.Base.{
  ℕ, ◌≡◌, true, false, none, some, All, All-mono, arith, eq_false, Option-cases, inl, inr,
}
use duck_launcher.Db.{Db, Worker, Query}
use duck_launcher.Table.Update.{All-select, All-of-select}
use duck_launcher.Table.Order.{IsOrder, All-order_by, order_by-least, order_by-none, All-head}
use duck_launcher.Queries.Claim.{has_room, less_loaded, worker_for_query}

less_loaded-IsOrder : (db : Db) → IsOrder (less_loaded db)
unfolding less_loaded
less_loaded-IsOrder db = record {
  total = λ w v h. ground arith;
  reflexive = λ w. ground arith;
  transitive = λ u v w h k. ground arith;
}

module _ (db : Db) (utcnow stale : ℕ) (q : Query) where
  -- It is a row of the table, and has room.
  pub chosen_sound {κ} :
      (P : Worker → Type κ) (w : Worker)
      → All P db.workers
      → worker_for_query db utcnow stale q ≡ some w
      → P w × (has_room db utcnow stale q w ≡ true)
  unfolding worker_for_query
  chosen_sound P w h e =
      All-head (less_loaded db) _ _ w
        (All-order_by (less_loaded db) _ _ (All-select P (has_room db utcnow stale q) db.workers h))
        e

  -- No worker with room comes before it.
  pub chosen_least :
      (w : Worker)
      → worker_for_query db utcnow stale q ≡ some w
      → All (λ v. has_room db utcnow stale q v ≡ true → less_loaded db w v ≡ true) db.workers
  unfolding worker_for_query
  chosen_least w e =
      All-of-select (λ v. less_loaded db w v ≡ true) (has_room db utcnow stale q) db.workers
        (order_by-least (less_loaded db) (less_loaded-IsOrder db) w _ e)

  -- None is chosen only where none has room.
  pub chosen_none :
      worker_for_query db utcnow stale q ≡ none
      → All (λ v. has_room db utcnow stale q v ≡ false) db.workers
  unfolding worker_for_query
  chosen_none e =
      All-mono _ _ db.workers (λ v no_room. eq_false _ no_room)
        (All-of-select (λ _. ⊥) (has_room db utcnow stale q) db.workers
          (order_by-none (less_loaded db) (λ _. ⊥) _ e))

  -- And none is chosen where none has room.
  pub none_chosen :
      All (λ v. has_room db utcnow stale q v ≡ false) db.workers
      → worker_for_query db utcnow stale q ≡ none
  none_chosen full = elim (Option-cases (worker_for_query db utcnow stale q)) [
    | inl e ↦ e
    | inr (w, e) ↦
        let both = chosen_sound (λ v. has_room db utcnow stale q v ≡ false) w full e in
        cc (both.0, both.1)
  ]
