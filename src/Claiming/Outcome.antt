-- ===== src/Claiming/Outcome.antt =====
-- What a claim gives back, and what it makes of the database.
use duck_launcher.Base.{ℕ, ◌≡◌, refl, ◌∙◌, ◌⊎◌, inl, inr, Bool, none, some, Option-cases, ==_refl}
use duck_launcher.Db.{Db, Worker, Query, running, has_worker_id, has_query_id}
use duck_launcher.Table.{update, fetch}
use duck_launcher.Table.Update.{All-fetch_self, fetch-update}
use duck_launcher.Queries.Notify.{notify_query_status}
use duck_launcher.Queries.Claim.{
  Claimed, worker_for_query, claimed_row, claim_query, select_claimed, worker_of, oldest_pending,
  claim_pending_query,
}
use duck_launcher.Claiming.Chosen.{chosen_sound}
use duck_launcher.Claiming.Oldest.{oldest_fetched}
use duck_launcher.Lifecycle.Valid.{IsValid}

abbrev pub claim_of : Query → Worker → Claimed
claim_of p w = record {
  query_id = p.query_id;
  query = p.query;
  cpus = p.cpus;
  memory = p.memory;
  disk_space = p.disk_space;
  worker_id = w.worker_id;
  endpoint = w.endpoint;
}

-- The database with the claimed row, and the notification of it.
abbrev pub placed : Db → ℕ → Query → Worker → Db
placed db now p w =
    notify_query_status
      (record db {
        queries = update (has_query_id p.query_id) (claimed_row now w.worker_id) db.queries;
      })
      p.query_id running none none

module _ (db : Db) (utcnow now stale : ℕ) (p : Query) (v : IsValid db)
    (found : fetch (has_query_id p.query_id) db.queries ≡ some p) where
  chosen_fetched :
      (w : Worker)
      → worker_for_query db utcnow stale p ≡ some w
      → fetch (has_worker_id w.worker_id) db.workers ≡ some w
  chosen_fetched w e =
      (chosen_sound db utcnow stale p _ w
        (All-fetch_self (λ u. u.worker_id) db.workers v.workers_unique) e).0

  pub row_placed :
      (w : Worker)
      → fetch
          (has_query_id p.query_id)
          (update (has_query_id p.query_id) (claimed_row now w.worker_id) db.queries)
        ≡ some (claimed_row now w.worker_id p)
  row_placed w =
      fetch-update (λ q. q.query_id) p.query_id (has_query_id p.query_id)
        (claimed_row now w.worker_id) db.queries (λ q. unfold claimed_row in refl)
      ∙ rw (found, ==_refl p.query_id)

  pub claim_query_lem :
      (w : Worker)
      → worker_for_query db utcnow stale p ≡ some w
      → claim_query db utcnow now stale p ≡ (some (claim_of p w), placed db now p w)
  unfolding claim_query
  claim_query_lem w e =
      rw (e, claim_query, row_placed w, select_claimed, chosen_fetched w e, worker_of)

-- How a claim of the oldest pending query can go.
abbrev pub Outcomes : Db → (ℕ → Bool) → ℕ → ℕ → ℕ → Type 0
Outcomes db locked utcnow now stale =
    ((oldest_pending db locked ≡ none)
      × (claim_pending_query db locked utcnow now stale ≡ (none, db)))
    ⊎ ((p : Query) × (oldest_pending db locked ≡ some p)
        × (worker_for_query db utcnow stale p ≡ none)
        × (claim_pending_query db locked utcnow now stale ≡ (none, db)))
    ⊎ ((p : Query) × (w : Worker) × (oldest_pending db locked ≡ some p)
        × (worker_for_query db utcnow stale p ≡ some w)
        × (claim_pending_query db locked utcnow now stale
            ≡ (some (claim_of p w), placed db now p w)))

pub claim-Outcomes :
    (db : Db) (locked : ℕ → Bool) (utcnow now stale : ℕ)
    → IsValid db
    → Outcomes db locked utcnow now stale
claim-Outcomes db locked utcnow now stale v = elim (Option-cases (oldest_pending db locked)) [
  | inl e ↦ inl (e, unfold claim_pending_query in rw (e, claim_pending_query))
  | inr (p, e) ↦ elim (Option-cases (worker_for_query db utcnow stale p)) [
    | inl c ↦ inr (
        inl (
          p,
          e,
          c,
          unfold claim_pending_query claim_query in rw (e, claim_pending_query, c, claim_query),
        ))
    | inr (w, c) ↦ inr (
        inr (
          p,
          w,
          e,
          c,
          unfold claim_pending_query in
              rw (e, claim_pending_query)
                (claim_query_lem db utcnow now stale p v
                  (oldest_fetched db locked p v.queries_unique e) w c),
        ))
  ]
]
