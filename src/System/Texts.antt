-- ===== src/System/Texts.antt =====
-- db/queries.py and coordinator/scheduler.py: the text of a query, in its row and in its dispatches.
use duck_launcher.Base.{
  ℕ, ◌≡◌, refl, sym, ◌∙◌, subst, inl, inr, Bool, ◌&&◌, Option, none, some, String, List, All, arith,
  Option-cases,
}
use duck_launcher.Db.{Db, Worker, Query, has_query_id}
use duck_launcher.Table.{update, fetch}
use duck_launcher.Table.Update.{fetch-test}
use duck_launcher.Queries.Life.{get_query}
use duck_launcher.Queries.Notify.{notify_query_status}
use duck_launcher.Queries.Claim.{
  Claimed, claim_query, claim_pending_query, claim_query_by_id, worker_for_query, select_claimed,
  claimed_row, joined, worker_of, oldest_pending, is_claimable,
}
use duck_launcher.Lifecycle.Valid.{IsValid}
use duck_launcher.Lifecycle.Refinement.{never_lost}
use duck_launcher.System.Steps.{sends}
use duck_launcher.System.Calls.{ByCalls}

-- The query is there, and this is its text.
abbrev pub HasText : Db → ℕ → String → Type 0
HasText db k text = (q : Query) × (get_query db k ≡ some q) × (q.query ≡ text)

abbrev pub Asks : Db → Claimed → Type 0
Asks db c = HasText db c.query_id c.query

pub by-HasText :
    (db db' : Db) (k : ℕ) (text : String)
    → ByCalls db db'
    → IsValid db
    → HasText db k text
    → HasText db' k text
by-HasText db db' k text (cs, same) v (q, found, is_text) =
    let (r, found', kept) = never_lost cs db k q v found in
    (r, rw same found', kept.query ∙ is_text)

joined-Asks :
    (db : Db) (c : Claimed) (q : Query) (w : Option Worker)
    → get_query db q.query_id ≡ some q
    → joined q w ≡ some c
    → Asks db c
joined-Asks db c q none found e = cc
joined-Asks db c q (some w) found e =
    let id : q.query_id ≡ c.query_id = ground arith in
    let text : q.query ≡ c.query = ground arith in (q, rw (← id) found, text)

select_claimed-Asks : (db : Db) (k : ℕ) (c : Claimed) → select_claimed db k ≡ some c → Asks db c
unfolding select_claimed
select_claimed-Asks db k c e = elim (Option-cases (fetch (has_query_id k) db.queries)) [
  | inl absent ↦ let h = rw (absent, select_claimed) at e in cc
  | inr (q, found) ↦
      let id : q.query_id ≡ k = ground (arith, fetch-test (has_query_id k) db.queries q found) in
      joined-Asks db c q (worker_of q.worker_id db.workers)
        (subst (λ j. get_query db j ≡ some q) (sym id) (unfold get_query in found))
        (rw (found, select_claimed) at e)
]

module _ (db : Db) (utcnow now stale : ℕ) (c : Claimed) where
  claim_query-Asks :
      (p : Query)
      → (claim_query db utcnow now stale p).0 ≡ some c
      → Asks (claim_query db utcnow now stale p).1 c
  unfolding claim_query
  claim_query-Asks p e = elim (Option-cases (worker_for_query db utcnow stale p)) [
    | inl full ↦ let h = rw (full, claim_query) at e in cc
    | inr (w, room) ↦
        rw (room, claim_query)
          (let db' : Db = record db {
            queries = update (has_query_id p.query_id) (claimed_row now w.worker_id) db.queries;
          } in
            let (q, found, text) =
              select_claimed-Asks db' p.query_id c (rw (room, claim_query) at e) in
            (q, unfold get_query notify_query_status in found, text))
  ]

  pub claim_pending_query-Asks :
      (locked : ℕ → Bool)
      → (claim_pending_query db locked utcnow now stale).0 ≡ some c
      → Asks (claim_pending_query db locked utcnow now stale).1 c
  unfolding claim_pending_query
  claim_pending_query-Asks locked e = elim (Option-cases (oldest_pending db locked)) [
    | inl empty ↦ let h = rw (empty, claim_pending_query) at e in cc
    | inr (p, first) ↦
        rw (first, claim_pending_query) (claim_query-Asks p (rw (first, claim_pending_query) at e))
  ]

  pub claim_query_by_id-Asks :
      (locked : ℕ → Bool) (id : ℕ)
      → (claim_query_by_id db locked utcnow now id stale).0 ≡ some c
      → Asks (claim_query_by_id db locked utcnow now id stale).1 c
  unfolding claim_query_by_id
  claim_query_by_id-Asks locked id e =
      elim (Option-cases (fetch (λ q. has_query_id id q && is_claimable locked q) db.queries)) [
        | inl empty ↦ let h = rw (empty, claim_query_by_id) at e in cc
        | inr (p, first) ↦
            rw (first, claim_query_by_id) (claim_query-Asks p (rw (first, claim_query_by_id) at e))
      ]

-- A dispatch that a claim sends asks for the text of its query.
pub sends-Asks :
    (db : Db) (claimed : Option Claimed) (sent : List Claimed)
    → ((c : Claimed) → claimed ≡ some c → Asks db c)
    → All (Asks db) sent
    → All (Asks db) (sends claimed sent)
sends-Asks db none sent new h = h
sends-Asks db (some c) sent new h = (new c refl, h)
