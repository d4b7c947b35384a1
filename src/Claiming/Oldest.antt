-- ===== src/Claiming/Oldest.antt =====
-- The query that `claim_pending_query` takes.
use duck_launcher.Base.{
  ℕ, ◌≤◌, ◌≡◌, Bool, true, false, none, some, All, All-mono, arith, leb, eq_false,
}
use duck_launcher.Db.{Db, Query, QueryStatus, has_query_id}
use duck_launcher.Table.{fetch, Unique}
use duck_launcher.Table.Update.{All-select, All-of-select, All-fetch_self}
use duck_launcher.Table.Order.{IsOrder, All-order_by, order_by-least, order_by-none, All-head}
use duck_launcher.Queries.Claim.{is_claimable, oldest_pending}

abbrev created_before : Query → Query → Bool
created_before q r = leb q.created_at r.created_at

created_before-IsOrder : IsOrder created_before
created_before-IsOrder = record {
  total = λ q r h. ground arith;
  reflexive = λ q. ground arith;
  transitive = λ q r s h k. ground arith;
}

pub claimable_pending :
    (locked : ℕ → Bool) (q : Query) → is_claimable locked q ≡ true → q.status ≡ QueryStatus.pending
unfolding is_claimable
claimable_pending locked q h = ground arith

module _ (db : Db) (locked : ℕ → Bool) where
  pub oldest_sound {κ} :
      (P : Query → Type κ) (q : Query)
      → All P db.queries
      → oldest_pending db locked ≡ some q
      → P q × (is_claimable locked q ≡ true)
  unfolding oldest_pending
  oldest_sound P q h e =
      All-head created_before _ _ q
        (All-order_by created_before _ _ (All-select P (is_claimable locked) db.queries h)) e

  -- It is the row that its id fetches.
  pub oldest_fetched :
      (q : Query)
      → Unique (λ r. r.query_id) db.queries
      → oldest_pending db locked ≡ some q
      → fetch (has_query_id q.query_id) db.queries ≡ some q
  oldest_fetched q u e = (oldest_sound _ q (All-fetch_self (λ r. r.query_id) db.queries u) e).0

  -- No claimable query is older.
  pub oldest_first :
      (q : Query)
      → oldest_pending db locked ≡ some q
      → All (λ r. is_claimable locked r ≡ true → q.created_at ≤ r.created_at) db.queries
  unfolding oldest_pending
  oldest_first q e =
      All-mono (λ r. is_claimable locked r ≡ true → created_before q r ≡ true) _ db.queries
        (λ r h t. let first = h t in ground arith)
        (All-of-select (λ r. created_before q r ≡ true) (is_claimable locked) db.queries
          (order_by-least created_before created_before-IsOrder q _ e))

  -- None is taken only where none is claimable.
  pub oldest_none :
      oldest_pending db locked ≡ none → All (λ r. is_claimable locked r ≡ false) db.queries
  unfolding oldest_pending
  oldest_none e =
      All-mono _ _ db.queries (λ r not_so. eq_false _ not_so)
        (All-of-select (λ _. ⊥) (is_claimable locked) db.queries
          (order_by-none created_before (λ _. ⊥) _ e))
