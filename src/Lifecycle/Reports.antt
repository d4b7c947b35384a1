-- ===== src/Lifecycle/Reports.antt =====
-- db/queries.py: what a report of a query's end is told, and what it does; a report may come twice.
use duck_launcher.Base.{
  ℕ, ℤ, ◌≡◌, refl, ap, ◌∙◌, inl, inr, Bool, false, ◌&&◌, ◌||◌, Option, none, some, String, arith,
  Bool-cases, if◌then◌else◌,
}
use duck_launcher.Db.{Db, Query, QueryStatus, is_status, is_active, has_query_id}
use duck_launcher.Table.{fetch, update, ends_in_one, Unique}
use duck_launcher.Table.Update.{fetch-update, fetch-test, ends_in_one_at_key, updated?}
use duck_launcher.Queries.Notify.{notify_query_status}
use duck_launcher.Queries.Life.{get_query, complete_query, completed_row}

module _ (db : Db) (now k : ℕ) (status : QueryStatus) (error : Option String) (rows : Option ℤ)
    (q : Query) where
  tag :
      Unique (λ r. r.query_id) db.queries
      → get_query db k ≡ some q
      → ends_in_one (λ r. has_query_id k r && is_active r.status) db.queries ≡ is_active q.status
  unfolding get_query
  tag u found =
      ends_in_one_at_key (λ r. r.query_id) k (λ r. is_active r.status) db.queries u
      ∙ ap (λ o. elim o as (λ _. Bool) [ none ↦ false | some r ↦ is_active r.status ]) found

  row_after :
      get_query db k ≡ some q
      → fetch (has_query_id k) (
          update
            (λ r. has_query_id k r && is_active r.status)
            (completed_row now status error rows)
            db.queries)
        ≡ some (if is_active q.status then completed_row now status error rows q else q)
  unfolding get_query completed_row
  row_after found =
      let named = fetch-test (has_query_id k) db.queries q found in
      fetch-update (λ r. r.query_id) k (λ r. has_query_id k r && is_active r.status)
        (completed_row now status error rows) db.queries (λ r. refl)
      ∙ ap
          (updated? (λ r. has_query_id k r && is_active r.status)
            (completed_row now status error rows))
          found
      ∙ ground (arith, named)

  -- Where query ids are distinct, for a query that is there: the call answers true if the query was
  -- active or has the reported status, and false if not. An active query gets the report's fields
  -- and any other query keeps its row.
  pub complete_query_lem :
      Unique (λ r. r.query_id) db.queries
      → get_query db k ≡ some q
      → ((complete_query db now k status error rows).0
          ≡ (is_active q.status || is_status q.status status))
        × (get_query (complete_query db now k status error rows).1 k
            ≡ some (if is_active q.status then completed_row now status error rows q else q))
  unfolding complete_query get_query notify_query_status
  complete_query_lem u found = elim (Bool-cases (is_active q.status)) [
    | inl a ↦ rw (complete_query, tag u found, a) (refl, row_after found ∙ rw a refl)
    | inr a ↦
        let same : fetch (has_query_id k) (
              update (λ r. has_query_id k r && is_active r.status)
                (completed_row now status error rows) db.queries)
            ≡ some q =
          row_after found ∙ rw a refl in
        elim (Bool-cases (is_status q.status status)) [
          | inl t ↦ rw (complete_query, tag u found, a, same, t) (refl, same)
          | inr t ↦ rw (complete_query, tag u found, a, same, t) (refl, same)
        ]
  ]
