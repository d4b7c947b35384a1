-- ===== src/Tests/Overlaps.antt =====
-- Two claims that overlap, at concrete inputs.
use duck_launcher.Base.{◌≡◌, refl, ◌+◌, pos, none, [], ◌∷◌, false, leb_ℤ, arith, ◌+ℤ◌}
use duck_launcher.Db.{Db, Query, QueryStatus}
use duck_launcher.Table.{fetch, select, order_by, insert_row, count}
use duck_launcher.Queries.Stale.{is_fresh}
use duck_launcher.Queries.Claim.{
  worker_for_query, has_room, less_loaded, fits, load, running_queries,
}
use duck_launcher.Claiming.Overlap.{claim_reading, overlap_overcommits}
use duck_launcher.Lifecycle.Valid.{IsValid}
use duck_launcher.Tests.Fixture.{start, query_at, waiting_query, running_query, first_worker}

abbrev next_query : Query
next_query = query_at 13 QueryStatus.pending none none none 8

-- One worker, which has one place left.
abbrev one_place : Db
one_place = record start {
  workers = first_worker ∷ [];
  queries = waiting_query ∷ running_query ∷ next_query ∷ [];
}

one_place-IsValid : IsValid one_place
one_place-IsValid = record {
  workers_unique = omega arith;
  queries_unique = omega arith;
  rows = (
    record { shape = (refl, refl, refl); refers = refl },
    (
      record { shape = (refl, refl, refl); refers = refl },
      (record { shape = (refl, refl, refl); refers = refl }, tt),
    ),
  );
}

overlap_overcommits_example :
    let first = claim_reading one_place one_place 110000000 9 30 waiting_query in
    let second = claim_reading one_place first 110000000 10 30 next_query in
    (running_queries 1 second.queries ≡ running_queries 1 one_place.queries + 2)
    × (leb_ℤ (pos (running_queries 1 second.queries)) (pos 2) ≡ false)
overlap_overcommits_example =
    overlap_overcommits one_place 110000000 9 10 30 waiting_query next_query first_worker
      one_place-IsValid (unfold fetch in refl) (unfold fetch in refl) refl refl (omega arith)
      (unfold worker_for_query has_room less_loaded fits load running_queries is_fresh select
          order_by insert_row count ◌+ℤ◌ in
        refl)
      (unfold worker_for_query has_room less_loaded fits load running_queries is_fresh select
          order_by insert_row count ◌+ℤ◌ in
        refl)
      (unfold running_queries count in refl)
