-- ===== src/Routes/Settled.antt =====
-- A cancellation that is answered with a row has settled the query.
use duck_launcher.Base.{
  ℕ, ◌≡◌, refl, ap, ◌∙◌, inl, inr, Bool, true, false, ◌&&◌, Option, none, some, String, List, arith,
  Bool-cases, Option-cases,
}
use duck_launcher.Db.{Db, Query, QueryStatus, is_status, is_active, has_query_id}
use duck_launcher.Table.{fetch, update}
use duck_launcher.Table.Update.{fetch-update, fetch-test, updated?}
use duck_launcher.Queries.Notify.{notify_query_status}
use duck_launcher.Queries.Life.{get_query, mark_query_cancelled, cancelled_row}
use duck_launcher.Lifecycle.Calls.{Call, cancel, step, run}
use duck_launcher.Lifecycle.Valid.{IsValid, step-IsValid}
use duck_launcher.Lifecycle.Refinement.{finished_forever, never_lost}
use duck_launcher.Accounts.Auth.{Answer, returned, raised}
use duck_launcher.Routes.{QueryResponse, query_response, is_terminal}
use duck_launcher.Routes.Submit.{answer_row}
use duck_launcher.Routes.Cancel.{if_cancelled}

-- The query is finished.
unfoldable pub Finished : ℕ → Db → Type 0
Finished k db = (q : Query) × (get_query db k ≡ some q) × (is_active q.status ≡ false)

-- If the answer is a response, the query is finished and the response is its row.
abbrev pub Settles : ℕ → Answer QueryResponse → Db → Type 0
Settles k (raised status_code) db = Unit
Settles k (returned r) db =
    (q : Query) × (get_query db k ≡ some q) × (is_active q.status ≡ false) × (r ≡ query_response q)

pub terminal_finished : (s : QueryStatus) → is_terminal s ≡ true → is_active s ≡ false
terminal_finished QueryStatus.pending h = cc
terminal_finished QueryStatus.running h = cc
terminal_finished QueryStatus.completed h = refl
terminal_finished QueryStatus.failed h = refl
terminal_finished QueryStatus.cancelled h = refl

cancelled_finished :
    (s : QueryStatus) → is_status s QueryStatus.cancelled ≡ true → is_active s ≡ false
cancelled_finished QueryStatus.pending h = cc
cancelled_finished QueryStatus.running h = cc
cancelled_finished QueryStatus.completed h = refl
cancelled_finished QueryStatus.failed h = refl
cancelled_finished QueryStatus.cancelled h = refl

-- Marking a query as cancelled finishes it, if it was not finished before.
queries-mark :
    (db : Db) (now k : ℕ) (error : Option String)
    → (mark_query_cancelled db now k error).1.queries
      ≡ update (λ q. has_query_id k q && is_active q.status) (cancelled_row now error) db.queries
unfolding mark_query_cancelled notify_query_status
queries-mark db now k error =
    elim (Option-cases (fetch (λ q. has_query_id k q && is_active q.status) db.queries)) [
      | inl n ↦ rw (mark_query_cancelled, n) refl
      | inr (q, hit) ↦ rw (mark_query_cancelled, hit) refl
    ]

mark-Finished :
    (db : Db) (now k : ℕ) (error : Option String) (q : Query)
    → get_query db k ≡ some q
    → Finished k (mark_query_cancelled db now k error).1
unfolding get_query cancelled_row Finished
mark-Finished db now k error q found =
    let hit : Query → Bool = λ p. has_query_id k p && is_active p.status in
    let after =
      fetch-update (λ p. p.query_id) k hit (cancelled_row now error) db.queries (λ p. refl) in
    let named = fetch-test (has_query_id k) db.queries q found in
    elim (Bool-cases (is_active q.status)) [
      | inl a ↦ (
        cancelled_row now error q,
        rw (queries-mark db now k error)
            (after ∙ ap (updated? hit (cancelled_row now error)) found ∙ ground (arith, named, a)),
        refl,
      )
      | inr a ↦ (
        q,
        rw (queries-mark db now k error)
            (after ∙ ap (updated? hit (cancelled_row now error)) found ∙ ground (arith, named, a)),
        a,
      )
    ]

-- Reading a finished query, after whatever else has happened.
pub answer_row-Settles :
    (cs : List Call) (db : Db) (k : ℕ)
    → IsValid db
    → Finished k db
    → Settles k (answer_row (run cs db) k) (run cs db)
unfolding Finished
answer_row-Settles cs db k v (q, found, over) =
    let found' = finished_forever cs db k q v found over in
    let answer : answer_row (run cs db) k ≡ returned (query_response q) =
      rw (answer_row, found') refl in
    rw answer (q, found', over, refl)

pub if_cancelled_lem :
    (found : Option Query) (row : Query)
    → if_cancelled found ≡ some row
    → (found ≡ some row) × (is_active row.status ≡ false)
if_cancelled_lem none row e = cc
if_cancelled_lem (some q) row e = elim (Bool-cases (is_status q.status QueryStatus.cancelled)) [
  | inl t ↦
      let same : some q ≡ some row = rw t at e in
      let one : q ≡ row = ground (arith, same) in (same, rw (← one) (cancelled_finished q.status t))
  | inr t ↦ absurd (ground (arith, t))
]

-- A query that is there stays there.
unfoldable pub Present : ℕ → Db → Type 0
Present k db = (q : Query) × (get_query db k ≡ some q)

pub run-Present :
    (cs : List Call) (db : Db) (k : ℕ) → IsValid db → Present k db → Present k (run cs db)
unfolding Present
run-Present cs db k v (q, found) = let (r, found', _) = never_lost cs db k q v found in (r, found')

pub mark-IsValid :
    (db : Db) (now k : ℕ) (error : Option String)
    → IsValid db
    → IsValid (mark_query_cancelled db now k error).1
unfolding step
mark-IsValid db now k error v = step-IsValid (cancel now k error) db v

pub mark-settles :
    (db : Db) (now k : ℕ) (error : Option String)
    → Present k db
    → Finished k (mark_query_cancelled db now k error).1
unfolding Present
mark-settles db now k error (q, found) = mark-Finished db now k error q found
