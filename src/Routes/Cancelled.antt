-- ===== src/Routes/Cancelled.antt =====
-- Each way through `cancel_query`, and all of them.
use duck_launcher.Text.{rstrip_slash}
use Prim.Native.String.{◌++◌}
use duck_launcher.Base.{
  ℕ, zero, suc, ◌≡◌, refl, ap, ◌∙◌, inl, inr, Bool, Option, some, String, List, arith, Bool-cases,
  Option-cases, ◌⊎◌,
}
use duck_launcher.Db.{Db, User, Query, QueryStatus, is_status}
use duck_launcher.Queries.Life.{get_query, mark_query_cancelled}
use duck_launcher.Lifecycle.Calls.{Call, run}
use duck_launcher.Lifecycle.Valid.{IsValid, run-IsValid}
use duck_launcher.Accounts.Auth.{Answer, returned, raised}
use duck_launcher.Routes.{query_response, accessible, may_access, is_terminal, get_worker_endpoint}
use duck_launcher.Routes.Cancel.{
  Await, if_cancelled, poll, answer_marked, cancel_pending, cancel_without_worker,
  cancel_by_request, await_cancelled, cancel_running, cancel_query, after_mark, after_read,
  after_endpoint, after_post, after_poll,
}
use duck_launcher.Routes.Settled.{
  Present, Settles, run-Present, mark-IsValid, mark-settles, answer_row-Settles, if_cancelled_lem,
  terminal_finished,
}

Answer-cases : (a : Answer Query) → ((n : ℕ) × (a ≡ raised n)) ⊎ ((q : Query) × (a ≡ returned q))
Answer-cases (raised n) = inl (n, refl)
Answer-cases (returned q) = inr (q, refl)

module _ (others : Await → List Call) (now : ℕ) where
  -- What the other tasks commit, call by call.
  abbrev meanwhile : Await → Db → Db
  meanwhile at db = run (others at) db

  answer_marked-Settles :
      (db : Db) (k : ℕ) (error : Option String)
      → IsValid db
      → Present k db
      → let marked = (mark_query_cancelled db now k error).1 in
        Settles k (answer_marked meanwhile now k marked).0 (answer_marked meanwhile now k marked).1
  answer_marked-Settles db k error v there =
      answer_row-Settles (others after_mark) (mark_query_cancelled db now k error).1 k
        (mark-IsValid db now k error v) (mark-settles db now k error there)

  cancel_pending-Settles :
      (db : Db) (k : ℕ)
      → IsValid db
      → Present k db
      → Settles k (cancel_pending meanwhile now k db).0 (cancel_pending meanwhile now k db).1
  unfolding cancel_pending
  cancel_pending-Settles db k v there =
      elim (Option-cases (mark_query_cancelled db now k (some "Cancelled before dispatch")).0) [
        | inl n ↦ rw (cancel_pending, n) tt
        | inr (q, hit) ↦
            rw (cancel_pending, hit)
              (answer_marked-Settles db k (some "Cancelled before dispatch") v there)
      ]

  -- A poll that ends with a row has read a cancelled query.
  poll-Settles :
      (left k : ℕ) (db : Db) (row : Query)
      → (poll meanwhile now left k db).0 ≡ some row
      → Settles k (returned (query_response row)) (poll meanwhile now left k db).1
  unfolding poll
  poll-Settles zero k db row e = cc
  poll-Settles (suc left) k db row e =
      let rest = poll meanwhile now left k (meanwhile (after_poll left) db) in
      elim (Option-cases (if_cancelled (get_query db k))) [
        | inl n ↦
            rw (poll, n)
              (poll-Settles left k (meanwhile (after_poll left) db) row (rw (poll, n) at e))
        | inr (q, hit) ↦
            let e' : some q ≡ some row = rw (poll, hit) at e in
            let same : q ≡ row = cc in
            let read = if_cancelled_lem (get_query db k) row (hit ∙ e') in
            rw (poll, hit) (row, read.0, read.1, refl)
      ]

  poll-Present :
      (left k : ℕ) (db : Db)
      → IsValid db
      → Present k db
      → IsValid (poll meanwhile now left k db).1 × Present k (poll meanwhile now left k db).1
  unfolding poll
  poll-Present zero k db v there = (v, there)
  poll-Present (suc left) k db v there =
      let rest =
        poll-Present left k (meanwhile (after_poll left) db)
          (run-IsValid (others (after_poll left)) db v)
          (run-Present (others (after_poll left)) db k v there) in
      elim (Option-cases (if_cancelled (get_query db k))) [
        | inl n ↦ rw (poll, n) rest
        | inr (q, hit) ↦ rw (poll, hit) (v, there)
      ]

  cancel_by_request-Settles :
      (db : Db) (k : ℕ)
      → IsValid db
      → Present k db
      → Settles k (cancel_by_request meanwhile now k db).0 (cancel_by_request meanwhile now k db).1
  unfolding cancel_by_request
  cancel_by_request-Settles db k v there =
      let error : Option String = some "Cancelled by request" in
      let marked = mark_query_cancelled db now k error in
      elim (Option-cases (marked.0)) [
        | inr (q, hit) ↦ rw (cancel_by_request, hit) (answer_marked-Settles db k error v there)
        | inl n ↦ elim (Option-cases (if_cancelled (get_query (meanwhile after_mark marked.1) k))) [
          | inl m ↦ rw (cancel_by_request, n, m) tt
          | inr (row, hit) ↦
              let read = if_cancelled_lem (get_query (meanwhile after_mark marked.1) k) row hit in
              rw (cancel_by_request, n, hit) (row, read.0, read.1, refl)
        ]
      ]

  await_cancelled-Settles :
      (db : Db) (k : ℕ)
      → IsValid db
      → Present k db
      → Settles k (await_cancelled meanwhile now k db).0 (await_cancelled meanwhile now k db).1
  unfolding await_cancelled
  await_cancelled-Settles db k v there =
      let polled = poll meanwhile now 20 k db in
      let after = poll-Present 20 k db v there in
      elim (Option-cases (polled.0)) [
        | inr (row, hit) ↦ rw (await_cancelled, hit) (poll-Settles 20 k db row hit)
        | inl n ↦ rw (await_cancelled, n) (cancel_by_request-Settles polled.1 k after.0 after.1)
      ]

  cancel_running-Settles :
      (post : String → ℕ → Bool) (worker_id : Option ℕ) (db : Db) (k : ℕ)
      → IsValid db
      → Present k db
      → Settles k
          (cancel_running meanwhile now post k worker_id db).0
          (cancel_running meanwhile now post k worker_id db).1
  unfolding cancel_running cancel_without_worker
  cancel_running-Settles post worker_id db k v there =
      let db' = meanwhile after_endpoint db in
      let v' = run-IsValid (others after_endpoint) db v in
      let there' = run-Present (others after_endpoint) db k v there in
      elim (Option-cases (get_worker_endpoint db worker_id)) [
        | inl n ↦
            rw (cancel_running, n)
              (answer_marked-Settles db' k (some "Worker unavailable") v' there')
        | inr (w, hit) ↦ elim (Bool-cases (post (rstrip_slash w.endpoint ++ "/query/cancel") k)) [
          | inl t ↦
              rw (cancel_running, hit, t)
                (await_cancelled-Settles (meanwhile after_post db') k
                  (run-IsValid (others after_post) db' v')
                  (run-Present (others after_post) db' k v' there'))
          | inr t ↦ rw (cancel_running, hit, t) tt
        ]
      ]

  accessible_lem :
      (db : Db) (user : User) (k : ℕ) (row : Query)
      → accessible db user k ≡ returned row
      → get_query db k ≡ some row
  unfolding accessible
  accessible_lem db user k row e = elim (Option-cases (get_query db k)) [
    | inl n ↦ absurd (ground (arith, n))
    | inr (q, hit) ↦ elim (Bool-cases (may_access q.user_id user)) [
      | inl t ↦
          let same : returned q ≡ returned row = rw (accessible, hit, t) at e in
          let one : q ≡ row = ground (arith, same) in hit ∙ ap some one
      | inr t ↦ absurd (ground (arith, hit, t))
    ]
  ]

  -- From a valid database, whatever calls other tasks commit at each wait of `cancel_query` and
  -- whatever the worker answers: if the handler answers with a row and not with an error, then the
  -- query is finished (completed, failed or cancelled) and the answer is its row.
  pub cancel_query-Settles :
      (post : String → ℕ → Bool) (db : Db) (user : User) (k : ℕ)
      → IsValid db
      → Settles k
          (cancel_query meanwhile now post db user k).0
          (cancel_query meanwhile now post db user k).1
  unfolding cancel_query Present
  cancel_query-Settles post db user k v =
      let db' = meanwhile after_read db in
      let v' = run-IsValid (others after_read) db v in
      elim (Answer-cases (accessible db user k)) [
        | inl (status_code, refused) ↦ rw (cancel_query, refused) tt
        | inr (row, passed) ↦
            let found = accessible_lem db user k row passed in
            let there' = run-Present (others after_read) db k v (row, found) in
            elim (Bool-cases (is_terminal row.status)) [
              | inl t ↦
                  rw (cancel_query, passed, t) (row, found, terminal_finished row.status t, refl)
              | inr t ↦ elim (Bool-cases (is_status row.status QueryStatus.pending)) [
                | inl p ↦ rw (cancel_query, passed, t, p) (cancel_pending-Settles db' k v' there')
                | inr p ↦
                    rw (cancel_query, passed, t, p)
                      (cancel_running-Settles post row.worker_id db' k v' there')
              ]
            ]
      ]
