-- ===== src/Lifecycle/Edits.antt =====
-- Each statement on queries is an edit of the specification.
use duck_launcher.Base.{
  ℕ, ◌≡◌, refl, Bool, true, Option, none, some, All-intro, All-mono, any, is_some, ap, ◌∙◌,
}
use duck_launcher.Db.{
  Db, Query, QueryStatus, pending, running, completed, failed, cancelled, is_active, is_status,
  has_worker_id, has_query_id,
}
use duck_launcher.Models.{CompletionStatus, to_status}
use duck_launcher.Table.{update, fetch, Unique}
use duck_launcher.Table.Update.{fetch-only}
use duck_launcher.Queries.Claim.{claimed_row}
use duck_launcher.Lifecycle.Phase.{
  Next, place, put_back, finish_waiting, finish_placed, phase_at, Shape, IsRow, Moves, Edit, edits,
}

finish_from :
    (from : QueryStatus) (w : Option ℕ) (s : CompletionStatus)
    → is_active from ≡ true
    → Next (phase_at from w) (phase_at (to_status s) w)
finish_from pending w CompletionStatus.completed h = finish_waiting completed
finish_from pending w CompletionStatus.failed h = finish_waiting failed
finish_from pending w CompletionStatus.cancelled h = finish_waiting cancelled
finish_from running w CompletionStatus.completed h = finish_placed w completed
finish_from running w CompletionStatus.failed h = finish_placed w failed
finish_from running w CompletionStatus.cancelled h = finish_placed w cancelled
finish_from completed w s h = cc
finish_from failed w s h = cc
finish_from cancelled w s h = cc

put_back_from :
    (from : QueryStatus) (w : Option ℕ)
    → is_status from running ≡ true
    → Next (phase_at from w) (phase_at pending none)
put_back_from running w h = put_back w
put_back_from pending w h = cc
put_back_from completed w h = cc
put_back_from failed w h = cc
put_back_from cancelled w h = cc

finished-Shape :
    (s : CompletionStatus) (w b c : Option ℕ) → is_some c ≡ true → Shape (to_status s) w b c
finished-Shape CompletionStatus.completed w b c h = h
finished-Shape CompletionStatus.failed w b c h = h
finished-Shape CompletionStatus.cancelled w b c h = h

-- A running row has not been completed.
running-Shape :
    (from : QueryStatus) (w b c : Option ℕ)
    → Shape from w b c
    → is_status from running ≡ true
    → c ≡ none
running-Shape running w b c sh h = sh.2
running-Shape pending w b c sh h = cc
running-Shape completed w b c sh h = cc
running-Shape failed w b c sh h = cc
running-Shape cancelled w b c sh h = cc

module _ (db : Db) where
  pub finish_Edit :
      (test : Query → Bool) (set : Query → Query) (s : CompletionStatus)
      → ((q : Query) → test q ≡ true → is_active q.status ≡ true)
      → ((q : Query) → is_some (set q).completed_at ≡ true)
      → ((q : Query)
          → set q ≡ record q {
            status = to_status s;
            error = (set q).error;
            result_row_count = (set q).result_row_count;
            completed_at = (set q).completed_at;
          })
      → Edit db.workers db.queries (update test set db.queries)
  finish_Edit test set s active dated same =
      edits test set (λ q. rw same)
        (All-intro _ db.queries λ q t row. rw same (
          record {
            shape = finished-Shape s q.worker_id q.started_at (set q).completed_at (dated q);
            refers = row.refers;
          },
          record {
            step = finish_from q.status q.worker_id s (active q t);
            same_id = refl;
            same_user = refl;
            same_query = refl;
            same_cpus = refl;
            same_memory = refl;
            same_disk_space = refl;
            same_created_at = refl;
          },
        ))
        refl

  pub back_Edit :
      (test : Query → Bool) (set : Query → Query)
      → ((q : Query) → test q ≡ true → is_status q.status running ≡ true)
      → ((q : Query)
          → set q ≡ record q {
            status = pending;
            worker_id = none;
            started_at = none;
            error = (set q).error;
          })
      → Edit db.workers db.queries (update test set db.queries)
  back_Edit test set active same =
      edits test set (λ q. rw same)
        (All-intro _ db.queries λ q t row. rw same (
          record {
            shape = (
              refl,
              refl,
              running-Shape q.status q.worker_id q.started_at q.completed_at row.shape (active q t),
            );
            refers = refl;
          },
          record {
            step = put_back_from q.status q.worker_id (active q t);
            same_id = refl;
            same_user = refl;
            same_query = refl;
            same_cpus = refl;
            same_memory = refl;
            same_disk_space = refl;
            same_created_at = refl;
          },
        ))
        refl

  pub place_Edit :
      (now w : ℕ) (p : Query)
      → Unique (λ q. q.query_id) db.queries
      → fetch (has_query_id p.query_id) db.queries ≡ some p
      → p.status ≡ pending
      → any (has_worker_id w) db.workers ≡ true
      → Edit db.workers db.queries (update (has_query_id p.query_id) (claimed_row now w) db.queries)
  unfolding claimed_row
  place_Edit now w p unique found waits there =
      edits (has_query_id p.query_id) (claimed_row now w) (λ q. refl)
        (All-mono _ _ db.queries (λ q only hit row. placed_row q (only hit) row)
          (fetch-only (λ q. q.query_id) p.query_id db.queries p unique found))
        refl
    where
      waiting-Shape :
          (from : QueryStatus) (a b c : Option ℕ)
          → from ≡ pending
          → Shape from a b c
          → (c ≡ none) × Next (phase_at from a) (phase_at running (some w))
      waiting-Shape pending a b c e sh = (sh.2, place w)
      waiting-Shape running a b c e sh = cc
      waiting-Shape completed a b c e sh = cc
      waiting-Shape failed a b c e sh = cc
      waiting-Shape cancelled a b c e sh = cc

      placed_row :
          (q : Query)
          → q ≡ p
          → IsRow db.workers q
          → IsRow db.workers (claimed_row now w q) × Moves q (claimed_row now w q)
      placed_row q e row =
          let before =
            waiting-Shape q.status q.worker_id q.started_at q.completed_at
              (ap (λ r. r.status) e ∙ waits) row.shape in
          (
            record { shape = (refl, refl, before.0); refers = there },
            record {
              step = before.1;
              same_id = refl;
              same_user = refl;
              same_query = refl;
              same_cpus = refl;
              same_memory = refl;
              same_disk_space = refl;
              same_created_at = refl;
            },
          )
