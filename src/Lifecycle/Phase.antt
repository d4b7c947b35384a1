-- ===== src/Lifecycle/Phase.antt =====
-- The specification: the phases of a query and the moves between them, and the shape that each
-- phase gives to a row. An `Edit` is a change of the table `queries` that follows the specification.
use duck_launcher.Table.Select.{append-Unique}
use duck_launcher.Base.{
  ℕ, ◌≡◌, ◌≢◌, refl, ◌⊎◌, inl, inr, Bool, true, Option, none, some, List, [], ◌∷◌, ◌++◌, All,
  All-append, any, arith, is_some, Bool-cases, All-both,
}
use duck_launcher.Db.{
  Worker, Query, QueryStatus, pending, running, completed, failed, cancelled, has_worker_id,
  has_query_id,
}
use duck_launcher.Table.{update, fetch, Unique}
use duck_launcher.Table.Update.{All-update, All-fetch, update-Unique, fetch-update}

pub data Phase : Type 0 where
  waiting : Phase
  placed : Option ℕ → Phase
  finished : QueryStatus → Phase

abbrev pub phase_at : QueryStatus → Option ℕ → Phase
phase_at pending worker_id = waiting
phase_at running worker_id = placed worker_id
phase_at completed worker_id = finished completed
phase_at failed worker_id = finished failed
phase_at cancelled worker_id = finished cancelled

abbrev pub phase : Query → Phase
phase q = phase_at q.status q.worker_id

-- Place a waiting query on a worker, put a placed one back, finish an unfinished one.
pub data Next : Phase → Phase → Type 0 where
  place : (worker_id : ℕ) → Next waiting (placed (some worker_id))
  put_back : (worker_id : Option ℕ) → Next (placed worker_id) waiting
  finish_waiting : (s : QueryStatus) → Next waiting (finished s)
  finish_placed : (worker_id : Option ℕ) (s : QueryStatus) → Next (placed worker_id) (finished s)

-- The columns that each status goes with: worker_id, started_at, completed_at.
abbrev pub Shape : QueryStatus → Option ℕ → Option ℕ → Option ℕ → Type 0
Shape pending w s c = (w ≡ none) × (s ≡ none) × (c ≡ none)
Shape running w s c = (is_some w ≡ true) × (is_some s ≡ true) × (c ≡ none)
Shape completed w s c = is_some c ≡ true
Shape failed w s c = is_some c ≡ true
Shape cancelled w s c = is_some c ≡ true

-- A column that refers to workers(worker_id).
abbrev pub worker_exists : List Worker → Option ℕ → Bool
worker_exists ws none = true
worker_exists ws (some k) = any (has_worker_id k) ws

pub record IsRow (ws : List Worker) (q : Query) : Type 0 where
  pub shape : Shape q.status q.worker_id q.started_at q.completed_at
  pub refers : worker_exists ws q.worker_id ≡ true

-- A row changes by one move, and keeps what the user has sent.
pub record Moves (q r : Query) : Type 0 where
  pub step : Next (phase q) (phase r)
  pub same_id : r.query_id ≡ q.query_id
  pub same_user : r.user_id ≡ q.user_id
  pub same_query : r.query ≡ q.query
  pub same_cpus : r.cpus ≡ q.cpus
  pub same_memory : r.memory ≡ q.memory
  pub same_disk_space : r.disk_space ≡ q.disk_space
  pub same_created_at : r.created_at ≡ q.created_at

-- `set` may be applied to a row that the test meets.
abbrev pub IsAllowed : List Worker → (Query → Bool) → (Query → Query) → Query → Type 0
IsAllowed ws test set q = test q ≡ true → IsRow ws q → IsRow ws (set q) × Moves q (set q)

pub data Edit (ws : List Worker) (qs qs' : List Query) : Type 0 where
  keeps : qs' ≡ qs → Edit ws qs qs'
  adds :
      (q : Query)
      → phase q ≡ waiting
      → IsRow ws q
      → All (λ r. r.query_id ≢ q.query_id) qs
      → qs' ≡ qs ++ q ∷ []
      → Edit ws qs qs'
  edits :
      (test : Query → Bool) (set : Query → Query)
      → ((q : Query) → (set q).query_id ≡ q.query_id)
      → All (IsAllowed ws test set) qs
      → qs' ≡ update test set qs
      → Edit ws qs qs'

-- An edit keeps the shape of all rows.
pub Edit-IsRow :
    (ws : List Worker) (qs qs' : List Query)
    → Edit ws qs qs'
    → All (IsRow ws) qs
    → All (IsRow ws) qs'
Edit-IsRow ws qs qs' (keeps e) h = rw e h
Edit-IsRow ws qs qs' (adds q waits row fresh e) h = rw e (All-append (IsRow ws) qs _ h (row, tt))
Edit-IsRow ws qs qs' (edits test set same moves e) h = rw e (
    (All-update (λ q. IsRow ws q × IsAllowed ws test set q) (IsRow ws) test set qs
      (λ q row t. (row.1 t row.0).0) (λ q row _. row.0)
      (All-both (IsRow ws) (IsAllowed ws test set) qs h moves)))

pub Edit-Unique :
    (ws : List Worker) (qs qs' : List Query)
    → Edit ws qs qs'
    → Unique (λ q. q.query_id) qs
    → Unique (λ q. q.query_id) qs'
Edit-Unique ws qs qs' (keeps e) u = rw e u
Edit-Unique ws qs qs' (adds q waits row fresh e) u =
    rw e (append-Unique (λ r. r.query_id) qs q fresh u)
Edit-Unique ws qs qs' (edits test set same moves e) u =
    rw e (update-Unique (λ q. q.query_id) test set qs same u)

fetch-append :
    (test : Query → Bool) (qs rest : List Query) (q : Query)
    → fetch test qs ≡ some q
    → fetch test (qs ++ rest) ≡ some q
unfolding fetch
fetch-append test [] rest q e = cc
fetch-append test (r ∷ qs) rest q e = ground (arith, fetch-append test qs rest q)

-- What becomes of a row: nothing, or one move.
abbrev pub Follows : Query → Query → Type 0
Follows q r = (r ≡ q) ⊎ Moves q r

pub Edit-Follows :
    (ws : List Worker) (qs qs' : List Query) (k : ℕ) (q : Query)
    → Edit ws qs qs'
    → All (IsRow ws) qs
    → fetch (has_query_id k) qs ≡ some q
    → (r : Query) × (fetch (has_query_id k) qs' ≡ some r) × Follows q r
Edit-Follows ws qs qs' k q (keeps e) rows found = (q, rw e found, inl refl)
Edit-Follows ws qs qs' k q (adds new waits row fresh e) rows found =
    (q, rw e (fetch-append (has_query_id k) qs (new ∷ []) q found), inl refl)
Edit-Follows ws qs qs' k q (edits test set same moves e) rows found = elim (Bool-cases (test q)) [
  | inl t ↦ (
    set q,
    rw (e, fetch-update (λ r. r.query_id) k test set qs same, found, t),
    inr
        ((All-fetch (IsAllowed ws test set) (has_query_id k) qs q moves found).0 t
          (All-fetch (IsRow ws) (has_query_id k) qs q rows found).0).1,
  )
  | inr t ↦ (q, rw (e, fetch-update (λ r. r.query_id) k test set qs same, found, t), inl refl)
]
