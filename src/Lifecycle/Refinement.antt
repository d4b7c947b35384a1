-- ===== src/Lifecycle/Refinement.antt =====
-- The calls refine the specification: a query takes moves only, and rests when it is finished.
use duck_launcher.Base.{
  ℕ, ◌≡◌, refl, ap, ◌∙◌, inl, inr, false, Option, some, List, [], ◌∷◌, All-mono,
}
use duck_launcher.Db.{
  Db, Query, QueryStatus, pending, running, completed, failed, cancelled, is_active,
}
use duck_launcher.Queries.Life.{get_query}
use duck_launcher.Lifecycle.Phase.{
  Phase, phase_at, finished, Next, Follows, Edit-Follows, waiting, placed, place, put_back,
  finish_waiting, finish_placed,
}
use duck_launcher.Lifecycle.Calls.{Call, step, run}
use duck_launcher.Lifecycle.Kept.{IsRow-mono}
use duck_launcher.Lifecycle.Effects.{step-Effect}
use duck_launcher.Lifecycle.Valid.{IsValid, step-IsValid}

-- In a valid database each call, whatever its arguments, leaves the row of a query as it is, or
-- changes it by one move of the state machine (place, put back or finish) that keeps its id, user,
-- text, demands and time of creation. No call loses a query.
pub step-Follows :
    (c : Call) (db : Db) (k : ℕ) (q : Query)
    → IsValid db
    → get_query db k ≡ some q
    → (r : Query) × (get_query (step c db) k ≡ some r) × Follows q r
unfolding get_query
step-Follows c db k q v found =
    let effect = step-Effect c db v.queries_unique in
    Edit-Follows (step c db).workers db.queries (step c db).queries k q effect.edit
      (All-mono _ _ db.queries (IsRow-mono db.workers (step c db).workers effect.kept) v.rows) found

abbrev Unfinished : Phase → Type 0
Unfinished waiting = Unit
Unfinished (placed w) = Unit
Unfinished (finished s) = ⊥

Next-Unfinished : {a b : Phase} → Next a b → Unfinished a
Next-Unfinished (place w) = tt
Next-Unfinished (put_back w) = tt
Next-Unfinished (finish_waiting s) = tt
Next-Unfinished (finish_placed w s) = tt

not-Unfinished :
    (from : QueryStatus) (w : Option ℕ) → is_active from ≡ false → ¬ Unfinished (phase_at from w)
not-Unfinished pending w h u = cc
not-Unfinished running w h u = cc
not-Unfinished completed w h u = u
not-Unfinished failed w h u = u
not-Unfinished cancelled w h u = u

rests : (q r : Query) → is_active q.status ≡ false → Follows q r → r ≡ q
rests q r over (inl same) = same
rests q r over (inr moves) =
    absurd (not-Unfinished q.status q.worker_id over (Next-Unfinished moves.step))

-- In a valid database a query that is completed, failed or cancelled keeps its row, every column of
-- it, whatever calls follow in whatever order: late completions, cancellations, sweeps, claims.
pub finished_forever :
    (cs : List Call) (db : Db) (k : ℕ) (q : Query)
    → IsValid db
    → get_query db k ≡ some q
    → is_active q.status ≡ false
    → get_query (run cs db) k ≡ some q
unfolding run
finished_forever [] db k q v found over = found
finished_forever (c ∷ cs) db k q v found over =
    let (r, found', follows) = step-Follows c db k q v found in
    finished_forever cs (step c db) k q (step-IsValid c db v)
      (found' ∙ ap some (rests q r over follows)) over

-- What the user has sent, and when.
pub record SameRequest (q r : Query) : Type 0 where
  pub id : r.query_id ≡ q.query_id
  pub user : r.user_id ≡ q.user_id
  pub query : r.query ≡ q.query
  pub cpus : r.cpus ≡ q.cpus
  pub memory : r.memory ≡ q.memory
  pub disk_space : r.disk_space ≡ q.disk_space
  pub created_at : r.created_at ≡ q.created_at

SameRequest-refl : (q : Query) → SameRequest q q
SameRequest-refl q = record {
  id = refl;
  user = refl;
  query = refl;
  cpus = refl;
  memory = refl;
  disk_space = refl;
  created_at = refl;
}

Follows-SameRequest : (q r : Query) → Follows q r → SameRequest q r
Follows-SameRequest q r (inl same) = rw same (SameRequest-refl q)
Follows-SameRequest q r (inr m) = record {
  id = m.same_id;
  user = m.same_user;
  query = m.same_query;
  cpus = m.same_cpus;
  memory = m.same_memory;
  disk_space = m.same_disk_space;
  created_at = m.same_created_at;
}

SameRequest-trans : (q r s : Query) → SameRequest q r → SameRequest r s → SameRequest q s
SameRequest-trans q r s a b = record {
  id = b.id ∙ a.id;
  user = b.user ∙ a.user;
  query = b.query ∙ a.query;
  cpus = b.cpus ∙ a.cpus;
  memory = b.memory ∙ a.memory;
  disk_space = b.disk_space ∙ a.disk_space;
  created_at = b.created_at ∙ a.created_at;
}

-- From a valid database no history of calls loses a query, or changes its id, its user, its text,
-- its demands or its time of creation.
pub never_lost :
    (cs : List Call) (db : Db) (k : ℕ) (q : Query)
    → IsValid db
    → get_query db k ≡ some q
    → (r : Query) × (get_query (run cs db) k ≡ some r) × SameRequest q r
unfolding run
never_lost [] db k q v found = (q, found, SameRequest-refl q)
never_lost (c ∷ cs) db k q v found =
    let (r, found', follows) = step-Follows c db k q v found in
    let (s, found'', same) = never_lost cs (step c db) k r (step-IsValid c db v) found' in
    (s, found'', SameRequest-trans q r s (Follows-SameRequest q r follows) same)
