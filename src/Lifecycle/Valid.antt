-- ===== src/Lifecycle/Valid.antt =====
-- The invariant of the tables `workers` and `queries`, kept by every call in every order.
use duck_launcher.Base.{List, [], ◌∷◌, All, All-mono}
use duck_launcher.Db.{Db}
use duck_launcher.Table.{Unique}
use duck_launcher.Lifecycle.Phase.{IsRow, Edit-IsRow, Edit-Unique}
use duck_launcher.Lifecycle.Calls.{Call, step, run}
use duck_launcher.Lifecycle.Kept.{IsRow-mono}
use duck_launcher.Lifecycle.Effects.{Effect, step-Effect}

-- Worker and query ids are keys, and each row has the shape of its status and refers to a worker
-- that is there.
pub record IsValid (db : Db) : Type 0 where
  pub workers_unique : Unique (λ w. w.worker_id) db.workers
  pub queries_unique : Unique (λ q. q.query_id) db.queries
  pub rows : All (IsRow db.workers) db.queries

Effect-IsValid : (db db' : Db) → Effect db db' → IsValid db → IsValid db'
Effect-IsValid db db' effect v = record {
  workers_unique = effect.kept.unique v.workers_unique;
  queries_unique = Edit-Unique db'.workers db.queries db'.queries effect.edit v.queries_unique;
  rows =
      Edit-IsRow db'.workers db.queries db'.queries effect.edit
        (All-mono _ _ db.queries (IsRow-mono db.workers db'.workers effect.kept) v.rows);
}

pub step-IsValid : (c : Call) (db : Db) → IsValid db → IsValid (step c db)
step-IsValid c db v = Effect-IsValid db (step c db) (step-Effect c db v.queries_unique) v

-- Whatever the calls and their order, a valid database stays valid: worker and query ids stay keys,
-- every pending row has no worker and no times, every running row has a worker of the table and a
-- start, and every finished row has its time of completion.
pub run-IsValid : (cs : List Call) (db : Db) → IsValid db → IsValid (run cs db)
unfolding run
run-IsValid [] db v = v
run-IsValid (c ∷ cs) db v = run-IsValid cs (step c db) (step-IsValid c db v)
