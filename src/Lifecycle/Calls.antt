-- ===== src/Lifecycle/Calls.antt =====
-- The calls that change workers and queries, as data: a history of the system is a list of them, in
-- the order in which the database commits them, whatever the tasks that send them.
use duck_launcher.Base.{ℕ, ℤ, Bool, Option, none, some, String, List, [], ◌∷◌}
use duck_launcher.Db.{Db, WorkerStatus}
use duck_launcher.Models.{CompletionStatus, to_status}
use duck_launcher.Queries.Workers.{register_worker, heartbeat_worker, ready_worker, shutdown_worker}
use duck_launcher.Queries.Life.{
  create_query, complete_query, mark_query_cancelled, revert_query_to_pending,
}
use duck_launcher.Queries.Stale.{mark_worker_unreachable, sweep_stale_workers}
use duck_launcher.Queries.Claim.{claim_pending_query, claim_query_by_id}

-- The arguments are those of the functions, the database left out.
pub data Call : Type 0 where
  register : Option ℕ → ℕ → ℕ → String → ℤ → ℤ → ℤ → ℤ → Call
  heartbeat :
      ℕ → ℕ → Option ℤ → Option ℤ → Option ℤ → Option WorkerStatus → Option ℤ → Option ℕ → Call
  ready : ℕ → ℕ → Call
  shutdown : ℕ → ℕ → Call
  create : ℕ → ℕ → String → Option ℤ → Option ℤ → Option ℤ → Option ℕ → Call
  complete : ℕ → ℕ → CompletionStatus → Option String → Option ℤ → Call
  cancel : ℕ → ℕ → Option String → Call
  revert : ℕ → Call
  unreachable : ℕ → Call
  sweep : ℕ → ℕ → Call
  claim : (ℕ → Bool) → ℕ → ℕ → ℕ → Call
  claim_by_id : (ℕ → Bool) → ℕ → ℕ → ℕ → ℕ → Call

-- A call that raises leaves the database as it was.
abbrev created : Db → Option (ℕ × Db) → Db
created db none = db
created db (some (_, db')) = db'

unfoldable pub step : Call → Db → Db
step (register id uuid now endpoint cpus memory disk limit) db =
    (register_worker db id uuid now endpoint cpus memory disk limit).1
step (heartbeat now id cpus memory disk status used usage) db =
    (heartbeat_worker db now id cpus memory disk status used usage).1
step (ready now id) db = (ready_worker db now id).1
step (shutdown now id) db = (shutdown_worker db now id).1
step (create uuid now query cpus memory disk user) db =
    created db (create_query db uuid now query cpus memory disk user)
step (complete now id status error rows) db =
    (complete_query db now id (to_status status) error rows).1
step (cancel now id error) db = (mark_query_cancelled db now id error).1
step (revert id) db = revert_query_to_pending db id
step (unreachable id) db = mark_worker_unreachable db id
step (sweep utcnow stale) db = sweep_stale_workers db utcnow stale
step (claim locked utcnow now stale) db = (claim_pending_query db locked utcnow now stale).1
step (claim_by_id locked utcnow now id stale) db =
    (claim_query_by_id db locked utcnow now id stale).1

unfoldable pub run : List Call → Db → Db
run [] db = db
run (c ∷ cs) db = run cs (step c db)
