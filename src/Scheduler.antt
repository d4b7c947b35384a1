-- ===== src/Scheduler.antt =====
-- coordinator/scheduler.py: claimed queries are dispatched to their workers, in batches.
-- The HTTP client, the clocks, the locks of other transactions and what other tasks commit while the
-- scheduler waits for an answer are the fields of a `World`, each by the number of the round.
pub mod Dispatch
pub mod Batch
pub mod Loop
use Prim.Native.String.{◌++◌}
use duck_launcher.Base.{
  ℕ, ℤ, suc, zero, ◌-◌, Bool, true, false, ◌||◌, ◌==◌, Option, none, some, String, if◌then◌else◌,
}
use duck_launcher.Text.{rstrip_slash}
use duck_launcher.Db.{Db}
use duck_launcher.Queries.Life.{revert_query_to_pending}
use duck_launcher.Queries.Stale.{mark_worker_unreachable, sweep_stale_workers}
use duck_launcher.Queries.Claim.{Claimed, claim_pending_query, claim_query_by_id}

-- The JSON body of a dispatch.
pub record DispatchPayload : Type 0 where
  pub query_id : ℕ
  pub query : String
  pub cpus : Option ℤ
  pub memory : Option ℤ
  pub disk_space : Option ℤ

-- A POST is answered with a status code, or raises httpx.HTTPError.
pub data Response : Type 0 where
  answered : ℕ → Response
  http_error : Response

pub record World : Type 0 where
  pub post : ℕ → String → DispatchPayload → Response
  pub meanwhile : ℕ → Db → Db
  pub locked : ℕ → ℕ → Bool
  pub utcnow : ℕ → ℕ
  pub now : ℕ → ℕ

abbrev pub dispatch_payload : Claimed → DispatchPayload
dispatch_payload claimed = record {
  query_id = claimed.query_id;
  query = claimed.query;
  cpus = claimed.cpus;
  memory = claimed.memory;
  disk_space = claimed.disk_space;
}

abbrev pub dispatch_url : Claimed → String
dispatch_url claimed = rstrip_slash claimed.endpoint ++ "/query"

-- What is done with the answer, on the database as it is when the answer is there.
unfoldable pub handle_response : Response → Claimed → Db → Bool × Db
handle_response (answered status_code) claimed db =
    if status_code == 202
    then (true, db)
    else if (status_code == 502) || (status_code == 503)
    then (false, mark_worker_unreachable db claimed.worker_id)
    else (false, revert_query_to_pending db claimed.query_id)
handle_response http_error claimed db = (false, mark_worker_unreachable db claimed.worker_id)

unfoldable pub dispatch_query : World → ℕ → Claimed → Db → Bool × Db
unfolding handle_response
dispatch_query world round claimed db =
    handle_response (world.post round (dispatch_url claimed) (dispatch_payload claimed)) claimed
      (world.meanwhile round db)

-- `if query_id is not None and scheduled == 0`
unfoldable pub claim_next : World → ℕ → Option ℕ → ℕ → Db → Option Claimed × Db
claim_next world stale none scheduled db =
    claim_pending_query db (world.locked scheduled) (world.utcnow scheduled) (world.now scheduled)
      stale
claim_next world stale (some query_id) scheduled db =
    if scheduled == 0
    then claim_query_by_id db (world.locked scheduled) (world.utcnow scheduled)
        (world.now scheduled) query_id stale
    else claim_pending_query db (world.locked scheduled) (world.utcnow scheduled)
        (world.now scheduled) stale

-- `while scheduled < max_batch`, by the rounds that are left.
unfoldable pub schedule_rounds : World → ℕ → Option ℕ → ℕ → ℕ → Db → ℕ × Db
schedule_rounds world stale query_id zero scheduled db = (scheduled, db)
schedule_rounds world stale query_id (suc left) scheduled db =
    let claim = claim_next world stale query_id scheduled db in
    elim (claim.0) [
      | none ↦ (scheduled, claim.1)
      | some claimed ↦
          schedule_rounds world stale query_id left (suc scheduled)
            (dispatch_query world scheduled claimed claim.1).1
    ]

unfoldable pub schedule_pending_queries : World → ℕ → Option ℕ → ℕ → Db → ℕ × Db
unfolding schedule_rounds
schedule_pending_queries world stale query_id max_batch db =
    schedule_rounds world stale query_id max_batch 0 db

-- One round of `scheduler_loop`: the sweep, what commits between the two, and a batch of ten.
unfoldable pub scheduler_iteration : World → (Db → Db) → ℕ → ℕ → Db → ℕ × Db
scheduler_iteration world between utcnow stale db =
    schedule_pending_queries world stale none 10 (between (sweep_stale_workers db utcnow stale))
