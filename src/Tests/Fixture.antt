-- ===== src/Tests/Fixture.antt =====
-- A small database: two running workers, and queries in each phase.
use duck_launcher.Base.{ℕ, pos, Bool, false, Option, none, some, [], ◌∷◌, refl, arith}
use duck_launcher.Db.{Db, Worker, WorkerStatus, Query, QueryStatus}
use duck_launcher.Lifecycle.Valid.{IsValid}

abbrev pub worker_at : ℕ → WorkerStatus → ℕ → Worker
worker_at id status heartbeat = record {
  worker_id = id;
  endpoint = "http://w/";
  status = status;
  cpus = pos 4;
  memory = pos 1000;
  disk_space = pos 1000;
  max_concurrent_queries = pos 2;
  memory_used_mb = none;
  cpu_usage = none;
  started_at = 1;
  last_heartbeat_at = heartbeat;
}

abbrev pub query_at : ℕ → QueryStatus → Option ℕ → Option ℕ → Option ℕ → ℕ → Query
query_at id status worker started completed created = record {
  query_id = id;
  worker_id = worker;
  user_id = some 5;
  status = status;
  query = "SELECT 1";
  error = none;
  cpus = some (pos 2);
  memory = none;
  disk_space = none;
  created_at = created;
  started_at = started;
  completed_at = completed;
  result_row_count = none;
}

abbrev pub first_worker : Worker
first_worker = worker_at 1 WorkerStatus.running 100000000

abbrev pub second_worker : Worker
second_worker = worker_at 2 WorkerStatus.running 90000000

abbrev pub waiting_query : Query
waiting_query = query_at 10 QueryStatus.pending none none none 7

abbrev pub running_query : Query
running_query = query_at 11 QueryStatus.running (some 1) (some 8) none 6

abbrev pub done_query : Query
done_query = query_at 12 QueryStatus.completed (some 2) (some 4) (some 5) 3

abbrev pub start : Db
start = record {
  workers = first_worker ∷ second_worker ∷ [];
  users =
      record {
        user_id = 5;
        sub = "anon:5";
        email = none;
        name = none;
        created_at = 1;
        last_login_at = 1;
      }
      ∷ [];
  sessions = [];
  queries = waiting_query ∷ running_query ∷ done_query ∷ [];
  sheets = [];
  channel = [];
}

pub start-IsValid : IsValid start
start-IsValid = record {
  workers_unique = omega arith;
  queries_unique = omega arith;
  rows = (
    record { shape = (refl, refl, refl); refers = refl },
    (
      record { shape = (refl, refl, refl); refers = refl },
      (record { shape = refl; refers = refl }, tt),
    ),
  );
}

-- No other transaction holds a query.
abbrev pub unlocked : ℕ → Bool
unlocked id = false
