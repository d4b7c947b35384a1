-- ===== src/Tests/Starts.antt =====
-- Starts of workers at concrete inputs.
use text.Mathlib.Text.{◌==◌ as str_eq}
use duck_launcher.Queries.Workers.{register_worker}
use duck_launcher.Table.{fetch, update}
use text.Mathlib.Text.{}
use duck_launcher.Base.{
  ℕ, suc, ◌+◌, ◌≡◌, ◌<◌, ◌⊎◌, Bool, true, false, Option, none, some, String, [], ◌∷◌, pos, ◌==◌,
  if◌then◌else◌, ◌≢◌, refl, ap,
}
use duck_launcher.Db.{Db}
use duck_launcher.Routes.WorkerRoutes.{
  WorkerRegisterRequest, WorkerRegisterResponse, register_worker_route,
}
use duck_launcher.Worker.Registration.{
  WorkerSettings, Resources, WorkerState, default_result_dir, register_payload,
  register_with_coordinator, registered, gave_up, IdText, uuid, attempts_from,
  resolve_local_worker_id, resolve_worker_storage, same_path,
}
use duck_launcher.Worker.Attempts.{after, AllFail, register_attempts-Ends}
use duck_launcher.Worker.Startup.{Started, start_with, start_worker, storage_moves}
use duck_launcher.Tests.Fixture.{start}

abbrev pub new_worker : WorkerSettings
new_worker = record {
  worker_endpoint = "http://w/";
  worker_id = none;
  duckdb_path = ":memory:";
  duckdb_name = ":memory:";
  max_concurrent_queries = pos 2;
  connection_pool_size = none;
  cpus = none;
  memory = none;
  disk_space = none;
  result_dir = default_result_dir;
}

abbrev pub some_resources : Resources
some_resources = record { cpus = pos 4; memory = pos 1000; disk_space = pos 1000 }

abbrev no_worker : WorkerState
no_worker = record { worker_id = none; shutting_down = false }

-- The coordinator answers the third attempt; the world counts the attempts.
abbrev third_time : ℕ → WorkerRegisterRequest → ℕ → Option WorkerRegisterResponse × ℕ
third_time attempt payload world =
    (if attempt == 3 then some (record { worker_id = 7; init_scripts = [] }) else none, world + 1)

register_attempts-Ends_example :
    let payload = register_payload new_worker some_resources 7 in
    let done =
      register_with_coordinator third_time new_worker some_resources 7 30 no_worker none 0 in
    ((n : ℕ) × (response : WorkerRegisterResponse) × (n < 30)
      × AllFail third_time payload n 1 0
      × ((third_time (1 + n) payload (after third_time payload n 1 0)).0 ≡ some response)
      × (done ≡ (
        registered (1 + n) response,
        record no_worker { worker_id = some response.worker_id },
        some (uuid response.worker_id),
        after third_time payload (suc n) 1 0,
      )))
    ⊎ (AllFail third_time payload 30 1 0
        × (done ≡ (gave_up, no_worker, none, after third_time payload 30 1 0)))
register_attempts-Ends_example =
    register_attempts-Ends third_time new_worker some_resources 7 30 no_worker none 0

-- The coordinator accepts the notice, and the ids are written as letters.
abbrev notified : ℕ → Db → Bool × Db
notified worker_id db = (true, db)

abbrev letter : ℕ → String
letter id = if id == 3 then "c" else if id == 4 then "d" else "e"

abbrev start_new : Option IdText → ℕ → ℕ → Db → Option Started × Option IdText × Db
start_new = start_with [] 90 500 notified (λ ran script. true) letter new_worker some_resources

abbrev first_start : Started
first_start = record {
  worker_id = 4;
  duckdb = none;
  result_dir = "/" ∷ "tmp" ∷ "ducklauncher" ∷ "workers" ∷ "c" ∷ "results" ∷ [];
  pool_size = pos 2;
}

abbrev second_start : Started
second_start = record first_start {
  result_dir = "/" ∷ "tmp" ∷ "ducklauncher" ∷ "workers" ∷ "d" ∷ "results" ∷ [];
}

abbrev with_new_worker : Db
with_new_worker = (start_new none 3 4 start).2

storage_moves_example :
    (first_start.worker_id ≡ second_start.worker_id)
    × (first_start.result_dir ≢ second_start.result_dir)
storage_moves_example =
    storage_moves [] 90 500 notified (λ ran script. true) letter new_worker some_resources 3 4 5 6
      start with_new_worker with_new_worker (start_new (some (uuid 4)) 5 6 with_new_worker).2
      first_start second_start (some (uuid 4)) (some (uuid 4)) refl
      (λ e. let clash : true ≡ false = ap (λ s. str_eq s "c") e in cc)
      (unfold start_worker resolve_local_worker_id register_with_coordinator attempts_from
          register_worker_route register_worker resolve_worker_storage same_path fetch update in
        refl)
      (unfold start_worker resolve_local_worker_id register_with_coordinator attempts_from
          register_worker_route register_worker resolve_worker_storage same_path fetch update in
        refl)
