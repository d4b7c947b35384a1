-- ===== src/Worker/Lifespan.antt =====
-- apps/worker.py, worker/registration.py and worker/duckdb.py: how a worker ends.
use duck_launcher.Base.{
  ℕ, ◌≡◌, refl, Bool, true, Option, none, some, List, [], ◌∷◌, ◌++◌, if◌then◌else◌,
}
use duck_launcher.Accounts.Auth.{raised}
use duck_launcher.Worker.Executor.{Executor}
use duck_launcher.Worker.Registration.{WorkerState}
use duck_launcher.Worker.Handlers.{WorkerApp, run_query, shutdown_worker_queries}

module _ {ℓ} {S : Type ℓ} (post : ℕ → S → Bool × S) where
  -- `post` is the POST for the worker's id; false: it raises, and so does this.
  unfoldable pub notify_ready : WorkerState → S → Bool × S
  notify_ready state world = elim state.worker_id [
    | none ↦ (true, world)
    | some worker_id ↦ post worker_id world
  ]

  -- An error of the POST, and its timeout, are only logged.
  unfoldable pub notify_shutdown : WorkerState → S → S
  notify_shutdown state world = elim state.worker_id [
    | none ↦ world
    | some worker_id ↦ (post worker_id world).1
  ]

-- SIGTERM and SIGINT; none: os._exit(1). The event is set where `shutting_down` is.
unfoldable pub handle_shutdown : WorkerState → Option WorkerState
handle_shutdown state =
    if state.shutting_down then none else some (record state { shutting_down = true })

abbrev pub connections_of : List (ℕ × ℕ) → List ℕ
connections_of [] = []
connections_of ((query_id, conn) ∷ rest) = conn ∷ connections_of rest

-- The executor afterwards, and the connections that are closed, next to the one of the admin.
unfoldable pub close : Executor → Executor × List ℕ
close ex = (record ex { active = []; available = [] }, connections_of ex.active ++ ex.available)

-- The end of lifespan, behind its yield: the state, the app, the executor, the connections that are
-- interrupted, the queries whose tasks are cancelled, and the world. `meanwhile` is what the tasks
-- that end in the wait leave of the executor.
pub record Stopped {ℓ} (S : Type ℓ) : Type ℓ where
  pub state : WorkerState
  pub app : WorkerApp
  pub executor : Executor
  pub interrupted : List ℕ
  pub abandoned : List ℕ
  pub world : S

unfoldable pub stop_worker {ℓ} :
    {S : Type ℓ}
    → (ℕ → S → Bool × S)
    → (Executor → Executor)
    → Bool
    → WorkerState
    → WorkerApp
    → Executor
    → S
    → Stopped S
unfolding notify_shutdown shutdown_worker_queries close
stop_worker post meanwhile in_time state app ex world =
    let state' : WorkerState = record state { shutting_down = true } in
    let ended = shutdown_worker_queries app ex in_time in
    record {
      state = state';
      app = record app { shutting_down = true };
      executor = (close (meanwhile ex)).0;
      interrupted = ended.0;
      abandoned = ended.1;
      world = notify_shutdown post state' world;
    }

-- A worker that has stopped takes no query and holds no connection for one.
stopped-Refuses {ℓ} :
    {S : Type ℓ} (post : ℕ → S → Bool × S) (meanwhile : Executor → Executor) (in_time : Bool)
    (state : WorkerState) (app : WorkerApp) (ex : Executor) (world : S) (query_id : ℕ)
    → let stopped = stop_worker post meanwhile in_time state app ex world in
      (run_query stopped.app query_id ≡ (raised 503, stopped.app))
      × (stopped.executor.available ≡ [])
unfolding stop_worker run_query close
stopped-Refuses post meanwhile in_time state app ex world query_id = (refl, refl)
