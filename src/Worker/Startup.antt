-- ===== src/Worker/Startup.antt =====
-- apps/worker.py: how a worker starts, with its two calls of resolve_local_worker_id, and the init scripts
-- of worker/duckdb.py.
use duck_launcher.Base.{
  ℕ, ℤ, ◌≡◌, ◌≢◌, refl, ap, sym, ◌∙◌, inl, inr, Bool, true, false, Option, none, some, String, List,
  [], ◌∷◌, ◌++◌, arith, Bool-cases, if◌then◌else◌, some_triple,
}
use duck_launcher.Db.{Db}
use duck_launcher.Routes.WorkerRoutes.{
  WorkerRegisterRequest, WorkerRegisterResponse, register_worker_route,
}
use duck_launcher.Queries.Workers.{register_worker}
use duck_launcher.Worker.Registration.{
  IdText, uuid, FilePath, WorkerSettings, WorkerState, Resources, Registered, registered, gave_up,
  resolve_local_worker_id, resolve_worker_storage, same_path, default_result_dir, worker_data_root,
  worker_connection_pool_size, register_with_coordinator, attempts_from,
}

pub record Started : Type 0 where
  pub worker_id : ℕ
  pub duckdb : Option FilePath
  pub result_dir : FilePath
  pub pool_size : ℤ

-- A field of a result, where there is one.
abbrev worker_or : ℕ → Option Started → ℕ
worker_or id none = id
worker_or id (some a) = a.worker_id

abbrev dir_or : FilePath → Option Started → FilePath
dir_or dir none = dir
dir_or dir (some a) = a.result_dir

-- `self._admin_conn.execute(script)` for each script in turn: what DuckDB makes of one depends on those
-- that it has run, and false is an exception, which ends the loop.
abbrev pub run_scripts_from : (List String → String → Bool) → List String → List String → Bool
run_scripts_from execute ran [] = true
run_scripts_from execute ran (script ∷ scripts) =
    let rest = run_scripts_from execute (ran ++ script ∷ []) scripts in
    if execute ran script then rest else false

abbrev pub run_init_scripts : (List String → String → Bool) → List String → Bool
run_init_scripts execute scripts = run_scripts_from execute [] scripts

-- `if init_scripts:`
abbrev pub ran_scripts : (List String → String → Bool) → List String → Bool
ran_scripts execute [] = true
ran_scripts execute (script ∷ scripts) = run_init_scripts execute (script ∷ scripts)

module _ {ℓ} {S : Type ℓ} (post : ℕ → WorkerRegisterRequest → S → Option WorkerRegisterResponse × S)
    (notify_ready : ℕ → S → Bool × S) (execute : List String → String → Bool) (str : ℕ → String)
    (settings : WorkerSettings) (resources : Resources) where
  -- After the registration: the init scripts, and the notice to the coordinator, which raises where
  -- it is refused. None: an exception.
  abbrev pub finish_start :
      ℕ → Registered × WorkerState × Option IdText × S → Option Started × Option IdText × S
  finish_start id (gave_up, state, stored, world) = (none, stored, world)
  finish_start id (registered attempt response, state, stored, world) =
      if ran_scripts execute response.init_scripts
      then (let told = notify_ready response.worker_id world in
          let storage = resolve_worker_storage str settings id in
          (
            if told.0
                then some (record {
                  worker_id = response.worker_id;
                  duckdb = storage.0;
                  result_dir = storage.1;
                  pool_size = worker_connection_pool_size settings;
                })
                else none,
            stored,
            told.1,
          ))
      else (none, stored, world)

  -- The two uuids are what uuid4() draws in the two calls of resolve_local_worker_id.
  unfoldable pub start_worker : Option IdText → ℕ → ℕ → S → Option Started × Option IdText × S
  unfolding resolve_local_worker_id
  start_worker stored first second world = elim (resolve_local_worker_id settings stored first) [
    | none ↦ (none, stored, world)
    | some id ↦ elim (resolve_local_worker_id settings stored second) [
      | none ↦ (none, stored, world)
      | some existing_id ↦ finish_start id (
          register_with_coordinator post settings resources existing_id 30
            (record { worker_id = some id; shutting_down = false }) stored world)
    ]
  ]

  finish_start-parts :
      (id attempt : ℕ) (response : WorkerRegisterResponse) (state : WorkerState)
      (stored stored' : Option IdText) (world world' : S) (a : Started)
      → finish_start id (registered attempt response, state, stored, world)
        ≡ (some a, stored', world')
      → (a.worker_id ≡ response.worker_id)
        × (a.result_dir ≡ (resolve_worker_storage str settings id).1)
        × (stored' ≡ stored)
  finish_start-parts id attempt response state stored stored' world world' a e =
      elim (Bool-cases (ran_scripts execute response.init_scripts)) [
        | inr t ↦ absurd (ground (arith, t))
        | inl t ↦ elim (Bool-cases (notify_ready response.worker_id world).0) [
          | inr n ↦ absurd (ground (arith, t, n))
          | inl n ↦
              let ended = some_triple _ _ _ _ _ _ (ap some (rw (finish_start, t, n) at e)) in
              (
                sym (ap (λ (o : Option Started). worker_or response.worker_id o) ended.0),
                sym (
                    ap (λ (o : Option Started). dir_or (resolve_worker_storage str settings id).1 o)
                      ended.0),
                sym ended.1,
              )
        ]
      ]

-- The coordinator as the other side of the registration.
abbrev pub coordinator_post :
    List String → ℕ → ℕ → ℕ → WorkerRegisterRequest → Db → Option WorkerRegisterResponse × Db
coordinator_post scripts uuid4 now attempt payload db =
    let answer = register_worker_route scripts db uuid4 now payload in (some (answer.0), answer.1)

last_part : FilePath → String
last_part [] = ""
last_part (p ∷ []) = p
last_part (p ∷ q ∷ ps) = last_part (q ∷ ps)

last_part-append : (ps : FilePath) (p : String) → last_part (ps ++ p ∷ []) ≡ p
unfolding last_part
last_part-append [] p = refl
last_part-append (q ∷ []) p = refl
last_part-append (q ∷ r ∷ ps) p = last_part-append (r ∷ ps) p

-- The part that names the worker, under the data root.
worker_part : FilePath → String
worker_part (a ∷ b ∷ c ∷ d ∷ p ∷ ps) = p
worker_part ps = ""

-- Two ids have two directories of results.
result_dir-apart :
    (str : ℕ → String) (settings : WorkerSettings) (a b : ℕ)
    → str a ≢ str b
    → (resolve_worker_storage str settings a).1 ≢ (resolve_worker_storage str settings b).1
unfolding resolve_worker_storage worker_part
result_dir-apart str settings a b ne same =
    elim (Bool-cases (same_path settings.result_dir default_result_dir)) [
      | inl t ↦
          let same' : ◌≡◌ {A = FilePath} ((worker_data_root ++ str a ∷ []) ++ "results" ∷ [])
              ((worker_data_root ++ str b ∷ []) ++ "results" ∷ []) =
            rw (resolve_worker_storage, t) at same in
          ne (ap worker_part same')
      | inr t ↦
          let same' : ◌≡◌ {A = FilePath} (settings.result_dir ++ str a ∷ [])
              (settings.result_dir ++ str b ∷ []) =
            rw (resolve_worker_storage, t) at same in
          ne (
            sym (last_part-append settings.result_dir (str a))
            ∙ ap last_part same'
            ∙ last_part-append settings.result_dir (str b))
    ]

module _ (scripts : List String) (uuid4 now : ℕ) (notify_ready : ℕ → Db → Bool × Db)
    (execute : List String → String → Bool) (str : ℕ → String) (settings : WorkerSettings)
    (resources : Resources) where
  -- A start against the coordinator's own handler.
  abbrev pub start_with : Option IdText → ℕ → ℕ → Db → Option Started × Option IdText × Db
  start_with =
      start_worker (coordinator_post scripts uuid4 now) notify_ready execute str settings resources

  -- A start that succeeds has its files where the first id says, and is the worker of the second.
  start_worker-parts :
      (stored : Option IdText) (first second id existing : ℕ) (db : Db) (a : Started)
      (stored' : Option IdText) (db' : Db)
      → resolve_local_worker_id settings stored first ≡ some id
      → resolve_local_worker_id settings stored second ≡ some existing
      → start_with stored first second db ≡ (some a, stored', db')
      → (a.worker_id ≡ existing)
        × (a.result_dir ≡ (resolve_worker_storage str settings id).1)
        × (stored' ≡ some (uuid existing))
  unfolding start_worker register_with_coordinator attempts_from register_worker_route
      register_worker
  start_worker-parts stored first second id existing db a stored' db' e1 e2 done =
      finish_start-parts (coordinator_post scripts uuid4 now) notify_ready execute str settings
        resources id 1 _ (record { worker_id = some existing; shutting_down = false }) _ _ _ _ a
        (rw (start_worker, e1, e2) at done)

  -- A worker without a configured id that starts for the first time, and is started again later with
  -- the id that the first start stored, whatever has happened to the database in between: where both
  -- starts succeed, it is the same worker for the coordinator, but its results are in another
  -- directory, since the first start drew one id for its directory and another to register.
  pub storage_moves :
      (first second third fourth : ℕ) (db later db' later' : Db) (a b : Started)
      (stored stored' : Option IdText)
      → settings.worker_id ≡ none
      → str first ≢ str second
      → start_with none first second db ≡ (some a, stored, db')
      → start_with stored third fourth later ≡ (some b, stored', later')
      → (a.worker_id ≡ b.worker_id) × (a.result_dir ≢ b.result_dir)
  unfolding resolve_local_worker_id
  storage_moves first second third fourth db later db' later' a b stored stored' unset apart e e' =
      let one =
        start_worker-parts none first second first second db a stored db' (rw unset refl)
          (rw unset refl) e in
      let again : (k : ℕ) → resolve_local_worker_id settings stored k ≡ some second =
        λ k. rw (one.2, unset) refl in
      let two =
        start_worker-parts stored third fourth second second later b stored' later' (again third)
          (again fourth) e' in
      (
        one.0 ∙ sym two.0,
        λ same. result_dir-apart str settings first second apart (sym one.1 ∙ same ∙ two.1),
      )
