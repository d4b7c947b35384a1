-- ===== src/Coordinator.antt =====
-- apps/coordinator.py, db/pool.py and postgres_listen_loop of coordinator/events.py: how the
-- coordinator starts, what its listener hands on, and how it ends. Whether the pool opens, the
-- migrations run and the listener gets its connection are arguments.
pub mod Ending
use duck_launcher.Base.{Bool, true, false, ◌&&◌, not, List, [], ◌∷◌, if◌then◌else◌}
use duck_launcher.Events.{QueryEventHub}
use duck_launcher.Events.Hub.{HubCall, subscribing, unsubscribing, notifying, hub_step, new_hub}

-- A task of asyncio: not created, not done, done, done with an exception.
pub data TaskState : Type 0 where
  unstarted alive ended broken : TaskState

-- How the listener starts: asyncpg.connect raises, add_listener raises, or it waits.
pub data Listening : Type 0 where
  no_connection no_listener listens : Listening

-- What is open, and the state of the application.
pub record Coordinator : Type 0 where
  pub pool_open : Bool
  pub client_open : Bool
  pub connection_open : Bool
  pub listening : Bool
  pub stop_event : Bool
  pub scheduler_task : TaskState
  pub listen_task : TaskState
  pub hub : QueryEventHub

abbrev pub unstarted_coordinator : Coordinator
unstarted_coordinator = record {
  pool_open = false;
  client_open = false;
  connection_open = false;
  listening = false;
  stop_event = false;
  scheduler_task = unstarted;
  listen_task = unstarted;
  hub = new_hub;
}

-- create_pool, run_migrations and close: whether it returns, and whether the pool is left open.
unfoldable pub init_database : Bool → Bool → Bool × Bool
init_database opens migrates = (opens && migrates, false)

-- postgres_listen_loop up to its wait. Its `try` begins behind add_listener.
unfoldable pub listen : Listening → Coordinator → Coordinator
listen no_connection c = record c { listen_task = broken }
listen no_listener c = record c { connection_open = true; listen_task = broken }
listen listens c = record c { connection_open = true; listening = true; listen_task = alive }

-- lifespan up to its yield; false: it raises.
unfoldable pub start_coordinator : Bool → Bool → Listening → Bool × Coordinator
unfolding listen
start_coordinator opens migrates listener =
    let opened : Coordinator = record unstarted_coordinator {
      pool_open = true;
      client_open = true;
    } in
    if not opens
    then (false, unstarted_coordinator)
    else if not migrates
    then (false, opened)
    else (true, listen listener (record opened { scheduler_task = alive }))

-- What happens while the coordinator serves: streams come and go, PostgreSQL notifies, and the
-- listener's connection is lost, of which the listener is not told.
pub data Happening : Type 0 where
  calls_hub : HubCall → Happening
  connection_lost : Happening

abbrev pub heard : Bool → HubCall → QueryEventHub → QueryEventHub
heard listening (subscribing query_id) hub = hub_step (subscribing query_id) hub
heard listening (unsubscribing query_id queue) hub = hub_step (unsubscribing query_id queue) hub
heard listening (notifying payload) hub =
    if listening then hub_step (notifying payload) hub else hub

abbrev pub happen : Happening → Coordinator → Coordinator
happen (calls_hub call) c = record c { hub = heard c.listening call c.hub }
happen connection_lost c = record c { connection_open = false; listening = false }

-- In their order.
unfoldable pub serve : List Happening → Coordinator → Coordinator
serve [] c = c
serve (h ∷ happenings) c = serve happenings (happen h c)

-- The `finally` of postgres_listen_loop, once the event is set; the scheduler's loop ends by itself.
abbrev pub stopped_tasks : TaskState → Coordinator → Coordinator
stopped_tasks alive c = record c {
  connection_open = false;
  listening = false;
  scheduler_task = ended;
  listen_task = ended;
}
stopped_tasks state c = c

-- lifespan behind its yield; false: gather raises the exception of the listener, and the rest of the
-- function is not run.
unfoldable pub stop_coordinator : Coordinator → Bool × Coordinator
stop_coordinator c =
    let stopped : Coordinator = stopped_tasks c.listen_task (record c { stop_event = true }) in
    elim (c.listen_task) [
      | broken ↦ (false, stopped)
      | _ ↦ (true, record stopped { client_open = false; pool_open = false })
    ]
