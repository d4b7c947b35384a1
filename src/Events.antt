-- ===== src/Events.antt =====
-- coordinator/events.py and query_events of coordinator/routes.py: the hub hands each notification to
-- the queues of the query's subscribers, and a stream sends what its queue gets. An asyncio.Queue is
-- a number; what it holds is looked up in `inbox`.
pub mod Hub
pub mod Delivery
pub mod Stream
pub mod Live
use duck_launcher.Base.{
  ℕ, ◌+◌, ◌==◌, Bool, true, false, Option, none, some, List, [], ◌∷◌, ◌++◌, if◌then◌else◌,
}
use duck_launcher.Db.{Db, User, Query, Payload}
use duck_launcher.Accounts.Auth.{Answer, returned, raised}
use duck_launcher.Routes.{accessible, is_terminal}

pub record QueryEventHub : Type 0 where
  pub subscribers : List (ℕ × List ℕ)
  pub inbox : ℕ → List Payload
  pub next_queue : ℕ

-- self._subscribers.get(query_id, [])
unfoldable pub subscribers_of : ℕ → List (ℕ × List ℕ) → List ℕ
subscribers_of query_id [] = []
subscribers_of query_id ((k, queues) ∷ rest) =
    if k == query_id then queues else subscribers_of query_id rest

-- self._subscribers[query_id].append(queue), of a defaultdict(list)
unfoldable pub add_subscriber : ℕ → ℕ → List (ℕ × List ℕ) → List (ℕ × List ℕ)
add_subscriber query_id queue [] = (query_id, queue ∷ []) ∷ []
add_subscriber query_id queue ((k, queues) ∷ rest) =
    if k == query_id
    then (k, queues ++ queue ∷ []) ∷ rest
    else (k, queues) ∷ add_subscriber query_id queue rest

unfoldable pub subscribe : QueryEventHub → ℕ → ℕ × QueryEventHub
unfolding add_subscriber
subscribe hub query_id = (
  hub.next_queue,
  record hub {
    subscribers = add_subscriber query_id hub.next_queue hub.subscribers;
    next_queue = hub.next_queue + 1;
  },
)

-- list.remove: the first of the entries that are equal; without one the code returns.
unfoldable pub remove : ℕ → List ℕ → List ℕ
remove queue [] = []
remove queue (q ∷ queues) = if q == queue then queues else q ∷ remove queue queues

-- An entry is popped when its last queue has gone.
abbrev pub entry_or_pop : ℕ → List ℕ → List (ℕ × List ℕ) → List (ℕ × List ℕ)
entry_or_pop k [] rest = rest
entry_or_pop k (q ∷ queues) rest = (k, q ∷ queues) ∷ rest

abbrev pub without : ℕ → ℕ → List ℕ → List (ℕ × List ℕ) → List (ℕ × List ℕ)
without k queue [] rest = (k, []) ∷ rest
without k queue (q ∷ queues) rest = entry_or_pop k (remove queue (q ∷ queues)) rest

unfoldable pub remove_subscriber : ℕ → ℕ → List (ℕ × List ℕ) → List (ℕ × List ℕ)
unfolding remove
remove_subscriber query_id queue [] = []
remove_subscriber query_id queue ((k, queues) ∷ rest) =
    if k == query_id
    then without k queue queues rest
    else (k, queues) ∷ remove_subscriber query_id queue rest

unfoldable pub unsubscribe : QueryEventHub → ℕ → ℕ → QueryEventHub
unfolding remove_subscriber
unsubscribe hub query_id queue = record hub {
  subscribers = remove_subscriber query_id queue hub.subscribers;
}

-- queue.put_nowait(payload)
abbrev pub put_nowait : ℕ → Payload → (ℕ → List Payload) → ℕ → List Payload
put_nowait queue payload inbox q = if q == queue then inbox q ++ payload ∷ [] else inbox q

unfoldable pub put_all : List ℕ → Payload → (ℕ → List Payload) → ℕ → List Payload
put_all [] payload inbox = inbox
put_all (queue ∷ queues) payload inbox = put_all queues payload (put_nowait queue payload inbox)

-- A payload that names no query is ignored.
unfoldable pub dispatch : QueryEventHub → Option Payload → QueryEventHub
unfolding subscribers_of put_all
dispatch hub none = hub
dispatch hub (some payload) = record hub {
  inbox = put_all (subscribers_of payload.query_id hub.subscribers) payload hub.inbox;
}

-- on_notify of postgres_listen_loop, on what json.loads makes of the payload: none is no JSON.
unfoldable pub on_notify : QueryEventHub → Option (Option Payload) → QueryEventHub
unfolding dispatch
on_notify hub none = hub
on_notify hub (some payload) = dispatch hub payload

unfoldable pub query_event_payload : Query → Payload
query_event_payload row = record {
  query_id = row.query_id;
  status = row.status;
  error = row.error;
  result_row_count = row.result_row_count;
}

-- What one round of the stream's loop finds: a client that is gone, no event for 30 seconds, or an
-- event.
pub data Turn : Type 0 where
  disconnected timed_out : Turn
  event : Payload → Turn

-- What the stream sends.
pub data Frame : Type 0 where
  status : Payload → Frame
  heartbeat : Frame

-- `while True`, over what its rounds find.
unfoldable pub stream_loop : List Turn → List Frame
stream_loop [] = []
stream_loop (disconnected ∷ turns) = []
stream_loop (timed_out ∷ turns) = heartbeat ∷ stream_loop turns
stream_loop (event e ∷ turns) =
    let rest = stream_loop turns in status e ∷ (if is_terminal e.status then [] else rest)

unfoldable pub event_stream : Query → List Turn → List Frame
unfolding stream_loop query_event_payload
event_stream row turns =
    status (query_event_payload row) ∷ (if is_terminal row.status then [] else stream_loop turns)

unfoldable pub query_events : Db → User → ℕ → List Turn → Answer (List Frame)
unfolding event_stream
query_events db user query_id turns = elim (accessible db user query_id) [
  | raised status_code ↦ raised status_code
  | returned row ↦ returned (event_stream row turns)
]
