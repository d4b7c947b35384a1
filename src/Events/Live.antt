-- ===== src/Events/Live.antt =====
-- query_events and the hub in one run: the rounds of a stream take what its queue holds.
use duck_launcher.Base.{
  ℕ, suc, ◌≤◌, ◌<◌, ◌≡◌, refl, ap, ◌∙◌, inl, inr, ◌==◌, Bool, false, Option, List, [], ◌∷◌, ◌++◌,
  All, All-mono, arith, Bool-cases, if◌then◌else◌, length, zero,
}
use duck_launcher.Db.{Query, Payload}
use duck_launcher.Routes.{is_terminal}
use duck_launcher.Events.{
  QueryEventHub, subscribers_of, subscribe, unsubscribe, dispatch, query_event_payload, Frame,
  status, heartbeat,
}
use duck_launcher.Events.Hub.{
  Sound, HubCall, subscribing, unsubscribing, notifying, hub_step, hub_after, hub_after-Sound,
}
use duck_launcher.Events.Delivery.{copies, inbox-dispatch}

-- What comes between two rounds: the calls of others on the hub, the last one first, and whether the
-- client has gone.
pub record Round : Type 0 where
  pub calls : List HubCall
  pub gone : Bool

abbrev pub calls_on : List HubCall → QueryEventHub → QueryEventHub
calls_on [] hub = hub
calls_on (c ∷ calls) hub = hub_step c (calls_on calls hub)

-- queue.get(), where the queue holds something.
abbrev pub taken : ℕ → List Payload → QueryEventHub → QueryEventHub
taken queue rest hub = record hub { inbox = λ j. if j == queue then rest else hub.inbox j }

-- The loop of event_stream: 30 seconds pass in a round that finds the queue empty.
unfoldable pub live_loop : QueryEventHub → ℕ → List Round → List Frame
live_loop hub queue [] = []
live_loop hub queue (round ∷ rounds) =
    let now = calls_on round.calls hub in
    if round.gone then [] else elim (now.inbox queue) [
      | [] ↦ heartbeat ∷ live_loop now queue rounds
      | e ∷ rest ↦
          status e
          ∷ (if is_terminal e.status then [] else live_loop (taken queue rest now) queue rounds)
    ]

-- event_stream, for the row that query_events has read, on the hub as it is when the stream starts.
unfoldable pub live_stream : QueryEventHub → Query → List Round → List Frame
unfolding live_loop subscribe
live_stream hub row rounds =
    let subscribed = subscribe hub row.query_id in
    status (query_event_payload row)
    ∷ (if is_terminal row.status then [] else live_loop (subscribed.1) (subscribed.0) rounds)

no_copies :
    (queue : ℕ) (payload : Payload) (queues : List ℕ)
    → All (λ q. q < queue) queues
    → copies queue payload queues ≡ []
no_copies queue payload [] h = refl
no_copies queue payload (q ∷ queues) h = ground (arith, h.0, no_copies queue payload queues h.1)

subscribers-Below :
    (next k : ℕ) (entries : List (ℕ × List ℕ))
    → Sound next entries
    → All (λ q. q < next) (subscribers_of k entries)
unfolding subscribers_of
subscribers-Below next k [] h = tt
subscribers-Below next k ((i, queues) ∷ rest) h = elim (Bool-cases (i == k)) [
  | inl t ↦ rw t h.0.1
  | inr t ↦ rw t (subscribers-Below next k rest h.1)
]

-- Nothing is in a queue that is not handed out yet.
new_queue :
    (calls : List HubCall) (queue : ℕ)
    → (hub_after calls).next_queue ≤ queue
    → (hub_after calls).inbox queue ≡ []
unfolding hub_after subscribe unsubscribe dispatch
new_queue [] queue above = refl
new_queue (subscribing k ∷ calls) queue above = new_queue calls queue (omega (arith, above))
new_queue (unsubscribing k j ∷ calls) queue above = new_queue calls queue above
new_queue (notifying Option.none ∷ calls) queue above = new_queue calls queue above
new_queue (notifying (Option.some payload) ∷ calls) queue above =
    let hub = hub_after calls in
    let below =
      All-mono (λ q. q < hub.next_queue) (λ q. q < queue) _ (λ q lt. omega (arith, lt, above))
        (subscribers-Below hub.next_queue payload.query_id hub.subscribers
          (hub_after-Sound calls)) in
    inbox-dispatch hub payload queue
    ∙ ap (λ held. held ++ copies queue payload (subscribers_of payload.query_id hub.subscribers))
        (new_queue calls queue above)
    ∙ no_copies queue payload (subscribers_of payload.query_id hub.subscribers) below

abbrev pub heartbeats : ℕ → List Frame
heartbeats zero = []
heartbeats (suc n) = heartbeat ∷ heartbeats n

-- A round in which nothing happens.
abbrev pub IsQuiet : Round → Type 0
IsQuiet round = (round.calls ≡ []) × (round.gone ≡ false)

quiet_loop :
    (hub : QueryEventHub) (queue : ℕ) (rounds : List Round)
    → hub.inbox queue ≡ []
    → All IsQuiet rounds
    → live_loop hub queue rounds ≡ heartbeats (length rounds)
unfolding live_loop
quiet_loop hub queue [] held quiet = refl
quiet_loop hub queue (round ∷ rounds) held quiet =
    let same : calls_on round.calls hub ≡ hub = ap (λ calls. calls_on calls hub) quiet.0.0 in
    let later : live_loop (calls_on round.calls hub) queue rounds ≡ heartbeats (length rounds) =
      ap (λ h. live_loop h queue rounds) same ∙ quiet_loop hub queue rounds held quiet.1 in
    let held' : (calls_on round.calls hub).inbox queue ≡ [] =
      ap (λ (h : QueryEventHub). h.inbox queue) same ∙ held in
    rw (live_loop, quiet.0.1, held') (ap (◌∷◌ heartbeat) later)

-- Where query_events has read a row that is not finished: a stream that subscribes after any history
-- of calls on the hub sends the row's status and then, as long as nothing else happens, heartbeats
-- only, one for each round. So a notification that the history holds, also the one of the query's
-- end, is never sent.
pub end_is_missed :
    (calls : List HubCall) (row : Query) (rounds : List Round)
    → is_terminal row.status ≡ false
    → All IsQuiet rounds
    → live_stream (hub_after calls) row rounds
      ≡ status (query_event_payload row) ∷ heartbeats (length rounds)
unfolding live_stream subscribe
end_is_missed calls row rounds active quiet =
    let hub = hub_after calls in
    let empty = new_queue calls hub.next_queue (omega arith) in
    rw (live_stream, active)
      (ap (◌∷◌ (status (query_event_payload row)))
        (quiet_loop (subscribe hub row.query_id).1 hub.next_queue rounds empty quiet))
