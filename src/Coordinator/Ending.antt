-- ===== src/Coordinator/Ending.antt =====
-- apps/coordinator.py: what is left open, and what the streams have heard.
use duck_launcher.Base.{◌≡◌, refl, ◌∙◌, ◌⊎◌, inl, inr, Bool, true, false, List, [], ◌∷◌}
use duck_launcher.Events.{QueryEventHub, subscribe, unsubscribe}
use duck_launcher.Events.Hub.{HubCall, subscribing, unsubscribing, notifying}
use duck_launcher.Coordinator.{
  alive, broken, Listening, no_connection, no_listener, listens, Coordinator, start_coordinator,
  listen, Happening, calls_hub, connection_lost, happen, heard, serve, stop_coordinator,
}

-- What serving leaves alone.
pub record Same (c d : Coordinator) : Type 0 where
  pub pool : d.pool_open ≡ c.pool_open
  pub client : d.client_open ≡ c.client_open
  pub listener : d.listen_task ≡ c.listen_task

Same-refl : (c : Coordinator) → Same c c
Same-refl c = record { pool = refl; client = refl; listener = refl }

Same-serve : (hs : List Happening) (c : Coordinator) → Same c (serve hs c)
unfolding serve
Same-serve [] c = Same-refl c
Same-serve (calls_hub call ∷ hs) c =
    let rest = Same-serve hs (happen (calls_hub call) c) in
    record { pool = rest.pool; client = rest.client; listener = rest.listener }
Same-serve (connection_lost ∷ hs) c =
    let rest = Same-serve hs (happen connection_lost c) in
    record { pool = rest.pool; client = rest.client; listener = rest.listener }

unheard_call : (call : HubCall) (hub : QueryEventHub) → (heard false call hub).inbox ≡ hub.inbox
unheard_call (subscribing query_id) hub = unfold subscribe in refl
unheard_call (unsubscribing query_id queue) hub = unfold unsubscribe in refl
unheard_call (notifying payload) hub = refl

-- Where the listener does not listen, no queue gets anything, whatever is notified.
unheard :
    (hs : List Happening) (c : Coordinator)
    → c.listening ≡ false
    → (serve hs c).hub.inbox ≡ c.hub.inbox
unfolding serve
unheard [] c deaf = refl
unheard (calls_hub call ∷ hs) c deaf =
    unheard hs (happen (calls_hub call) c) deaf ∙ rw deaf (unheard_call call c.hub)
unheard (connection_lost ∷ hs) c deaf = unheard hs (happen connection_lost c) refl

-- Everything is closed.
abbrev pub Closed : Bool × Coordinator → Type 0
Closed stopped =
    (stopped.0 ≡ true)
    × (stopped.1.pool_open ≡ false)
    × (stopped.1.client_open ≡ false)
    × (stopped.1.connection_open ≡ false)

-- The end raises, with the pool and the client open.
abbrev pub LeftOpen : Bool × Coordinator → Type 0
LeftOpen stopped =
    (stopped.0 ≡ false) × (stopped.1.pool_open ≡ true) × (stopped.1.client_open ≡ true)

stop_coordinator-Closed : (c : Coordinator) → c.listen_task ≡ alive → Closed (stop_coordinator c)
unfolding stop_coordinator
stop_coordinator-Closed c waits = rw waits (refl, refl, refl, refl)

stop_coordinator-LeftOpen :
    (c : Coordinator)
    → c.listen_task ≡ broken
    → c.pool_open ≡ true
    → c.client_open ≡ true
    → LeftOpen (stop_coordinator c)
unfolding stop_coordinator
stop_coordinator-LeftOpen c fails pool client = rw (fails, pool, client) (refl, refl, refl)

-- However the start goes, whatever happens while the coordinator serves: either the start raises,
-- and leaves the pool open where it was opened; or it returns and the listener listens, and then the
-- end returns with the pool, the client and the connection closed; or it returns although the
-- listener has failed, and then no stream has got a notification, and the end raises and leaves the
-- pool and the client open.
pub start_and_end :
    (opens migrates : Bool) (start : Listening) (hs : List Happening)
    → let started = start_coordinator opens migrates start in
      let served = serve hs started.1 in
      ((started.0 ≡ false) × (started.1.pool_open ≡ opens))
      ⊎ ((started.0 ≡ true) × (start ≡ listens) × Closed (stop_coordinator served))
      ⊎ ((started.0 ≡ true)
          × ((start ≡ no_connection) ⊎ (start ≡ no_listener))
          × (served.hub.inbox ≡ (λ queue. []))
          × LeftOpen (stop_coordinator served))
unfolding start_coordinator listen
start_and_end false migrates start hs = inl (refl, refl)
start_and_end true false start hs = inl (refl, refl)
start_and_end true true listens hs =
    inr (inl (refl, refl, stop_coordinator-Closed _ (Same-serve hs _).listener))
start_and_end true true no_connection hs =
    let same = Same-serve hs (start_coordinator true true no_connection).1 in
    inr (
      inr (
        refl,
        inl refl,
        unheard hs _ refl,
        stop_coordinator-LeftOpen _ same.listener same.pool same.client,
      ))
start_and_end true true no_listener hs =
    let same = Same-serve hs (start_coordinator true true no_listener).1 in
    inr (
      inr (
        refl,
        inr refl,
        unheard hs _ refl,
        stop_coordinator-LeftOpen _ same.listener same.pool same.client,
      ))
