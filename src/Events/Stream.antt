-- ===== src/Events/Stream.antt =====
-- What a subscriber of a query is sent.
use duck_launcher.Base.{
  ℕ, ◌≡◌, refl, ap, Bool, true, false, List, [], ◌∷◌, ◌++◌, All, map, arith, not,
}
use duck_launcher.Db.{Db, User, Query, Payload}
use duck_launcher.Accounts.Auth.{returned}
use duck_launcher.Routes.{accessible, is_terminal}
use duck_launcher.Events.{
  Turn, disconnected, timed_out, event, Frame, status, heartbeat, stream_loop, event_stream,
  query_event_payload, query_events,
}

-- A round that does not end the stream.
abbrev pub goes_on : Turn → Bool
goes_on disconnected = false
goes_on timed_out = true
goes_on (event e) = not (is_terminal e.status)

abbrev pub frame : Turn → Frame
frame disconnected = heartbeat
frame timed_out = heartbeat
frame (event e) = status e

stream_loop-map :
    (before after : List Turn) (e : Payload)
    → All (λ t. goes_on t ≡ true) before
    → is_terminal e.status ≡ true
    → stream_loop (before ++ event e ∷ after) ≡ map frame before ++ status e ∷ []
unfolding stream_loop
stream_loop-map [] after e h last = rw last refl
stream_loop-map (disconnected ∷ before) after e h last = cc
stream_loop-map (timed_out ∷ before) after e h last =
    ap (λ fs. heartbeat ∷ fs) (stream_loop-map before after e h.1 last)
stream_loop-map (event d ∷ before) after e h last =
    let active : is_terminal d.status ≡ false = ground (arith, h.0) in
    rw active (ap (λ fs. status d ∷ fs) (stream_loop-map before after e h.1 last))

-- For a user who may access a query that is not finished: if the rounds find heartbeats and
-- statuses that are not final and then a final status, the client is sent the row's status, a frame
-- for each of those rounds in their order, and the final status, and after it nothing more.
pub events_until_final :
    (db : Db) (user : User) (k : ℕ) (row : Query) (before after : List Turn) (e : Payload)
    → accessible db user k ≡ returned row
    → is_terminal row.status ≡ false
    → All (λ t. goes_on t ≡ true) before
    → is_terminal e.status ≡ true
    → query_events db user k (before ++ event e ∷ after)
      ≡ returned (status (query_event_payload row) ∷ (map frame before ++ status e ∷ []))
unfolding query_events event_stream
events_until_final db user k row before after e passed active h last =
    rw (query_events, passed, event_stream, active, stream_loop-map before after e h last) refl
