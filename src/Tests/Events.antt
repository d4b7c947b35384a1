-- ===== src/Tests/Events.antt =====
-- A hub with one subscriber, and the stream of the running query.
use duck_launcher.Events.Live.{live_stream, heartbeats, end_is_missed}
use duck_launcher.Events.Hub.{HubCall, subscribing, unsubscribing, hub_after, notifying}
use duck_launcher.Base.{◌≡◌, refl, none, some, [], ◌∷◌, List, false}
use duck_launcher.Db.{User, QueryStatus, Payload}
use duck_launcher.Table.{fetch}
use duck_launcher.Queries.Life.{get_query}
use duck_launcher.Accounts.Auth.{returned}
use duck_launcher.Routes.{accessible}
use duck_launcher.Events.{
  QueryEventHub, query_event_payload, timed_out, event, disconnected, Frame, heartbeat,
  query_events,
}
use duck_launcher.Events.Stream.{events_until_final}
use duck_launcher.Tests.Fixture.{start, running_query}

abbrev payload_of : QueryStatus → Payload
payload_of s = record { query_id = 11; status = s; error = none; result_row_count = none }

abbrev one_subscriber : QueryEventHub
one_subscriber = record { subscribers = (11, 0 ∷ []) ∷ []; inbox = λ queue. []; next_queue = 1 }

abbrev three_calls : List HubCall
three_calls = subscribing 11 ∷ unsubscribing 12 0 ∷ subscribing 12 ∷ []

abbrev visitor : User
visitor = record {
  user_id = 5;
  sub = "anon:5";
  email = none;
  name = none;
  created_at = 1;
  last_login_at = 1;
}

events_until_final_example :
    query_events start visitor 11
      (timed_out ∷ event (payload_of QueryStatus.completed) ∷ disconnected ∷ [])
    ≡ returned (
        Frame.status (query_event_payload running_query)
        ∷ heartbeat
        ∷ Frame.status (payload_of QueryStatus.completed)
        ∷ [])
events_until_final_example =
    events_until_final start visitor 11 running_query (timed_out ∷ []) (disconnected ∷ [])
      (payload_of QueryStatus.completed) (unfold accessible get_query fetch in refl) refl (refl, tt)
      refl

-- The notification of the end of query 11 is the last call before the stream subscribes.
end_is_missed_example :
    live_stream
      (hub_after (notifying (some (payload_of QueryStatus.completed)) ∷ three_calls))
      running_query
      (record { calls = []; gone = false } ∷ record { calls = []; gone = false } ∷ [])
    ≡ Frame.status (query_event_payload running_query) ∷ heartbeats 2
end_is_missed_example =
    end_is_missed (notifying (some (payload_of QueryStatus.completed)) ∷ three_calls) running_query
      (record { calls = []; gone = false } ∷ record { calls = []; gone = false } ∷ []) refl
      ((refl, refl), ((refl, refl), tt))
