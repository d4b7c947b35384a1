-- ===== src/Tests/Starting.antt =====
-- How the coordinator starts and ends, and what a worker reads of its machine, at concrete inputs.
use duck_launcher.Text.{strip, strip_left, strip_right, is_space, any_char, split, span}
use duck_launcher.Base.{◌≡◌, refl, ◌⊎◌, pos, ◌+ℤ◌, true, false, none, some, List, [], ◌∷◌, map}
use duck_launcher.Db.{QueryStatus, Payload}
use duck_launcher.Events.{subscribe, dispatch, add_subscriber, subscribers_of, put_all}
use duck_launcher.Events.Hub.{subscribing, notifying}
use duck_launcher.Coordinator.{
  listens, no_connection, no_listener, start_coordinator, Happening, calls_hub, connection_lost,
  serve, stop_coordinator, listen,
}
use duck_launcher.Coordinator.Ending.{Closed, LeftOpen, start_and_end}
use duck_launcher.Worker.Registration.{Metrics}
use duck_launcher.Worker.Metrics.{collect_metrics, meminfo_line, get, digits, int_of, first_word}
use duck_launcher.Worker.Metrics.Meminfo.{MemLine, amount, other, text_of, collect_metrics_lem}

abbrev end_of_query : Payload
end_of_query = record {
  query_id = 11;
  status = QueryStatus.completed;
  error = none;
  result_row_count = none;
}

abbrev one_stream : List Happening
one_stream = calls_hub (subscribing 11) ∷ calls_hub (notifying (some end_of_query)) ∷ []

start_and_end_example :
    let started = start_coordinator true true no_connection in
    let served = serve one_stream started.1 in
    ((started.0 ≡ false) × (started.1.pool_open ≡ true))
    ⊎ ((started.0 ≡ true) × (no_connection ≡ listens) × Closed (stop_coordinator served))
    ⊎ ((started.0 ≡ true)
        × ((no_connection ≡ no_connection) ⊎ (no_connection ≡ no_listener))
        × (served.hub.inbox ≡ (λ queue. []))
        × LeftOpen (stop_coordinator served))
start_and_end_example = start_and_end true true no_connection one_stream

-- With a listener the stream gets the notification, and without its connection it does not.
heard_of :
    (serve one_stream (start_coordinator true true listens).1).hub.inbox 0 ≡ end_of_query ∷ []
unfolding serve start_coordinator listen subscribe dispatch add_subscriber subscribers_of put_all
heard_of = refl

not_heard_of :
    (serve (connection_lost ∷ one_stream) (start_coordinator true true listens).1).hub.inbox 0 ≡ []
unfolding serve start_coordinator listen subscribe dispatch add_subscriber subscribers_of put_all
not_heard_of = refl

abbrev three_lines : List MemLine
three_lines =
    amount (record { key = "MemTotal"; blanks = "       "; number = "16384000" })
    ∷ amount (record { key = "MemAvailable"; blanks = "   "; number = "8192000" })
    ∷ other "HugePages_Total:       0\n" (some ("HugePages_Total", pos 0))
    ∷ []

collect_metrics_lem_example :
    (m : Metrics) × (collect_metrics (some (map text_of three_lines)) false (some 8) 0 ≡ some m)
    × (m.memory_left_mb ≡ pos 8000)
    × (m.memory_used_mb +ℤ m.memory_left_mb ≡ pos 16000)
unfolding get strip strip_left strip_right is_space any_char meminfo_line split first_word span
    int_of digits
collect_metrics_lem_example = collect_metrics_lem three_lines false (some 8) 0 (
  record { no_colon = refl; bare = refl; spaces = refl; only_digits = refl; some_digit = refl },
  (
    record { no_colon = refl; bare = refl; spaces = refl; only_digits = refl; some_digit = refl },
    (refl, tt),
  ),
)

-- A line without a colon is left out, and a value that is no number raises.
odd_lines :
    (meminfo_line "HugePages" ≡ some none)
    × (meminfo_line "Mode: on" ≡ none)
    × (meminfo_line "Mode: " ≡ none)
unfolding meminfo_line split strip strip_left strip_right is_space first_word span int_of digits
odd_lines = (refl, refl, refl)
