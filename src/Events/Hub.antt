-- ===== src/Events/Hub.antt =====
-- The hub's table in every history of calls: each entry has a queue, and each queue was handed out.
use duck_launcher.Base.{
  ℕ, ◌+◌, ◌<◌, ◌≡◌, refl, inl, inr, ◌==◌, Bool, true, false, Option, List, [], ◌∷◌, ◌++◌, All,
  All-mono, All-append, arith, Bool-cases,
}
use duck_launcher.Db.{Payload}
use duck_launcher.Events.{
  QueryEventHub, add_subscriber, subscribe, remove, entry_or_pop, remove_subscriber, unsubscribe,
  dispatch,
}

abbrev pub is_nil : List ℕ → Bool
is_nil [] = true
is_nil (q ∷ queues) = false

-- An entry with a queue, all of them below the next one.
abbrev IsEntry : ℕ → ℕ × List ℕ → Type 0
IsEntry next e = (is_nil e.1 ≡ false) × All (λ q. q < next) e.1

abbrev pub Sound : ℕ → List (ℕ × List ℕ) → Type 0
Sound next entries = All (IsEntry next) entries

pub data HubCall : Type 0 where
  subscribing : ℕ → HubCall
  unsubscribing : ℕ → ℕ → HubCall
  notifying : Option Payload → HubCall

abbrev pub hub_step : HubCall → QueryEventHub → QueryEventHub
hub_step (subscribing query_id) hub = (subscribe hub query_id).1
hub_step (unsubscribing query_id queue) hub = unsubscribe hub query_id queue
hub_step (notifying payload) hub = dispatch hub payload

-- The hub of __init__.
abbrev pub new_hub : QueryEventHub
new_hub = record { subscribers = []; inbox = λ queue. []; next_queue = 0 }

-- The hub after the calls, the last one first.
unfoldable pub hub_after : List HubCall → QueryEventHub
hub_after [] = new_hub
hub_after (c ∷ calls) = hub_step c (hub_after calls)

All-remove :
    (next queue : ℕ) (queues : List ℕ)
    → All (λ q. q < next) queues
    → All (λ q. q < next) (remove queue queues)
unfolding remove
All-remove next queue [] h = tt
All-remove next queue (q ∷ queues) h = elim (Bool-cases (q == queue)) [
  | inl t ↦ rw t h.1
  | inr t ↦ rw t (h.0, All-remove next queue queues h.1)
]

entry_or_pop-Sound :
    (next k : ℕ) (queues : List ℕ) (rest : List (ℕ × List ℕ))
    → All (λ q. q < next) queues
    → Sound next rest
    → Sound next (entry_or_pop k queues rest)
entry_or_pop-Sound next k [] rest h s = s
entry_or_pop-Sound next k (q ∷ queues) rest h s = ((refl, h), s)

remove_subscriber-Sound :
    (next k queue : ℕ) (entries : List (ℕ × List ℕ))
    → Sound next entries
    → Sound next (remove_subscriber k queue entries)
unfolding remove_subscriber
remove_subscriber-Sound next k queue [] h = tt
remove_subscriber-Sound next k queue ((i, []) ∷ rest) h = cc
remove_subscriber-Sound next k queue ((i, q ∷ queues) ∷ rest) h = elim (Bool-cases (i == k)) [
  | inl t ↦ rw t (
      entry_or_pop-Sound next i (remove queue (q ∷ queues)) rest
        (All-remove next queue (q ∷ queues) h.0.1) h.1)
  | inr t ↦ rw t (h.0, remove_subscriber-Sound next k queue rest h.1)
]

later : (next : ℕ) (e : ℕ × List ℕ) → IsEntry next e → IsEntry (next + 1) e
later next e h = (h.0, All-mono _ _ e.1 (λ q below. omega (arith, below)) h.1)

nil-append : (queues : List ℕ) (queue : ℕ) → is_nil (queues ++ queue ∷ []) ≡ false
nil-append [] queue = refl
nil-append (q ∷ queues) queue = refl

add_subscriber-Sound :
    (next k : ℕ) (entries : List (ℕ × List ℕ))
    → Sound next entries
    → Sound (next + 1) (add_subscriber k next entries)
unfolding add_subscriber
add_subscriber-Sound next k [] h = ((refl, (omega arith, tt)), tt)
add_subscriber-Sound next k ((i, queues) ∷ rest) h = elim (Bool-cases (i == k)) [
  | inl t ↦ rw t (
    (
      nil-append queues next,
      All-append _ queues (next ∷ []) (later next (i, queues) h.0).1 (omega arith, tt),
    ),
    All-mono _ _ rest (later next) h.1,
  )
  | inr t ↦ rw t (later next (i, queues) h.0, add_subscriber-Sound next k rest h.1)
]

pub hub_after-Sound :
    (calls : List HubCall) → Sound (hub_after calls).next_queue (hub_after calls).subscribers
unfolding hub_after subscribe unsubscribe dispatch
hub_after-Sound [] = tt
hub_after-Sound (subscribing k ∷ calls) =
    add_subscriber-Sound (hub_after calls).next_queue k (hub_after calls).subscribers
      (hub_after-Sound calls)
hub_after-Sound (unsubscribing k queue ∷ calls) =
    remove_subscriber-Sound (hub_after calls).next_queue k queue (hub_after calls).subscribers
      (hub_after-Sound calls)
hub_after-Sound (notifying Option.none ∷ calls) = hub_after-Sound calls
hub_after-Sound (notifying (Option.some payload) ∷ calls) = hub_after-Sound calls
