-- ===== src/Events/Delivery.antt =====
-- Who gets a notification, and that a subscription leaves nothing behind.
use duck_launcher.Events.Hub.{Sound, HubCall, hub_after, hub_after-Sound}
use duck_launcher.Base.{
  ℕ, ◌≡◌, refl, sym, ap, ◌∙◌, inl, inr, ◌==◌, some, List, [], ◌∷◌, ◌++◌, All, arith, Bool-cases,
  ==_refl, if◌then◌else◌, ◌<◌,
}
use duck_launcher.Db.{Payload}
use duck_launcher.Events.{
  QueryEventHub, subscribers_of, add_subscriber, subscribe, remove, remove_subscriber, unsubscribe,
  put_nowait, put_all, dispatch,
}

-- The payload, once for each time that the queue is subscribed.
abbrev pub copies : ℕ → Payload → List ℕ → List Payload
copies queue payload [] = []
copies queue payload (q ∷ queues) =
    if queue == q then payload ∷ copies queue payload queues else copies queue payload queues

append_assoc {ℓ} : {A : Type ℓ} → (xs ys zs : List A) → (xs ++ ys) ++ zs ≡ xs ++ (ys ++ zs)
append_assoc [] ys zs = refl
append_assoc (x ∷ xs) ys zs = ap (λ r. x ∷ r) (append_assoc xs ys zs)

append_nil {ℓ} : {A : Type ℓ} → (xs : List A) → xs ++ [] ≡ xs
append_nil [] = refl
append_nil (x ∷ xs) = ap (λ r. x ∷ r) (append_nil xs)

put_all-copies :
    (queues : List ℕ) (payload : Payload) (inbox : ℕ → List Payload) (queue : ℕ)
    → put_all queues payload inbox queue ≡ inbox queue ++ copies queue payload queues
unfolding put_all
put_all-copies [] payload inbox queue = sym (append_nil (inbox queue))
put_all-copies (q ∷ queues) payload inbox queue =
    put_all-copies queues payload (put_nowait q payload inbox) queue
    ∙ elim (Bool-cases (queue == q)) [
      | inl t ↦ rw t (append_assoc (inbox queue) (payload ∷ []) (copies queue payload queues))
      | inr t ↦ rw t refl
    ]

-- A notification goes to the queues that are subscribed to its query and to no other: each of them
-- gets the payload behind what it holds, once for each of its subscriptions.
pub inbox-dispatch :
    (hub : QueryEventHub) (payload : Payload) (queue : ℕ)
    → (dispatch hub (some payload)).inbox queue
      ≡ hub.inbox queue ++ copies queue payload (subscribers_of payload.query_id hub.subscribers)
unfolding dispatch
inbox-dispatch hub payload queue =
    put_all-copies (subscribers_of payload.query_id hub.subscribers) payload hub.inbox queue

remove_last :
    (queue : ℕ) (queues : List ℕ)
    → All (λ q. q < queue) queues
    → remove queue (queues ++ queue ∷ []) ≡ queues
unfolding remove
remove_last queue [] h = rw (==_refl queue) refl
remove_last queue (q ∷ queues) h = ground (arith, h.0, remove_last queue queues h.1)

remove_add :
    (k queue j : ℕ) (entries : List (ℕ × List ℕ))
    → Sound queue entries
    → subscribers_of j (remove_subscriber k queue (add_subscriber k queue entries))
      ≡ subscribers_of j entries
unfolding remove_subscriber add_subscriber subscribers_of remove
remove_add k queue j [] h = rw (==_refl k, ==_refl queue) refl
remove_add k queue j ((i, []) ∷ rest) h = cc
remove_add k queue j ((i, q ∷ queues) ∷ rest) h = elim (Bool-cases (i == k)) [
  | inl t ↦ rw (t, t, remove_last queue (q ∷ queues) h.0.1) refl
  | inr t ↦ rw (t, t, remove_add k queue j rest h.1) refl
]

-- In every hub that a history of calls leads to, a subscription that is made and ended leaves every
-- query the subscribers that it had.
unsubscribe-subscribe :
    (calls : List HubCall) (query_id other : ℕ)
    → let hub = hub_after calls in
      subscribers_of other
        (unsubscribe (subscribe hub query_id).1 query_id (subscribe hub query_id).0).subscribers
      ≡ subscribers_of other hub.subscribers
unfolding unsubscribe subscribe
unsubscribe-subscribe calls query_id other =
    let hub = hub_after calls in
    remove_add query_id hub.next_queue other hub.subscribers (hub_after-Sound calls)
