-- ===== src/Websocket/Delivery.antt =====
-- An event of internal/websocket/subscriber.go on its way to the clients of pkg/websocket/hub.go.
use mathlib.Core.List.{append-nil, append_assoc}
use realtime_order_inventory.Prelude.{
  ℕ, suc, ◌+◌, ◌≤◌, ◌≡◌, refl, sym, ◌∙◌, ap, String, Bool, true, false, ◌&&◌, List, [], ◌∷◌, ◌++◌,
  map, if◌then◌else◌, subst, Bool-cases, inl, inr, select, length, All, arith,
}
use realtime_order_inventory.Websocket.Hub.{
  Client, Hub, has_channel, can_send, enqueue, keep, broadcast_channel_client, over_clients, total,
  apply, broadcast_to_channel, send_capacity,
}
use realtime_order_inventory.Websocket.Subscriber.{
  EventMessage, channels_for, broadcast_all, handle_message,
}

-- A client of the hub has an open channel with room for n messages.
abbrev pub IsReady : ℕ → Client → Type 0
IsReady n c = c.registered ≡ true → (c.closed ≡ false) × (length c.send + n ≤ send_capacity)

-- What a client gets for one channel.
abbrev sent_one : String → String → Client → Client
sent_one m ch c = if c.registered && has_channel c ch then enqueue c m else c

append-length : (xs : List String) (x : String) → length (xs ++ x ∷ []) ≡ suc (length xs)
append-length [] x = refl
append-length (y ∷ xs) x = ap suc (append-length xs x)

one_change :
    (m ch : String) (n : ℕ) (c : Client)
    → IsReady (suc n) c
    → broadcast_channel_client ch m c ≡ keep (sent_one m ch c)
unfolding broadcast_channel_client can_send keep
one_change m ch n c ready = elim (Bool-cases c.registered) [
  | inl here ↦ let (open_, room) = ready here in ground arith
  | inr gone ↦ ground arith
]

IsReady-if :
    (b : Bool) (m : String) (n : ℕ) (c : Client)
    → IsReady (suc n) c
    → IsReady n (if b then enqueue c m else c)
unfolding enqueue
IsReady-if true m n c ready =
    λ h. let (open_, room) = ready h in let longer = append-length c.send m in (open_, omega arith)
IsReady-if false m n c ready = λ h. let (open_, room) = ready h in (open_, omega arith)

all_changed :
    (m ch : String) (n : ℕ) (cs : List Client)
    → All (IsReady (suc n)) cs
    → (over_clients (broadcast_channel_client ch m) cs ≡ map (sent_one m ch) cs)
      × (total (λ x. x.panics) (broadcast_channel_client ch m) cs ≡ 0)
      × All (IsReady n) (map (sent_one m ch) cs)
unfolding over_clients total keep
all_changed m ch n [] h = (refl, refl, tt)
all_changed m ch n (c ∷ cs) h =
    let (rest, quiet, ready) = all_changed m ch n cs h.1 in
    let one = one_change m ch n c h.0 in
    (
      rw (one, rest),
      rw (one, quiet),
      (IsReady-if (c.registered && has_channel c ch) m n c h.0, ready),
    )

-- What a client gets for several channels.
abbrev sent_all : String → List String → Client → Client
sent_all m [] c = c
sent_all m (ch ∷ chs) c = sent_all m chs (sent_one m ch c)

map-sent_all :
    (m ch : String) (chs : List String) (cs : List Client)
    → map (sent_all m chs) (map (sent_one m ch) cs) ≡ map (sent_all m (ch ∷ chs)) cs
map-sent_all m ch chs [] = refl
map-sent_all m ch chs (c ∷ cs) = ap (λ t. sent_all m (ch ∷ chs) c ∷ t) (map-sent_all m ch chs cs)

map-same : (cs : List Client) (m : String) → map (sent_all m []) cs ≡ cs
map-same [] m = refl
map-same (c ∷ cs) m = ap (λ t. c ∷ t) (map-same cs m)

broadcast_run :
    (m : String) (chs : List String) (h : Hub)
    → All (IsReady (length chs)) h.clients
    → ((broadcast_all chs m h).clients ≡ map (sent_all m chs) h.clients)
      × ((broadcast_all chs m h).panics ≡ h.panics)
unfolding broadcast_all broadcast_to_channel apply
broadcast_run m [] h ready = (sym (map-same h.clients m), refl)
broadcast_run m (ch ∷ chs) h ready =
    let (clients, quiet, still) = all_changed m ch (length chs) h.clients ready in
    let h' = broadcast_to_channel ch m h in
    let (rest, calm) =
      broadcast_run m chs h' (subst (λ cs. All (IsReady (length chs)) cs) (sym clients) still) in
    (
      rest ∙ ap (map (sent_all m chs)) clients ∙ map-sent_all m ch chs h.clients,
      calm ∙ ap (λ n. h.panics + n) quiet ∙ omega arith,
    )

-- One copy for each channel of the list that the client listens to, if the hub has the client.
abbrev pub received : String → List String → Client → Client
received m chs c =
    if c.registered
    then record c { send = c.send ++ map (λ _. m) (select (has_channel c) chs) }
    else c

received_one :
    (m ch : String) (chs : List String) (c : Client) (here listens : Bool)
    → c.registered ≡ here
    → has_channel c ch ≡ listens
    → received m chs (sent_one m ch c) ≡ received m (ch ∷ chs) c
unfolding enqueue select has_channel
received_one m ch chs c false listens gone h = rw gone
received_one m ch chs c true false here h = rw (here, h)
received_one m ch chs c true true here h =
    rw (here, h)
      (ap (λ s. record c { registered = true; send = s }) (append_assoc c.send (m ∷ []) _))

received_none : (m : String) (c : Client) → c ≡ received m [] c
unfolding select
received_none m c = elim (Bool-cases c.registered) [
  | inl here ↦ rw (here, append-nil c.send)
  | inr gone ↦ rw gone
]

sent_all_lem : (m : String) (chs : List String) (c : Client) → sent_all m chs c ≡ received m chs c
sent_all_lem m [] c = received_none m c
sent_all_lem m (ch ∷ chs) c =
    sent_all_lem m chs (sent_one m ch c)
    ∙ received_one m ch chs c c.registered (has_channel c ch) refl refl

map_congr :
    (m : String) (chs : List String) (cs : List Client)
    → map (sent_all m chs) cs ≡ map (received m chs) cs
map_congr m chs [] = refl
map_congr m chs (c ∷ cs) = rw (sent_all_lem m chs c, map_congr m chs cs)

-- An event of a Redis channel: each client of the hub gets one copy of the message for each of the
-- event's channels that it listens to, after what it has, the others get nothing, and nothing panics,
-- where the clients of the hub are open and have room for that.
pub event_delivered :
    (channel : String) (ev : EventMessage) (m : String) (h : Hub)
    → All (IsReady (length (channels_for channel ev))) h.clients
    → ((handle_message channel ev m h).clients
        ≡ map (received m (channels_for channel ev)) h.clients)
      × ((handle_message channel ev m h).panics ≡ h.panics)
unfolding handle_message
event_delivered channel ev m h ready =
    let (clients, panics) = broadcast_run m (channels_for channel ev) h ready in
    (clients ∙ map_congr m (channels_for channel ev) h.clients, panics)
