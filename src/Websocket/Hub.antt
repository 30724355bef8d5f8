-- ===== src/Websocket/Hub.antt =====
-- pkg/websocket/hub.go and the part of pkg/websocket/client.go that keeps a client's channels and
-- its send buffer. The model keeps every client that was ever made, with the hub's map as the flag
-- `registered`: a pointer is the client's place in the list. `active` is the gauge
-- WSConnectionsActive, `panics` the sends on and closes of a closed channel, which Go panics on.
use realtime_order_inventory.Prelude.{
  ℕ, suc, ◌+◌, String, Bool, true, false, not, ◌&&◌, List, [], ◌∷◌, ◌++◌, ◌==◌, if◌then◌else◌,
  length, ltb, select, some_row,
}
use realtime_order_inventory.Prelude.Int.{ℤ, pos, ◌+ℤ◌, ◌-ℤ◌}

pub record Client : Type 0 where
  pub id : String
  pub registered : Bool
  pub closed : Bool
  pub send : List String
  pub channels : List String

pub record Hub : Type 0 where
  pub clients : List Client
  pub active : ℤ
  pub panics : ℕ

-- send: make(chan []byte, 256)
abbrev pub send_capacity : ℕ
send_capacity = 256

unfoldable pub has_channel : Client → String → Bool
has_channel c channel = some_row (λ x. x == channel) c.channels

-- select { case client.send <- message: default: }: whether the message was taken.
unfoldable pub can_send : Client → Bool
can_send c = ltb (length c.send) send_capacity

unfoldable pub enqueue : Client → String → Client
enqueue c m = record c { send = c.send ++ m ∷ [] }

-- delete(h.clients, client); close(client.send)
unfoldable pub drop_client : Client → Client
drop_client c = record c { registered = false; closed = true }

unfoldable pub count_closed : Client → ℕ → ℕ
count_closed c panics = if c.closed then suc panics else panics

-- What an operation does to one client: the client, whether the gauge goes down, and panics.
pub record Change : Type 0 where
  pub client : Client
  pub removed : ℕ
  pub panics : ℕ

unfoldable pub keep : Client → Change
keep c = record { client = c; removed = 0; panics = 0 }

-- case client := <-h.unregister: the gauge goes down also where the client is not in the map.
unfoldable pub unregister_client : Client → Change
unfolding drop_client count_closed
unregister_client c =
    if c.registered
    then record { client = drop_client c; removed = 1; panics = count_closed c 0 }
    else record { client = c; removed = 1; panics = 0 }

-- case message := <-h.broadcast, for one client of the map: a full buffer drops the client.
unfoldable pub broadcast_client : String → Client → Change
unfolding can_send enqueue drop_client count_closed keep
broadcast_client m c =
    if not c.registered
    then keep c
    else if c.closed
    then record { client = c; removed = 0; panics = 1 }
    else if can_send c
    then keep (enqueue c m)
    else record { client = drop_client c; removed = 1; panics = count_closed c 0 }

-- BroadcastToChannel, for one client of the map: a full buffer asks Run to unregister the client.
unfoldable pub broadcast_channel_client : String → String → Client → Change
unfolding has_channel can_send enqueue unregister_client keep
broadcast_channel_client channel m c =
    if not (c.registered && has_channel c channel)
    then keep c
    else if c.closed
    then record { client = c; removed = 0; panics = 1 }
    else if can_send c
    then keep (enqueue c m)
    else unregister_client c

unfoldable pub over_clients : (Client → Change) → List Client → List Client
over_clients f [] = []
over_clients f (c ∷ cs) = (f c).client ∷ over_clients f cs

unfoldable pub total : (Change → ℕ) → (Client → Change) → List Client → ℕ
total count f [] = 0
total count f (c ∷ cs) = count (f c) + total count f cs

unfoldable pub apply : (Client → Change) → Hub → Hub
unfolding over_clients total
apply f h = record {
  clients = over_clients f h.clients;
  active = h.active -ℤ pos (total (λ x. x.removed) f h.clients);
  panics = h.panics + total (λ x. x.panics) f h.clients;
}

-- NewClient and Register, with the metrics of HandleWebSocket.
unfoldable pub connect : String → Hub → Hub
connect id h = record h {
  clients =
      h.clients
      ++ record { id = id; registered = true; closed = false; send = []; channels = [] } ∷ [];
  active = h.active +ℤ pos 1;
}

-- Unregister of the client with an id, as ReadPump does when the connection ends.
unfoldable pub unregister : String → Hub → Hub
unfolding apply unregister_client keep
unregister id = apply λ c. if c.id == id then unregister_client c else keep c

unfoldable pub broadcast : String → Hub → Hub
unfolding apply broadcast_client
broadcast m = apply (broadcast_client m)

unfoldable pub broadcast_to_channel : String → String → Hub → Hub
unfolding apply broadcast_channel_client
broadcast_to_channel channel m = apply (broadcast_channel_client channel m)

-- WritePump takes the oldest message.
unfoldable pub take_message : Client → Client
take_message c = elim c.send [ [] ↦ c | m ∷ rest ↦ record c { send = rest } ]

unfoldable pub write_pump : String → Hub → Hub
unfolding apply take_message keep
write_pump id = apply λ c. keep (if c.id == id then take_message c else c)

unfoldable pub client_count : Hub → ℕ
client_count h = length (select (λ c. c.registered) h.clients)

-- What Run, BroadcastToChannel and the pumps of the clients do to the hub, one at a time: the hub's
-- mutex and its channels order them.
pub data Event : Type 0 where
  connected : String → Event
  unregistered : String → Event
  broadcasted : String → Event
  sent_to_channel : String → String → Event
  written : String → Event

unfoldable pub step : Event → Hub → Hub
unfolding connect unregister broadcast broadcast_to_channel write_pump
step (connected id) h = connect id h
step (unregistered id) h = unregister id h
step (broadcasted m) h = broadcast m h
step (sent_to_channel channel m) h = broadcast_to_channel channel m h
step (written id) h = write_pump id h

unfoldable pub steps : List Event → Hub → Hub
unfolding step
steps [] h = h
steps (ev ∷ evs) h = steps evs (step ev h)
