-- ===== src/Websocket/Examples.antt =====
-- Runs of the hub of pkg/websocket on concrete data.
use realtime_order_inventory.Prelude.{
  ℕ, zero, suc, ◌≡◌, refl, String, true, false, List, [], ◌∷◌, map, length, arith,
}
use realtime_order_inventory.Prelude.Int.{pos}
use realtime_order_inventory.Websocket.Hub.{
  Client, Hub, can_send, broadcast_client, Event, connected, unregistered, broadcasted,
  sent_to_channel, written, steps,
}
use realtime_order_inventory.Serving.Writer as Serving
use realtime_order_inventory.Serving.Writer.{write_header}
use realtime_order_inventory.Websocket.Hub.{connect}
use realtime_order_inventory.Websocket.Handler.{Upgrader}
use realtime_order_inventory.Websocket.Upgrading.{wrapped, bare, never_connected}
use realtime_order_inventory.Websocket.Subscriber
use realtime_order_inventory.Websocket.Subscriber.{EventMessage, channels_for}
use realtime_order_inventory.Websocket.Delivery.{IsReady, received, event_delivered}
use realtime_order_inventory.Websocket.Client.{Request, handle_message}
use realtime_order_inventory.Websocket.Safety.{IsValid, hub_safe}
use realtime_order_inventory.Websocket.Dropped.{dropped_client_panics}

abbrev new_hub : Hub
new_hub = record { clients = []; active = pos 0; panics = 0 }

abbrev events : List Event
events =
    connected "ann"
    ∷ connected "bob"
    ∷ broadcasted "hello"
    ∷ sent_to_channel "orders" "news"
    ∷ written "ann"
    ∷ unregistered "ann"
    ∷ broadcasted "bye"
    ∷ []

hub_safe_example : IsValid (steps events new_hub) × ((steps events new_hub).panics ≡ 0)
hub_safe_example = hub_safe events new_hub tt

abbrev copies : ℕ → List String
copies zero = []
copies (suc n) = "m" ∷ copies n

abbrev slow : Client
slow = record { id = "ann"; registered = true; closed = false; send = copies 256; channels = [] }

slow_full : can_send slow ≡ false
unfolding can_send
slow_full = refl

abbrev confirmation : String → List String → String
confirmation action channels = action

dropped_client_panics_example :
    let dropped = broadcast_client "hello" slow in
    let ping : Request = record { action = "ping"; channel = ""; channels = [] } in
    (dropped.client.registered ≡ false)
    × (dropped.panics ≡ 0)
    × ((handle_message confirmation "pong" ping dropped.client).panics ≡ 1)
dropped_client_panics_example =
    dropped_client_panics slow "hello" refl refl slow_full confirmation "pong" "" []

-- It upgrades every request that it can.
abbrev upgrader : Upgrader
upgrader = record {
  upgrades = λ hijacker r. hijacker;
  refusal = λ hijacker r. write_header 500 ∷ [];
}

abbrev get_ws : Serving.Request
get_ws = record {
  method = "GET";
  path = "/ws/";
  url = "/ws/";
  route_pattern = "/ws/";
  authorization = "";
}

never_connected_example :
    ((wrapped upgrader "ann" get_ws new_hub).1.1.1 ≡ new_hub)
    × ((bare upgrader "ann" get_ws new_hub).1 ≡ connect "ann" new_hub)
never_connected_example =
    never_connected upgrader "ann" get_ws new_hub (record { refuses = λ r. refl }) refl

abbrev listener : Client
listener = record {
  id = "bob";
  registered = true;
  closed = false;
  send = [];
  channels = "orders" ∷ "order:7" ∷ [];
}

abbrev status_changed : EventMessage
status_changed = record {
  event_type = "order.status.changed";
  order_id = "7";
  customer_id = "";
  product_id = "";
}

abbrev one_client : Hub
one_client = record { clients = listener ∷ []; active = pos 1; panics = 0 }

listener-IsReady : IsReady (length (channels_for "order.events" status_changed)) listener
unfolding channels_for
listener-IsReady = λ h. (refl, omega arith)

event_delivered_example :
    let hub = Subscriber.handle_message "order.events" status_changed "changed" one_client in
    (hub.clients
      ≡ map (received "changed" (channels_for "order.events" status_changed)) one_client.clients)
    × (hub.panics ≡ 0)
event_delivered_example =
    event_delivered "order.events" status_changed "changed" one_client (listener-IsReady, tt)
