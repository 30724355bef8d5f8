-- ===== src/Websocket/Subscriber.antt =====
-- internal/websocket/subscriber.go: which channels an event of Redis is broadcast to.
use Prim.Native.String.{◌++◌ as concat}
use realtime_order_inventory.Prelude.{String, ◌||◌, List, [], ◌∷◌, ◌++◌, ◌==◌, if◌then◌else◌}
use realtime_order_inventory.Websocket.Hub.{Hub, broadcast_to_channel}

-- The fields of the event's data that the subscriber reads, "" where the data has no such text.
pub record EventMessage : Type 0 where
  pub event_type : String
  pub order_id : String
  pub customer_id : String
  pub product_id : String

-- The channel of one thing, if the event names it.
unfoldable pub channel_of : String → String → List String
channel_of prefix id = if id == "" then [] else concat prefix id ∷ []

unfoldable pub order_channels : EventMessage → List String
unfolding channel_of
order_channels ev =
    if ev.event_type == "order.status.changed"
    then channel_of "order:" ev.order_id ++ "orders" ∷ []
    else if (ev.event_type == "order.created")
        || (ev.event_type == "order.cancelled")
        || (ev.event_type == "order.confirmed")
    then channel_of "customer:" ev.customer_id
    else "orders" ∷ []

unfoldable pub inventory_channels : EventMessage → List String
unfolding channel_of
inventory_channels ev =
    if ev.event_type == "inventory.updated"
    then channel_of "product:" ev.product_id ++ "inventory" ∷ []
    else if ev.event_type == "inventory.low_stock"
    then "inventory:low_stock" ∷ []
    else "inventory" ∷ []

unfoldable pub channels_for : String → EventMessage → List String
unfolding order_channels inventory_channels
channels_for channel ev =
    if channel == "order.events"
    then order_channels ev
    else if channel == "inventory.events"
    then inventory_channels ev
    else []

unfoldable pub broadcast_all : List String → String → Hub → Hub
broadcast_all [] m h = h
broadcast_all (c ∷ cs) m h = broadcast_all cs m (broadcast_to_channel c m h)

-- handleMessage, of a payload that decodes; `m` is the marshalled message.
unfoldable pub handle_message : String → EventMessage → String → Hub → Hub
unfolding channels_for broadcast_all
handle_message channel ev m h = broadcast_all (channels_for channel ev) m h
