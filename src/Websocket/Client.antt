-- ===== src/Websocket/Client.antt =====
-- handleMessage of pkg/websocket/client.go: what a client's own messages do. ReadPump goes on
-- reading after the hub has closed the client's send channel.
use realtime_order_inventory.Prelude.{
  ◌+◌, String, not, List, [], ◌∷◌, ◌++◌, ◌==◌, if◌then◌else◌, select,
}
use realtime_order_inventory.Websocket.Hub.{
  Client, Hub, Change, has_channel, can_send, enqueue, keep, apply,
}

-- The JSON of a client's message, decoded.
pub record Request : Type 0 where
  pub action : String
  pub channel : String
  pub channels : List String

unfoldable pub add_channel : String → Client → Client
unfolding has_channel
add_channel channel c =
    if has_channel c channel then c else record c { channels = c.channels ++ channel ∷ [] }

unfoldable pub add_channels : List String → Client → Client
unfolding add_channel
add_channels [] c = c
add_channels (x ∷ xs) c = add_channels xs (add_channel x c)

unfoldable pub remove_channel : String → Client → Client
remove_channel channel c = record c { channels = select (λ x. not (x == channel)) c.channels }

-- select { case c.send <- data: default: }; a send on a closed channel panics.
unfoldable pub send_json : String → Client → Change
unfolding can_send enqueue keep
send_json text c =
    if c.closed
    then record { client = c; removed = 0; panics = 1 }
    else if can_send c
    then keep (enqueue c text)
    else keep c

unfoldable pub followed_by : Change → (Client → Change) → Change
followed_by x f = record {
  client = (f x.client).client;
  removed = x.removed + (f x.client).removed;
  panics = x.panics + (f x.client).panics;
}

-- `confirmation action channels` is the marshalled confirmation, `pong` the marshalled pong.
module _ (confirmation : String → List String → String) (pong : String) where
  unfoldable pub subscribe_one : String → Client → Change
  unfolding add_channel send_json keep
  subscribe_one channel c =
      if channel == ""
      then keep c
      else send_json (confirmation "subscribed" (channel ∷ [])) (add_channel channel c)

  unfoldable pub subscribe_many : List String → Client → Change
  unfolding add_channels send_json keep
  subscribe_many [] c = keep c
  subscribe_many (x ∷ xs) c =
      send_json (confirmation "subscribed" (x ∷ xs)) (add_channels (x ∷ xs) c)

  unfoldable pub handle_message : Request → Client → Change
  unfolding subscribe_one subscribe_many followed_by remove_channel send_json keep
  handle_message r c =
      if r.action == "subscribe"
      then followed_by (subscribe_one r.channel c) (subscribe_many r.channels)
      else if r.action == "unsubscribe"
      then (if r.channel == ""
          then keep c
          else send_json (confirmation "unsubscribed" (r.channel ∷ []))
              (remove_channel r.channel c))
      else if r.action == "ping"
      then send_json pong c
      else keep c

  -- ReadPump of the client with an id.
  unfoldable pub read_pump : String → Request → Hub → Hub
  unfolding handle_message apply keep
  read_pump id r = apply λ c. if c.id == id then handle_message r c else keep c
