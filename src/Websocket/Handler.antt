-- ===== src/Websocket/Handler.antt =====
-- internal/websocket/handler.go, and GetStats of pkg/websocket/hub.go. gorilla's upgrader is a parameter.
use realtime_order_inventory.Prelude.{ℕ, suc, String, Bool, List, [], ◌∷◌, ◌==◌, if◌then◌else◌}
use realtime_order_inventory.Serving.Writer.{Request, Action, set_header, write, serve}
use realtime_order_inventory.Serving.Middleware.{Next}
use realtime_order_inventory.Websocket.Hub.{Client, Hub, connect, client_count}

-- Upgrade: whether it takes the connection over, for a writer that is a Hijacker or not, and what it
-- answers where it does not.
pub record Upgrader : Type 0 where
  pub upgrades : Bool → Request → Bool
  pub refusal : Bool → Request → List Action

-- `id` is the identifier of the new client. The goroutines of its pumps are steps of the hub.
unfoldable pub handle_web_socket : Upgrader → String → Request → Hub → Next Hub
unfolding connect serve
handle_web_socket upgrader id r hub W writer w =
    if upgrader.upgrades writer.hijacker r
    then (w, connect id hub)
    else (serve writer (upgrader.refusal writer.hijacker r) w, hub)

-- channels[ch]++
unfoldable pub increment : String → List (String × ℕ) → List (String × ℕ)
increment ch [] = (ch, 1) ∷ []
increment ch ((k, n) ∷ counts) =
    if k == ch then (k, suc n) ∷ counts else (k, n) ∷ increment ch counts

unfoldable pub count_channels : List String → List (String × ℕ) → List (String × ℕ)
unfolding increment
count_channels [] counts = counts
count_channels (ch ∷ chs) counts = count_channels chs (increment ch counts)

unfoldable pub count_clients : List Client → List (String × ℕ) → List (String × ℕ)
unfolding count_channels
count_clients [] counts = counts
count_clients (c ∷ cs) counts =
    count_clients cs (if c.registered then count_channels c.channels counts else counts)

pub record Stats : Type 0 where
  pub total_clients : ℕ
  pub channels : List (String × ℕ)
  pub timestamp : ℕ

unfoldable pub get_stats : ℕ → Hub → Stats
unfolding client_count count_clients
get_stats time h = record {
  total_clients = client_count h;
  channels = count_clients h.clients [];
  timestamp = time;
}

-- `encode` is encoding/json.
unfoldable pub handle_stats : (Stats → String) → ℕ → Hub → List Action
unfolding get_stats
handle_stats encode time h =
    set_header "Content-Type" "application/json" ∷ write (encode (get_stats time h)) ∷ []
