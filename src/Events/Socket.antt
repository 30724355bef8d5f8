-- ===== src/Events/Socket.antt =====
-- The events that internal/websocket/subscriber.go reads from Redis.
use realtime_order_inventory.Prelude.{String, Option, some}
use realtime_order_inventory.Errors.{Error, Result, ok}
use realtime_order_inventory.Events.Json.{
  Json, text, object, ◌>>=◌, ◌>>◌, member, read_text, read_struct,
}
use realtime_order_inventory.Websocket.Subscriber.{EventMessage}

abbrev pub text_or_empty : Option Json → String
text_or_empty (some (text s)) = s
text_or_empty _ = ""

-- extractOrderID, extractCustomerID and extractProductID: data.(map[string]interface{}), then the text.
unfoldable pub extract : String → Option Json → String
unfolding member
extract key (some (object fs)) = text_or_empty (member key fs)
extract key _ = ""

unfoldable pub decode_message : Error → Json → Result EventMessage
unfolding read_text read_struct extract
decode_message mismatch j = do
  fs ← read_struct mismatch (some j)
  read_text mismatch (member "event_id" fs)
  event_type ← read_text mismatch (member "event_type" fs)
  ok (record {
    event_type = event_type;
    order_id = extract "order_id" (member "data" fs);
    customer_id = extract "customer_id" (member "data" fs);
    product_id = extract "product_id" (member "data" fs);
  })
