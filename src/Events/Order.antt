-- ===== src/Events/Order.antt =====
-- The events that internal/order/adapter/kafka/inventory_event_handler.go reads.
use realtime_order_inventory.Prelude.{String, some}
use realtime_order_inventory.Errors.{Error, Result, ok}
use realtime_order_inventory.Events.Json.{
  Json, Codec, ◌>>=◌, ◌>>◌, member, read_text, read_int, read_struct,
}
use realtime_order_inventory.Events.Inventory.{read_data}
use realtime_order_inventory.Order.EventHandler.{Decoder}

module _ (mismatch : Error) where
  -- InventoryReservedEvent: the identifier of the order.
  unfoldable pub decode_reserved : Json → Result String
  unfolding read_data read_text read_int read_struct member
  decode_reserved j = do
    fs ← read_data mismatch j
    order_id ← read_text mismatch (member "order_id" fs)
    reservation ← read_struct mismatch (member "reservation" fs)
    read_text mismatch (member "id" reservation)
    read_text mismatch (member "order_id" reservation)
    read_text mismatch (member "product_id" reservation)
    read_text mismatch (member "warehouse_id" reservation)
    read_int mismatch (member "quantity" reservation)
    ok order_id

  -- InventoryReservationFailedEvent: the identifier of the order and the reason.
  unfoldable pub decode_reservation_failed : Json → Result (String × String)
  unfolding read_data read_text member
  decode_reservation_failed j = do
    fs ← read_data mismatch j
    order_id ← read_text mismatch (member "order_id" fs)
    read_text mismatch (member "product_id" fs)
    reason ← read_text mismatch (member "reason" fs)
    ok (order_id, reason)

  unfoldable pub decode_released : Json → Result String
  unfolding read_text read_struct member
  decode_released j = do
    fs ← read_struct mismatch (some j)
    inner ← read_struct mismatch (member "data" fs)
    read_text mismatch (member "order_id" inner)

unfoldable pub inventory_event_decoder : Codec → Decoder
unfolding decode_reserved decode_reservation_failed decode_released
inventory_event_decoder c = record {
  reserved = λ s. c.parse s >>= decode_reserved c.mismatch;
  reservation_failed = λ s. c.parse s >>= decode_reservation_failed c.mismatch;
  released = λ s. c.parse s >>= decode_released c.mismatch;
}
