-- ===== src/Events/Inventory.antt =====
-- The events that internal/inventory/adapter/kafka/order_event_handler.go reads and writes.
use realtime_order_inventory.Prelude.{String, some, List, [], ◌∷◌}
use realtime_order_inventory.Errors.{Error, Result, ok}
use realtime_order_inventory.Events.Json.{
  Json, text, object, Elements, nil, cons, Fields, end, field, Codec, ◌>>=◌, ◌>>◌, member,
  read_text, read_int, read_float, read_struct, read_slice, read_texts,
}
use realtime_order_inventory.Inventory.EventHandler.{EventItem, Decoder}

module _ (mismatch : Error) where
  unfoldable pub decode_item : Json → Result EventItem
  unfolding read_text read_int read_float read_struct member
  decode_item j = do
    fs ← read_struct mismatch (some j)
    read_text mismatch (member "order_item_id" fs)
    product_id ← read_text mismatch (member "product_id" fs)
    sku ← read_text mismatch (member "sku" fs)
    read_text mismatch (member "product_name" fs)
    quantity ← read_int mismatch (member "quantity" fs)
    read_float mismatch (member "unit_price" fs)
    read_float mismatch (member "total_price" fs)
    ok (record { product_id = product_id; sku = sku; quantity = quantity })

  unfoldable pub decode_items : Elements → Result (List EventItem)
  unfolding decode_item
  decode_items nil = ok []
  decode_items (cons j js) = do item ← decode_item j; items ← decode_items js; ok (item ∷ items)

  -- The fields that every event has, and the one with its data.
  unfoldable pub read_data : Json → Result Fields
  unfolding read_text read_struct member
  read_data j = do
    fs ← read_struct mismatch (some j)
    read_text mismatch (member "event_id" fs)
    read_text mismatch (member "event_type" fs)
    read_struct mismatch (member "data" fs)

  -- OrderCreatedEvent: the identifier of the order and the items.
  unfoldable pub decode_created : Json → Result (String × List EventItem)
  unfolding read_data decode_items read_slice
  decode_created j = do
    fs ← read_data j
    order_id ← read_text mismatch (member "order_id" fs)
    read_text mismatch (member "customer_id" fs)
    read_text mismatch (member "status" fs)
    read_text mismatch (member "currency" fs)
    read_float mismatch (member "total_amount" fs)
    elements ← read_slice mismatch (member "items" fs)
    items ← decode_items elements
    ok (order_id, items)

  -- OrderCancelledEvent: the identifier of the order.
  unfoldable pub decode_cancelled : Json → Result String
  unfolding read_data read_slice read_texts
  decode_cancelled j = do
    fs ← read_data j
    order_id ← read_text mismatch (member "order_id" fs)
    ids ← read_slice mismatch (member "reservation_ids" fs)
    read_texts mismatch ids
    ok order_id

-- The event of publishInventoryReservationFailed; json.Marshal writes the keys of a map in order.
unfoldable pub failure_event : String → String → String → Json
failure_event order_id product_id reason = object (
    field "data"
      (object (
        field "order_id" (text order_id)
          (field "product_id" (text product_id) (field "reason" (text reason) end))))
      (field "event_type" (text "inventory.reservation_failed") end))

unfoldable pub order_event_decoder : Codec → List (String × String) → Decoder
unfolding decode_created decode_cancelled failure_event
order_event_decoder c trace = record {
  created = λ s. c.parse s >>= decode_created c.mismatch;
  cancelled = λ s. c.parse s >>= decode_cancelled c.mismatch;
  encode_failure = λ order_id product_id reason. c.print (failure_event order_id product_id reason);
  trace = trace;
}
