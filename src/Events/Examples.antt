-- ===== src/Events/Examples.antt =====
-- Events between the services on concrete data.
use realtime_order_inventory.Prelude.{map, ◌≡◌, refl, String, List, [], ◌∷◌, ◌==◌, if◌then◌else◌, ℕ}
use realtime_order_inventory.Prelude.Int.{ℤ, pos}
use realtime_order_inventory.Errors.{driver, inventory, insufficient_stock, ok, err}
use realtime_order_inventory.Exec.{Message}
use realtime_order_inventory.Exec.Envs.{quiet}
use realtime_order_inventory.Kafka.TraceHeaders.{inject_trace_headers}
use realtime_order_inventory.Inventory.EventHandler as Stock
use realtime_order_inventory.Inventory.EventHandler.{EventItem, InventoryUseCase, failure_message}
use realtime_order_inventory.Inventory.Fixtures as Warehouse
use realtime_order_inventory.Order.EventHandler as Orders
use realtime_order_inventory.Order.Domain.{Order, Cached, Db}
use realtime_order_inventory.Order.Fixtures.{host, waiting, world}
use realtime_order_inventory.Order.Postgres.{row_to_order}
use realtime_order_inventory.Order.UseCase.{
  created_fields, created_payload, cancelled_fields, cancelled_payload,
}
use realtime_order_inventory.Events.Json.{Json, object, Codec}
use realtime_order_inventory.Events.Inventory.{failure_event, order_event_decoder}
use realtime_order_inventory.Events.Order.{inventory_event_decoder}
use realtime_order_inventory.Events.Reading.{failure_cancels}
use realtime_order_inventory.Events.Envelopes.{ItemDetails, Details}
use realtime_order_inventory.Events.Flat.{
  Numbers, IsMarshalled, AreDistinct, fields_of, member-fields_of, order_message,
  created_reserves_nothing, cancelled_releases_empty,
}

-- Every text is the text of one event.
abbrev only : Json → Codec
only j = record { print = λ j. "{}"; parse = λ s. ok j; mismatch = driver "json" }

abbrev traceparent : List (String × String)
traceparent = ("traceparent", "00-1") ∷ []

abbrev orders : Orders.OrderUseCase (Db ℕ) (Cached ℕ)
orders = record {
  confirm_order = λ id w. (ok tt, w);
  cancel_order = λ id reason w. (err (driver reason), record w { calls = 1 });
}

failure_cancels_example :
    Orders.handle
      (inventory_event_decoder (only (failure_event "order-1" "lamp" "insufficient stock")))
      orders
      (inject_trace_headers traceparent (
        failure_message
          (order_event_decoder (only (failure_event "order-1" "lamp" "insufficient stock")) [])
          "order-1"
          "lamp"
          "insufficient stock"))
      world
    ≡ (err (driver "insufficient stock"), record world { calls = 1 })
failure_cancels_example =
    failure_cancels (only (failure_event "order-1" "lamp" "insufficient stock")) orders []
      traceparent "order-1" "lamp" "insufficient stock" world (refl, tt) refl

-- There are no chairs.
abbrev stock : InventoryUseCase
stock = record {
  reserve_stock =
      λ req w. (if req.product_id == "chair" then err (inventory insufficient_stock) else ok tt, w);
  release_reservation = λ id w. (err (driver id), w);
}

abbrev two : ℤ → String
two n = "2"

abbrev details : Details
details = record {
  event_id = "event-1";
  customer_id = "ann";
  status = "pending";
  currency = "USD";
  total_amount = "6.5";
}

abbrev lamp : ItemDetails
lamp = record {
  item_id = "item-1";
  product_name = "Lamp";
  unit_price = "3.25";
  total_price = "6.5";
}

abbrev lamps : List EventItem
lamps = record { product_id = "lamp"; sku = "L1"; quantity = pos 2 } ∷ []

abbrev described : List (EventItem × ItemDetails)
described = map (λ i. (i, lamp)) lamps

abbrev created : Message
created = record {
  offset = 4;
  topic = "order.created";
  key = "order-1";
  value = "{}";
  headers = ("event_type", "order.created") ∷ [];
}

abbrev decoder : Json → Stock.Decoder
decoder j = order_event_decoder (only j) []

abbrev numbers : Numbers ℕ
numbers = record { amount = λ n. "6"; count = λ n. "0" }

abbrev placed : Order ℕ
placed = row_to_order host waiting

created_distinct : AreDistinct numbers (created_fields placed)
unfolding created_fields
created_distinct = ((refl, (refl, (refl, tt))), ((refl, (refl, tt)), ((refl, tt), (tt, tt))))

created_read :
    IsMarshalled numbers
      (only (object (fields_of numbers (created_fields placed))))
      (created_payload host placed)
      (created_fields placed)
unfolding created_fields
created_read = record {
  fields = fields_of numbers (created_fields placed);
  parsed = refl;
  same = λ k. member-fields_of numbers (created_fields placed) k created_distinct;
}

created_reserves_nothing_example :
    Stock.handle
      (quiet Warehouse.ids)
      (decoder (object (fields_of numbers (created_fields placed))))
      stock
      (order_message traceparent placed "event-1" "now" "c-1" "order.created"
        (created_payload host placed))
      (Warehouse.world_of Warehouse.stock)
    ≡ (ok tt, Warehouse.world_of Warehouse.stock)
created_reserves_nothing_example =
    created_reserves_nothing numbers (only (object (fields_of numbers (created_fields placed))))
      host (quiet Warehouse.ids) stock [] traceparent placed "event-1" "now" "c-1"
      (Warehouse.world_of Warehouse.stock) (refl, tt) created_read

cancelled_distinct : AreDistinct numbers (cancelled_fields placed "late")
unfolding cancelled_fields
cancelled_distinct = ((refl, (refl, (refl, tt))), ((refl, (refl, tt)), ((refl, tt), (tt, tt))))

cancelled_read :
    IsMarshalled numbers
      (only (object (fields_of numbers (cancelled_fields placed "late"))))
      (cancelled_payload host placed "late")
      (cancelled_fields placed "late")
unfolding cancelled_fields
cancelled_read = record {
  fields = fields_of numbers (cancelled_fields placed "late");
  parsed = refl;
  same = λ k. member-fields_of numbers (cancelled_fields placed "late") k cancelled_distinct;
}

cancelled_releases_empty_example :
    Stock.handle
      (quiet Warehouse.ids)
      (decoder (object (fields_of numbers (cancelled_fields placed "late"))))
      stock
      (order_message traceparent placed "event-1" "now" "c-1" "order.cancelled"
        (cancelled_payload host placed "late"))
      (Warehouse.world_of Warehouse.stock)
    ≡ (err (driver ""), Warehouse.world_of Warehouse.stock)
cancelled_releases_empty_example =
    cancelled_releases_empty numbers
      (only (object (fields_of numbers (cancelled_fields placed "late")))) host
      (quiet Warehouse.ids) stock [] traceparent placed "event-1" "now" "c-1"
      (Warehouse.world_of Warehouse.stock) "late" (refl, tt) cancelled_read
