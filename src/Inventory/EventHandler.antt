-- ===== src/Inventory/EventHandler.antt =====
-- internal/inventory/adapter/kafka/order_event_handler.go, and the adapter of
-- cmd/inventory-service/main.go that gives it the use cases. The decoding of a message's JSON and
-- the encoding of the failure event are parameters; spans and logs are left out.
use realtime_order_inventory.Prelude.{String, List, [], ◌∷◌, ◌==◌, if◌then◌else◌}
use realtime_order_inventory.Prelude.Int.{ℤ}
use realtime_order_inventory.Errors.{message, Result, ok, err}
use realtime_order_inventory.Exec.{Message, pure, raise, lift, wrap, attempt, ignore, ◌>>=◌, ◌>>◌}
use realtime_order_inventory.Kafka.Consumer.{write_through}
use realtime_order_inventory.Kafka.TraceHeaders.{event_type, inject_trace_headers}
use realtime_order_inventory.Inventory.Postgres.{M, E}
use realtime_order_inventory.Inventory.Repository.{InventoryRepository}
use realtime_order_inventory.Inventory.UseCase

pub record ReserveStockRequest : Type 0 where
  pub order_id : String
  pub product_id : String
  pub sku : String
  pub warehouse_id : String
  pub quantity : ℤ

-- The fields of an item of an order.created event that the handler reads.
pub record EventItem : Type 0 where
  pub product_id : String
  pub sku : String
  pub quantity : ℤ

pub record InventoryUseCase : Type 0 where
  pub reserve_stock : ReserveStockRequest → M (Unit {0})
  pub release_reservation : String → M (Unit {0})

-- inventoryUseCaseAdapter: the SKU is not passed on, and an order id is passed on as the id of a
-- reservation.
unfoldable pub adapted_request : ReserveStockRequest → UseCase.ReserveStockRequest
adapted_request req = record {
  order_id = req.order_id;
  product_id = req.product_id;
  warehouse_id = req.warehouse_id;
  warehouse_code = "";
  sku = "";
  quantity = req.quantity;
}

module _ (e : E) (repo : InventoryRepository) where
  abbrev pub inventory_use_case_adapter : InventoryUseCase
  inventory_use_case_adapter = record {
    reserve_stock = λ req. (do UseCase.reserve_stock e repo (adapted_request req); pure tt);
    release_reservation = λ order_id. UseCase.release_reservation e repo order_id;
  }

pub record Decoder : Type 0 where
  pub created : String → Result (String × List EventItem)
  pub cancelled : String → Result String
  pub encode_failure : String → String → String → String
  pub trace : List (String × String)

unfoldable pub item_request : String → EventItem → ReserveStockRequest
item_request order_id item = record {
  order_id = order_id;
  product_id = item.product_id;
  sku = item.sku;
  warehouse_id = "";
  quantity = item.quantity;
}

unfoldable pub failure_message : Decoder → String → String → String → Message
failure_message d order_id product_id reason = record {
  offset = 0;
  topic = "inventory.reservation_failed";
  key = order_id;
  value = d.encode_failure order_id product_id reason;
  headers = ("event_type", "inventory.reservation_failed") ∷ [];
}

-- failedEventWriter of cmd/inventory-service/main.go has a topic of its own.
abbrev pub failed_event_topic : String
failed_event_topic = "inventory.reservation_failed"

module _ (e : E) (d : Decoder) (uc : InventoryUseCase) where
  unfoldable pub publish_inventory_reservation_failed : String → String → String → M (Unit {0})
  unfolding failure_message write_through
  publish_inventory_reservation_failed order_id product_id reason =
      write_through e failed_event_topic
        (inject_trace_headers d.trace (failure_message d order_id product_id reason))

  -- The first item that cannot be reserved is reported to the writer and ends the loop with its error.
  unfoldable pub settle_item : String → EventItem → Result (Unit {0}) → M (Unit {0})
  unfolding publish_inventory_reservation_failed
  settle_item order_id item (ok tt) = pure tt
  settle_item order_id item (err x) = do
    ignore (publish_inventory_reservation_failed order_id item.product_id (message x))
    raise x

  unfoldable pub reserve_items : String → List EventItem → M (Unit {0})
  unfolding item_request settle_item
  reserve_items order_id [] = pure tt
  reserve_items order_id (item ∷ items) = do
    result ← attempt (uc.reserve_stock (item_request order_id item))
    settle_item order_id item result
    reserve_items order_id items

  unfoldable pub handle_order_created : Message → M (Unit {0})
  unfolding reserve_items
  handle_order_created m = do
    event ← wrap "failed to unmarshal order.created event" (lift (d.created m.value))
    reserve_items event.0 event.1

  unfoldable pub handle_order_cancelled : Message → M (Unit {0})
  handle_order_cancelled m = do
    order_id ← wrap "failed to unmarshal order.cancelled event" (lift (d.cancelled m.value))
    uc.release_reservation order_id

  unfoldable pub handle : Message → M (Unit {0})
  unfolding handle_order_created handle_order_cancelled
  handle m =
      let t = event_type m in
      if t == "order.created"
      then handle_order_created m
      else if t == "order.cancelled"
      then handle_order_cancelled m
      else pure tt
