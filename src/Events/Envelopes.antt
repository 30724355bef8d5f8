-- ===== src/Events/Envelopes.antt =====
-- An order.created event with the fields that OrderCreatedEvent has, as internal/inventory/adapter/kafka/order_event_handler.go reads it.
use realtime_order_inventory.Prelude.{◌≡◌, String, some, List, [], ◌∷◌, All}
use realtime_order_inventory.Prelude.Int.{ℤ}
use realtime_order_inventory.Errors.{ok}
use realtime_order_inventory.Exec.{World, Message, ◌>>=◌, lift, wrap}
use realtime_order_inventory.Config.{atoi}
use realtime_order_inventory.Kafka.TraceHeaders.{event_type}
use realtime_order_inventory.Inventory.Domain.{Db, Cached}
use realtime_order_inventory.Inventory.Postgres.{E}
use realtime_order_inventory.Inventory.EventHandler.{
  Decoder, EventItem, InventoryUseCase, handle, handle_order_created, handle_order_cancelled,
  reserve_items,
}
use realtime_order_inventory.Events.Json.{
  Json, number, text, array, object, Elements, nil, cons, end, field,
}

-- What an item of the event says besides the product and the quantity.
pub record ItemDetails : Type 0 where
  pub item_id : String
  pub product_name : String
  pub unit_price : String
  pub total_price : String

-- What the event says besides the order and the items; `literal` writes an integer.
pub record Details : Type 0 where
  pub event_id : String
  pub customer_id : String
  pub status : String
  pub currency : String
  pub total_amount : String

module _ (literal : ℤ → String) (more : Details) where
  abbrev pub item_json : EventItem × ItemDetails → Json
  item_json (item, other) = object (
      field "order_item_id" (text other.item_id) (
        field "product_id" (text item.product_id) (
          field "product_name" (text other.product_name) (
            field "quantity" (number (literal item.quantity)) (
              field "sku" (text item.sku) (
                field "total_price" (number other.total_price)
                  (field "unit_price" (number other.unit_price) end)))))))

  abbrev pub items_json : List (EventItem × ItemDetails) → Elements
  items_json [] = nil
  items_json (item ∷ items) = cons (item_json item) (items_json items)

  abbrev pub created_envelope : String → List (EventItem × ItemDetails) → Json
  created_envelope order_id items = object (
      field "data"
        (object (
          field "currency" (text more.currency) (
            field "customer_id" (text more.customer_id) (
              field "items" (array (items_json items)) (
                field "order_id" (text order_id) (
                  field "status" (text more.status)
                    (field "total_amount" (number more.total_amount) end)))))))
        (field "event_id" (text more.event_id) (field "event_type" (text "order.created") end)))

  -- The quantities are numbers that an int can hold.
  abbrev pub AreInts : List (EventItem × ItemDetails) → Type 0
  AreInts items = All (λ i. atoi (literal i.0.quantity) ≡ some i.0.quantity) items

module _ (e : E) (d : Decoder) (uc : InventoryUseCase) (m : Message) (w : World Db Cached) where
  pub created_run :
      (order_id : String) (items : List EventItem)
      → event_type m ≡ "order.created"
      → d.created m.value ≡ ok (order_id, items)
      → handle e d uc m w ≡ reserve_items e d uc order_id items w
  unfolding handle handle_order_created ◌>>=◌ lift wrap
  created_run order_id items t read = rw (t, read)

  pub cancelled_run :
      (order_id : String)
      → event_type m ≡ "order.cancelled"
      → d.cancelled m.value ≡ ok order_id
      → handle e d uc m w ≡ uc.release_reservation order_id w
  unfolding handle handle_order_cancelled ◌>>=◌ lift wrap
  cancelled_run order_id t read = rw (t, read)
