-- ===== src/Errors.antt =====
-- The errors of both services: internal/inventory/domain/errors.go, internal/order/domain/errors.go,
-- an error of a driver (any text), and `fmt.Errorf("...: %w", err)`.
use Prim.Native.String.{◌++◌ as concat}
use realtime_order_inventory.Prelude.{String}

pub data InventoryError : Type 0 where
  insufficient_stock inventory_not_found concurrent_modification : InventoryError
  reservation_not_found reservation_expired invalid_quantity : InventoryError

pub data OrderError : Type 0 where
  order_not_found order_not_cancellable invalid_request empty_cart : OrderError
  invalid_item_quantity duplicate_idempotency_key : OrderError

pub data Error : Type 0 where
  inventory : InventoryError → Error
  order : OrderError → Error
  driver : String → Error
  wrapped : String → Error → Error

unfoldable pub inventory_message : InventoryError → String
inventory_message insufficient_stock = "insufficient stock"
inventory_message inventory_not_found = "inventory not found"
inventory_message concurrent_modification = "concurrent modification detected"
inventory_message reservation_not_found = "reservation not found"
inventory_message reservation_expired = "reservation expired"
inventory_message invalid_quantity = "invalid quantity"

unfoldable pub order_message : OrderError → String
order_message order_not_found = "order not found"
order_message order_not_cancellable = "order is not cancellable"
order_message invalid_request = "invalid request"
order_message empty_cart = "order must contain at least one item"
order_message invalid_item_quantity = "quantity must be greater than 0"
order_message duplicate_idempotency_key = "duplicate idempotency key"

-- err.Error()
unfoldable pub message : Error → String
unfolding inventory_message order_message
message (inventory e) = inventory_message e
message (order e) = order_message e
message (driver text) = text
message (wrapped context e) = concat context (concat ": " (message e))

pub data Result {ℓ} (A : Type ℓ) : Type ℓ where
  ok : A → Result A
  err : Error → Result A
