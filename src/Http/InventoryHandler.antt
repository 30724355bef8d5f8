-- ===== src/Http/InventoryHandler.antt =====
-- internal/inventory/adapter/httpd/handler.go. A request arrives decoded, or as `none` where its
-- body does not decode; metrics are left out.
use realtime_order_inventory.Prelude.{
  String, Option, none, some, List, [], ◌∷◌, ◌++◌, ◌==◌, if◌then◌else◌,
}
use realtime_order_inventory.Prelude.Int.{ℤ}
use realtime_order_inventory.Errors.{Error, message, Result, ok, err}
use realtime_order_inventory.Exec.{pure, attempt, ◌>>=◌}
use realtime_order_inventory.Http.Response.{Response, json, error_response}
use realtime_order_inventory.Inventory.Domain.{Reservation}
use realtime_order_inventory.Inventory.Postgres.{M, E}
use realtime_order_inventory.Inventory.Repository.{InventoryRepository}
use realtime_order_inventory.Inventory.UseCase
use realtime_order_inventory.Inventory.UseCase.{
  StockResponse, ReserveStockRequest, UpdateStockRequest,
}

unfoldable pub handle_error : {A : Type 0} → Error → Response A
unfolding error_response
handle_error x =
    let m = message x in
    if m == "insufficient stock"
    then error_response 409 "INSUFFICIENT_STOCK" "Not enough stock available"
    else if m == "inventory not found"
    then error_response 404 "NOT_FOUND" "Inventory not found"
    else if m == "concurrent modification detected"
    then error_response 409 "CONCURRENT_MODIFICATION" "Resource was modified by another request"
    else if m == "reservation not found"
    then error_response 404 "NOT_FOUND" "Reservation not found"
    else if m == "invalid quantity"
    then error_response 400 "INVALID_QUANTITY" "Quantity must be greater than 0"
    else error_response 500 "INTERNAL_ERROR" "An internal error occurred"

abbrev pub bad_request : {A : Type 0} → Response A
bad_request = error_response 400 "INVALID_REQUEST" "Invalid request body"

pub record ReserveStockItem : Type 0 where
  pub product_id : String
  pub sku : String
  pub quantity : ℤ
  pub warehouse_code : String

pub record ReserveRequest : Type 0 where
  pub order_id : String
  pub items : List ReserveStockItem

-- The reservations that were made, each with its item, and the last error.
pub record Outcome : Type 0 where
  pub results : List (Reservation × ReserveStockItem)
  pub last_error : Option Error

unfoldable pub item_request : String → ReserveStockItem → ReserveStockRequest
item_request order_id item = record {
  order_id = order_id;
  product_id = item.product_id;
  warehouse_id = "";
  warehouse_code = item.warehouse_code;
  sku = item.sku;
  quantity = item.quantity;
}

unfoldable pub note : Outcome → ReserveStockItem → Result Reservation → Outcome
note o item (ok r) = record o { results = o.results ++ (r, item) ∷ [] }
note o item (err x) = record o { last_error = some x }

-- if len(results) == 0 && lastErr != nil
unfoldable pub answer :
    List (Reservation × ReserveStockItem)
    → Option Error
    → Response (List (Reservation × ReserveStockItem))
unfolding handle_error json
answer [] (some x) = handle_error x
answer results _ = json 201 results

unfoldable pub outcome_response : Outcome → Response (List (Reservation × ReserveStockItem))
unfolding answer
outcome_response o = answer o.results o.last_error

unfoldable pub stock_response : Result StockResponse → Response StockResponse
unfolding json handle_error
stock_response (ok s) = json 200 s
stock_response (err x) = handle_error x

unfoldable pub status_response : String → Result (Unit {0}) → Response String
unfolding json handle_error
status_response status (ok tt) = json 200 status
status_response status (err x) = handle_error x

module _ (e : E) (repo : InventoryRepository) where
  unfoldable pub get_stock : String → M (Response StockResponse)
  unfolding stock_response
  get_stock p = do result ← attempt (UseCase.get_stock e repo p); pure (stock_response result)

  -- Each item is tried, whatever became of those before it.
  unfoldable pub reserve_items : String → List ReserveStockItem → Outcome → M Outcome
  unfolding item_request note
  reserve_items order_id [] o = pure o
  reserve_items order_id (item ∷ items) o = do
    result ← attempt (UseCase.reserve_stock e repo (item_request order_id item))
    reserve_items order_id items (note o item result)

  unfoldable pub reserve_stock :
      Option ReserveRequest → M (Response (List (Reservation × ReserveStockItem)))
  unfolding reserve_items outcome_response
  reserve_stock none = pure bad_request
  reserve_stock (some req) = do
    o ← reserve_items req.order_id req.items (record { results = []; last_error = none })
    pure (outcome_response o)

  unfoldable pub release_reservation : String → M (Response String)
  unfolding status_response
  release_reservation id = do
    result ← attempt (UseCase.release_reservation e repo id)
    pure (status_response "released" result)

  unfoldable pub update_stock : Option UpdateStockRequest → M (Response String)
  unfolding status_response
  update_stock none = pure bad_request
  update_stock (some req) = do
    result ← attempt (UseCase.update_stock e repo req)
    pure (status_response "updated" result)
