-- ===== src/Http/OrderHandler.antt =====
-- internal/order/adapter/httpd/handler.go. A request arrives decoded, or as `none` where its body
-- does not decode; metrics are left out.
use realtime_order_inventory.Prelude.{
  ℕ, zero, suc, String, Option, none, some, List, ◌==◌, if◌then◌else◌,
}
use realtime_order_inventory.Prelude.Int.{ℤ, pos}
use realtime_order_inventory.Errors.{Error, message, Result, ok, err}
use realtime_order_inventory.Exec.{pure, attempt, ◌>>=◌}
use realtime_order_inventory.Http.Response.{Response, json, error_response, json_with_pagination}
use realtime_order_inventory.Order.Domain.{Order, Host}
use realtime_order_inventory.Order.Postgres.{M, E}
use realtime_order_inventory.Order.Repository.{OrderRepository, OrderItemRepository}
use realtime_order_inventory.Order.UseCase
use realtime_order_inventory.Order.UseCase.{CreateOrderRequest, Created, created, duplicate}

unfoldable pub handle_error : {A : Type 0} → Error → Response A
unfolding error_response
handle_error x =
    let m = message x in
    if m == "order not found"
    then error_response 404 "NOT_FOUND" "Order not found"
    else if m == "order is not cancellable"
    then error_response 409 "ORDER_NOT_CANCELLABLE" "Order cannot be cancelled"
    else if m == "order must contain at least one item"
    then error_response 400 "EMPTY_CART" "Order must contain at least one item"
    else if m == "quantity must be greater than 0"
    then error_response 400 "INVALID_QUANTITY" "Quantity must be greater than 0"
    else if m == "duplicate idempotency key"
    then error_response 409 "DUPLICATE_IDEMPOTENCY_KEY"
        "An order with this idempotency key already exists"
    else error_response 500 "INTERNAL_ERROR" "An internal error occurred"

abbrev pub bad_request : {A : Type 0} → Response A
bad_request = error_response 400 "INVALID_REQUEST" "Invalid request body"

unfoldable pub created_response : {F : Type 0} → Result (Created F) → Response (Order F)
unfolding json handle_error
created_response (ok (created o)) = json 201 o
created_response (ok (duplicate o)) = json 409 o
created_response (err x) = handle_error x

unfoldable pub order_response : {F : Type 0} → Result (Order F) → Response (Order F)
unfolding json handle_error
order_response (ok o) = json 200 o
order_response (err x) = handle_error x

unfoldable pub status_response : String → Result (Unit {0}) → Response String
unfolding json handle_error
status_response status (ok tt) = json 200 status
status_response status (err x) = handle_error x

-- if limit <= 0 { limit = 20 }
unfoldable pub effective_limit : ℤ → ℕ
effective_limit (pos zero) = 20
effective_limit (pos (suc n)) = suc n
effective_limit _ = 20

unfoldable pub page_response :
    {F : Type 0} → ℕ → ℤ → Result (List (Order F) × ℕ) → Response (List (Order F))
unfolding json_with_pagination handle_error
page_response limit offset (ok (orders, total)) = json_with_pagination 200 orders total limit offset
page_response limit offset (err x) = handle_error x

module _ {F : Type 0} (h : Host F) (e : E F) (orders : OrderRepository F)
    (items : OrderItemRepository F) where
  -- The header Idempotency-Key, if it is there, takes the place of the body's.
  unfoldable pub with_header : String → CreateOrderRequest F → CreateOrderRequest F
  with_header key req = if key == "" then req else record req { idempotency_key = key }

  unfoldable pub create_order : Option (CreateOrderRequest F) → String → M F (Response (Order F))
  unfolding with_header created_response
  create_order none key = pure bad_request
  create_order (some req) key = do
    result ← attempt (UseCase.create_order h e orders items (with_header key req))
    pure (created_response result)

  unfoldable pub get_order : String → M F (Response (Order F))
  unfolding order_response
  get_order id = do
    result ← attempt (UseCase.get_order h e orders items id)
    pure (order_response result)

  unfoldable pub list_orders : String → ℤ → ℤ → M F (Response (List (Order F)))
  unfolding page_response effective_limit
  list_orders customer limit offset = do
    result ←
        attempt (UseCase.list_orders h e orders items customer (pos (effective_limit limit)) offset)
    pure (page_response (effective_limit limit) offset result)

  unfoldable pub cancel_order : String → Option String → M F (Response String)
  unfolding status_response
  cancel_order id none = pure bad_request
  cancel_order id (some reason) = do
    result ← attempt (UseCase.cancel_order h e orders items id reason)
    pure (status_response "cancelled" result)
