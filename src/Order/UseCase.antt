-- ===== src/Order/UseCase.antt =====
-- internal/order/usecase: the order use cases over any repositories.
use realtime_order_inventory.Prelude.{
  ℕ, String, Bool, true, false, not, List, [], ◌∷◌, ◌==◌, if◌then◌else◌, length, some_row,
}
use realtime_order_inventory.Prelude.Int.{ℤ, pos, leb_ℤ}
use realtime_order_inventory.Errors.{
  order, empty_cart, invalid_item_quantity, order_not_cancellable, Result, ok, err,
}
use realtime_order_inventory.Exec.{
  in_tx, pure, raise, ◌>>=◌, ◌>>◌, wrap, attempt, deferring_rollback, begin, commit, new_id, now,
}
use realtime_order_inventory.Order.Domain.{
  OrderStatus, Order, OrderItem, OutboxEvent, Address, Json, text, amount, count, Host,
  calculate_total, can_cancel, pending_payment, processing, cancelled,
}
use realtime_order_inventory.Order.Postgres.{M, E}
use realtime_order_inventory.Order.Repository.{OrderRepository, OrderItemRepository}
use realtime_order_inventory.Order.Outbox

pub record OrderItemRequest (F : Type 0) : Type 0 where
  pub product_id : String
  pub sku : String
  pub product_name : String
  pub quantity : ℤ
  pub unit_price : F

pub record CreateOrderRequest (F : Type 0) : Type 0 where
  pub customer_id : String
  pub currency : String
  pub items : List (OrderItemRequest F)
  pub shipping_address : Address
  pub idempotency_key : String

-- What CreateOrder returns: a new order, or the one that has the key already, with the error
-- ErrDuplicateIdempotencyKey beside it.
pub data Created (F : Type 0) : Type 0 where
  created : Order F → Created F
  duplicate : Order F → Created F

unfoldable pub order_event : String → String → String → String → String → OutboxEvent
order_event id order_id event_type payload time = record {
  id = id;
  aggregate_type = "order";
  aggregate_id = order_id;
  event_type = event_type;
  payload = payload;
  status = "PENDING";
  created_at = time;
  published_at = "";
}

abbrev pub is_empty : {A : Type 0} → List A → Bool
is_empty [] = true
is_empty (x ∷ xs) = false

unfoldable pub has_invalid_item : {F : Type 0} → List (OrderItemRequest F) → Bool
has_invalid_item items = some_row (λ i. leb_ℤ i.quantity (pos 0)) items

-- The maps that become the payloads of the events.
module _ {F : Type 0} where
  unfoldable pub created_fields : Order F → List (String × Json F)
  created_fields o =
      ("order_id", text o.id)
      ∷ ("customer_id", text o.customer_id)
      ∷ ("total", amount o.total_amount)
      ∷ ("items", count (length o.items))
      ∷ []

  unfoldable pub cancelled_fields : Order F → String → List (String × Json F)
  cancelled_fields o reason =
      ("order_id", text o.id)
      ∷ ("old_status", text o.status)
      ∷ ("new_status", text cancelled)
      ∷ ("reason", text reason)
      ∷ []

module _ {F : Type 0} (h : Host F) where
  unfoldable pub item_of : String → String → OrderItemRequest F → OrderItem F
  item_of id order_id i = record {
    id = id;
    order_id = order_id;
    product_id = i.product_id;
    sku = i.sku;
    product_name = i.product_name;
    quantity = i.quantity;
    unit_price = i.unit_price;
    total_price = h.mul (h.of_int i.quantity) i.unit_price;
  }

  -- The order before its items are added; its amounts are float64's zero.
  unfoldable pub new_order : CreateOrderRequest F → String → String → ℕ → ℕ → Order F
  new_order req key id created_at updated_at = record {
    id = id;
    customer_id = req.customer_id;
    status = pending_payment;
    currency = if req.currency == "" then "USD" else req.currency;
    subtotal = h.zero;
    discount_amount = h.zero;
    shipping_fee = h.zero;
    tax_amount = h.zero;
    total_amount = h.zero;
    shipping_address = req.shipping_address;
    items = [];
    idempotency_key = key;
    created_at = created_at;
    updated_at = updated_at;
  }

  unfoldable pub with_items : Order F → List (OrderItem F) → Order F
  unfolding calculate_total
  with_items o items = calculate_total h (record o { items = items })

  unfoldable pub created_payload : Order F → String
  unfolding created_fields
  created_payload o = h.marshal (created_fields o)

  unfoldable pub cancelled_payload : Order F → String → String
  unfolding cancelled_fields
  cancelled_payload o reason = h.marshal (cancelled_fields o reason)

  unfoldable pub confirmed_payload : Order F → String
  confirmed_payload o = h.marshal (
      ("order_id", text o.id)
      ∷ ("old_status", text o.status)
      ∷ ("new_status", text processing)
      ∷ [])

module _ {F : Type 0} (h : Host F) (e : E F) where
  -- for _, item := range req.Items, with a fresh identifier for each
  unfoldable pub make_items : String → List (OrderItemRequest F) → M F (List (OrderItem F))
  unfolding item_of
  make_items order_id [] = pure []
  make_items order_id (i ∷ is) = do
    id ← new_id e
    rest ← make_items order_id is
    pure (item_of h id order_id i ∷ rest)

  -- The event of an order: a fresh identifier, and the time as a text.
  unfoldable pub make_event : String → String → String → M F OutboxEvent
  unfolding order_event
  make_event order_id event_type payload = do
    id ← new_id e
    time ← now e
    pure (order_event id order_id event_type payload (h.rfc3339 time))

module _ {F : Type 0} (h : Host F) (e : E F) (orders : OrderRepository F)
    (order_items : OrderItemRepository F) where
  -- From BeginTxx to Commit.
  unfoldable pub store_order : Order F → OutboxEvent → M F (Unit {0})
  store_order o ev = do
    wrap "failed to begin transaction" (begin e)
    deferring_rollback (do
      wrap "failed to create order" (orders.create_in_tx in_tx o)
      wrap "failed to create order items" (order_items.create_in_tx in_tx o.items)
      wrap "failed to create outbox event" (Outbox.create_in_tx e in_tx ev)
      wrap "failed to commit transaction" (commit e))

  unfoldable pub create_new : CreateOrderRequest F → String → M F (Created F)
  unfolding new_order with_items created_payload make_event store_order
  create_new req key = do
    id ← new_id e
    t₁ ← now e
    t₂ ← now e
    items ← make_items h e id req.items
    let o = with_items h (new_order h req key id t₁ t₂) items
    ev ← make_event h e o.id "order.created" (created_payload h o)
    store_order o ev
    pure (created o)

  -- err == nil && existing != nil: any error of the lookup counts as "no such order".
  unfoldable pub create_unless : CreateOrderRequest F → String → Result (Order F) → M F (Created F)
  create_unless req key (ok existing) = pure (duplicate existing)
  create_unless req key (err _) = create_new req key

  -- if req.IdempotencyKey == "" { req.IdempotencyKey = uuid.New().String() }
  unfoldable pub choose_key : String → M F String
  choose_key key = if key == "" then new_id e else pure key

  unfoldable pub create_cart : CreateOrderRequest F → M F (Created F)
  unfolding choose_key create_unless
  create_cart req = if has_invalid_item req.items then raise (order invalid_item_quantity) else do
    key ← choose_key req.idempotency_key
    found ← attempt (orders.get_by_idempotency_key key)
    create_unless req key found

  unfoldable pub create_order : CreateOrderRequest F → M F (Created F)
  unfolding create_cart
  create_order req = if is_empty req.items then raise (order empty_cart) else create_cart req

  unfoldable pub get_order : String → M F (Order F)
  get_order id = do
    o ← orders.get_by_id id
    items ← order_items.get_by_order_id id
    pure (record o { items = items })

  unfoldable pub list_orders : String → ℤ → ℤ → M F (List (Order F) × ℕ)
  list_orders customer limit offset = orders.list customer limit offset

  -- The transaction of CancelOrder and ConfirmOrder: the status and the event.
  unfoldable pub change_status : String → String → OrderStatus → OutboxEvent → M F (Unit {0})
  change_status context id status ev = do
    wrap "failed to begin transaction" (begin e)
    deferring_rollback (do
      wrap context (orders.update_status_in_tx in_tx id status)
      wrap "failed to create outbox event" (Outbox.create_in_tx e in_tx ev)
      wrap "failed to commit transaction" (commit e))

  unfoldable pub cancel_order : String → String → M F (Unit {0})
  unfolding make_event change_status cancelled_payload
  cancel_order id reason = do
    o ← orders.get_by_id id
    if not (can_cancel o) then raise (order order_not_cancellable) else do
      ev ← make_event h e o.id "order.cancelled" (cancelled_payload h o reason)
      change_status "failed to cancel order" id cancelled ev

  -- An order that does not wait for its payment is left alone, without an error.
  unfoldable pub confirm_order : String → M F (Unit {0})
  unfolding make_event change_status confirmed_payload
  confirm_order id = do
    o ← orders.get_by_id id
    if not (o.status == pending_payment) then pure tt else do
      ev ← make_event h e o.id "order.confirmed" (confirmed_payload h o)
      change_status "failed to confirm order" id processing ev
