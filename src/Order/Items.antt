-- ===== src/Order/Items.antt =====
-- orderItemRepository of internal/order/adapter/postgres/order_repo.go.
use realtime_order_inventory.Prelude.{
  ℕ, String, not, List, [], ◌∷◌, ◌++◌, map, ◌==◌, if◌then◌else◌, select, some_row,
}
use realtime_order_inventory.Errors.{ok, err}
use realtime_order_inventory.Exec.{Executor, direct, Stmt, read, pure, ◌>>=◌, ◌>>◌, query, now}
use realtime_order_inventory.Order.Domain.{OrderItem, OrderItemRow, Host, Db}
use realtime_order_inventory.Order.Postgres.{M, E, unique_violation, foreign_key_violation}

unfoldable pub row_to_item : {F : Type 0} → OrderItemRow F → OrderItem F
row_to_item row = record {
  id = row.id;
  order_id = row.order_id;
  product_id = row.product_id;
  sku = row.sku;
  product_name = row.product_name;
  quantity = row.quantity;
  unit_price = row.unit_price;
  total_price = row.total_amount;
}

-- The primary key, and the foreign key to the order.
unfoldable pub insert_item : {F : Type 0} → OrderItemRow F → Stmt (Db F) (Unit {0})
insert_item row d =
    if some_row (λ r. r.id == row.id) d.order_items
    then err unique_violation
    else if not (some_row (λ r. r.id == row.order_id) d.orders)
    then err foreign_key_violation
    else ok (tt, record d { order_items = d.order_items ++ row ∷ [] })

module _ {F : Type 0} (h : Host F) (e : E F) where
  unfoldable pub to_row : OrderItem F → ℕ → OrderItemRow F
  to_row item time = record {
    id = item.id;
    order_id = item.order_id;
    product_id = item.product_id;
    sku = item.sku;
    product_name = item.product_name;
    quantity = item.quantity;
    unit_price = h.decimal item.unit_price;
    discount_amount = h.decimal h.zero;
    total_amount = h.decimal item.total_price;
    created_at = time;
  }

  -- One INSERT for each item, up to the first that fails.
  unfoldable pub create_in_tx : Executor → List (OrderItem F) → M F (Unit {0})
  unfolding to_row
  create_in_tx x [] = pure tt
  create_in_tx x (item ∷ items) = do
    time ← now e
    query e x (insert_item (to_row item time))
    create_in_tx x items

  unfoldable pub create : List (OrderItem F) → M F (Unit {0})
  unfolding create_in_tx
  create items = create_in_tx direct items

module _ {F : Type 0} (e : E F) where
  unfoldable pub get_by_order_id : String → M F (List (OrderItem F))
  get_by_order_id order = do
    rows ← query e direct (read λ d. ok (select (λ r. r.order_id == order) d.order_items))
    pure (map row_to_item rows)
