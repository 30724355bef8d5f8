-- ===== src/Order/Postgres.antt =====
-- orderRepository of internal/order/adapter/postgres/order_repo.go.
use realtime_order_inventory.Prelude.{
  ℕ, String, Bool, false, ◌||◌, Option, none, some, List, [], ◌∷◌, ◌++◌, map, ◌==◌, if◌then◌else◌,
  find, select, update, some_row, length, take, drop, leb,
}
use realtime_order_inventory.Prelude.Int.{ℤ, pos, negsuc}
use realtime_order_inventory.Errors.{Error, order, driver, order_not_found, Result, ok, err}
use realtime_order_inventory.Exec.{Env, Exec, Executor, direct, Stmt, read, pure, ◌>>=◌, query, now}
use realtime_order_inventory.Order.Domain.{OrderStatus, Order, OrderRow, Host, Db, Cached}

abbrev pub M : Type 0 → Type 0 → Type 0
M F = Exec (Db F) (Cached F)

abbrev pub E : Type 0 → Type 0
E F = Env (Db F) (Cached F)

abbrev pub unique_violation : Error
unique_violation = driver "pq: duplicate key value violates unique constraint"

abbrev pub foreign_key_violation : Error
foreign_key_violation = driver "pq: insert violates foreign key constraint"

abbrev pub or_missing : {A : Type 0} → Error → Option A → Result A
or_missing x none = err x
or_missing x (some a) = ok a

abbrev pub has_key : {F : Type 0} → String → OrderRow F → Bool
has_key key r = elim r.idempotency_key [ none ↦ false | some k ↦ k == key ]

-- ORDER BY created_at DESC. Orders of one time come in the order in which the rows are met.
unfoldable pub insert_by_age : {F : Type 0} → OrderRow F → List (OrderRow F) → List (OrderRow F)
insert_by_age r [] = r ∷ []
insert_by_age r (x ∷ xs) =
    if leb x.created_at r.created_at then r ∷ x ∷ xs else x ∷ insert_by_age r xs

unfoldable pub newest_first : {F : Type 0} → List (OrderRow F) → List (OrderRow F)
unfolding insert_by_age
newest_first [] = []
newest_first (r ∷ rs) = insert_by_age r (newest_first rs)

-- LIMIT and OFFSET, neither of which may be negative.
unfoldable pub page : {A : Type 0} → ℤ → ℤ → List A → Result (List A)
page (pos limit) (pos offset) rows = ok (take limit (drop offset rows))
page (pos limit) (negsuc n) rows = err (driver "pq: OFFSET must not be negative")
page (negsuc n) offset rows = err (driver "pq: LIMIT must not be negative")

-- customerID != "" selects the orders of the customer, "" all.
unfoldable pub of_customer : {F : Type 0} → String → OrderRow F → Bool
of_customer customer r = (customer == "") || (r.customer_id == customer)

module _ {F : Type 0} (h : Host F) where
  unfoldable pub to_row : Order F → OrderRow F
  to_row o = record {
    id = o.id;
    customer_id = o.customer_id;
    status = o.status;
    currency = o.currency;
    subtotal = h.decimal o.subtotal;
    discount_amount = h.decimal o.discount_amount;
    shipping_fee = h.decimal o.shipping_fee;
    tax_amount = h.decimal o.tax_amount;
    total_amount = h.decimal o.total_amount;
    shipping_address = h.marshal_address o.shipping_address;
    idempotency_key = some o.idempotency_key;
    created_at = o.created_at;
    updated_at = o.updated_at;
  }

  -- The items and the idempotency key are left at their zero values.
  unfoldable pub row_to_order : OrderRow F → Order F
  row_to_order row = record {
    id = row.id;
    customer_id = row.customer_id;
    status = row.status;
    currency = row.currency;
    subtotal = row.subtotal;
    discount_amount = row.discount_amount;
    shipping_fee = row.shipping_fee;
    tax_amount = row.tax_amount;
    total_amount = row.total_amount;
    shipping_address = h.unmarshal_address row.shipping_address;
    items = [];
    idempotency_key = "";
    created_at = row.created_at;
    updated_at = row.updated_at;
  }

-- The primary key, and UNIQUE of idempotency_key, of migrations/order/orders.sql.
unfoldable pub insert_order : {F : Type 0} → OrderRow F → Stmt (Db F) (Unit {0})
insert_order row d =
    if some_row (λ r. r.id == row.id) d.orders
    then err unique_violation
    else if elim row.idempotency_key [ none ↦ false | some key ↦ some_row (has_key key) d.orders ]
    then err unique_violation
    else ok (tt, record d { orders = d.orders ++ row ∷ [] })

unfoldable pub set_status : {F : Type 0} → String → OrderStatus → ℕ → Stmt (Db F) (Unit {0})
set_status id status time d = ok (
  tt,
  record d {
    orders =
        update (λ r. r.id == id) (λ r. record r { status = status; updated_at = time }) d.orders;
  },
)

unfoldable pub find_order : {F : Type 0} → String → Stmt (Db F) (OrderRow F)
find_order id = read λ d. or_missing (order order_not_found) (find (λ r. r.id == id) d.orders)

unfoldable pub find_by_key : {F : Type 0} → String → Stmt (Db F) (OrderRow F)
find_by_key key = read λ d. or_missing (order order_not_found) (find (has_key key) d.orders)

module _ {F : Type 0} (h : Host F) (e : E F) where
  unfoldable pub create_in_tx : Executor → Order F → M F (Unit {0})
  create_in_tx x o = query e x (insert_order (to_row h o))

  unfoldable pub create : Order F → M F (Unit {0})
  unfolding create_in_tx
  create o = create_in_tx direct o

  unfoldable pub get_by_id : String → M F (Order F)
  get_by_id id = do row ← query e direct (find_order id); pure (row_to_order h row)

  unfoldable pub get_by_idempotency_key : String → M F (Order F)
  get_by_idempotency_key key = do row ← query e direct (find_by_key key); pure (row_to_order h row)

  unfoldable pub list : String → ℤ → ℤ → M F (List (Order F) × ℕ)
  list customer limit offset = do
    total ← query e direct (read λ d. ok (length (select (of_customer customer) d.orders)))
    rows ← query e direct (
        read λ d.
          page limit offset
            (newest_first (h.scan limit offset (select (of_customer customer) d.orders))))
    pure (map (row_to_order h) rows, total)

module _ {F : Type 0} (e : E F) where
  unfoldable pub update_status_in_tx : Executor → String → OrderStatus → M F (Unit {0})
  update_status_in_tx x id status = do time ← now e; query e x (set_status id status time)

  unfoldable pub update_status : String → OrderStatus → M F (Unit {0})
  unfolding update_status_in_tx
  update_status id status = update_status_in_tx direct id status
