-- ===== src/Order/Placing.antt =====
-- The whole effect of CreateOrder in internal/order/usecase/create_order.go, where the service is alone and
-- no call fails.
use realtime_order_inventory.Prelude.{
  ℕ, suc, ◌≡◌, refl, Bool, true, false, none, List, [], ◌∷◌, ◌++◌, ◌==◌, find, some_row, String,
  arith, eq_refl,
}
use realtime_order_inventory.Prelude.Int.{ℤ}
use realtime_order_inventory.Prelude.{map, ap}
use realtime_order_inventory.Order.Domain.{pending_payment}
use realtime_order_inventory.Errors.{order, order_not_found, ok, err}
use realtime_order_inventory.Exec.{World, idle, pure, ◌>>=◌, query, read, attempt, new_id, now}
use realtime_order_inventory.Exec.Envs.{quiet}
use realtime_order_inventory.Exec.Runs.{later, bind_ok}
use realtime_order_inventory.Order.Domain.{
  Host, Order, OrderItem, OrderItemRow, OrderRow, OutboxEvent, Db, Cached, calculate_total,
}
use realtime_order_inventory.Order.Postgres
use realtime_order_inventory.Order.Postgres.{has_key, find_by_key, insert_order}
use realtime_order_inventory.Order.Items
use realtime_order_inventory.Order.Outbox
use realtime_order_inventory.Order.Outbox.{insert_event}
use realtime_order_inventory.Order.Repository.{order_repository, order_item_repository}
use realtime_order_inventory.Order.UseCase.{
  CreateOrderRequest, OrderItemRequest, created, is_empty, has_invalid_item, create_order,
  create_cart, create_unless, create_new, choose_key, make_items, item_of, new_order, with_items,
  created_payload, order_event,
}
use realtime_order_inventory.Order.Lifecycle.{make_event_run}
use realtime_order_inventory.Order.Storing.{AreNew, AreOf, item_rows, calls_after}
use realtime_order_inventory.Order.Committing.{store_order_run}

some_row-last :
    {A : Type 0} (p : A → Bool) (xs : List A) (x : A)
    → p x ≡ true
    → some_row p (xs ++ x ∷ []) ≡ true
unfolding some_row
some_row-last p [] x h = rw h
some_row-last p (y ∷ xs) x h = ground (arith, some_row-last p xs x h)

find-none : {A : Type 0} (p : A → Bool) (xs : List A) → find p xs ≡ none → some_row p xs ≡ false
unfolding some_row find
find-none p [] h = refl
find-none p (x ∷ xs) h = ground (arith, find-none p xs)

-- What an item is, and what a request asks for.
abbrev pub wanted : {F : Type 0} → OrderItem F → String × String × ℤ
wanted i = (i.product_id, i.sku, i.quantity)

abbrev pub asked : {F : Type 0} → OrderItemRequest F → String × String × ℤ
asked i = (i.product_id, i.sku, i.quantity)

module _ {F : Type 0} (h : Host F) (ids : ℕ → String) where
  -- The items of a new order, with the identifiers that follow one another.
  abbrev pub items_from : String → List (OrderItemRequest F) → ℕ → List (OrderItem F)
  items_from order_id [] c = []
  items_from order_id (i ∷ is) c = item_of h (ids c) order_id i ∷ items_from order_id is (suc c)

  abbrev pub ids_after : List (OrderItemRequest F) → ℕ → ℕ
  ids_after [] c = c
  ids_after (i ∷ is) c = ids_after is (suc c)

  make_items_run :
      (order_id : String) (is : List (OrderItemRequest F)) (w : World (Db F) (Cached F))
      → make_items h (quiet ids) order_id is w
        ≡ (ok (items_from order_id is w.calls), record w { calls = ids_after is w.calls })
  unfolding make_items new_id pure ◌>>=◌
  make_items_run order_id [] w = refl
  make_items_run order_id (i ∷ is) w =
      rw (make_items_run order_id is (record w { calls = suc w.calls }))

  missing_run :
      (key : String) (w : World (Db F) (Cached F))
      → find (has_key key) w.db.orders ≡ none
      → attempt (Postgres.get_by_idempotency_key h (quiet ids) key) w
        ≡ (ok (err (order order_not_found)), record w { calls = suc w.calls })
  unfolding Postgres.get_by_idempotency_key find_by_key query ◌>>=◌ attempt read
  missing_run key w absent = simp absent

  items_wanted :
      (order_id : String) (is : List (OrderItemRequest F)) (c : ℕ)
      → map wanted (items_from order_id is c) ≡ map asked is
  unfolding item_of
  items_wanted order_id [] c = refl
  items_wanted order_id (i ∷ is) c =
      ap (λ l. (i.product_id, i.sku, i.quantity) ∷ l) (items_wanted order_id is (suc c))

  rows_of :
      (order_id : String) (is : List (OrderItemRequest F)) (c c' : ℕ) (orders : List (OrderRow F))
      → some_row (λ o. o.id == order_id) orders ≡ true
      → AreOf orders (item_rows h ids (items_from order_id is c) c')
  unfolding item_of Items.to_row
  rows_of order_id [] c c' orders there = tt
  rows_of order_id (i ∷ is) c c' orders there =
      (there, rows_of order_id is (suc c) (later 2 c') orders there)

module _ {F : Type 0} (h : Host F) (ids : ℕ → String) (w : World (Db F) (Cached F))
    (req : CreateOrderRequest F) where
  -- The calls of CreateOrder: the lookup of the key, the order's identifier and times, an identifier for
  -- each item, and the event's identifier and time.
  abbrev pub event_call : ℕ
  event_call = ids_after h ids req.items (later 4 w.calls)

  abbrev pub placed_order : Order F
  placed_order =
      with_items h
        (new_order h req req.idempotency_key (ids (later 1 w.calls)) (later 2 w.calls)
          (later 3 w.calls))
        (items_from h ids (ids (later 1 w.calls)) req.items (later 4 w.calls))

  abbrev pub placed_rows : List (OrderItemRow F)
  placed_rows =
      item_rows h ids (items_from h ids (ids (later 1 w.calls)) req.items (later 4 w.calls))
        (later 4 event_call)

  abbrev pub placed_event : OutboxEvent
  placed_event =
      order_event (ids event_call) (ids (later 1 w.calls)) "order.created"
        (created_payload h placed_order) (h.rfc3339 (later 1 event_call))

  module _ (fresh : some_row (λ r. r.id == ids (later 1 w.calls)) w.db.orders ≡ false)
      (unused : find (has_key req.idempotency_key) w.db.orders ≡ none)
      (new : AreNew placed_rows w.db.order_items)
      (unseen : some_row (λ r. r.id == ids event_call) w.db.outbox_events ≡ false) where
    -- CreateOrder of a valid cart with a key that no order has adds the order, with the amounts that its
    -- columns keep, one row for each of its items, and one pending event with the order's total and number
    -- of items, and returns the order, where the identifiers are fresh and no call fails. The order is the
    -- customer's, waits for its payment, has the request's key, and has the products and quantities that
    -- the request asks for.
    pub create_order_success :
        is_empty req.items ≡ false
        → has_invalid_item req.items ≡ false
        → (req.idempotency_key == "") ≡ false
        → (create_order h
              (quiet ids)
              (order_repository h (quiet ids))
              (order_item_repository h (quiet ids))
              req
              w
            ≡ (
              ok (created placed_order),
              record w {
                db = record {
                  orders = w.db.orders ++ Postgres.to_row h placed_order ∷ [];
                  order_items = w.db.order_items ++ placed_rows;
                  outbox_events = w.db.outbox_events ++ Outbox.to_row placed_event ∷ [];
                };
                tx = idle;
                calls = later 2 (
                    calls_after h ids
                      (items_from h ids (ids (later 1 w.calls)) req.items (later 4 w.calls))
                      (later 4 event_call));
              },
            ))
          × (placed_order.status ≡ pending_payment)
          × (placed_order.customer_id ≡ req.customer_id)
          × (placed_order.idempotency_key ≡ req.idempotency_key)
          × (map wanted placed_order.items ≡ map asked req.items)
    unfolding create_order create_cart create_unless create_new choose_key new_id now order_event
        with_items calculate_total new_order pure Postgres.to_row
    create_order_success full valid given =
        let id = ids (later 1 w.calls) in
        let items = items_from h ids id req.items (later 4 w.calls) in
        let stored =
          store_order_run h ids placed_order placed_event (record w { calls = later 2 event_call })
            fresh (find-none _ _ unused) new
            (rows_of h ids id req.items (later 4 w.calls) (later 4 event_call)
              (w.db.orders ++ Postgres.to_row h placed_order ∷ [])
              (some_row-last _ w.db.orders (Postgres.to_row h placed_order) (eq_refl id)))
            unseen in
        (
          rw (full, valid, given)
              (bind_ok _ _ _ _ _ refl (
                bind_ok _ _ _ _ _ (missing_run h ids req.idempotency_key w unused) (
                  bind_ok _ _ _ _ _ refl (
                    bind_ok _ _ _ _ _ refl (
                      bind_ok _ _ _ _ _ refl (
                        bind_ok _ _ _ _ _
                          (make_items_run h ids id req.items (record w { calls = later 4 w.calls }))
                          (bind_ok _ _ _ _ _
                            (make_event_run h ids id "order.created"
                              (created_payload h placed_order) (record w { calls = event_call }))
                            (bind_ok _ _ _ _ _ stored refl)))))))),
          refl,
          refl,
          refl,
          items_wanted h ids id req.items (later 4 w.calls),
        )
