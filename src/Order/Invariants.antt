-- ===== src/Order/Invariants.antt =====
-- Invariants of the order tables: what each statement keeps, every use case keeps, whatever fails
-- and however other connections that keep it interleave.
use realtime_order_inventory.Prelude.{
  ◌≡◌, refl, Bool, true, false, not, String, List, [], ◌∷◌, ◌==◌,
}
use realtime_order_inventory.Errors.{Result, ok, err}
use realtime_order_inventory.Exec.{Executor, direct, in_tx}
use realtime_order_inventory.Exec.Keeps.{
  Keeps, Holds, Relies, StmtKeeps, Keeps-guard, Keeps-bind, Keeps-pure, Keeps-raise, Keeps-if,
  Keeps-wrap, Keeps-attempt, query-Keeps, read-StmtKeeps, begin-Keeps, commit-Keeps, new_id-Keeps,
  now-Keeps, deferring_rollback-Keeps,
}
use realtime_order_inventory.Exec.Yields.{Yields, Yields-bind}
use realtime_order_inventory.Order.Domain.{
  OrderStatus, Order, OrderItem, OutboxEvent, Host, Db, OrderRow, OrderItemRow, OutboxEventRow,
  can_cancel, cancelled, processing, pending_payment,
}
use realtime_order_inventory.Order.Postgres
use realtime_order_inventory.Order.Postgres.{M, E, insert_order}
use realtime_order_inventory.Order.Items
use realtime_order_inventory.Order.Items.{insert_item}
use realtime_order_inventory.Order.Outbox
use realtime_order_inventory.Order.Outbox.{insert_event}
use realtime_order_inventory.Order.Repository.{
  OrderRepository, OrderItemRepository, order_repository, order_item_repository,
}
use realtime_order_inventory.Order.UseCase.{
  CreateOrderRequest, OrderItemRequest, make_items, make_event, store_order, create_new,
  create_unless, choose_key, create_cart, create_order, change_status, cancel_order, confirm_order,
}

unrefused : (b : Bool) → not b ≡ false → b ≡ true
unrefused true h = refl
unrefused false h = cc

-- The statements that the use cases insert rows with keep `I`.
pub record IsKept {F : Type 0} (I : Db F → Type 0) : Type 0 where
  pub order : (row : OrderRow F) → StmtKeeps I (insert_order row)
  pub item : (row : OrderItemRow F) → StmtKeeps I (insert_item row)
  pub event : (row : OutboxEventRow) → StmtKeeps I (insert_event row)

-- What the use cases need of the repositories.
pub record KeepsOrders {F : Type 0} (I : Db F → Type 0) (orders : OrderRepository F)
    (items : OrderItemRepository F) : Type 0 where
  pub create : (x : Executor) (o : Order F) → Keeps (Holds I) (orders.create_in_tx x o)
  pub get : (id : String) → Keeps (Holds I) (orders.get_by_id id)
  pub by_key : (key : String) → Keeps (Holds I) (orders.get_by_idempotency_key key)
  pub create_items :
      (x : Executor) (is : List (OrderItem F)) → Keeps (Holds I) (items.create_in_tx x is)

module _ {F : Type 0} (I : Db F → Type 0) (h : Host F) (e : E F) (rely : Relies I e)
    (k : IsKept I) where
  create_items-Keeps :
      (x : Executor) (is : List (OrderItem F)) → Keeps (Holds I) (Items.create_in_tx h e x is)
  unfolding Items.create_in_tx
  create_items-Keeps x [] = Keeps-pure tt
  create_items-Keeps x (i ∷ is) =
      Keeps-bind _ _ (now-Keeps e rely)
        λ time. Keeps-bind _ _ (query-Keeps e rely _ (k.item _) x) λ _. create_items-Keeps x is

  pub order_repository-KeepsOrders :
      KeepsOrders I (order_repository h e) (order_item_repository h e)
  unfolding Postgres.create_in_tx Postgres.get_by_id Postgres.get_by_idempotency_key
      Postgres.update_status_in_tx Postgres.find_order Postgres.find_by_key
  order_repository-KeepsOrders = record {
    create = λ x o. query-Keeps e rely _ (k.order _) x;
    get =
        λ id. Keeps-bind _ _ (query-Keeps e rely _ (read-StmtKeeps I _) direct) λ row. Keeps-pure _;
    by_key = λ key.
        Keeps-bind _ _ (query-Keeps e rely _ (read-StmtKeeps I _) direct) λ row. Keeps-pure _;
    create_items = create_items-Keeps;
  }

module _ {F : Type 0} (I : Db F → Type 0) (h : Host F) (e : E F) (rely : Relies I e)
    (kept : IsKept I) (orders : OrderRepository F) (items : OrderItemRepository F)
    (k : KeepsOrders I orders items) where
  make_event-Keeps :
      (id event_type payload : String) → Keeps (Holds I) (make_event h e id event_type payload)
  unfolding make_event
  make_event-Keeps id event_type payload =
      Keeps-bind _ _ (new_id-Keeps e rely) λ _. Keeps-bind _ _ (now-Keeps e rely) λ _. Keeps-pure _

  create_event-Keeps : (ev : OutboxEvent) → Keeps (Holds I) (Outbox.create_in_tx e in_tx ev)
  unfolding Outbox.create_in_tx
  create_event-Keeps ev = query-Keeps e rely _ (kept.event _) in_tx

  make_items-Keeps :
      (id : String) (is : List (OrderItemRequest F)) → Keeps (Holds I) (make_items h e id is)
  unfolding make_items
  make_items-Keeps id [] = Keeps-pure _
  make_items-Keeps id (i ∷ is) =
      Keeps-bind _ _ (new_id-Keeps e rely)
        λ _. Keeps-bind _ _ (make_items-Keeps id is) λ _. Keeps-pure _

  store_order-Keeps :
      (o : Order F) (ev : OutboxEvent) → Keeps (Holds I) (store_order h e orders items o ev)
  unfolding store_order
  store_order-Keeps o ev = Keeps-bind _ _ (Keeps-wrap _ _ (begin-Keeps e rely)) λ _.
      deferring_rollback-Keeps _ (
        Keeps-bind _ _ (Keeps-wrap _ _ (k.create in_tx o)) λ _.
          Keeps-bind _ _ (Keeps-wrap _ _ (k.create_items in_tx o.items)) λ _.
            Keeps-bind _ _ (Keeps-wrap _ _ (create_event-Keeps ev))
              λ _. Keeps-wrap _ _ (commit-Keeps e rely))

  create_new-Keeps :
      (req : CreateOrderRequest F) (key : String)
      → Keeps (Holds I) (create_new h e orders items req key)
  unfolding create_new
  create_new-Keeps req key = Keeps-bind _ _ (new_id-Keeps e rely) λ id.
      Keeps-bind _ _ (now-Keeps e rely) λ _. Keeps-bind _ _ (now-Keeps e rely) λ _.
        Keeps-bind _ _ (make_items-Keeps id req.items) λ _.
          Keeps-bind _ _ (make_event-Keeps _ _ _)
            λ _. Keeps-bind _ _ (store_order-Keeps _ _) λ _. Keeps-pure _

  create_unless-Keeps :
      (req : CreateOrderRequest F) (key : String) (found : Result (Order F))
      → Keeps (Holds I) (create_unless h e orders items req key found)
  unfolding create_unless
  create_unless-Keeps req key (ok o) = Keeps-pure _
  create_unless-Keeps req key (err x) = create_new-Keeps req key

  create_cart-Keeps :
      (req : CreateOrderRequest F) → Keeps (Holds I) (create_cart h e orders items req)
  unfolding create_cart choose_key
  create_cart-Keeps req = Keeps-if _ _ _ (Keeps-raise _) (
      Keeps-bind _ _ (Keeps-if _ _ _ (new_id-Keeps e rely) (Keeps-pure _))
        λ key. Keeps-bind _ _ (Keeps-attempt _ (k.by_key key)) (create_unless-Keeps req key))

  pub create_order-Keeps :
      (req : CreateOrderRequest F) → Keeps (Holds I) (create_order h e orders items req)
  unfolding create_order
  create_order-Keeps req = Keeps-if _ _ _ (Keeps-raise _) (create_cart-Keeps req)

  pub change_status-Keeps :
      (context id : String) (s : OrderStatus) (ev : OutboxEvent)
      → Keeps (Holds I) (orders.update_status_in_tx in_tx id s)
      → Keeps (Holds I) (change_status h e orders items context id s ev)
  unfolding change_status
  change_status-Keeps context id s ev status =
      Keeps-bind _ _ (Keeps-wrap _ _ (begin-Keeps e rely)) λ _. deferring_rollback-Keeps _ (
        Keeps-bind _ _ (Keeps-wrap _ _ status) λ _.
          Keeps-bind _ _ (Keeps-wrap _ _ (create_event-Keeps ev))
            λ _. Keeps-wrap _ _ (commit-Keeps e rely))

  -- The status that is written may depend on the order that was read.
  pub cancel_order-Keeps :
      (id reason : String)
      → Yields
          (Holds I)
          (λ o.
            can_cancel o ≡ true → Keeps (Holds I) (orders.update_status_in_tx in_tx id cancelled))
          (orders.get_by_id id)
      → Keeps (Holds I) (cancel_order h e orders items id reason)
  unfolding cancel_order
  cancel_order-Keeps id reason found = Yields-bind _ _ found λ o may.
      Keeps-guard _ _ _ (Keeps-raise _) λ kept.
        Keeps-bind _ _ (make_event-Keeps _ _ _)
          λ ev. change_status-Keeps _ _ _ ev (may (unrefused (can_cancel o) kept))

  pub confirm_order-Keeps :
      (id : String)
      → Yields
          (Holds I)
          (λ o.
            (o.status == pending_payment) ≡ true
            → Keeps (Holds I) (orders.update_status_in_tx in_tx id processing))
          (orders.get_by_id id)
      → Keeps (Holds I) (confirm_order h e orders items id)
  unfolding confirm_order
  confirm_order-Keeps id found = Yields-bind _ _ found λ o may.
      Keeps-guard _ _ _ (Keeps-pure _) λ kept.
        Keeps-bind _ _ (make_event-Keeps _ _ _)
          λ ev. change_status-Keeps _ _ _ ev (may (unrefused (o.status == pending_payment) kept))
