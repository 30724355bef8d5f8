-- ===== src/Order/Atomic.antt =====
-- All or nothing: a use case of the order service that fails has left the database as it was.
use realtime_order_inventory.Prelude.{◌≡◌, refl, String, List, [], ◌∷◌}
use realtime_order_inventory.Errors.{Error, Result, ok, err}
use realtime_order_inventory.Exec.{World, in_tx, ◌>>=◌, wrap, commit}
use realtime_order_inventory.Exec.Keeps.{
  Keeps, Keeps-pure, Keeps-raise, Keeps-if, Keeps-wrap, Keeps-attempt, Keeps-bind,
}
use realtime_order_inventory.Exec.Atomic.{
  Stands, IsAlone, IsAtomic, IsAtomic-of, IsAtomic-wrap, IsAtomic-rollback, IsAtomic-if,
  IsAtomic-bind, IsAtomic-then, OnError-err, read_in_tx, read_direct, begin-Stands, commit-IsAtomic,
  new_id-Stands, now-Stands,
}
use realtime_order_inventory.Order.Domain.{Host, Db, Cached, Order, OrderItem, OutboxEvent}
use realtime_order_inventory.Order.Postgres
use realtime_order_inventory.Order.Postgres.{E, M}
use realtime_order_inventory.Order.Items
use realtime_order_inventory.Order.Outbox
use realtime_order_inventory.Order.Repository.{order_repository, order_item_repository}
use realtime_order_inventory.Order.UseCase.{
  CreateOrderRequest, OrderItemRequest, make_items, make_event, store_order, create_new,
  create_unless, choose_key, create_cart, create_order, change_status, cancel_order, confirm_order,
}

module _ {F : Type 0} {d : Db F} (h : Host F) (e : E F) (alone : IsAlone e) where
  items_stand : (is : List (OrderItem F)) → Keeps (Stands d) (Items.create_in_tx h e in_tx is)
  unfolding Items.create_in_tx
  items_stand [] = Keeps-pure _
  items_stand (i ∷ is) =
      Keeps-bind _ _ (now-Stands e alone)
        λ time. Keeps-bind _ _ (read_in_tx e alone _) λ _. items_stand is

  make_items-Stands :
      (id : String) (is : List (OrderItemRequest F)) → Keeps (Stands d) (make_items h e id is)
  unfolding make_items
  make_items-Stands id [] = Keeps-pure _
  make_items-Stands id (i ∷ is) =
      Keeps-bind _ _ (new_id-Stands e alone)
        λ _. Keeps-bind _ _ (make_items-Stands id is) λ _. Keeps-pure _

  make_event-Stands : (id t p : String) → Keeps (Stands d) (make_event h e id t p)
  unfolding make_event
  make_event-Stands id t p =
      Keeps-bind _ _ (new_id-Stands e alone)
        λ _. Keeps-bind _ _ (now-Stands e alone) λ _. Keeps-pure _

  get_by_id-Stands : (id : String) → Keeps (Stands d) (Postgres.get_by_id h e id)
  unfolding Postgres.get_by_id Postgres.find_order
  get_by_id-Stands id = Keeps-bind _ _ (read_direct e alone _) λ row. Keeps-pure _

  get_by_key-Stands : (k : String) → Keeps (Stands d) (Postgres.get_by_idempotency_key h e k)
  unfolding Postgres.get_by_idempotency_key Postgres.find_by_key
  get_by_key-Stands k = Keeps-bind _ _ (read_direct e alone _) λ row. Keeps-pure _

  -- The end of a transaction: an event, and the commit.
  event-IsAtomic :
      (ev : OutboxEvent)
      → IsAtomic d (
          wrap "failed to create outbox event" (Outbox.create_in_tx e in_tx ev) >>= λ _.
          wrap "failed to commit transaction" (commit e))
  unfolding Outbox.create_in_tx
  event-IsAtomic ev =
      IsAtomic-bind _ _ (Keeps-wrap _ _ (read_in_tx e alone _))
        λ _. IsAtomic-wrap _ _ (commit-IsAtomic e alone)

  store_order-IsAtomic :
      (o : Order F) (ev : OutboxEvent)
      → IsAtomic d (store_order h e (order_repository h e) (order_item_repository h e) o ev)
  unfolding store_order Postgres.create_in_tx
  store_order-IsAtomic o ev = IsAtomic-bind _ _ (Keeps-wrap _ _ (begin-Stands e alone)) λ _.
      IsAtomic-rollback _ (
        IsAtomic-bind _ _ (Keeps-wrap _ _ (read_in_tx e alone _))
          λ _. IsAtomic-bind _ _ (Keeps-wrap _ _ (items_stand o.items)) λ _. event-IsAtomic ev)

  create_new-IsAtomic :
      (req : CreateOrderRequest F) (key : String)
      → IsAtomic d (create_new h e (order_repository h e) (order_item_repository h e) req key)
  unfolding create_new
  create_new-IsAtomic req key = IsAtomic-bind _ _ (new_id-Stands e alone) λ id.
      IsAtomic-bind _ _ (now-Stands e alone) λ _. IsAtomic-bind _ _ (now-Stands e alone) λ _.
        IsAtomic-bind _ _ (make_items-Stands id req.items) λ _.
          IsAtomic-bind _ _ (make_event-Stands _ _ _)
            λ ev. IsAtomic-then _ _ (store_order-IsAtomic _ ev)

  create_unless-IsAtomic :
      (req : CreateOrderRequest F) (key : String) (found : Result (Order F))
      → IsAtomic d
          (create_unless h e (order_repository h e) (order_item_repository h e) req key found)
  unfolding create_unless
  create_unless-IsAtomic req key (ok o) = IsAtomic-of _ (Keeps-pure _)
  create_unless-IsAtomic req key (err x) = create_new-IsAtomic req key

  create_cart-IsAtomic :
      (req : CreateOrderRequest F)
      → IsAtomic d (create_cart h e (order_repository h e) (order_item_repository h e) req)
  unfolding create_cart choose_key
  create_cart-IsAtomic req = IsAtomic-if _ _ _ (IsAtomic-of _ (Keeps-raise _)) (
      IsAtomic-bind _ _ (Keeps-if _ _ _ (new_id-Stands e alone) (Keeps-pure _)) λ key.
        IsAtomic-bind _ _ (Keeps-attempt _ (get_by_key-Stands key))
          λ found. create_unless-IsAtomic req key found)

  create_order-IsAtomic :
      (req : CreateOrderRequest F)
      → IsAtomic d (create_order h e (order_repository h e) (order_item_repository h e) req)
  unfolding create_order
  create_order-IsAtomic req =
      IsAtomic-if _ _ _ (IsAtomic-of _ (Keeps-raise _)) (create_cart-IsAtomic req)

  change_status-IsAtomic :
      (context id s : String) (ev : OutboxEvent)
      → IsAtomic d
          (change_status h e (order_repository h e) (order_item_repository h e) context id s ev)
  unfolding change_status Postgres.update_status_in_tx
  change_status-IsAtomic context id s ev =
      IsAtomic-bind _ _ (Keeps-wrap _ _ (begin-Stands e alone)) λ _. IsAtomic-rollback _ (
        IsAtomic-bind _ _
          (Keeps-wrap _ _ (Keeps-bind _ _ (now-Stands e alone) λ time. read_in_tx e alone _))
          λ _. event-IsAtomic ev)

  cancel_order-IsAtomic :
      (id reason : String)
      → IsAtomic d (cancel_order h e (order_repository h e) (order_item_repository h e) id reason)
  unfolding cancel_order
  cancel_order-IsAtomic id reason = IsAtomic-bind _ _ (get_by_id-Stands id) λ o.
      IsAtomic-if _ _ _ (IsAtomic-of _ (Keeps-raise _))
        (IsAtomic-bind _ _ (make_event-Stands _ _ _) λ ev. change_status-IsAtomic _ _ _ ev)

  confirm_order-IsAtomic :
      (id : String)
      → IsAtomic d (confirm_order h e (order_repository h e) (order_item_repository h e) id)
  unfolding confirm_order
  confirm_order-IsAtomic id = IsAtomic-bind _ _ (get_by_id-Stands id) λ o.
      IsAtomic-if _ _ _ (IsAtomic-of _ (Keeps-pure _))
        (IsAtomic-bind _ _ (make_event-Stands _ _ _) λ ev. change_status-IsAtomic _ _ _ ev)

module _ {F : Type 0} (h : Host F) (e : E F) (alone : IsAlone e) (w : World (Db F) (Cached F)) where
  -- CreateOrder that fails, at whichever call, leaves the orders, the items and the outbox as they
  -- were, where no other connection writes.
  pub create_order_all_or_nothing :
      (req : CreateOrderRequest F) (x : Error)
      → let out = create_order h e (order_repository h e) (order_item_repository h e) req w in
        out.0 ≡ err x → out.1.db ≡ w.db
  create_order_all_or_nothing req x f =
      OnError-err _ _ x f ((create_order-IsAtomic h e alone req).at w refl)

  -- CancelOrder that fails, at whichever call, leaves the orders, the items and the outbox as they
  -- were, where no other connection writes.
  pub cancel_order_all_or_nothing :
      (id reason : String) (x : Error)
      → let out = cancel_order h e (order_repository h e) (order_item_repository h e) id reason w in
        out.0 ≡ err x → out.1.db ≡ w.db
  cancel_order_all_or_nothing id reason x f =
      OnError-err _ _ x f ((cancel_order-IsAtomic h e alone id reason).at w refl)

  -- ConfirmOrder that fails, at whichever call, leaves the orders, the items and the outbox as they
  -- were, where no other connection writes.
  pub confirm_order_all_or_nothing :
      (id : String) (x : Error)
      → let out = confirm_order h e (order_repository h e) (order_item_repository h e) id w in
        out.0 ≡ err x → out.1.db ≡ w.db
  confirm_order_all_or_nothing id x f =
      OnError-err _ _ x f ((confirm_order-IsAtomic h e alone id).at w refl)
