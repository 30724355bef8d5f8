-- ===== src/Order/History.antt =====
-- The history of an order under the calls of internal/order/usecase, each of which may fail at any point.
use realtime_order_inventory.Prelude.{String, List, [], ◌∷◌}
use realtime_order_inventory.Exec.{World, idle}
use realtime_order_inventory.Exec.Keeps.{Keeps, Holds, Relies}
use realtime_order_inventory.Exec.Yields.{Yields-weaken}
use realtime_order_inventory.Order.Domain.{OrderRow, Host, Db, Cached, cancelled, processing}
use realtime_order_inventory.Order.Postgres.{E}
use realtime_order_inventory.Order.Repository.{order_repository, order_item_repository}
use realtime_order_inventory.Order.UseCase.{
  CreateOrderRequest, create_order, cancel_order, confirm_order,
}
use realtime_order_inventory.Order.Invariants.{
  KeepsOrders, order_repository-KeepsOrders, create_order-Keeps, cancel_order-Keeps,
  confirm_order-Keeps,
}
use realtime_order_inventory.Order.Moves.{
  cancellable_near, pending_near, Tracks, UniqueIds, Tracks-refl, Tracks-trans, MayBecome-then,
}
use realtime_order_inventory.Order.Following.{
  Follows, LeavesOrders, Follows-IsKept, leaves-Relies, write-Follows, read-Follows,
}

-- What the HTTP and Kafka handlers ask of the order service.
pub data Call (F : Type 0) : Type 0 where
  create : CreateOrderRequest F → Call F
  cancel : String → String → Call F
  confirm : String → Call F

module _ {F : Type 0} (h : Host F) (e : E F) where
  -- A call begins without a transaction, and its caller goes on, whatever it returns.
  abbrev pub called : Call F → World (Db F) (Cached F) → World (Db F) (Cached F)
  called (create req) w =
      (create_order h e (order_repository h e) (order_item_repository h e) req w).1
  called (cancel id reason) w =
      (cancel_order h e (order_repository h e) (order_item_repository h e) id reason w).1
  called (confirm id) w =
      (confirm_order h e (order_repository h e) (order_item_repository h e) id w).1

  abbrev pub all_called : List (Call F) → World (Db F) (Cached F) → World (Db F) (Cached F)
  all_called [] w = w
  all_called (c ∷ cs) w = all_called cs (called c (record w { tx = idle }))

  module _ (leaves : LeavesOrders e) where
    module _ (before : List (OrderRow F)) (u : UniqueIds before) where
      rely : Relies (Follows before) e
      rely = leaves-Relies h e leaves before

      repositories : KeepsOrders (Follows before) (order_repository h e) (order_item_repository h e)
      repositories = order_repository-KeepsOrders (Follows before) h e rely (Follows-IsKept before)

      cancel_order-Follows :
          (id reason : String)
          → Keeps
              (Holds (Follows before))
              (cancel_order h e (order_repository h e) (order_item_repository h e) id reason)
      cancel_order-Follows id reason =
          cancel_order-Keeps _ h e rely (Follows-IsKept before) _ _ repositories id reason (
            Yields-weaken _ (read-Follows h e leaves before id u) λ o near may.
              write-Follows h e leaves before id cancelled (
                MayBecome-then id o.status cancelled before (λ s n. cancellable_near s o n may)
                  near))

      confirm_order-Follows :
          (id : String)
          → Keeps
              (Holds (Follows before))
              (confirm_order h e (order_repository h e) (order_item_repository h e) id)
      confirm_order-Follows id =
          confirm_order-Keeps _ h e rely (Follows-IsKept before) _ _ repositories id (
            Yields-weaken _ (read-Follows h e leaves before id u) λ o near may.
              write-Follows h e leaves before id processing (
                MayBecome-then id o.status processing before (λ s n. pending_near s o.status n may)
                  near))

      called-Follows :
          (c : Call F) (w : World (Db F) (Cached F))
          → Holds (Follows before) w
          → Holds (Follows before) (called c w)
      called-Follows (create req) =
          (create_order-Keeps _ h e rely (Follows-IsKept before) _ _ repositories req).at
      called-Follows (cancel id reason) = (cancel_order-Follows id reason).at
      called-Follows (confirm id) = (confirm_order-Follows id).at

    one_call :
        (c : Call F) (w : World (Db F) (Cached F))
        → UniqueIds w.db.orders
        → Follows w.db.orders (called c (record w { tx = idle })).db
    one_call c w u =
        (called-Follows w.db.orders u c (record w { tx = idle })
          (record {
            committed = record { rows = Tracks-refl w.db.orders; ids = u };
            pending = λ d f. f;
          })).committed

    history_from :
        (cs : List (Call F)) (before : List (OrderRow F)) (w : World (Db F) (Cached F))
        → UniqueIds w.db.orders
        → Tracks before w.db.orders
        → Tracks before (all_called cs w).db.orders
    history_from [] before w u t = t
    history_from (c ∷ cs) before w u t =
        let f = one_call c w u in
        history_from cs before (called c (record w { tx = idle })) f.ids
          (Tracks-trans before w.db.orders (called c (record w { tx = idle })).db.orders t f.rows)

    -- Over any calls of CreateOrder, CancelOrder and ConfirmOrder, made of the repository of PostgreSQL
    -- without the cache that cmd/order-service puts in front of it, each order keeps its identifier and
    -- changes its status at most once: from pending_payment or paid to cancelled, or from pending_payment
    -- to processing. Whichever calls fail, where the identifiers are unique and no other connection writes
    -- orders. With the cache it fails, as Staleness.confirmed_then_cancelled shows.
    pub order_history :
        (cs : List (Call F)) (w : World (Db F) (Cached F))
        → UniqueIds w.db.orders
        → Tracks w.db.orders (all_called cs w).db.orders
    order_history cs w u = history_from cs w.db.orders w u (Tracks-refl w.db.orders)
