-- ===== src/Order/Repository.antt =====
-- internal/order/domain/repository.go: the operations by which the use cases reach orders and
-- items, with the Postgres implementation. The Redis one is in Order/Cache. OutboxCache of
-- internal/order/adapter/cache only forwards, so the outbox has one implementation, Order/Outbox.
use realtime_order_inventory.Prelude.{ℕ, String, List}
use realtime_order_inventory.Prelude.Int.{ℤ}
use realtime_order_inventory.Exec.{Executor}
use realtime_order_inventory.Order.Domain.{OrderStatus, Order, OrderItem, Host}
use realtime_order_inventory.Order.Postgres
use realtime_order_inventory.Order.Postgres.{M, E}
use realtime_order_inventory.Order.Items

pub record OrderRepository (F : Type 0) : Type 0 where
  pub create : Order F → M F (Unit {0})
  pub create_in_tx : Executor → Order F → M F (Unit {0})
  pub get_by_id : String → M F (Order F)
  pub get_by_idempotency_key : String → M F (Order F)
  pub list : String → ℤ → ℤ → M F (List (Order F) × ℕ)
  pub update_status : String → OrderStatus → M F (Unit {0})
  pub update_status_in_tx : Executor → String → OrderStatus → M F (Unit {0})

pub record OrderItemRepository (F : Type 0) : Type 0 where
  pub create : List (OrderItem F) → M F (Unit {0})
  pub create_in_tx : Executor → List (OrderItem F) → M F (Unit {0})
  pub get_by_order_id : String → M F (List (OrderItem F))

module _ {F : Type 0} (h : Host F) (e : E F) where
  abbrev pub order_repository : OrderRepository F
  order_repository = record {
    create = Postgres.create h e;
    create_in_tx = Postgres.create_in_tx h e;
    get_by_id = Postgres.get_by_id h e;
    get_by_idempotency_key = Postgres.get_by_idempotency_key h e;
    list = Postgres.list h e;
    update_status = Postgres.update_status e;
    update_status_in_tx = Postgres.update_status_in_tx e;
  }

  abbrev pub order_item_repository : OrderItemRepository F
  order_item_repository = record {
    create = Items.create h e;
    create_in_tx = Items.create_in_tx h e;
    get_by_order_id = Items.get_by_order_id e;
  }
