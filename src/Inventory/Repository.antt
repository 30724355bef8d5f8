-- ===== src/Inventory/Repository.antt =====
-- InventoryRepository of internal/inventory/domain/repository.go: the operations by which the use
-- cases reach the stock, with the Postgres implementation. The Redis one is in Inventory/Cache.
use realtime_order_inventory.Prelude.{ℕ, String, List}
use realtime_order_inventory.Prelude.Int.{ℤ}
use realtime_order_inventory.Exec.{Executor}
use realtime_order_inventory.Inventory.Domain.{Inventory, Warehouse}
use realtime_order_inventory.Inventory.Postgres
use realtime_order_inventory.Inventory.Postgres.{M, E}

pub record InventoryRepository : Type 0 where
  pub create : Inventory → M (Unit {0})
  pub create_in_tx : Executor → Inventory → M (Unit {0})
  pub get_by_product_and_warehouse : String → String → M Inventory
  pub get_by_product_id : String → M (List Inventory)
  pub update_stock : String → String → ℤ → ℕ → M (Unit {0})
  pub reserve_quantity : String → String → ℤ → ℕ → M (Unit {0})
  pub release_quantity : String → String → ℤ → M (Unit {0})
  pub get_warehouse_by_code : String → M Warehouse

abbrev pub inventory_repository : E → InventoryRepository
inventory_repository e = record {
  create = Postgres.create e;
  create_in_tx = Postgres.create_in_tx e;
  get_by_product_and_warehouse = Postgres.get_by_product_and_warehouse e;
  get_by_product_id = Postgres.get_by_product_id e;
  update_stock = Postgres.update_stock e;
  reserve_quantity = Postgres.reserve_quantity e;
  release_quantity = Postgres.release_quantity e;
  get_warehouse_by_code = Postgres.get_warehouse_by_code e;
}
