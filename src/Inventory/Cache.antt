-- ===== src/Inventory/Cache.antt =====
-- internal/inventory/adapter/cache/inventory_repo.go: an InventoryRepository that reads through
-- Redis and forgets an entry when a write of its row succeeds.
use Prim.Native.String.{◌++◌ as concat}
use realtime_order_inventory.Prelude.{ℕ, String, Option, none, some, List, [], ◌∷◌}
use realtime_order_inventory.Prelude.Int.{ℤ}
use realtime_order_inventory.Exec.{pure, ◌>>=◌, ◌>>◌}
use realtime_order_inventory.Redis
use realtime_order_inventory.Redis.{Cache}
use realtime_order_inventory.Inventory.Domain.{
  Inventory, Warehouse, Cached, cached_inventory, cached_inventories, cached_warehouse,
}
use realtime_order_inventory.Inventory.Postgres.{M, E}
use realtime_order_inventory.Inventory.Repository.{InventoryRepository}

unfoldable pub inventory_by_product_warehouse_key : String → String → String
inventory_by_product_warehouse_key p w = concat "stock:warehouse:" (concat p (concat ":" w))

unfoldable pub inventory_by_product_key : String → String
inventory_by_product_key p = concat "stock:" p

unfoldable pub warehouse_code_key : String → String
warehouse_code_key code = concat "warehouse:code:" code

unfoldable pub as_inventory : Cached → Option Inventory
as_inventory (cached_inventory i) = some i
as_inventory _ = none

unfoldable pub as_inventories : Cached → Option (List Inventory)
as_inventories (cached_inventories is) = some is
as_inventories _ = none

unfoldable pub as_warehouse : Cached → Option Warehouse
as_warehouse (cached_warehouse w) = some w
as_warehouse _ = none

module _ (e : E) (inner : InventoryRepository) (stock_cache warehouse_cache : Cache) where
  -- The value found, or the one of the inner repository, which is then stored.
  unfoldable pub read_through : {A : Type 0} → Cache → String → (A → Cached) → M A → Option A → M A
  read_through cache key encode load (some a) = pure a
  read_through cache key encode load none = do a ← load; Redis.set e cache key (encode a); pure a

  unfoldable pub forget_stock : String → String → M (Unit {0})
  unfolding inventory_by_product_warehouse_key inventory_by_product_key
  forget_stock p w =
      Redis.delete e stock_cache
        (inventory_by_product_warehouse_key p w ∷ inventory_by_product_key p ∷ [])

  unfoldable pub create : Inventory → M (Unit {0})
  create i = do inner.create i; forget_stock i.product_id i.warehouse_id

  unfoldable pub get_by_product_and_warehouse : String → String → M Inventory
  get_by_product_and_warehouse p w = do
    hit ← Redis.get e stock_cache as_inventory (inventory_by_product_warehouse_key p w)
    read_through stock_cache (inventory_by_product_warehouse_key p w) cached_inventory
        (inner.get_by_product_and_warehouse p w) hit

  unfoldable pub get_by_product_id : String → M (List Inventory)
  get_by_product_id p = do
    hit ← Redis.get e stock_cache as_inventories (inventory_by_product_key p)
    read_through stock_cache (inventory_by_product_key p) cached_inventories
        (inner.get_by_product_id p) hit

  unfoldable pub update_stock : String → String → ℤ → ℕ → M (Unit {0})
  update_stock p w change expected = do inner.update_stock p w change expected; forget_stock p w

  unfoldable pub reserve_quantity : String → String → ℤ → ℕ → M (Unit {0})
  reserve_quantity p w q expected = do inner.reserve_quantity p w q expected; forget_stock p w

  unfoldable pub release_quantity : String → String → ℤ → M (Unit {0})
  release_quantity p w q = do inner.release_quantity p w q; forget_stock p w

  unfoldable pub get_warehouse_by_code : String → M Warehouse
  get_warehouse_by_code code = do
    hit ← Redis.get e warehouse_cache as_warehouse (warehouse_code_key code)
    read_through warehouse_cache (warehouse_code_key code) cached_warehouse
        (inner.get_warehouse_by_code code) hit

  abbrev pub inventory_cache : InventoryRepository
  inventory_cache = record {
    create = create;
    create_in_tx = inner.create_in_tx;
    get_by_product_and_warehouse = get_by_product_and_warehouse;
    get_by_product_id = get_by_product_id;
    update_stock = update_stock;
    reserve_quantity = reserve_quantity;
    release_quantity = release_quantity;
    get_warehouse_by_code = get_warehouse_by_code;
  }
