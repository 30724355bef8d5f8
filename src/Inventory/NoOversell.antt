-- ===== src/Inventory/NoOversell.antt =====
-- No oversell, for the use cases of internal/inventory/usecase over the repositories that the service
-- is wired with: Redis before PostgreSQL.
use realtime_order_inventory.Prelude.{String}
use realtime_order_inventory.Prelude.Int.{pos, ◌≤ℤ◌}
use realtime_order_inventory.Exec.{World}
use realtime_order_inventory.Exec.Keeps.{Holds, Relies}
use realtime_order_inventory.Redis.{Cache}
use realtime_order_inventory.Inventory.Domain.{Db, Cached}
use realtime_order_inventory.Inventory.Postgres.{E}
use realtime_order_inventory.Inventory.Repository.{InventoryRepository, inventory_repository}
use realtime_order_inventory.Inventory.Cache.{inventory_cache}
use realtime_order_inventory.Inventory.UseCase.{
  ReserveStockRequest, UpdateStockRequest, reserve_stock, release_reservation, update_stock,
}
use realtime_order_inventory.Inventory.Safety.{
  IsSound, KeepsStock, inventory_repository-KeepsStock, inventory_cache-KeepsStock,
  reserve_stock-IsSound, release_reservation-IsSound, update_stock-IsSound,
}

module _ (e : E) (rely : Relies IsSound e) (stock_cache warehouse_cache : Cache)
    (w : World Db Cached) (sound : Holds IsSound w) where
  abbrev pub repository : InventoryRepository
  repository = inventory_cache e (inventory_repository e) stock_cache warehouse_cache

  repository-KeepsStock : KeepsStock repository
  repository-KeepsStock =
      inventory_cache-KeepsStock e rely (inventory_repository e) stock_cache warehouse_cache
        (inventory_repository-KeepsStock e rely)

  -- ReserveStock keeps 0 <= quantity_reserved <= quantity_on_hand in every row of inventory, whether
  -- it succeeds or fails, whichever calls fail, and whatever Redis forgets or is told by others,
  -- where the other connections keep it too and the world started with it.
  pub reserve_stock_no_oversell :
      (req : ReserveStockRequest) → IsSound (reserve_stock e repository req w).1.db
  reserve_stock_no_oversell req =
      ((reserve_stock-IsSound e repository rely repository-KeepsStock req).at w sound).committed

  -- ReleaseReservation keeps 0 <= quantity_reserved <= quantity_on_hand in every row of inventory,
  -- whichever calls fail, where the other connections keep it too.
  pub release_reservation_no_oversell :
      (id : String) → IsSound (release_reservation e repository id w).1.db
  release_reservation_no_oversell id =
      ((release_reservation-IsSound e repository rely repository-KeepsStock id).at w
        sound).committed

  -- UpdateStock of a quantity that is not negative keeps 0 <= quantity_reserved <= quantity_on_hand in
  -- every row of inventory, whichever calls fail, where the other connections keep it too.
  pub update_stock_no_oversell :
      (req : UpdateStockRequest)
      → pos 0 ≤ℤ req.quantity
      → IsSound (update_stock e repository req w).1.db
  update_stock_no_oversell req h =
      ((update_stock-IsSound e repository rely repository-KeepsStock req h).at w sound).committed
