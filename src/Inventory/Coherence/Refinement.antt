-- ===== src/Inventory/Coherence/Refinement.antt =====
-- internal/inventory/adapter/cache/inventory_repo.go implements the InventoryRepository of
-- internal/inventory/domain/repository.go over any sequence of its calls but CreateInTx.
use realtime_order_inventory.Prelude.{ℕ, List, ◌∷◌, []}
use realtime_order_inventory.Exec.{World}
use realtime_order_inventory.Redis.{Cache}
use realtime_order_inventory.Inventory.Domain.{Db, Cached}
use realtime_order_inventory.Inventory.Postgres.{E}
use realtime_order_inventory.Inventory.Coherence.Tables.{Call, perform}
use realtime_order_inventory.Inventory.Coherence.Calls.{cached}

module _ (e : E) (stock warehouses : Cache) where
  -- The calls, each with the time at which it is made.
  abbrev pub timed : List Call → World Db Cached → List (ℕ × Call)
  timed [] w = []
  timed (call ∷ calls) w =
      (e.now w.calls, call) ∷ timed calls (perform (cached e stock warehouses) call w).1
