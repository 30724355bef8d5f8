-- ===== src/Inventory/UseCase.antt =====
-- internal/inventory/usecase: the stock use cases over any InventoryRepository.
use realtime_order_inventory.Prelude.{ℕ, String, not, ◌&&◌, none, List, map, ◌==◌, if◌then◌else◌}
use realtime_order_inventory.Prelude.Int.{ℤ, pos, ◌-ℤ◌, leb_ℤ, ltb_ℤ}
use realtime_order_inventory.Errors.{
  inventory, insufficient_stock, invalid_quantity, message, Result, ok, err,
}
use realtime_order_inventory.Exec.{
  in_tx, pure, raise, ◌>>=◌, ◌>>◌, wrap, attempt, ignore, deferring_rollback, begin, commit, new_id,
  now,
}
use realtime_order_inventory.Inventory.Domain.{
  Inventory, Reservation, InventoryMovement, available, movement_in, movement_out, movement_reserve,
  movement_release,
}
use realtime_order_inventory.Inventory.Postgres.{M, E}
use realtime_order_inventory.Inventory.Repository.{InventoryRepository}
use realtime_order_inventory.Inventory.Reservations
use realtime_order_inventory.Inventory.Movements

pub record WarehouseStock : Type 0 where
  pub warehouse_id : String
  pub quantity : ℤ
  pub reserved : ℤ
  pub available : ℤ

pub record StockResponse : Type 0 where
  pub product_id : String
  pub warehouses : List WarehouseStock

pub record ReserveStockRequest : Type 0 where
  pub order_id : String
  pub product_id : String
  pub warehouse_id : String
  pub warehouse_code : String
  pub sku : String
  pub quantity : ℤ

pub record UpdateStockRequest : Type 0 where
  pub product_id : String
  pub warehouse_id : String
  pub warehouse_code : String
  pub sku : String
  pub quantity : ℤ

unfoldable pub warehouse_stock : Inventory → WarehouseStock
unfolding available
warehouse_stock i = record {
  warehouse_id = i.warehouse_id;
  quantity = i.quantity_on_hand;
  reserved = i.quantity_reserved;
  available = available i;
}

unfoldable pub reservation_of : ReserveStockRequest → String → String → ℕ → ℕ → Reservation
reservation_of req place id created updated = record {
  id = id;
  order_id = req.order_id;
  order_item_id = "";
  product_id = req.product_id;
  sku = req.sku;
  warehouse_id = place;
  quantity = req.quantity;
  status = "reserved";
  expires_at = none;
  created_at = created;
  updated_at = updated;
}

unfoldable pub reserve_movement : ReserveStockRequest → String → String → ℕ → InventoryMovement
reserve_movement req place id time = record {
  id = id;
  product_id = req.product_id;
  sku = req.sku;
  warehouse_id = place;
  movement_type = movement_reserve;
  quantity = pos 0 -ℤ req.quantity;
  reference_type = "order";
  reference_id = req.order_id;
  created_at = time;
}

unfoldable pub release_movement : Reservation → String → ℕ → InventoryMovement
release_movement r id time = record {
  id = id;
  product_id = r.product_id;
  sku = "";
  warehouse_id = r.warehouse_id;
  movement_type = movement_release;
  quantity = r.quantity;
  reference_type = "order";
  reference_id = r.order_id;
  created_at = time;
}

unfoldable pub new_inventory : UpdateStockRequest → String → String → ℕ → Inventory
new_inventory req place id time = record {
  id = id;
  product_id = req.product_id;
  sku = req.sku;
  warehouse_id = place;
  quantity_on_hand = req.quantity;
  quantity_reserved = pos 0;
  version = 0;
  updated_at = time;
}

unfoldable pub manual_movement : UpdateStockRequest → String → String → ℕ → InventoryMovement
manual_movement req place id time = record {
  id = id;
  product_id = req.product_id;
  sku = req.sku;
  warehouse_id = place;
  movement_type = if ltb_ℤ req.quantity (pos 0) then movement_out else movement_in;
  quantity = req.quantity;
  reference_type = "manual";
  reference_id = "";
  created_at = time;
}

-- The end of ReserveStock: the reservation and its movement in the transaction, and Commit.
unfoldable pub record_reservation : E → ReserveStockRequest → String → M Reservation
record_reservation e req place = do
  id ← new_id e
  created ← now e
  updated ← now e
  Reservations.create_in_tx e in_tx (reservation_of req place id created updated)
  movement ← new_id e
  time ← now e
  ignore (Movements.create_in_tx e in_tx (reserve_movement req place movement time))
  wrap "failed to commit transaction" (commit e)
  pure (reservation_of req place id created updated)

module _ (e : E) (repo : InventoryRepository) where
  unfoldable pub get_stock : String → M StockResponse
  get_stock p = do
    inventories ← repo.get_by_product_id p
    pure (record { product_id = p; warehouses = map warehouse_stock inventories })

  -- The warehouse that is named, or else the one of the code.
  unfoldable pub resolve_warehouse : String → String → M String
  resolve_warehouse id code =
      if (id == "") && not (code == "")
      then (do wh ← repo.get_warehouse_by_code code; pure wh.id)
      else pure id

  -- From ReserveQuantity to Commit. ReserveQuantity is not in the transaction.
  unfoldable pub reserve_in_tx : ReserveStockRequest → String → ℕ → M Reservation
  reserve_in_tx req place version = do
    repo.reserve_quantity req.product_id place req.quantity version
    record_reservation e req place

  unfoldable pub reserve_stock : ReserveStockRequest → M Reservation
  reserve_stock req = if leb_ℤ req.quantity (pos 0) then raise (inventory invalid_quantity) else do
    place ← resolve_warehouse req.warehouse_id req.warehouse_code
    inv ← repo.get_by_product_and_warehouse req.product_id place
    if ltb_ℤ (available inv) req.quantity then raise (inventory insufficient_stock) else do
      wrap "failed to begin transaction" (begin e)
      deferring_rollback (reserve_in_tx req place inv.version)

  -- From UpdateStatus to Commit. Only the movement is in the transaction.
  unfoldable pub release_in_tx : String → Reservation → M (Unit {0})
  release_in_tx id r = do
    wrap "failed to update reservation status" (Reservations.update_status e id "released")
    wrap "failed to release quantity" (repo.release_quantity r.product_id r.warehouse_id r.quantity)
    movement ← new_id e
    time ← now e
    ignore (Movements.create_in_tx e in_tx (release_movement r movement time))
    wrap "failed to commit transaction" (commit e)

  -- A reservation that is not reserved any more is left alone.
  unfoldable pub release_found : String → Reservation → M (Unit {0})
  release_found id r =
      if not (r.status == "reserved")
      then pure tt
      else do wrap "failed to begin transaction" (begin e); deferring_rollback (release_in_tx id r)

  unfoldable pub release_reservation : String → M (Unit {0})
  unfolding release_found
  release_reservation id = do r ← Reservations.get_by_id e id; release_found id r

  -- The row is not there: it is created with the quantity of the request.
  unfoldable pub create_stock : UpdateStockRequest → String → M (Unit {0})
  create_stock req place = do
    id ← new_id e
    time ← now e
    repo.create (new_inventory req place id time)
    movement ← new_id e
    time' ← now e
    ignore (
        Movements.create e
          (record (manual_movement req place movement time') { movement_type = movement_in }))

  unfoldable pub change_stock : UpdateStockRequest → String → Inventory → M (Unit {0})
  change_stock req place inv = do
    repo.update_stock req.product_id place req.quantity inv.version
    movement ← new_id e
    time ← now e
    ignore (Movements.create e (manual_movement req place movement time))

  -- err != nil && err.Error() == "inventory not found"
  unfoldable pub apply_stock : UpdateStockRequest → String → Result Inventory → M (Unit {0})
  apply_stock req place (ok inv) = change_stock req place inv
  apply_stock req place (err x) =
      if message x == "inventory not found" then create_stock req place else raise x

  unfoldable pub update_stock : UpdateStockRequest → M (Unit {0})
  update_stock req = do
    place ← resolve_warehouse req.warehouse_id req.warehouse_code
    found ← attempt (repo.get_by_product_and_warehouse req.product_id place)
    apply_stock req place found
