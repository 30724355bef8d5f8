-- ===== src/Inventory/Movements.antt =====
-- movementRepository of internal/inventory/adapter/postgres/inventory_repo.go.
use realtime_order_inventory.Prelude.{
  String, List, [], ◌∷◌, ◌++◌, map, ◌==◌, if◌then◌else◌, leb, select, some_row,
}
use realtime_order_inventory.Errors.{ok, err}
use realtime_order_inventory.Exec.{Executor, direct, Stmt, read, pure, ◌>>=◌, query}
use realtime_order_inventory.Inventory.Domain.{InventoryMovement, MovementRow, Db}
use realtime_order_inventory.Inventory.Postgres.{M, E, unique_violation}
use realtime_order_inventory.Inventory.Reservations.{null_string, string_of}

unfoldable pub to_row : InventoryMovement → MovementRow
unfolding null_string
to_row m = record {
  id = m.id;
  product_id = m.product_id;
  sku = m.sku;
  warehouse_id = m.warehouse_id;
  movement_type = m.movement_type;
  quantity = m.quantity;
  reference_type = null_string m.reference_type;
  reference_id = null_string m.reference_id;
  created_at = m.created_at;
}

unfoldable pub row_to_movement : MovementRow → InventoryMovement
unfolding string_of
row_to_movement row = record {
  id = row.id;
  product_id = row.product_id;
  sku = row.sku;
  warehouse_id = row.warehouse_id;
  movement_type = row.movement_type;
  quantity = row.quantity;
  reference_type = string_of row.reference_type;
  reference_id = string_of row.reference_id;
  created_at = row.created_at;
}

unfoldable pub insert_movement : MovementRow → Stmt Db (Unit {0})
insert_movement row d =
    if some_row (λ r. r.id == row.id) d.movements
    then err unique_violation
    else ok (tt, record d { movements = d.movements ++ row ∷ [] })

unfoldable pub create_in_tx : E → Executor → InventoryMovement → M (Unit {0})
create_in_tx e x m = query e x (insert_movement (to_row m))

unfoldable pub create : E → InventoryMovement → M (Unit {0})
unfolding create_in_tx
create e m = create_in_tx e direct m

-- ORDER BY created_at DESC
unfoldable pub insert_by_age : MovementRow → List MovementRow → List MovementRow
insert_by_age m [] = m ∷ []
insert_by_age m (x ∷ xs) =
    if leb x.created_at m.created_at then m ∷ x ∷ xs else x ∷ insert_by_age m xs

unfoldable pub newest_first : List MovementRow → List MovementRow
unfolding insert_by_age
newest_first [] = []
newest_first (m ∷ ms) = insert_by_age m (newest_first ms)

unfoldable pub get_by_product_id : E → String → M (List InventoryMovement)
get_by_product_id e p = do
  rows ← query e direct (read λ d. ok (newest_first (select (λ r. r.product_id == p) d.movements)))
  pure (map row_to_movement rows)
