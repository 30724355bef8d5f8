-- ===== src/Inventory/Safety/Postgres.antt =====
-- The Postgres repositories keep the invariant, whatever fails and whatever the others do that
-- keeps it too.
use realtime_order_inventory.Prelude.{
  ℕ, ◌≡◌, refl, ◌==◌, Option, List, All, String, Bool, true, false, none, some, find, All-find,
  arith,
}
use realtime_order_inventory.Prelude.Int.{ℤ, pos, ◌≤ℤ◌, ◌<ℤ◌}
use realtime_order_inventory.Errors.{Error, inventory, reservation_not_found, ok}
use realtime_order_inventory.Exec.{Executor, direct, query}
use realtime_order_inventory.Exec.Keeps.{
  Keeps, Holds, Relies, keeps_rules, query-Keeps, read-StmtKeeps, now-Keeps, Keeps-bind, Keeps-pure,
}
use realtime_order_inventory.Exec.Yields.{Yields, read-Yields}
use realtime_order_inventory.Inventory.Domain.{
  Inventory, Reservation, ReservationRow, InventoryMovement,
}
use realtime_order_inventory.Inventory.Postgres.{
  E, create, create_in_tx, get_by_product_and_warehouse, get_by_product_id, update_stock,
  reserve_quantity, release_quantity, get_warehouse_by_code, require_rows, or_missing,
}
use realtime_order_inventory.Inventory.Repository.{InventoryRepository, inventory_repository}
use realtime_order_inventory.Inventory.Reservations
use realtime_order_inventory.Inventory.Movements
use realtime_order_inventory.Inventory.Safety.Rows.{
  IsStocked, IsBooked, IsSound, insert_inventory-IsSound, add_reserved-IsSound,
  sub_reserved-IsSound, adjust-IsSound, insert_reservation-IsSound, set_status-IsSound,
  insert_movement-IsSound,
}

-- What a use case needs of the repository: reads, and writes of quantities that are not negative.
pub record KeepsStock (repo : InventoryRepository) : Type 0 where
  pub create : (i : Inventory) → IsStocked i → Keeps (Holds IsSound) (repo.create i)
  pub get : (p w : String) → Keeps (Holds IsSound) (repo.get_by_product_and_warehouse p w)
  pub get_all : (p : String) → Keeps (Holds IsSound) (repo.get_by_product_id p)
  pub warehouse : (code : String) → Keeps (Holds IsSound) (repo.get_warehouse_by_code code)
  pub adjust :
      (p w : String) (change : ℤ) (v : ℕ)
      → pos 0 ≤ℤ change
      → Keeps (Holds IsSound) (repo.update_stock p w change v)
  pub reserve :
      (p w : String) (q : ℤ) (v : ℕ)
      → pos 0 ≤ℤ q
      → Keeps (Holds IsSound) (repo.reserve_quantity p w q v)
  pub release :
      (p w : String) (q : ℤ) → pos 0 ≤ℤ q → Keeps (Holds IsSound) (repo.release_quantity p w q)

require_rows-Keeps : (b : Bool) → Keeps (Holds IsSound) (require_rows b)
unfolding require_rows
require_rows-Keeps true = search keeps_rules
require_rows-Keeps false = search keeps_rules

found :
    (r : Option ReservationRow) (x : Error) (rows : List ReservationRow) (p : ReservationRow → Bool)
    {a : ReservationRow}
    → All IsBooked rows
    → find p rows ≡ r
    → or_missing x r ≡ ok a
    → IsBooked a
found none x rows p h f e = cc
found (some b) x rows p {a} h f e = All-find IsBooked p rows a h (ground arith)

module _ (e : E) (rely : Relies IsSound e) where
  create-Keeps : (i : Inventory) → IsStocked i → Keeps (Holds IsSound) (create e i)
  unfolding create create_in_tx
  create-Keeps i s = query-Keeps e rely _ (insert_inventory-IsSound i s) direct

  update_stock-Keeps :
      (p w : String) (change : ℤ) (v : ℕ)
      → pos 0 ≤ℤ change
      → Keeps (Holds IsSound) (update_stock e p w change v)
  unfolding update_stock
  update_stock-Keeps p w change v h = Keeps-bind _ _ (now-Keeps e rely) λ time.
      Keeps-bind _ _ (query-Keeps e rely _ (adjust-IsSound p w change v time h) direct)
        require_rows-Keeps

  reserve_quantity-Keeps :
      (p w : String) (q : ℤ) (v : ℕ)
      → pos 0 ≤ℤ q
      → Keeps (Holds IsSound) (reserve_quantity e p w q v)
  unfolding reserve_quantity
  reserve_quantity-Keeps p w q v h = Keeps-bind _ _ (now-Keeps e rely) λ time.
      Keeps-bind _ _ (query-Keeps e rely _ (add_reserved-IsSound p w q v time h) direct)
        require_rows-Keeps

  release_quantity-Keeps :
      (p w : String) (q : ℤ) → pos 0 ≤ℤ q → Keeps (Holds IsSound) (release_quantity e p w q)
  unfolding release_quantity
  release_quantity-Keeps p w q h = Keeps-bind _ _ (now-Keeps e rely) λ time.
      Keeps-bind _ _ (query-Keeps e rely _ (sub_reserved-IsSound p w q time h) direct)
        λ _. Keeps-pure tt

  pub inventory_repository-KeepsStock : KeepsStock (inventory_repository e)
  unfolding get_by_product_and_warehouse get_by_product_id get_warehouse_by_code
  inventory_repository-KeepsStock = record {
    create = create-Keeps;
    get = λ p w. query-Keeps e rely _ (read-StmtKeeps IsSound _) direct;
    get_all = λ p. query-Keeps e rely _ (read-StmtKeeps IsSound _) direct;
    warehouse = λ code. query-Keeps e rely _ (read-StmtKeeps IsSound _) direct;
    adjust = update_stock-Keeps;
    reserve = reserve_quantity-Keeps;
    release = release_quantity-Keeps;
  }

  pub create_reservation-Keeps :
      (x : Executor) (r : Reservation)
      → pos 0 <ℤ r.quantity
      → Keeps (Holds IsSound) (Reservations.create_in_tx e x r)
  unfolding Reservations.create_in_tx Reservations.to_row
  create_reservation-Keeps x r h =
      query-Keeps e rely _ (insert_reservation-IsSound _ (record { positive = h })) x

  pub create_movement-Keeps :
      (x : Executor) (m : InventoryMovement) → Keeps (Holds IsSound) (Movements.create_in_tx e x m)
  unfolding Movements.create_in_tx
  create_movement-Keeps x m = query-Keeps e rely _ (insert_movement-IsSound _) x

  pub record_movement-Keeps : (m : InventoryMovement) → Keeps (Holds IsSound) (Movements.create e m)
  unfolding Movements.create
  record_movement-Keeps m = create_movement-Keeps direct m

  pub update_status-Keeps :
      (id status : String) → Keeps (Holds IsSound) (Reservations.update_status e id status)
  unfolding Reservations.update_status
  update_status-Keeps id status =
      Keeps-bind _ _ (now-Keeps e rely)
        λ time. query-Keeps e rely _ (set_status-IsSound id status time) direct

  -- A reservation that is found holds something.
  pub find_reservation-Yields :
      (id : String)
      → Yields (Holds IsSound) IsBooked (query e direct (Reservations.find_reservation id))
  unfolding Reservations.find_reservation
  find_reservation-Yields id = read-Yields e rely _ λ d a h p.
      found (find (λ r. r.id == id) d.reservations) (inventory reservation_not_found) d.reservations
        (λ r. r.id == id) h.booked refl p
