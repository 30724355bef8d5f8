-- ===== src/Inventory/Safety/UseCase.antt =====
-- The use cases keep the invariant over any repository that does: with Postgres alone or behind
-- Redis, whatever Redis holds, whatever fails, and however the other connections interleave.
use realtime_order_inventory.Prelude.{ℕ, String, Bool, true, false, ◌≡◌, refl, if◌then◌else◌, arith}
use realtime_order_inventory.Prelude.Int.{ℤ, pos, ◌≤ℤ◌, ◌<ℤ◌, leb_ℤ}
use realtime_order_inventory.Errors.{Result, ok, err}
use realtime_order_inventory.Exec.{in_tx, direct, ◌>>=◌, ◌>>◌, new_id, now, ignore, pure, query}
use realtime_order_inventory.Exec.Keeps.{
  Keeps, Holds, Relies, Keeps-bind, Keeps-pure, Keeps-raise, Keeps-if, Keeps-wrap, Keeps-ignore,
  Keeps-attempt, bind_assoc-Keeps, begin-Keeps, commit-Keeps, new_id-Keeps, now-Keeps,
  deferring_rollback-Keeps,
}
use realtime_order_inventory.Exec.Yields.{Yields-bind}
use realtime_order_inventory.Inventory.Domain.{
  Inventory, Reservation, ReservationRow, InventoryMovement,
}
use realtime_order_inventory.Inventory.Postgres.{M, E}
use realtime_order_inventory.Inventory.Repository.{InventoryRepository}
use realtime_order_inventory.Inventory.Reservations
use realtime_order_inventory.Inventory.Movements
use realtime_order_inventory.Inventory.UseCase.{
  ReserveStockRequest, UpdateStockRequest, reservation_of, new_inventory, reserve_movement,
  release_movement, resolve_warehouse, reserve_in_tx, record_reservation, reserve_stock,
  release_in_tx, release_found, release_reservation, create_stock, change_stock, apply_stock,
  update_stock,
}
use realtime_order_inventory.Inventory.Safety.Rows.{IsStocked, IsBooked, IsSound}
use realtime_order_inventory.Inventory.Safety.Postgres.{
  KeepsStock, create_reservation-Keeps, create_movement-Keeps, record_movement-Keeps,
  update_status-Keeps, find_reservation-Yields,
}

positive : (q : ℤ) → leb_ℤ q (pos 0) ≡ false → pos 0 <ℤ q
positive q h = ground arith

-- A guard that fails returns; the rest may use that it has passed.
guard-Keeps :
    {A : Type 0} (b : Bool) (m n : M A)
    → Keeps (Holds IsSound) m
    → (b ≡ false → Keeps (Holds IsSound) n)
    → Keeps (Holds IsSound) (if b then m else n)
guard-Keeps true m n km kn = km
guard-Keeps false m n km kn = kn refl

module _ (e : E) (repo : InventoryRepository) (rely : Relies IsSound e) (k : KeepsStock repo) where
  resolve-Keeps : (id code : String) → Keeps (Holds IsSound) (resolve_warehouse e repo id code)
  unfolding resolve_warehouse
  resolve-Keeps id code =
      Keeps-if _ _ _ (Keeps-bind _ _ (k.warehouse code) λ wh. Keeps-pure wh.id) (Keeps-pure id)

  -- The end of both transactions: the movement, whose failure is ignored, and the commit.
  movement-Keeps :
      {A : Type 0} (m : String → ℕ → InventoryMovement) (rest : M A)
      → Keeps (Holds IsSound) rest
      → Keeps (Holds IsSound) (do
        id ← new_id e
        time ← now e
        ignore (Movements.create_in_tx e in_tx (m id time))
        rest)
  movement-Keeps m rest kr = Keeps-bind _ _ (new_id-Keeps e rely) λ id.
      Keeps-bind _ _ (now-Keeps e rely) λ time.
        Keeps-bind _ _ (Keeps-ignore _ (create_movement-Keeps e rely in_tx (m id time))) λ _. kr

  record_reservation-Keeps :
      (req : ReserveStockRequest) (place : String)
      → pos 0 <ℤ req.quantity
      → Keeps (Holds IsSound) (record_reservation e req place)
  unfolding record_reservation reservation_of
  record_reservation-Keeps req place h = Keeps-bind _ _ (new_id-Keeps e rely) λ id.
      Keeps-bind _ _ (now-Keeps e rely) λ created. Keeps-bind _ _ (now-Keeps e rely) λ updated.
        Keeps-bind _ _ (create_reservation-Keeps e rely in_tx _ h) λ _.
          movement-Keeps (reserve_movement req place) _
            (Keeps-bind _ _ (Keeps-wrap _ _ (commit-Keeps e rely)) λ _. Keeps-pure _)

  reserve_in_tx-Keeps :
      (req : ReserveStockRequest) (place : String) (v : ℕ)
      → pos 0 <ℤ req.quantity
      → Keeps (Holds IsSound) (reserve_in_tx e repo req place v)
  unfolding reserve_in_tx
  reserve_in_tx-Keeps req place v h =
      Keeps-bind _ _ (k.reserve _ _ _ v (omega arith)) λ _. record_reservation-Keeps req place h

  -- ReserveStock never lets a row promise more than it holds.
  pub reserve_stock-IsSound :
      (req : ReserveStockRequest) → Keeps (Holds IsSound) (reserve_stock e repo req)
  unfolding reserve_stock
  reserve_stock-IsSound req = guard-Keeps _ _ _ (Keeps-raise _) λ asked.
      Keeps-bind _ _ (resolve-Keeps req.warehouse_id req.warehouse_code) λ place.
        Keeps-bind _ _ (k.get req.product_id place) λ inv. Keeps-if _ _ _ (Keeps-raise _) (
          Keeps-bind _ _ (Keeps-wrap _ _ (begin-Keeps e rely)) λ _.
            deferring_rollback-Keeps _
              (reserve_in_tx-Keeps req place inv.version (positive req.quantity asked)))

  release_in_tx-Keeps :
      (id : String) (r : Reservation)
      → pos 0 <ℤ r.quantity
      → Keeps (Holds IsSound) (release_in_tx e repo id r)
  unfolding release_in_tx
  release_in_tx-Keeps id r h =
      Keeps-bind _ _ (Keeps-wrap _ _ (update_status-Keeps e rely id "released")) λ _.
        Keeps-bind _ _ (Keeps-wrap _ _ (k.release _ _ _ (omega arith)))
          λ _. movement-Keeps (release_movement r) _ (Keeps-wrap _ _ (commit-Keeps e rely))

  released-Keeps :
      (id : String) (row : ReservationRow)
      → IsBooked row
      → Keeps (Holds IsSound) (release_found e repo id (Reservations.row_to_reservation row))
  unfolding release_found Reservations.row_to_reservation
  released-Keeps id row b = Keeps-if _ _ _ (Keeps-pure tt) (
      Keeps-bind _ _ (Keeps-wrap _ _ (begin-Keeps e rely))
        λ _. deferring_rollback-Keeps _ (release_in_tx-Keeps id _ b.positive))

  -- ReleaseReservation never takes back more than is reserved.
  pub release_reservation-IsSound :
      (id : String) → Keeps (Holds IsSound) (release_reservation e repo id)
  unfolding release_reservation Reservations.get_by_id ◌>>=◌
  release_reservation-IsSound id =
      bind_assoc-Keeps (query e direct (Reservations.find_reservation id))
        (λ row. pure (Reservations.row_to_reservation row)) (release_found e repo id)
        (Yields-bind _ _ (find_reservation-Yields e rely id) (released-Keeps id))

  IsStocked_new :
      (req : UpdateStockRequest) (place id : String) (time : ℕ)
      → pos 0 ≤ℤ req.quantity
      → IsStocked (new_inventory req place id time)
  unfolding new_inventory
  IsStocked_new req place id time h = record { lower = omega arith; upper = omega arith }

  create_stock-Keeps :
      (req : UpdateStockRequest) (place : String)
      → pos 0 ≤ℤ req.quantity
      → Keeps (Holds IsSound) (create_stock e repo req place)
  unfolding create_stock
  create_stock-Keeps req place h = Keeps-bind _ _ (new_id-Keeps e rely) λ id.
      Keeps-bind _ _ (now-Keeps e rely) λ time.
        Keeps-bind _ _ (k.create _ (IsStocked_new req place id time h)) λ _.
          Keeps-bind _ _ (new_id-Keeps e rely) λ movement.
            Keeps-bind _ _ (now-Keeps e rely)
              λ time'. Keeps-ignore _ (record_movement-Keeps e rely _)

  change_stock-Keeps :
      (req : UpdateStockRequest) (place : String) (inv : Inventory)
      → pos 0 ≤ℤ req.quantity
      → Keeps (Holds IsSound) (change_stock e repo req place inv)
  unfolding change_stock
  change_stock-Keeps req place inv h = Keeps-bind _ _ (k.adjust _ _ _ inv.version h) λ _.
      Keeps-bind _ _ (new_id-Keeps e rely) λ movement.
        Keeps-bind _ _ (now-Keeps e rely) λ time. Keeps-ignore _ (record_movement-Keeps e rely _)

  apply_stock-Keeps :
      (req : UpdateStockRequest) (place : String) (found : Result Inventory)
      → pos 0 ≤ℤ req.quantity
      → Keeps (Holds IsSound) (apply_stock e repo req place found)
  unfolding apply_stock
  apply_stock-Keeps req place (ok inv) h = change_stock-Keeps req place inv h
  apply_stock-Keeps req place (err x) h =
      Keeps-if _ _ _ (create_stock-Keeps req place h) (Keeps-raise x)

  -- A delivery, of a quantity that is not negative, keeps the invariant.
  pub update_stock-IsSound :
      (req : UpdateStockRequest)
      → pos 0 ≤ℤ req.quantity
      → Keeps (Holds IsSound) (update_stock e repo req)
  unfolding update_stock
  update_stock-IsSound req h =
      Keeps-bind _ _ (resolve-Keeps req.warehouse_id req.warehouse_code) λ place.
        Keeps-bind _ _ (Keeps-attempt _ (k.get req.product_id place))
          λ found. apply_stock-Keeps req place found h
