-- ===== src/Inventory/HandlerExamples.antt =====
-- Runs of the event handler and of a repeated release on concrete data.
use realtime_order_inventory.Prelude.{
  if◌then◌else◌, ltb, ℕ, update, ◌==◌, ◌≡◌, refl, String, false, none, [], ◌∷◌, some_row,
}
use realtime_order_inventory.Prelude.Int.{pos}
use realtime_order_inventory.Errors.{Result, ok}
use realtime_order_inventory.Inventory.Repository.{inventory_repository}
use realtime_order_inventory.Exec.Envs.{quiet}
use realtime_order_inventory.Inventory.Domain.{Reservation, MovementRow, Db, Cached}
use realtime_order_inventory.Inventory.Reservations
use realtime_order_inventory.Inventory.Movements
use realtime_order_inventory.Inventory.Postgres.{
  release_quantity, releasable, sub_reserved, update_inventory,
}
use realtime_order_inventory.Inventory.Releasing.{double_release}
use realtime_order_inventory.Inventory.UseCase.{release_found, release_in_tx, release_movement}
use realtime_order_inventory.Exec.{
  World, ◌>>=◌, wrap, ignore, deferring_rollback, query, begin, commit, settle, new_id, now, pure,
}
use realtime_order_inventory.Exec.Runs.{later}
use realtime_order_inventory.Inventory.Fixtures.{lamps, stock, world_of}

abbrev kept : Reservation
kept = record {
  id = "reservation-2";
  order_id = "order-2";
  order_item_id = "";
  product_id = "lamp";
  sku = "L1";
  warehouse_id = "hanoi";
  quantity = pos 3;
  status = "reserved";
  expires_at = none;
  created_at = 5;
  updated_at = 6;
}

abbrev twice_ids : ℕ → String
twice_ids n = if ltb n 6 then "first" else "second"

abbrev first_release : Result (Unit {0}) × World Db Cached
first_release =
    release_found (quiet twice_ids) (inventory_repository (quiet twice_ids)) "reservation-2" kept
      (world_of stock)

abbrev second_release : Result (Unit {0}) × World Db Cached
second_release =
    release_found (quiet twice_ids) (inventory_repository (quiet twice_ids)) "reservation-2" kept
      first_release.1

second_movement_id :
    some_row (λ m. m.id == twice_ids (later 5 first_release.1.calls)) first_release.1.db.movements
    ≡ false
unfolding release_found release_in_tx release_quantity begin commit settle new_id now query ◌>>=◌
    wrap ignore deferring_rollback pure Reservations.update_status Reservations.set_status
    Movements.create_in_tx Movements.insert_movement Movements.to_row release_movement
    update_inventory some_row
second_movement_id = refl

first_movement_id : some_row {A = MovementRow} (λ r. r.id == "first") [] ≡ false
unfolding some_row
first_movement_id = refl

double_release_example :
    (first_release.0 ≡ ok tt)
    × (second_release.0 ≡ ok tt)
    × (second_release.1.db.inventory
        ≡ update
            (releasable "lamp" "hanoi" (pos 3))
            (sub_reserved (pos 3) (later 3 first_release.1.calls))
            (update (releasable "lamp" "hanoi" (pos 3)) (sub_reserved (pos 3) 3) (lamps ∷ [])))
double_release_example =
    double_release twice_ids "reservation-2" kept (world_of stock) refl first_movement_id
      second_movement_id
