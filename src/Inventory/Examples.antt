-- ===== src/Inventory/Examples.antt =====
-- Runs of the inventory service on concrete data.
use realtime_order_inventory.Prelude.{
  map, update, ◌==◌, some, ◌≡◌, refl, true, false, [], ◌∷◌, find, some_row, arith,
}
use realtime_order_inventory.Prelude.Int.{◌-ℤ◌, pos, ◌≤ℤ◌, ◌<ℤ◌}
use realtime_order_inventory.Errors.{Result, ok, err, inventory, concurrent_modification}
use realtime_order_inventory.Inventory.Repository.{inventory_repository}
use realtime_order_inventory.Exec.{World}
use realtime_order_inventory.Exec.Envs.{quiet}
use realtime_order_inventory.Inventory.Domain.{MovementRow, Db, Cached, available}
use realtime_order_inventory.Inventory.Reservations
use realtime_order_inventory.Inventory.Movements
use realtime_order_inventory.Inventory.Postgres.{
  at_place, at_version, reservable, add_reserved, reserve_quantity, release_quantity,
  not_null_violation,
}
use realtime_order_inventory.Inventory.UseCase.{reserve_stock, update_stock}
use realtime_order_inventory.Inventory.Safety.{IsSound}
use realtime_order_inventory.Inventory.NoOversell.{
  repository, reserve_stock_no_oversell, update_stock_no_oversell,
}
use realtime_order_inventory.Inventory.Reserving.{
  new_reservation, new_movement, reserve_stock_success, reserve_stock_leak,
}
use realtime_order_inventory.Inventory.Locking.{UniquePlaces, second_reserve_conflicts}
use realtime_order_inventory.Inventory.Balance.{stock_of, release_undoes_reserve}
use realtime_order_inventory.Inventory.Fixtures.{
  ids, lamps, booked, stock, world_of, strict_stock, three_lamps, delivery, cache, lamps-IsStocked,
  quiet-Relies, stock-Holds,
}

reserve_stock_no_oversell_example :
    IsSound
      (reserve_stock
        (quiet ids)
        (repository (quiet ids) quiet-Relies cache cache (world_of stock) stock-Holds)
        three_lamps
        (world_of stock)).1.db
reserve_stock_no_oversell_example =
    reserve_stock_no_oversell (quiet ids) quiet-Relies cache cache (world_of stock) stock-Holds
      three_lamps

update_stock_no_oversell_example :
    IsSound
      (update_stock
        (quiet ids)
        (repository (quiet ids) quiet-Relies cache cache (world_of stock) stock-Holds)
        delivery
        (world_of stock)).1.db
update_stock_no_oversell_example =
    update_stock_no_oversell (quiet ids) quiet-Relies cache cache (world_of stock) stock-Holds
      delivery (omega arith)

lamps_here : find (at_place "lamp" "hanoi") (lamps ∷ []) ≡ some lamps
unfolding find at_place
lamps_here = refl

lamps_enough : pos 3 ≤ℤ available lamps
unfolding available ◌-ℤ◌
lamps_enough = omega arith

lamps-reservable : some_row (reservable "lamp" "hanoi" (pos 3) 7) (lamps ∷ []) ≡ true
unfolding some_row reservable at_version at_place ◌-ℤ◌
lamps-reservable = refl

new_reservation_id : some_row (λ r. r.id == "new") (booked ∷ []) ≡ false
unfolding some_row
new_reservation_id = refl

new_movement_id : some_row {A = MovementRow} (λ r. r.id == "new") [] ≡ false
unfolding some_row
new_movement_id = refl

lamps_unique : UniquePlaces (lamps ∷ [])
unfolding some_row
lamps_unique = (refl, tt)

asked : pos 0 <ℤ pos 3
asked = omega arith

abbrev after_reserve : Db → Db
after_reserve d = record d {
  inventory = update (reservable "lamp" "hanoi" (pos 3) 7) (add_reserved (pos 3) 2) d.inventory;
}

abbrev moved : World Db Cached
moved = record (world_of stock) { calls = 4 }

reserve_stock_success_example :
    reserve_stock (quiet ids) (inventory_repository (quiet ids)) three_lamps (world_of stock) ≡ (
      ok (new_reservation ids three_lamps "hanoi" moved),
      record (world_of stock) {
        db = record (after_reserve stock) {
          reservations =
              booked ∷ Reservations.to_row (new_reservation ids three_lamps "hanoi" moved) ∷ [];
          movements = Movements.to_row (new_movement ids three_lamps "hanoi" moved) ∷ [];
        };
        calls = 12;
      },
    )
reserve_stock_success_example =
    reserve_stock_success ids three_lamps (world_of stock) lamps asked refl lamps_here lamps_enough
      refl new_reservation_id new_movement_id

reserve_stock_leak_example :
    reserve_stock (quiet ids) (inventory_repository (quiet ids)) three_lamps (world_of strict_stock)
    ≡ (
      err not_null_violation,
      record (world_of strict_stock) { db = after_reserve strict_stock; calls = 8 },
    )
reserve_stock_leak_example =
    reserve_stock_leak ids three_lamps (world_of strict_stock) lamps asked refl lamps_here
      lamps_enough refl

abbrev first_reserve : Result (Unit {0}) × World Db Cached
first_reserve = reserve_quantity (quiet ids) "lamp" "hanoi" (pos 3) 7 (world_of stock)

abbrev second_reserve : Result (Unit {0}) × World Db Cached
second_reserve = reserve_quantity (quiet ids) "lamp" "hanoi" (pos 2) 7 first_reserve.1

second_reserve_conflicts_example :
    (first_reserve.0 ≡ ok tt)
    × (second_reserve.0 ≡ err (inventory concurrent_modification))
    × (second_reserve.1.db ≡ first_reserve.1.db)
second_reserve_conflicts_example =
    second_reserve_conflicts ids "lamp" "hanoi" (pos 3) (pos 2) 7 (world_of stock) lamps_unique
      lamps-reservable

release_undoes_reserve_example :
    map stock_of
      (release_quantity (quiet ids) "lamp" "hanoi" (pos 3) first_reserve.1).1.db.inventory
    ≡ map stock_of (lamps ∷ [])
release_undoes_reserve_example =
    release_undoes_reserve ids "lamp" "hanoi" (pos 3) 7 (world_of stock) (lamps-IsStocked, tt)
      lamps_unique lamps-reservable
