-- ===== src/Inventory/Reserving.antt =====
-- What ReserveStock does where the service is alone and no call fails.
use realtime_order_inventory.Prelude.{
  ℕ, ◌≡◌, refl, String, true, false, some, List, [], ◌∷◌, ◌++◌, ◌==◌, arith, find, update, some_row,
}
use realtime_order_inventory.Prelude.Int.{ℤ, pos, ◌≤ℤ◌, ◌<ℤ◌, leb_ℤ, ltb_ℤ}
use realtime_order_inventory.Errors.{Result, ok, err}
use realtime_order_inventory.Exec.{
  World, raise, settle, idle, pure, ◌>>=◌, query, begin, commit, wrap, ignore, new_id, now, read,
}
use realtime_order_inventory.Exec.Envs.{quiet}
use realtime_order_inventory.Exec.Runs.{later, bind_ok, wrap_ok, rollback_any, query_direct}
use realtime_order_inventory.Inventory.Domain.{
  Inventory, Reservation, InventoryMovement, Db, Cached, available,
}
use realtime_order_inventory.Inventory.Postgres.{
  at_place, reservable, add_reserved, update_inventory, get_by_product_and_warehouse,
  reserve_quantity, require_rows, not_null_violation,
}
use realtime_order_inventory.Inventory.Reservations
use realtime_order_inventory.Inventory.Movements
use realtime_order_inventory.Inventory.Repository.{inventory_repository}
use realtime_order_inventory.Inventory.UseCase.{
  ReserveStockRequest, reservation_of, reserve_movement, resolve_warehouse, reserve_in_tx,
  record_reservation, reserve_stock,
}

-- A row that can be found and has enough is one that the guarded update selects.
reservable_found :
    (p w : String) (q : ℤ) (i : Inventory) (rows : List Inventory)
    → find (at_place p w) rows ≡ some i
    → q ≤ℤ available i
    → some_row (reservable p w q i.version) rows ≡ true
unfolding find some_row reservable available
reservable_found p w q i [] f h = cc
reservable_found p w q i (x ∷ rows) f h = ground (arith, reservable_found p w q i rows)

module _ (ids : ℕ → String) (req : ReserveStockRequest) (w : World Db Cached) (i : Inventory) where
  reserve_quantity_run :
      some_row (reservable req.product_id req.warehouse_id req.quantity i.version) w.db.inventory
        ≡ true
      → reserve_quantity (quiet ids) req.product_id req.warehouse_id req.quantity i.version w ≡ (
        ok tt,
        record w {
          db = record w.db {
            inventory =
                update
                  (reservable req.product_id req.warehouse_id req.quantity i.version)
                  (add_reserved req.quantity w.calls)
                  w.db.inventory;
          };
          calls = later 2 w.calls;
        },
      )
  unfolding reserve_quantity now update_inventory pure require_rows
  reserve_quantity_run h =
      bind_ok _ _ _ _ _ refl (bind_ok _ _ _ true _ (query_direct ids _ _ _ _ (rw h)) refl)

module _ (ids : ℕ → String) (req : ReserveStockRequest) (place : String) (w : World Db Cached) where
  -- The rows that the end of ReserveStock writes.
  abbrev pub new_reservation : Reservation
  new_reservation = reservation_of req place (ids w.calls) (later 1 w.calls) (later 2 w.calls)

  abbrev pub new_movement : InventoryMovement
  new_movement = reserve_movement req place (ids (later 4 w.calls)) (later 5 w.calls)

  record_reservation_run :
      w.tx ≡ idle
      → w.db.order_item_not_null ≡ false
      → some_row (λ r. r.id == ids w.calls) w.db.reservations ≡ false
      → some_row (λ r. r.id == ids (later 4 w.calls)) w.db.movements ≡ false
      → record_reservation (quiet ids) req place w ≡ (
        ok new_reservation,
        record w {
          db = record w.db {
            reservations = w.db.reservations ++ Reservations.to_row new_reservation ∷ [];
            movements = w.db.movements ++ Movements.to_row new_movement ∷ [];
          };
          calls = later 8 w.calls;
        },
      )
  unfolding record_reservation new_id now Reservations.create_in_tx Movements.create_in_tx
      Reservations.insert_reservation Movements.insert_movement commit pure query ◌>>=◌ ignore wrap
      Reservations.to_row Movements.to_row reservation_of reserve_movement settle
  record_reservation_run empty nullable fresh fresh' = simp (empty, nullable, fresh, fresh')

  -- On the schema of 01-init.sql the reservation is refused, and the transaction with it.
  record_reservation_refused :
      w.tx ≡ idle
      → w.db.order_item_not_null ≡ true
      → record_reservation (quiet ids) req place w ≡ (
        err not_null_violation,
        record w { tx = record { aborted = true; writes = λ d. d }; calls = later 4 w.calls },
      )
  unfolding record_reservation new_id now Reservations.create_in_tx Reservations.insert_reservation
      pure query ◌>>=◌ Reservations.to_row reservation_of
  record_reservation_refused empty strict = simp (empty, strict)

module _ (ids : ℕ → String) (req : ReserveStockRequest) (w : World Db Cached) (i : Inventory)
    (asked : pos 0 <ℤ req.quantity) (named : (req.warehouse_id == "") ≡ false)
    (here : find (at_place req.product_id req.warehouse_id) w.db.inventory ≡ some i)
    (enough : req.quantity ≤ℤ available i) where
  -- The database after ReserveQuantity.
  abbrev pub reserved_db : Db
  reserved_db = record w.db {
    inventory =
        update (reservable req.product_id req.warehouse_id req.quantity i.version)
          (add_reserved req.quantity (later 2 w.calls)) w.db.inventory;
  }

  -- ReserveStock up to ReserveQuantity, when the end of it gives `r`.
  reserve_stock_begun :
      (r : Result Reservation) (v : World Db Cached)
      → record_reservation
          (quiet ids)
          req
          req.warehouse_id
          (record w { db = reserved_db; tx = idle; calls = later 4 w.calls })
        ≡ (r, v)
      → reserve_stock (quiet ids) (inventory_repository (quiet ids)) req w
        ≡ (r, record v { tx = idle })
  unfolding reserve_stock resolve_warehouse begin get_by_product_and_warehouse read reserve_in_tx
      pure raise
  reserve_stock_begun r v e = rw passed (
      bind_ok _ _ _ req.warehouse_id w (rw named) (
        bind_ok _ _ _ i _ (query_direct ids _ _ i w.db (rw here)) (
          rw room (
            bind_ok _ _ _ _ _ (wrap_ok _ _ _ _ _ refl) (
              rollback_any _ _ r v
                (bind_ok _ _ _ _ _ (reserve_quantity_run ids req begun i found) e))))))
    where
      passed : leb_ℤ req.quantity (pos 0) ≡ false
      passed = ground arith

      room : ltb_ℤ (available i) req.quantity ≡ false
      room = ground arith

      begun : World Db Cached
      begun = record w { tx = idle; calls = later 2 w.calls }

      found :
          some_row
            (reservable req.product_id req.warehouse_id req.quantity i.version)
            w.db.inventory
          ≡ true
      found = reservable_found _ _ _ i w.db.inventory here enough

  -- ReserveStock of a positive quantity that is available in a named warehouse, with fresh
  -- identifiers and where order_item_id may be NULL and no call fails, raises quantity_reserved of the row by the quantity, raises its version, and adds
  -- one reservation and one movement.
  pub reserve_stock_success :
      w.db.order_item_not_null ≡ false
      → some_row (λ r. r.id == ids (later 4 w.calls)) w.db.reservations ≡ false
      → some_row (λ r. r.id == ids (later 8 w.calls)) w.db.movements ≡ false
      → let v = record w { calls = later 4 w.calls } in
        reserve_stock (quiet ids) (inventory_repository (quiet ids)) req w ≡ (
          ok (new_reservation ids req req.warehouse_id v),
          record w {
            db = record reserved_db {
              reservations =
                  w.db.reservations
                  ++ Reservations.to_row (new_reservation ids req req.warehouse_id v) ∷ [];
              movements =
                  w.db.movements ++ Movements.to_row (new_movement ids req req.warehouse_id v) ∷ [];
            };
            tx = idle;
            calls = later 12 w.calls;
          },
        )
  reserve_stock_success nullable fresh fresh' =
      reserve_stock_begun _ _ (record_reservation_run ids req _ _ refl nullable fresh fresh')

  -- Where order_item_id is NOT NULL, as in migrations/inventory/01-init.sql, and no call fails, a
  -- ReserveStock of a positive quantity that is available in a named warehouse returns the refusal
  -- of the reservation, and leaves the quantity reserved.
  pub reserve_stock_leak :
      w.db.order_item_not_null ≡ true
      → reserve_stock (quiet ids) (inventory_repository (quiet ids)) req w ≡ (
        err not_null_violation,
        record w { db = reserved_db; tx = idle; calls = later 8 w.calls },
      )
  reserve_stock_leak strict =
      reserve_stock_begun _ _ (record_reservation_refused ids req _ _ refl strict)
