-- ===== src/Inventory/Releasing.antt =====
-- Two calls of ReleaseReservation that both read the reservation before either has written.
use realtime_order_inventory.Prelude.{◌∙◌, ℕ, ◌≡◌, ap, String, true, false, ◌==◌, some_row, update}
use realtime_order_inventory.Errors.{ok}
use realtime_order_inventory.Exec.{
  World, pure, ◌>>=◌, wrap, ignore, deferring_rollback, query, begin, commit, settle, new_id, now,
}
use realtime_order_inventory.Exec.Envs.{quiet}
use realtime_order_inventory.Exec.Runs.{later}
use realtime_order_inventory.Inventory.Domain.{Reservation, Db, Cached}
use realtime_order_inventory.Inventory.Postgres.{
  releasable, sub_reserved, release_quantity, update_inventory,
}
use realtime_order_inventory.Inventory.Reservations
use realtime_order_inventory.Inventory.Movements
use realtime_order_inventory.Inventory.Repository.{inventory_repository}
use realtime_order_inventory.Inventory.UseCase.{release_found, release_in_tx, release_movement}

module _ (ids : ℕ → String) (id : String) (r : Reservation) where
  -- What ReleaseReservation does after it has read the reservation.
  release_run :
      (w : World Db Cached)
      → (r.status == "reserved") ≡ true
      → some_row (λ m. m.id == ids (later 5 w.calls)) w.db.movements ≡ false
      → let out = release_found (quiet ids) (inventory_repository (quiet ids)) id r w in
        (out.0 ≡ ok tt)
        × (out.1.db.inventory
            ≡ update
                (releasable r.product_id r.warehouse_id r.quantity)
                (sub_reserved r.quantity (later 3 w.calls))
                w.db.inventory)
  unfolding release_found release_in_tx release_quantity begin commit settle new_id now query ◌>>=◌
      wrap ignore deferring_rollback pure Reservations.update_status Reservations.set_status
      Movements.create_in_tx Movements.insert_movement Movements.to_row release_movement
      update_inventory
  release_run w reserved fresh = (simp (reserved, fresh), simp (reserved, fresh))

  -- Two ReleaseReservation that both read the reservation while it was reserved both succeed, and
  -- its quantity is taken back twice, as far as the row has it, where the movements' identifiers are
  -- fresh and no call fails.
  pub double_release :
      (w : World Db Cached)
      → (r.status == "reserved") ≡ true
      → some_row (λ m. m.id == ids (later 5 w.calls)) w.db.movements ≡ false
      → let first = release_found (quiet ids) (inventory_repository (quiet ids)) id r w in
        some_row (λ m. m.id == ids (later 5 first.1.calls)) first.1.db.movements ≡ false
        → let second = release_found (quiet ids) (inventory_repository (quiet ids)) id r first.1 in
          (first.0 ≡ ok tt)
          × (second.0 ≡ ok tt)
          × (second.1.db.inventory
              ≡ update
                  (releasable r.product_id r.warehouse_id r.quantity)
                  (sub_reserved r.quantity (later 3 first.1.calls))
                  (update
                    (releasable r.product_id r.warehouse_id r.quantity)
                    (sub_reserved r.quantity (later 3 w.calls))
                    w.db.inventory))
  double_release w reserved fresh fresh' =
      let (done, taken) = release_run w reserved fresh in
      let first = release_found (quiet ids) (inventory_repository (quiet ids)) id r w in
      let (done', taken') = release_run first.1 reserved fresh' in
      (
        done,
        done',
        taken'
            ∙ ap
                (λ rows.
                  update (releasable r.product_id r.warehouse_id r.quantity)
                    (sub_reserved r.quantity (later 3 first.1.calls)) rows)
                taken,
      )
