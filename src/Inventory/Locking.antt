-- ===== src/Inventory/Locking.antt =====
-- The optimistic lock: of two writers that read the same version of a row, one gets
-- ErrConcurrentModification.
use realtime_order_inventory.Prelude.{
  ℕ, ◌≡◌, refl, String, true, false, List, [], ◌∷◌, arith, eq_iff, update, some_row, update-none,
}
use realtime_order_inventory.Prelude.{subst}
use realtime_order_inventory.Prelude.Int.{ℤ}
use realtime_order_inventory.Errors.{inventory, concurrent_modification, ok, err}
use realtime_order_inventory.Exec.{World, pure, raise, ◌>>=◌, query, now}
use realtime_order_inventory.Exec.Envs.{quiet}
use realtime_order_inventory.Exec.Runs.{later}
use realtime_order_inventory.Inventory.Domain.{Inventory, Db, Cached}
use realtime_order_inventory.Inventory.Postgres.{
  at_place, at_version, reservable, add_reserved, update_inventory, reserve_quantity, require_rows,
}

-- UNIQUE(product_id, warehouse_id)
abbrev pub UniquePlaces : List Inventory → Type 0
UniquePlaces [] = Unit {0}
UniquePlaces (i ∷ is) =
    (some_row (at_place i.product_id i.warehouse_id) is ≡ false) × UniquePlaces is

-- A row at a place is the only one there.
pub here_only :
    (p w : String) (i : Inventory) (is : List Inventory)
    → UniquePlaces (i ∷ is)
    → at_place p w i ≡ true
    → some_row (at_place p w) is ≡ false
unfolding at_place
here_only p w i is u h =
    subst (λ x. some_row (at_place x w) is ≡ false) (same_product h)
      (subst (λ x. some_row (at_place i.product_id x) is ≡ false) (same_warehouse h) u.0)
  where
    same_product : at_place p w i ≡ true → i.product_id ≡ p
    same_product h = ground (arith, eq_iff i.product_id p)

    same_warehouse : at_place p w i ≡ true → i.warehouse_id ≡ w
    same_warehouse h = ground (arith, eq_iff i.warehouse_id w)

module _ (p w : String) (q : ℤ) (v time : ℕ) where
  -- Where no row is at the place, none is after an update either.
  absent-update :
      (rows : List Inventory)
      → some_row (at_place p w) rows ≡ false
      → some_row (at_version p w v) (update (reservable p w q v) (add_reserved q time) rows) ≡ false
  unfolding some_row update at_version reservable add_reserved
  absent-update [] h = refl
  absent-update (i ∷ is) h = ground (arith, absent-update is)

  pub absent-reservable :
      (rows : List Inventory)
      → some_row (at_place p w) rows ≡ false
      → some_row (reservable p w q v) rows ≡ false
  unfolding some_row reservable at_version
  absent-reservable [] h = refl
  absent-reservable (i ∷ is) h = ground (arith, absent-reservable is)

  -- A reservation at a version leaves no row at that version.
  reserve_once :
      (rows : List Inventory)
      → UniquePlaces rows
      → some_row (reservable p w q v) rows ≡ true
      → some_row (at_version p w v) (update (reservable p w q v) (add_reserved q time) rows) ≡ false
  unfolding some_row update reservable at_version add_reserved at_place
  reserve_once [] u h = cc
  reserve_once (i ∷ is) u h = ground (
    arith,
    reserve_once is u.1,
    absent-update is,
    absent-reservable is,
    eq_iff i.product_id p,
    eq_iff i.warehouse_id w,
  )

not_reservable :
    (p w : String) (q : ℤ) (v : ℕ) (rows : List Inventory)
    → some_row (at_version p w v) rows ≡ false
    → some_row (reservable p w q v) rows ≡ false
unfolding some_row reservable
not_reservable p w q v [] h = refl
not_reservable p w q v (i ∷ is) h = ground (arith, not_reservable p w q v is)

-- Of two reservations of a row at one version, of which the first is possible, the first succeeds,
-- and the second fails with ErrConcurrentModification and writes nothing, where no two rows have one
-- product and warehouse and no call fails.
pub second_reserve_conflicts :
    (ids : ℕ → String) (p w : String) (q q' : ℤ) (v : ℕ) (W : World Db Cached)
    → UniquePlaces W.db.inventory
    → some_row (reservable p w q v) W.db.inventory ≡ true
    → let first = reserve_quantity (quiet ids) p w q v W in
      let second = reserve_quantity (quiet ids) p w q' v first.1 in
      (first.0 ≡ ok tt)
      × (second.0 ≡ err (inventory concurrent_modification))
      × (second.1.db ≡ first.1.db)
unfolding reserve_quantity now query ◌>>=◌ update_inventory require_rows pure raise
second_reserve_conflicts ids p w q q' v W u h = (rw h, rw h (rw gone), rw h (rw kept (rw gone)))
  where
    gone :
        some_row
          (reservable p w q' v)
          (update (reservable p w q v) (add_reserved q W.calls) W.db.inventory)
        ≡ false
    gone = not_reservable p w q' v _ (reserve_once p w q v W.calls W.db.inventory u h)

    kept :
        update
          (reservable p w q' v)
          (add_reserved q' (later 2 W.calls))
          (update (reservable p w q v) (add_reserved q W.calls) W.db.inventory)
        ≡ update (reservable p w q v) (add_reserved q W.calls) W.db.inventory
    kept = update-none _ _ _ gone
