-- ===== src/Inventory/Coherence/Steps.antt =====
-- What the operations of internal/inventory/adapter/cache/inventory_repo.go find in an entry, and what the
-- statements behind them change.
use realtime_order_inventory.Prelude.{
  ℕ, ◌≡◌, refl, String, ◌||◌, ◌⊎◌, inl, inr, Bool-cases, some_row, Option, none, some, List, ◌∷◌,
  [], ◌++◌, ◌==◌, arith,
}
use realtime_order_inventory.Errors.{Error, inventory, inventory_not_found, ok, err}
use realtime_order_inventory.Redis.{decoded}
use realtime_order_inventory.Inventory.Domain.{
  Inventory, Warehouse, Db, Cached, cached_inventory, cached_inventories, cached_warehouse,
}
use realtime_order_inventory.Inventory.Postgres.{
  or_missing, at_place, insert_inventory, at_version, adjust, reservable, add_reserved, releasable,
  sub_reserved, unique_violation, foreign_key_violation,
}
use realtime_order_inventory.Inventory.Cache.{as_inventory, as_inventories, as_warehouse}
use realtime_order_inventory.Inventory.Coherence.Rows.{IsUpdateAt}

pub as_inventory-some :
    (x : Option Cached) (i : Inventory)
    → decoded as_inventory x ≡ some i
    → x ≡ some (cached_inventory i)
unfolding as_inventory
as_inventory-some none i h = cc
as_inventory-some (some (cached_inventory j)) i h = cc
as_inventory-some (some (cached_inventories is)) i h = cc
as_inventory-some (some (cached_warehouse x)) i h = cc

pub as_inventories-some :
    (x : Option Cached) (is : List Inventory)
    → decoded as_inventories x ≡ some is
    → x ≡ some (cached_inventories is)
unfolding as_inventories
as_inventories-some none is h = cc
as_inventories-some (some (cached_inventory j)) is h = cc
as_inventories-some (some (cached_inventories js)) is h = cc
as_inventories-some (some (cached_warehouse x)) is h = cc

pub as_warehouse-some :
    (x : Option Cached) (a : Warehouse)
    → decoded as_warehouse x ≡ some a
    → x ≡ some (cached_warehouse a)
unfolding as_warehouse
as_warehouse-some none a h = cc
as_warehouse-some (some (cached_inventory j)) a h = cc
as_warehouse-some (some (cached_inventories js)) a h = cc
as_warehouse-some (some (cached_warehouse x)) a h = cc

pub ok-inj : {A : Type 0} {a b : A} → ok a ≡ ok b → a ≡ b
ok-inj h = cc

pub or_missing_ok :
    {A : Type 0} (x : Option A) (a : A)
    → or_missing (inventory inventory_not_found) x ≡ ok a
    → x ≡ some a
or_missing_ok none a h = cc
or_missing_ok (some b) a h = cc

pub update_stock-IsUpdateAt :
    (p q : String) (n : _) (v time : ℕ) → IsUpdateAt p q (at_version p q v) (adjust n time)
unfolding at_version adjust
update_stock-IsUpdateAt p q n v time = record {
  here = λ i h. ground arith;
  product = λ i. refl;
  warehouse = λ i. refl;
}

pub reserve-IsUpdateAt :
    (p q : String) (n : _) (v time : ℕ) → IsUpdateAt p q (reservable p q n v) (add_reserved n time)
unfolding at_version reservable add_reserved
reserve-IsUpdateAt p q n v time = record {
  here = λ i h. ground arith;
  product = λ i. refl;
  warehouse = λ i. refl;
}

pub release-IsUpdateAt :
    (p q : String) (n : _) (time : ℕ) → IsUpdateAt p q (releasable p q n) (sub_reserved n time)
unfolding releasable sub_reserved
release-IsUpdateAt p q n time = record {
  here = λ i h. ground arith;
  product = λ i. refl;
  warehouse = λ i. refl;
}

pub insert_cases :
    (i : Inventory) (d : Db)
    → (insert_inventory i d ≡ ok (tt, record d { inventory = d.inventory ++ i ∷ [] }))
      ⊎ ((x : Error) × (insert_inventory i d ≡ err x))
unfolding insert_inventory
insert_cases i d =
    elim (Bool-cases
      (some_row (λ r. (r.id == i.id) || at_place i.product_id i.warehouse_id r) d.inventory)) [
        | inl taken ↦ inr (unique_violation, rw taken)
        | inr free ↦ elim (Bool-cases (some_row (λ r. r.id == i.warehouse_id) d.warehouses)) [
          | inl known ↦ inl (rw (free, known))
          | inr unknown ↦ inr (foreign_key_violation, rw (free, unknown))
        ]
      ]
