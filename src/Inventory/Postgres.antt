-- ===== src/Inventory/Postgres.antt =====
-- internal/inventory/adapter/postgres/inventory_repo.go: each SQL text as a statement over the
-- tables, and the repository methods that send it. Unique keys are those of migrations/inventory.
use realtime_order_inventory.Prelude.{
  ℕ, suc, String, Bool, true, false, ◌&&◌, ◌||◌, not, Option, none, some, List, [], ◌∷◌, ◌++◌, ◌==◌,
  if◌then◌else◌, find, select, update, some_row, leb,
}
use realtime_order_inventory.Prelude.Int.{ℤ, ◌+ℤ◌, ◌-ℤ◌, leb_ℤ}
use realtime_order_inventory.Errors.{
  Error, inventory, driver, inventory_not_found, concurrent_modification, Result, ok, err,
}
use realtime_order_inventory.Exec.{
  Env, Exec, Executor, direct, Stmt, read, pure, raise, ◌>>=◌, ◌>>◌, query, now,
}
use realtime_order_inventory.Inventory.Domain.{Warehouse, Inventory, Db, Cached}

abbrev pub M : Type 0 → Type 0
M = Exec Db Cached

abbrev pub E : Type 0
E = Env Db Cached

-- WHERE product_id = $p AND warehouse_id = $w
unfoldable pub at_place : String → String → Inventory → Bool
at_place p w r = (r.product_id == p) && (r.warehouse_id == w)

abbrev pub unique_violation : Error
unique_violation = driver "pq: duplicate key value violates unique constraint"

abbrev pub foreign_key_violation : Error
foreign_key_violation = driver "pq: insert violates foreign key constraint"

abbrev pub not_null_violation : Error
not_null_violation = driver "pq: null value violates not-null constraint"

-- sql.ErrNoRows becomes the domain's error.
abbrev pub or_missing : {A : Type 0} → Error → Option A → Result A
or_missing x none = err x
or_missing x (some a) = ok a

unfoldable pub insert_inventory : Inventory → Stmt Db (Unit {0})
unfolding at_place
insert_inventory i d =
    if some_row (λ r. (r.id == i.id) || at_place i.product_id i.warehouse_id r) d.inventory
    then err unique_violation
    else if not (some_row (λ r. r.id == i.warehouse_id) d.warehouses)
    then err foreign_key_violation
    else ok (tt, record d { inventory = d.inventory ++ i ∷ [] })

unfoldable pub create_in_tx : E → Executor → Inventory → M (Unit {0})
create_in_tx e x i = query e x (insert_inventory i)

unfoldable pub create : E → Inventory → M (Unit {0})
unfolding create_in_tx
create e i = create_in_tx e direct i

unfoldable pub get_by_product_and_warehouse : E → String → String → M Inventory
unfolding at_place
get_by_product_and_warehouse e p w =
    query e direct
      (read λ d. or_missing (inventory inventory_not_found) (find (at_place p w) d.inventory))

unfoldable pub get_by_product_id : E → String → M (List Inventory)
get_by_product_id e p = query e direct (read λ d. ok (select (λ r. r.product_id == p) d.inventory))

-- An UPDATE with the number of rows that it changed, as far as the code asks: is it zero?
unfoldable pub update_inventory : (Inventory → Bool) → (Inventory → Inventory) → Stmt Db Bool
update_inventory p f d =
    ok (some_row p d.inventory, record d { inventory = update p f d.inventory })

-- if rows == 0 { return domain.ErrConcurrentModification }
unfoldable pub require_rows : Bool → M (Unit {0})
require_rows true = pure tt
require_rows false = raise (inventory concurrent_modification)

abbrev same_version : ℕ → ℕ → Bool
same_version a b = leb a b && leb b a

-- WHERE product_id = $3 AND warehouse_id = $4 AND version = $5
unfoldable pub at_version : String → String → ℕ → Inventory → Bool
unfolding at_place
at_version p w v r = at_place p w r && same_version r.version v

unfoldable pub adjust : ℤ → ℕ → Inventory → Inventory
adjust change time r = record r {
  quantity_on_hand = r.quantity_on_hand +ℤ change;
  version = suc r.version;
  updated_at = time;
}

unfoldable pub update_stock : E → String → String → ℤ → ℕ → M (Unit {0})
update_stock e p w change expected = do
  time ← now e
  rows ← query e direct (update_inventory (at_version p w expected) (adjust change time))
  require_rows rows

-- ... AND (quantity_on_hand - quantity_reserved) >= $1
unfoldable pub reservable : String → String → ℤ → ℕ → Inventory → Bool
unfolding at_version
reservable p w q v r = at_version p w v r && leb_ℤ q (r.quantity_on_hand -ℤ r.quantity_reserved)

unfoldable pub add_reserved : ℤ → ℕ → Inventory → Inventory
add_reserved q time r = record r {
  quantity_reserved = r.quantity_reserved +ℤ q;
  version = suc r.version;
  updated_at = time;
}

unfoldable pub reserve_quantity : E → String → String → ℤ → ℕ → M (Unit {0})
reserve_quantity e p w q expected = do
  time ← now e
  rows ← query e direct (update_inventory (reservable p w q expected) (add_reserved q time))
  require_rows rows

-- WHERE product_id = $3 AND warehouse_id = $4 AND quantity_reserved >= $1
unfoldable pub releasable : String → String → ℤ → Inventory → Bool
unfolding at_place
releasable p w q r = at_place p w r && leb_ℤ q r.quantity_reserved

unfoldable pub sub_reserved : ℤ → ℕ → Inventory → Inventory
sub_reserved q time r = record r { quantity_reserved = r.quantity_reserved -ℤ q; updated_at = time }

-- The number of rows is not looked at.
unfoldable pub release_quantity : E → String → String → ℤ → M (Unit {0})
release_quantity e p w q = do
  time ← now e
  query e direct (update_inventory (releasable p w q) (sub_reserved q time))
  pure tt

unfoldable pub get_warehouse_by_code : E → String → M Warehouse
get_warehouse_by_code e code =
    query e direct (
      read
        λ d. or_missing (inventory inventory_not_found) (find (λ r. r.code == code) d.warehouses))
