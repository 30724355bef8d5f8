-- ===== src/Inventory/Coherence/Tables.antt =====
-- What the InventoryRepository promises, stated over the tables alone: the answer to a call and the
-- tables after it, at the time of the call. And the calls themselves, made of any implementation.
use realtime_order_inventory.Prelude.{
  ℕ, String, Bool, List, [], ◌∷◌, ◌==◌, if◌then◌else◌, find, select, update, some_row,
}
use realtime_order_inventory.Prelude.Int.{ℤ}
use realtime_order_inventory.Errors.{
  inventory, inventory_not_found, concurrent_modification, Result, ok, err,
}
use realtime_order_inventory.Exec.{Executor, World, pure, ◌>>=◌, value_of, after}
use realtime_order_inventory.Inventory.Domain.{Inventory, Warehouse, Db, Cached}
use realtime_order_inventory.Inventory.Postgres.{
  M, at_place, insert_inventory, at_version, adjust, reservable, add_reserved, releasable,
  sub_reserved, or_missing,
}
use realtime_order_inventory.Inventory.Repository.{InventoryRepository}

pub data Call : Type 0 where
  create : Inventory → Call
  create_in_tx : Executor → Inventory → Call
  get : String → String → Call
  get_all : String → Call
  update_stock reserve : String → String → ℤ → ℕ → Call
  release : String → String → ℤ → Call
  warehouse : String → Call

pub data Answer : Type 0 where
  done : Answer
  row : Inventory → Answer
  rows : List Inventory → Answer
  place : Warehouse → Answer

abbrev pub map_result : {A B : Type 0} → (A → B) → Result A → Result B
map_result f (ok a) = ok (f a)
map_result f (err x) = err x

-- A write of the rows that pass the test: it is refused where there are none.
abbrev pub write : (Inventory → Bool) → (Inventory → Inventory) → Db → Result Answer × Db
write chosen f d =
    if some_row chosen d.inventory
    then (ok done, record d { inventory = update chosen f d.inventory })
    else (err (inventory concurrent_modification), d)

-- The promise.
abbrev pub promised : ℕ → Call → Db → Result Answer × Db
promised time (create i) d =
    (map_result (λ _. done) (value_of (insert_inventory i d)), after (insert_inventory i) d)
promised time (create_in_tx x i) d =
    (map_result (λ _. done) (value_of (insert_inventory i d)), after (insert_inventory i) d)
promised time (get p q) d = (
  map_result row (or_missing (inventory inventory_not_found) (find (at_place p q) d.inventory)),
  d,
)
promised time (get_all p) d = (ok (rows (select (λ r. r.product_id == p) d.inventory)), d)
promised time (update_stock p q change v) d = write (at_version p q v) (adjust change time) d
promised time (reserve p q n v) d = write (reservable p q n v) (add_reserved n time) d
promised time (release p q n) d =
    (ok done, record d { inventory = update (releasable p q n) (sub_reserved n time) d.inventory })
promised time (warehouse code) d = (
  map_result place
      (or_missing (inventory inventory_not_found) (find (λ r. r.code == code) d.warehouses)),
  d,
)

-- A sequence of calls, each at its time: the answers in order, and the tables in the end.
abbrev pub promised_all : List (ℕ × Call) → Db → List (Result Answer) × Db
promised_all [] d = ([], d)
promised_all ((time, call) ∷ calls) d =
    let (answer, d') = promised time call d in
    let (answers, d'') = promised_all calls d' in (answer ∷ answers, d'')

abbrev pub answering : {A : Type 0} → (A → Answer) → M A → M Answer
answering f m = m >>= λ a. pure (f a)

module _ (r : InventoryRepository) where
  -- A call of the repository.
  abbrev pub perform : Call → M Answer
  perform (create i) = answering (λ _. done) (r.create i)
  perform (create_in_tx x i) = answering (λ _. done) (r.create_in_tx x i)
  perform (get p q) = answering row (r.get_by_product_and_warehouse p q)
  perform (get_all p) = answering rows (r.get_by_product_id p)
  perform (update_stock p q change v) = answering (λ _. done) (r.update_stock p q change v)
  perform (reserve p q n v) = answering (λ _. done) (r.reserve_quantity p q n v)
  perform (release p q n) = answering (λ _. done) (r.release_quantity p q n)
  perform (warehouse code) = answering place (r.get_warehouse_by_code code)

  abbrev pub perform_all : List Call → World Db Cached → List (Result Answer) × World Db Cached
  perform_all [] w = ([], w)
  perform_all (call ∷ calls) w =
      let (answer, w') = perform call w in
      let (answers, w'') = perform_all calls w' in (answer ∷ answers, w'')
