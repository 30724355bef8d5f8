-- ===== src/Inventory/Coherence/Calls.antt =====
-- The operations of internal/inventory/adapter/cache/inventory_repo.go, one by one, against what the
-- repository promises.
use realtime_order_inventory.Prelude.{
  ℕ, suc, ◌≡◌, refl, ◌∙◌, ap, subst, String, inl, inr, ◌∷◌, [], ◌++◌, find, select, update, ◌==◌,
}
use realtime_order_inventory.Prelude.Int.{ℤ}
use realtime_order_inventory.Errors.{inventory, inventory_not_found, ok, err}
use realtime_order_inventory.Exec.{World, ◌>>=◌, pure, now}
use realtime_order_inventory.Redis.{Cache}
use realtime_order_inventory.Redis.Reading.{IsReliable, query_reliable}
use realtime_order_inventory.Inventory.Domain.{
  Inventory, Db, Cached, cached_inventory, cached_inventories, cached_warehouse,
}
use realtime_order_inventory.Inventory.Postgres
use realtime_order_inventory.Inventory.Postgres.{
  E, M, or_missing, at_place, insert_inventory, update_inventory, at_version, adjust, reservable,
  add_reserved, releasable, sub_reserved, create_in_tx, unique_violation, foreign_key_violation,
}
use realtime_order_inventory.Inventory.Repository.{InventoryRepository, inventory_repository}
use realtime_order_inventory.Inventory.Cache
use realtime_order_inventory.Inventory.Cache.{
  inventory_cache, as_inventory, as_inventories, as_warehouse, inventory_by_product_warehouse_key,
  inventory_by_product_key, warehouse_code_key,
}
use realtime_order_inventory.Inventory.Coherence.Keys.{HasNoColon}
use realtime_order_inventory.Inventory.Coherence.Rows.{update-IsLocal, append-IsLocal}
use realtime_order_inventory.Inventory.Coherence.Entries.{
  IsCoherent, IsCoherent-place, IsCoherent-product, IsCoherent-warehouse,
}
use realtime_order_inventory.Inventory.Coherence.Tables.{
  Call, create, get, get_all, update_stock, reserve, release, warehouse, done, row, rows, place,
  promised, perform,
}
use realtime_order_inventory.Inventory.Coherence.Reads.{IsAsPromised, reading-IsAsPromised}
use realtime_order_inventory.Inventory.Coherence.Writes.{
  after_evict, written-IsAsPromised, refused-IsAsPromised, updating-IsAsPromised,
}
use realtime_order_inventory.Inventory.Coherence.Steps.{
  as_inventory-some, as_inventories-some, as_warehouse-some, ok-inj, or_missing_ok,
  update_stock-IsUpdateAt, reserve-IsUpdateAt, release-IsUpdateAt, insert_cases,
}

-- The identifier of a product of which one row is asked for has no colon, and no row is inserted by
-- CreateInTx, which forgets nothing.
abbrev pub IsPlain : Call → Type 0
IsPlain (get p q) = HasNoColon p
IsPlain (Call.create_in_tx x i) = ⊥
IsPlain _ = Unit {0}

-- The repository that the service is wired with.
abbrev pub cached : E → Cache → Cache → InventoryRepository
cached e stock warehouses = inventory_cache e (inventory_repository e) stock warehouses

module _ (e : E) (reliable : IsReliable e) (stock warehouses : Cache) where
  module _ (w : World Db Cached) (coherent : IsCoherent stock warehouses w.db w.store) where
    abbrev Kept : ℕ → Call → Type 0
    Kept time call =
        IsAsPromised stock warehouses (promised time call w.db)
          (perform (cached e stock warehouses) call w)

    get-Kept : (p q : String) → HasNoColon p → Kept 0 (get p q)
    unfolding Cache.get_by_product_and_warehouse Postgres.get_by_product_and_warehouse
    get-Kept p q plain =
        reading-IsAsPromised stock warehouses e reliable stock
          (inventory_by_product_warehouse_key p q) cached_inventory as_inventory
          (λ d. or_missing (inventory inventory_not_found) (find (at_place p q) d.inventory)) row w
          record {
            found = λ s i c h.
                ap (or_missing (inventory inventory_not_found))
                  (c.place p q i plain (as_inventory-some _ i h));
            kept = λ s i c h.
                IsCoherent-place stock warehouses p q i w.db s plain (or_missing_ok _ i h) c;
          }
          coherent

    get_all-Kept : (p : String) → Kept 0 (get_all p)
    unfolding Cache.get_by_product_id Postgres.get_by_product_id
    get_all-Kept p =
        reading-IsAsPromised stock warehouses e reliable stock (inventory_by_product_key p)
          cached_inventories as_inventories (λ d. ok (select (λ r. r.product_id == p) d.inventory))
          rows w
          record {
            found = λ s is c h. ap ok (c.product p is (as_inventories-some _ is h));
            kept = λ s is c h. IsCoherent-product stock warehouses p is w.db s (ok-inj h) c;
          }
          coherent

    warehouse-Kept : (code : String) → Kept 0 (warehouse code)
    unfolding Cache.get_warehouse_by_code Postgres.get_warehouse_by_code
    warehouse-Kept code =
        reading-IsAsPromised stock warehouses e reliable warehouses (warehouse_code_key code)
          cached_warehouse as_warehouse
          (λ d.
            or_missing (inventory inventory_not_found) (find (λ r. r.code == code) d.warehouses))
          place w
          record {
            found = λ s x c h.
                ap (or_missing (inventory inventory_not_found))
                  (c.warehouse code x (as_warehouse-some _ x h));
            kept = λ s x c h.
                IsCoherent-warehouse stock warehouses code x w.db s (or_missing_ok _ x h) c;
          }
          coherent

    update_stock-Kept : (p q : String) (n : ℤ) (v : ℕ) → Kept (e.now w.calls) (update_stock p q n v)
    unfolding Cache.update_stock Postgres.update_stock
    update_stock-Kept p q n v =
        updating-IsAsPromised e reliable stock warehouses p q (at_version p q v) (adjust n) w
          (update-IsLocal p q _ _ (update_stock-IsUpdateAt p q n v (e.now w.calls)) w.db.inventory)
          coherent

    reserve-Kept : (p q : String) (n : ℤ) (v : ℕ) → Kept (e.now w.calls) (reserve p q n v)
    unfolding Cache.reserve_quantity Postgres.reserve_quantity
    reserve-Kept p q n v =
        updating-IsAsPromised e reliable stock warehouses p q (reservable p q n v) (add_reserved n)
          w (update-IsLocal p q _ _ (reserve-IsUpdateAt p q n v (e.now w.calls)) w.db.inventory)
          coherent

    release-Kept : (p q : String) (n : ℤ) → Kept (e.now w.calls) (release p q n)
    unfolding Cache.release_quantity Postgres.release_quantity update_inventory ◌>>=◌ now pure
    release-Kept p q n =
        let w' : World Db Cached = record w { calls = suc w.calls } in
        let s = update_inventory (releasable p q n) (sub_reserved n (e.now w.calls)) in
        let rows' = update (releasable p q n) (sub_reserved n (e.now w.calls)) w.db.inventory in
        let w1 : World Db Cached = record w {
          db = record w.db { inventory = rows' };
          store = e.evict (suc w.calls) w.store;
          calls = suc (suc w.calls);
        } in
        written-IsAsPromised e reliable stock warehouses p q (Postgres.release_quantity e p q n) w
          w1 w.db _ (rw (query_reliable e reliable s w')) refl
          (update-IsLocal p q _ _ (release-IsUpdateAt p q n (e.now w.calls)) w.db.inventory)
          (after_evict e reliable stock warehouses (suc w.calls) w.db w.store coherent)

    abbrev inserting : World Db Cached → World Db Cached
    inserting w = record w { store = e.evict w.calls w.store; calls = suc w.calls }

    create-Kept : (i : Inventory) → Kept 0 (create i)
    unfolding Cache.create Postgres.create create_in_tx
    create-Kept i =
        let s = insert_inventory i in
        let m = Postgres.create e i in
        let p = i.product_id in
        let q = i.warehouse_id in
        let evicted = after_evict e reliable stock warehouses w.calls w.db w.store coherent in
        elim (insert_cases i w.db) [
          | inl inserted ↦
              let d' : Db = record w.db { inventory = w.db.inventory ++ i ∷ [] } in
              let w1 : World Db Cached = record (inserting w) { db = d' } in
              let run : m w ≡ (ok tt, w1) = query_reliable e reliable s w ∙ rw inserted in
              let promise : (ok done, d') ≡ promised 0 (create i) w.db = rw inserted in
              subst
                (λ x.
                  IsAsPromised stock warehouses x
                    (perform (cached e stock warehouses) (create i) w))
                promise
                (written-IsAsPromised e reliable stock warehouses p q m w w1 w.db _ run refl
                  (append-IsLocal w.db.inventory i) evicted)
          | inr (x, refused) ↦
              let run : m w ≡ (err x, inserting w) = query_reliable e reliable s w ∙ rw refused in
              let promise : (err x, w.db) ≡ promised 0 (create i) w.db = rw refused in
              subst
                (λ x.
                  IsAsPromised stock warehouses x
                    (perform (cached e stock warehouses) (create i) w))
                promise
                (refused-IsAsPromised e reliable stock warehouses p q m w (inserting w) w.db x run
                  refl evicted)
        ]

    pub call-Kept : (call : Call) → IsPlain call → Kept (e.now w.calls) call
    call-Kept (create i) plain = create-Kept i
    call-Kept (Call.create_in_tx x i) plain = absurd plain
    call-Kept (get p q) plain = get-Kept p q plain
    call-Kept (get_all p) plain = get_all-Kept p
    call-Kept (update_stock p q n v) plain = update_stock-Kept p q n v
    call-Kept (reserve p q n v) plain = reserve-Kept p q n v
    call-Kept (release p q n) plain = release-Kept p q n
    call-Kept (warehouse code) plain = warehouse-Kept code
