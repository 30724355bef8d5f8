-- ===== src/Inventory/Safety/Cache.antt =====
-- The Redis repository keeps the invariant where the one behind it does: it adds no write.
use realtime_order_inventory.Prelude.{String, List, Option, none, some}
use realtime_order_inventory.Exec.{World, Store}
use realtime_order_inventory.Exec.Keeps.{
  Keeps, Holds, Relies, Keeps-bind, Keeps-pure, advance-Holds, on_fault-Holds,
}
use realtime_order_inventory.Redis
use realtime_order_inventory.Redis.{Cache}
use realtime_order_inventory.Inventory.Domain.{Cached}
use realtime_order_inventory.Inventory.Postgres.{M, E}
use realtime_order_inventory.Inventory.Repository.{InventoryRepository}
use realtime_order_inventory.Inventory.Cache.{
  inventory_cache, read_through, forget_stock, create, get_by_product_and_warehouse,
  get_by_product_id, update_stock, reserve_quantity, release_quantity, get_warehouse_by_code,
}
use realtime_order_inventory.Inventory.Safety.Rows.{IsSound}
use realtime_order_inventory.Inventory.Safety.Postgres.{KeepsStock}

same :
    {D V : Type 0} {I : D → Type 0} (w : World D V) (store : Store V)
    → Holds I w
    → Holds I (record w { store = store })
same w store h = record { committed = h.committed; pending = h.pending }

module _ (e : E) (rely : Relies IsSound e) where
  get-Keeps :
      {A : Type 0} (c : Cache) (decode : Cached → Option A) (key : String)
      → Keeps (Holds IsSound) (Redis.get e c decode key)
  unfolding Redis.get
  get-Keeps c decode key = record {
    at = λ w h.
        let a = advance-Holds e rely w h in on_fault-Holds e rely (e.fault w.calls) _ _ a (λ _. a);
  }

  set-Keeps : (c : Cache) (key : String) (v : Cached) → Keeps (Holds IsSound) (Redis.set e c key v)
  unfolding Redis.set
  set-Keeps c key v = record {
    at = λ w h.
        let a = advance-Holds e rely w h in
        on_fault-Holds e rely (e.fault w.calls) _ _ (same _ _ a) (λ _. a);
  }

  delete-Keeps : (c : Cache) (keys : List String) → Keeps (Holds IsSound) (Redis.delete e c keys)
  unfolding Redis.delete
  delete-Keeps c keys = record {
    at = λ w h.
        let a = advance-Holds e rely w h in
        on_fault-Holds e rely (e.fault w.calls) _ _ (same _ _ a) (λ _. a);
  }

  module _ (inner : InventoryRepository) (stock_cache warehouse_cache : Cache) where
    read_through-Keeps :
        {A : Type 0} (cache : Cache) (key : String) (encode : A → Cached) (load : M A)
        (hit : Option A)
        → Keeps (Holds IsSound) load
        → Keeps
            (Holds IsSound)
            (read_through e inner stock_cache warehouse_cache cache key encode load hit)
    unfolding read_through
    read_through-Keeps cache key encode load (some a) k = Keeps-pure a
    read_through-Keeps cache key encode load none k =
        Keeps-bind load _ k λ a. Keeps-bind _ _ (set-Keeps cache key (encode a)) λ _. Keeps-pure a

    forget-Keeps :
        (p w : String)
        → Keeps (Holds IsSound) (forget_stock e inner stock_cache warehouse_cache p w)
    unfolding forget_stock
    forget-Keeps p w = delete-Keeps stock_cache _

    pub inventory_cache-KeepsStock :
        KeepsStock inner → KeepsStock (inventory_cache e inner stock_cache warehouse_cache)
    unfolding create get_by_product_and_warehouse get_by_product_id update_stock reserve_quantity
        release_quantity get_warehouse_by_code
    inventory_cache-KeepsStock k = record {
      create = λ i s. Keeps-bind _ _ (k.create i s) λ _. forget-Keeps _ _;
      get = λ p w.
          Keeps-bind _ _ (get-Keeps stock_cache _ _)
            λ hit. read_through-Keeps _ _ _ _ hit (k.get p w);
      get_all = λ p.
          Keeps-bind _ _ (get-Keeps stock_cache _ _)
            λ hit. read_through-Keeps _ _ _ _ hit (k.get_all p);
      warehouse = λ code.
          Keeps-bind _ _ (get-Keeps warehouse_cache _ _)
            λ hit. read_through-Keeps _ _ _ _ hit (k.warehouse code);
      adjust = λ p w change v h. Keeps-bind _ _ (k.adjust p w change v h) λ _. forget-Keeps p w;
      reserve = λ p w q v h. Keeps-bind _ _ (k.reserve p w q v h) λ _. forget-Keeps p w;
      release = λ p w q h. Keeps-bind _ _ (k.release p w q h) λ _. forget-Keeps p w;
    }
