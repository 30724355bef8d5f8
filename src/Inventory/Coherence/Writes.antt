-- ===== src/Inventory/Coherence/Writes.antt =====
-- The writes of internal/inventory/adapter/cache/inventory_repo.go: PostgreSQL's, after which the
-- entries of the row and of its product are gone.
use realtime_order_inventory.Prelude.{
  ℕ, suc, ◌≡◌, refl, ◌∙◌, sym, subst, String, Bool, List, ◌∷◌, [], inl, inr, Bool-cases, some_row,
  update, update-none,
}
use realtime_order_inventory.Errors.{Error, inventory, concurrent_modification, ok, err}
use realtime_order_inventory.Exec.{World, Store, direct, pure, raise, ◌>>=◌, ◌>>◌, query, now}
use realtime_order_inventory.Exec.Runs.{bind_err}
use realtime_order_inventory.Redis.{Cache, remove_all}
use realtime_order_inventory.Redis.Reading.{IsReliable, seen, delete_reliable, query_reliable}
use realtime_order_inventory.Inventory.Domain.{Inventory, Db, Cached}
use realtime_order_inventory.Inventory.Postgres.{E, M, update_inventory, require_rows}
use realtime_order_inventory.Inventory.Repository.{inventory_repository}
use realtime_order_inventory.Inventory.Cache.{forget_stock}
use realtime_order_inventory.Inventory.Coherence.Tables.{done, answering, write}
use realtime_order_inventory.Inventory.Coherence.Rows.{IsLocal}
use realtime_order_inventory.Inventory.Coherence.Entries.{
  IsCoherent, IsCoherent-evict, IsCoherent-write, place_key, product_key,
}
use realtime_order_inventory.Inventory.Coherence.Reads.{IsAsPromised}

module _ (e : E) (reliable : IsReliable e) (stock warehouses : Cache) where
  abbrev forget : String → String → M (Unit {0})
  forget p q = forget_stock e (inventory_repository e) stock warehouses p q

  pub after_evict :
      (n : ℕ) (d : Db) (s : Store Cached)
      → IsCoherent stock warehouses d s
      → IsCoherent stock warehouses d (e.evict n s)
  after_evict n d s h = IsCoherent-evict stock warehouses d s (e.evict n s) (reliable.forgets n s) h

  module _ (p q : String) (m : M (Unit {0})) (w w1 : World Db Cached) where
    forgot : World Db Cached
    forgot = record (seen e reliable w1) {
      store =
          remove_all (place_key stock warehouses p q ∷ product_key stock warehouses p ∷ [])
            (seen e reliable w1).store;
    }

    written_run : m w ≡ (ok tt, w1) → answering (λ _. done) (m >> forget p q) w ≡ (ok done, forgot)
    unfolding ◌>>=◌ forget_stock pure forgot
    written_run h = rw (h, delete_reliable e reliable stock _ w1)

    -- A write that has succeeded.
    pub written-IsAsPromised :
        (d : Db) (rows : List Inventory)
        → m w ≡ (ok tt, w1)
        → w1.db ≡ record d { inventory = rows }
        → IsLocal p q d.inventory rows
        → IsCoherent stock warehouses d w1.store
        → IsAsPromised stock warehouses
            (ok done, record d { inventory = rows })
            (answering (λ _. done) (m >> forget p q) w)
    unfolding forgot
    written-IsAsPromised d rows h k local coherent =
        let removed =
          IsCoherent-write stock warehouses p q d rows (seen e reliable w1).store local
            (after_evict w1.calls d w1.store coherent) in
        subst (λ o. IsAsPromised stock warehouses (ok done, record d { inventory = rows }) o)
          (sym (written_run h)) record { answer = refl; db = k; coherent = removed }

    -- A write that was refused.
    pub refused-IsAsPromised :
        (d : Db) (x : Error)
        → m w ≡ (err x, w1)
        → w1.db ≡ d
        → IsCoherent stock warehouses d w1.store
        → IsAsPromised stock warehouses (err x, d) (answering (λ _. done) (m >> forget p q) w)
    unfolding ◌>>=◌
    refused-IsAsPromised d x h k coherent =
        subst (λ o. IsAsPromised stock warehouses (err x, d) o)
          (sym (bind_err (m >> forget p q) _ w x w1 (bind_err m _ w x w1 h)))
          record { answer = refl; db = k; coherent = coherent }

  -- An UPDATE whose number of rows is looked at.
  abbrev pub updating : (Inventory → Bool) → (ℕ → Inventory → Inventory) → M (Unit {0})
  updating chosen f = do
    time ← now e
    rows ← query e direct (update_inventory chosen (f time))
    require_rows rows

  module _ (p q : String) (chosen : Inventory → Bool) (f : ℕ → Inventory → Inventory)
      (w : World Db Cached) where
    abbrev pub time : ℕ
    time = e.now w.calls

    abbrev updated : World Db Cached
    updated = record w {
      db = record w.db { inventory = update chosen (f time) w.db.inventory };
      store = e.evict (suc w.calls) w.store;
      calls = suc (suc w.calls);
    }

    updating_run : updating chosen f w ≡ require_rows (some_row chosen w.db.inventory) updated
    unfolding ◌>>=◌ now update_inventory
    updating_run = rw (
        query_reliable e reliable (update_inventory chosen (f time))
          (record w { calls = suc w.calls }))

    pub updating-IsAsPromised :
        IsLocal p q w.db.inventory (update chosen (f time) w.db.inventory)
        → IsCoherent stock warehouses w.db w.store
        → IsAsPromised stock warehouses
            (write chosen (f time) w.db)
            (answering (λ _. done) (updating chosen f >> forget p q) w)
    unfolding require_rows pure raise
    updating-IsAsPromised local coherent =
        let evicted = after_evict (suc w.calls) w.db w.store coherent in
        let m = updating chosen f in
        elim (Bool-cases (some_row chosen w.db.inventory)) [
          | inl hit ↦
              let run : m w ≡ (ok tt, updated) = updating_run ∙ rw hit in
              let promise : (ok done, updated.db) ≡ write chosen (f time) w.db = rw hit in
              subst
                (λ x. IsAsPromised stock warehouses x (answering (λ _. done) (m >> forget p q) w))
                promise (written-IsAsPromised p q m w updated w.db _ run refl local evicted)
          | inr miss ↦
              let x = inventory concurrent_modification in
              let run : m w ≡ (err x, updated) = updating_run ∙ rw miss in
              let promise : (err x, w.db) ≡ write chosen (f time) w.db = rw miss in
              let unchanged : updated.db ≡ w.db =
                rw (update-none chosen (f time) w.db.inventory miss) in
              subst
                (λ x. IsAsPromised stock warehouses x (answering (λ _. done) (m >> forget p q) w))
                promise (refused-IsAsPromised p q m w updated w.db x run unchanged evicted)
        ]
