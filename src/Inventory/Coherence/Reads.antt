-- ===== src/Inventory/Coherence/Reads.antt =====
-- The reads of internal/inventory/adapter/cache/inventory_repo.go: from Redis or from PostgreSQL, the
-- answer is that of the tables.
use realtime_order_inventory.Prelude.{
  ℕ, ◌≡◌, refl, ◌∙◌, ap, sym, subst, String, Option, none, some, ◌∷◌,
}
use realtime_order_inventory.Errors.{Error, Result, ok, err}
use realtime_order_inventory.Exec.{World, Store, direct, pure, ◌>>=◌, read, query}
use realtime_order_inventory.Redis
use realtime_order_inventory.Redis.{Cache, full_key, lookup, without, decoded}
use realtime_order_inventory.Redis.Reading.{
  IsReliable, seen, get_reliable, set_reliable, select_reliable,
}
use realtime_order_inventory.Inventory.Domain.{Db, Cached}
use realtime_order_inventory.Inventory.Postgres.{E, M}
use realtime_order_inventory.Inventory.Repository.{InventoryRepository, inventory_repository}
use realtime_order_inventory.Inventory.Cache.{read_through}
use realtime_order_inventory.Inventory.Coherence.Tables.{Answer, answering, map_result}
use realtime_order_inventory.Inventory.Coherence.Entries.{IsCoherent, IsCoherent-evict}

module _ (stock warehouses : Cache) where
  -- A call that has answered as promised, left the tables that were promised, and right entries.
  pub record IsAsPromised (promise : Result Answer × Db) (out : Result Answer × World Db Cached)
      : Type 0 where
    pub answer : out.0 ≡ promise.0
    pub db : out.1.db ≡ promise.1
    pub coherent : IsCoherent stock warehouses promise.1 out.1.store

  -- A lookup in Redis, and what is done without it.
  module _ (e : E) (reliable : IsReliable e) {A : Type 0} (c : Cache) (key : String)
      (encode : A → Cached) (decode : Cached → Option A) (r : Db → Result A) (f : A → Answer) where
    abbrev repository : InventoryRepository
    repository = inventory_repository e

    -- The read, with an answer from Redis or without.
    abbrev pub reading : M Answer
    reading = answering f do
      hit ← Redis.get e c decode key
      read_through e repository stock warehouses c key encode (query e direct (read r)) hit

    module _ (w : World Db Cached) where
      abbrev pub resumed : Option A → Result Answer × World Db Cached
      resumed hit =
          answering f
            (read_through e repository stock warehouses c key encode (query e direct (read r)) hit)
            (seen e reliable w)

      reading_run :
          reading w ≡ resumed (decoded decode (lookup (full_key c key) (seen e reliable w).store))
      unfolding ◌>>=◌
      reading_run = rw (get_reliable e reliable c decode key w)

      abbrev loaded : World Db Cached
      loaded = seen e reliable (seen e reliable w)

      abbrev stored : A → World Db Cached
      stored a = record (seen e reliable loaded) {
        store =
            (full_key c key, encode a) ∷ without (full_key c key) (seen e reliable loaded).store;
      }

      miss_ok : (a : A) → r w.db ≡ ok a → resumed none ≡ (ok (f a), stored a)
      unfolding ◌>>=◌ read_through pure
      miss_ok a h = rw (
        select_reliable e reliable r (seen e reliable w),
        h,
        set_reliable e reliable c key (encode a) loaded,
      )

      miss_err : (x : Error) → r w.db ≡ err x → resumed none ≡ (err x, loaded)
      unfolding ◌>>=◌ read_through pure
      miss_err x h = rw (select_reliable e reliable r (seen e reliable w), h)

      -- What Redis holds for the key is right, and so is what the read would put there.
      pub record IsRight : Type 0 where
        pub found :
            (s : Store Cached) (a : A)
            → IsCoherent stock warehouses w.db s
            → decoded decode (lookup (full_key c key) s) ≡ some a
            → r w.db ≡ ok a
        pub kept :
            (s : Store Cached) (a : A)
            → IsCoherent stock warehouses w.db s
            → r w.db ≡ ok a
            → IsCoherent stock warehouses w.db
                ((full_key c key, encode a) ∷ without (full_key c key) s)

      evicted :
          (n : ℕ) (s : Store Cached)
          → IsCoherent stock warehouses w.db s
          → IsCoherent stock warehouses w.db (e.evict n s)
      evicted n s h =
          IsCoherent-evict stock warehouses w.db s (e.evict n s) (reliable.forgets n s) h

      answered :
          (hit : Option A) (x : Result A)
          → decoded decode (lookup (full_key c key) (seen e reliable w).store) ≡ hit
          → r w.db ≡ x
          → IsRight
          → IsCoherent stock warehouses w.db w.store
          → IsAsPromised (map_result f x, w.db) (resumed hit)
      unfolding ◌>>=◌ read_through pure
      answered (some a) x h k right coherent =
          let now = evicted w.calls w.store coherent in
          let same : ok a ≡ x = sym (right.found _ a now h) ∙ k in
          record { answer = ap (map_result f) same; db = refl; coherent = now }
      answered none (ok a) h k right coherent =
          let s = evicted _ _ (evicted _ _ (evicted w.calls w.store coherent)) in
          record {
            answer = ap (λ o. o.0) (miss_ok a k);
            db = ap (λ o. o.1.db) (miss_ok a k);
            coherent =
                subst (λ o. IsCoherent stock warehouses w.db o.1.store) (sym (miss_ok a k))
                  (right.kept _ a s k);
          }
      answered none (err x) h k right coherent =
          let s = evicted _ _ (evicted w.calls w.store coherent) in
          record {
            answer = ap (λ o. o.0) (miss_err x k);
            db = ap (λ o. o.1.db) (miss_err x k);
            coherent =
                subst (λ o. IsCoherent stock warehouses w.db o.1.store) (sym (miss_err x k)) s;
          }

      pub reading-IsAsPromised :
          IsRight
          → IsCoherent stock warehouses w.db w.store
          → IsAsPromised (map_result f (r w.db), w.db) (reading w)
      reading-IsAsPromised right coherent =
          subst (λ o. IsAsPromised (map_result f (r w.db), w.db) o) (sym reading_run)
            (answered _ _ refl refl right coherent)
