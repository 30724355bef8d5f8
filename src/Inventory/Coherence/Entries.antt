-- ===== src/Inventory/Coherence/Entries.antt =====
-- What the entries in Redis say of the tables of the inventory service.
use realtime_order_inventory.Prelude.{
  ◌≡◌, ◌∙◌, subst, String, true, false, ◌&&◌, inl, inr, Bool-cases, some, List, [], ◌∷◌, ◌==◌,
  eq_iff, eq_refl, find, select, arith,
}
use realtime_order_inventory.Exec.{Store}
use realtime_order_inventory.Redis.{Cache, full_key, lookup, without, remove_all}
use realtime_order_inventory.Redis.Laws.{set_cases, remove_cases}
use realtime_order_inventory.Inventory.Domain.{
  Inventory, Warehouse, Db, Cached, cached_inventory, cached_inventories, cached_warehouse,
}
use realtime_order_inventory.Inventory.Postgres.{at_place}
use realtime_order_inventory.Inventory.Cache.{
  inventory_by_product_warehouse_key, inventory_by_product_key, warehouse_code_key,
}
use realtime_order_inventory.Inventory.Coherence.Keys.{
  HasNoColon, place_key-inj, product_key-inj, warehouse_key-inj,
}
use realtime_order_inventory.Inventory.Coherence.Rows.{IsLocal}

module _ (stock warehouses : Cache) where
  abbrev pub place_key : String → String → String
  place_key p q = full_key stock (inventory_by_product_warehouse_key p q)

  abbrev pub product_key : String → String
  product_key p = full_key stock (inventory_by_product_key p)

  abbrev pub warehouse_key : String → String
  warehouse_key code = full_key warehouses (warehouse_code_key code)

  -- An entry is what PostgreSQL would answer.
  pub record IsCoherent (d : Db) (s : Store Cached) : Type 0 where
    pub place :
        (p q : String) (i : Inventory)
        → HasNoColon p
        → lookup (place_key p q) s ≡ some (cached_inventory i)
        → find (at_place p q) d.inventory ≡ some i
    pub product :
        (p : String) (is : List Inventory)
        → lookup (product_key p) s ≡ some (cached_inventories is)
        → select (λ r. r.product_id == p) d.inventory ≡ is
    pub warehouse :
        (code : String) (x : Warehouse)
        → lookup (warehouse_key code) s ≡ some (cached_warehouse x)
        → find (λ r. r.code == code) d.warehouses ≡ some x

  differ_place :
      (p q p' q' : String)
      → (place_key p q == place_key p' q') ≡ false
      → ((p == p') && (q == q')) ≡ false
  differ_place p q p' q' h = elim (Bool-cases ((p == p') && (q == q'))) [
    | inl same ↦
        let e : p ≡ p' = ground (arith, eq_iff p p') in
        let e' : q ≡ q' = ground (arith, eq_iff q q') in
        let k : (place_key p q == place_key p' q') ≡ true =
          subst (λ x. (place_key p q == place_key x q') ≡ true) e
            (subst (λ x. (place_key p q == place_key p x) ≡ true) e' (eq_refl (place_key p q))) in
        cc
    | inr other ↦ other
  ]

  differ_product : (p p' : String) → (product_key p == product_key p') ≡ false → (p == p') ≡ false
  differ_product p p' h = elim (Bool-cases (p == p')) [
    | inl same ↦
        let e : p ≡ p' = ground (arith, eq_iff p p') in
        let k : (product_key p == product_key p') ≡ true =
          subst (λ x. (product_key p == product_key x) ≡ true) e (eq_refl (product_key p)) in
        cc
    | inr other ↦ other
  ]

  -- Redis forgets.
  pub IsCoherent-evict :
      (d : Db) (s s' : Store Cached)
      → ((k : String) (v : Cached) → lookup k s' ≡ some v → lookup k s ≡ some v)
      → IsCoherent d s
      → IsCoherent d s'
  IsCoherent-evict d s s' forgets h = record {
    place = λ p q i n f. h.place p q i n (forgets _ _ f);
    product = λ p is f. h.product p is (forgets _ _ f);
    warehouse = λ code x f. h.warehouse code x (forgets _ _ f);
  }

  -- A write at one place, and the DEL of its keys.
  pub IsCoherent-write :
      (p q : String) (d : Db) (rows : List Inventory) (s : Store Cached)
      → IsLocal p q d.inventory rows
      → IsCoherent d s
      → IsCoherent
          (record d { inventory = rows })
          (remove_all (place_key p q ∷ product_key p ∷ []) s)
  IsCoherent-write p q d rows s local h = record {
    place = λ p' q' i n f.
        let (away, _, found) = remove_cases _ _ _ _ s f in
        local.place p' q' i (differ_place p q p' q' away) (h.place p' q' i n found);
    product = λ p' is f.
        let (_, away, found) = remove_cases _ _ _ _ s f in
        local.product p' (differ_product p p' away) ∙ h.product p' is found;
    warehouse =
        λ code x f. let (_, _, found) = remove_cases _ _ _ _ s f in h.warehouse code x found;
  }

  -- The SET of an answer of PostgreSQL.
  pub IsCoherent-place :
      (p q : String) (i : Inventory) (d : Db) (s : Store Cached)
      → HasNoColon p
      → find (at_place p q) d.inventory ≡ some i
      → IsCoherent d s
      → IsCoherent d ((place_key p q, cached_inventory i) ∷ without (place_key p q) s)
  IsCoherent-place p q i d s n f h = record {
    place = λ p' q' i' n' f'. elim (set_cases _ _ _ _ s f') [
      | inl (k, v) ↦
          let (e, e') = place_key-inj stock p p' q q' n n' k in
          subst (λ x. find (at_place x q') d.inventory ≡ some i') e
            (subst (λ x. find (at_place p x) d.inventory ≡ some i') e' (f ∙ cc))
      | inr old ↦ h.place p' q' i' n' old
    ];
    product = λ p' is f'. elim (set_cases _ _ _ _ s f') [
      | inl (k, v) ↦ cc
      | inr old ↦ h.product p' is old
    ];
    warehouse = λ code x f'. elim (set_cases _ _ _ _ s f') [
      | inl (k, v) ↦ cc
      | inr old ↦ h.warehouse code x old
    ];
  }

  pub IsCoherent-product :
      (p : String) (is : List Inventory) (d : Db) (s : Store Cached)
      → select (λ r. r.product_id == p) d.inventory ≡ is
      → IsCoherent d s
      → IsCoherent d ((product_key p, cached_inventories is) ∷ without (product_key p) s)
  IsCoherent-product p is d s f h = record {
    place = λ p' q' i' n' f'. elim (set_cases _ _ _ _ s f') [
      | inl (k, v) ↦ cc
      | inr old ↦ h.place p' q' i' n' old
    ];
    product = λ p' is' f'. elim (set_cases _ _ _ _ s f') [
      | inl (k, v) ↦
          subst (λ x. select (λ r. r.product_id == x) d.inventory ≡ is')
            (product_key-inj stock p p' k) (f ∙ cc)
      | inr old ↦ h.product p' is' old
    ];
    warehouse = λ code x f'. elim (set_cases _ _ _ _ s f') [
      | inl (k, v) ↦ cc
      | inr old ↦ h.warehouse code x old
    ];
  }

  pub IsCoherent-warehouse :
      (code : String) (x : Warehouse) (d : Db) (s : Store Cached)
      → find (λ r. r.code == code) d.warehouses ≡ some x
      → IsCoherent d s
      → IsCoherent d ((warehouse_key code, cached_warehouse x) ∷ without (warehouse_key code) s)
  IsCoherent-warehouse code x d s f h = record {
    place = λ p' q' i' n' f'. elim (set_cases _ _ _ _ s f') [
      | inl (k, v) ↦ cc
      | inr old ↦ h.place p' q' i' n' old
    ];
    product = λ p' is' f'. elim (set_cases _ _ _ _ s f') [
      | inl (k, v) ↦ cc
      | inr old ↦ h.product p' is' old
    ];
    warehouse = λ code' x' f'. elim (set_cases _ _ _ _ s f') [
      | inl (k, v) ↦
          subst (λ c. find (λ r. r.code == c) d.warehouses ≡ some x')
            (warehouse_key-inj warehouses code code' k) (f ∙ cc)
      | inr old ↦ h.warehouse code' x' old
    ];
  }
