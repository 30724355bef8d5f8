-- ===== src/Inventory/Coherence/Rows.antt =====
-- A write of internal/inventory/adapter/postgres/inventory_repo.go to the stock of one product in one
-- warehouse, as seen by the SELECTs of the others.
use realtime_order_inventory.Prelude.{
  ◌≡◌, refl, String, Bool, true, false, ◌&&◌, some, List, [], ◌∷◌, ◌++◌, ◌==◌, eq_iff, find, select,
  update, arith,
}
use realtime_order_inventory.Inventory.Domain.{Inventory}
use realtime_order_inventory.Inventory.Postgres.{at_place}

-- Other places keep their row, other products their rows.
pub record IsLocal (p q : String) (rows rows' : List Inventory) : Type 0 where
  pub place :
      (p' q' : String) (i : Inventory)
      → ((p == p') && (q == q')) ≡ false
      → find (at_place p' q') rows ≡ some i
      → find (at_place p' q') rows' ≡ some i
  pub product :
      (p' : String)
      → (p == p') ≡ false
      → select (λ r. r.product_id == p') rows' ≡ select (λ r. r.product_id == p') rows

-- An UPDATE that selects rows of one place, and leaves them there.
pub record IsUpdateAt (p q : String) (chosen : Inventory → Bool) (f : Inventory → Inventory)
    : Type 0 where
  pub here : (i : Inventory) → chosen i ≡ true → at_place p q i ≡ true
  pub product : (i : Inventory) → (f i).product_id ≡ i.product_id
  pub warehouse : (i : Inventory) → (f i).warehouse_id ≡ i.warehouse_id

module _ (p q : String) (chosen : Inventory → Bool) (f : Inventory → Inventory)
    (at : IsUpdateAt p q chosen f) where
  find-update_elsewhere :
      (p' q' : String) (rows : List Inventory) (i : Inventory)
      → ((p == p') && (q == q')) ≡ false
      → find (at_place p' q') rows ≡ some i
      → find (at_place p' q') (update chosen f rows) ≡ some i
  unfolding find update at_place
  find-update_elsewhere p' q' [] i away h = h
  find-update_elsewhere p' q' (x ∷ rows) i away h = ground (
    arith,
    at.here x,
    at.product x,
    at.warehouse x,
    eq_iff x.product_id p,
    eq_iff x.product_id p',
    eq_iff p p',
    eq_iff x.warehouse_id q,
    eq_iff x.warehouse_id q',
    eq_iff q q',
    find-update_elsewhere p' q' rows i away,
  )

  select-update_elsewhere :
      (p' : String) (rows : List Inventory)
      → (p == p') ≡ false
      → select (λ r. r.product_id == p') (update chosen f rows)
        ≡ select (λ r. r.product_id == p') rows
  unfolding select update at_place
  select-update_elsewhere p' [] away = refl
  select-update_elsewhere p' (x ∷ rows) away = ground (
    arith,
    at.here x,
    at.product x,
    eq_iff x.product_id p,
    eq_iff x.product_id p',
    eq_iff p p',
    select-update_elsewhere p' rows away,
  )

  pub update-IsLocal : (rows : List Inventory) → IsLocal p q rows (update chosen f rows)
  update-IsLocal rows = record {
    place = λ p' q' i away h. find-update_elsewhere p' q' rows i away h;
    product = λ p' away. select-update_elsewhere p' rows away;
  }

find-append_some :
    (p q : String) (rows : List Inventory) (x i : Inventory)
    → find (at_place p q) rows ≡ some i
    → find (at_place p q) (rows ++ x ∷ []) ≡ some i
unfolding find
find-append_some p q [] x i h = cc
find-append_some p q (y ∷ rows) x i h = ground (arith, find-append_some p q rows x i)

select-append_other :
    (p : String) (rows : List Inventory) (x : Inventory)
    → (x.product_id == p) ≡ false
    → select (λ r. r.product_id == p) (rows ++ x ∷ []) ≡ select (λ r. r.product_id == p) rows
unfolding select
select-append_other p [] x h = ground arith
select-append_other p (y ∷ rows) x h = ground (arith, select-append_other p rows x h)

pub append-IsLocal :
    (rows : List Inventory) (x : Inventory)
    → IsLocal x.product_id x.warehouse_id rows (rows ++ x ∷ [])
append-IsLocal rows x = record {
  place = λ p' q' i away h. find-append_some p' q' rows x i h;
  product = λ p' away. select-append_other p' rows x away;
}
