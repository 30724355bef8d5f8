-- ===== src/Inventory/Balance.antt =====
-- What the quantities of a row add up to: a release undoes a reservation, and a withdrawal may take
-- what is reserved.
use realtime_order_inventory.Prelude.{
  subst, if◌then◌else◌, Bool-cases, inl, inr, ℕ, ◌≡◌, refl, String, true, false, some, List, [],
  ◌∷◌, arith, update, some_row, find, All, map,
}
use realtime_order_inventory.Prelude.Int.{ℤ, pos, ◌<ℤ◌, ◌+ℤ◌, ◌-ℤ◌, +ℤ_parts, -ℤ_parts, eq_of_parts}
use realtime_order_inventory.Errors.{ok}
use realtime_order_inventory.Exec.{World, pure, ◌>>=◌, query, now}
use realtime_order_inventory.Exec.Envs.{quiet}
use realtime_order_inventory.Exec.Runs.{later}
use realtime_order_inventory.Inventory.Domain.{Inventory, Db, Cached, available}
use realtime_order_inventory.Inventory.Postgres.{
  at_place, at_version, reservable, add_reserved, releasable, sub_reserved, adjust,
  update_inventory, reserve_quantity, release_quantity, update_stock, require_rows,
}
use realtime_order_inventory.Inventory.Safety.{IsStocked, IsSound}
use realtime_order_inventory.Inventory.Locking.{UniquePlaces, here_only, absent-reservable}

-- What a row says of its stock, without its version and time.
pub record Stock : Type 0 where
  pub product_id : String
  pub warehouse_id : String
  pub on_hand : ℤ
  pub reserved : ℤ

unfoldable pub stock_of : Inventory → Stock
stock_of i = record {
  product_id = i.product_id;
  warehouse_id = i.warehouse_id;
  on_hand = i.quantity_on_hand;
  reserved = i.quantity_reserved;
}

module _ (p w : String) (q : ℤ) (v t t' : ℕ) where
  abbrev reserve_release : List Inventory → List Inventory
  reserve_release rows =
      update (releasable p w q) (sub_reserved q t')
        (update (reservable p w q v) (add_reserved q t) rows)

  -- Rows of other places are left alone.
  elsewhere :
      (rows : List Inventory)
      → some_row (at_place p w) rows ≡ false
      → map stock_of (reserve_release rows) ≡ map stock_of rows
  unfolding some_row update releasable reservable at_version add_reserved
  elsewhere [] h = refl
  elsewhere (i ∷ is) h = ground (arith, elsewhere is)

  restored : (i : Inventory) → stock_of (sub_reserved q t' (add_reserved q t i)) ≡ stock_of i
  unfolding stock_of sub_reserved add_reserved
  restored i = ground (
    arith,
    eq_of_parts (i.quantity_reserved +ℤ q -ℤ q) i.quantity_reserved,
    +ℤ_parts i.quantity_reserved q,
    -ℤ_parts (i.quantity_reserved +ℤ q) q,
  )

  releasable_reserved :
      (i : Inventory)
      → IsStocked i
      → reservable p w q v i ≡ true
      → releasable p w q (add_reserved q t i) ≡ true
  unfolding releasable reservable at_version add_reserved
  releasable_reserved i s h = ground (arith, +ℤ_parts i.quantity_reserved q)

  not_here :
      (i : Inventory)
      → at_place p w i ≡ false
      → (reservable p w q v i ≡ false) × (releasable p w q i ≡ false)
  unfolding reservable at_version releasable
  not_here i h = (ground arith, ground arith)

  reserve_release_rows :
      (rows : List Inventory)
      → All IsStocked rows
      → UniquePlaces rows
      → some_row (reservable p w q v) rows ≡ true
      → map stock_of (reserve_release rows) ≡ map stock_of rows
  unfolding some_row update
  reserve_release_rows [] s u h = cc
  reserve_release_rows (i ∷ is) s u h = elim (Bool-cases (at_place p w i)) [
    | inl here ↦ ground (
      arith,
      elsewhere is (here_only p w i is u here),
      absent-reservable p w q v t is (here_only p w i is u here),
      restored i,
      releasable_reserved i s.0,
    )
    | inr away ↦ ground (arith, not_here i away, reserve_release_rows is s.1 u.1)
  ]

-- A release of what was reserved gives every row the quantities that it had, where 0 <=
-- quantity_reserved <= quantity_on_hand holds in each, no two rows have one product and warehouse, and
-- no call fails.
pub release_undoes_reserve :
    (ids : ℕ → String) (p w : String) (q : ℤ) (v : ℕ) (W : World Db Cached)
    → All IsStocked W.db.inventory
    → UniquePlaces W.db.inventory
    → some_row (reservable p w q v) W.db.inventory ≡ true
    → let reserved = (reserve_quantity (quiet ids) p w q v W).1 in
      map stock_of (release_quantity (quiet ids) p w q reserved).1.db.inventory
      ≡ map stock_of W.db.inventory
unfolding reserve_quantity release_quantity now query ◌>>=◌ update_inventory require_rows
release_undoes_reserve ids p w q v W s u h =
    rw h (reserve_release_rows p w q v W.calls (later 2 W.calls) W.db.inventory s u h)

oversold_head :
    (p w : String) (change : ℤ) (t : ℕ) (x : Inventory)
    → at_place p w x ≡ true
    → available x +ℤ change <ℤ pos 0
    → ¬ IsStocked (if at_version p w x.version x then adjust change t x else x)
unfolding available adjust at_version
oversold_head p w change t x here h s = ground (
  arith,
  +ℤ_parts (x.quantity_on_hand -ℤ x.quantity_reserved) change,
  -ℤ_parts x.quantity_on_hand x.quantity_reserved,
  +ℤ_parts x.quantity_on_hand change,
)

oversold_row :
    (p w : String) (change : ℤ) (t : ℕ) (i : Inventory) (rows : List Inventory)
    → find (at_place p w) rows ≡ some i
    → available i +ℤ change <ℤ pos 0
    → ¬ All IsStocked (update (at_version p w i.version) (adjust change t) rows)
unfolding find update at_version
oversold_row p w change t i [] f h a = cc
oversold_row p w change t i (x ∷ rows) f h a = elim (Bool-cases (at_place p w x)) [
  | inl here ↦
      subst
        (λ y.
          available y +ℤ change <ℤ pos 0
          → ¬ IsStocked (if at_version p w y.version x then adjust change t x else x))
        (ground arith) (oversold_head p w change t x here) h a.0
  | inr away ↦ oversold_row p w change t i rows (ground arith) h a.1
]

here_version :
    (p w : String) (i : Inventory) (rows : List Inventory)
    → find (at_place p w) rows ≡ some i
    → some_row (at_version p w i.version) rows ≡ true
unfolding find some_row at_version
here_version p w i [] f = cc
here_version p w i (x ∷ rows) f = ground (arith, here_version p w i rows)

-- A withdrawal of more than is available, at the version of the row, succeeds, and then
-- 0 <= quantity_reserved <= quantity_on_hand does not hold in every row, where no call fails.
pub withdrawal_oversells :
    (ids : ℕ → String) (p w : String) (change : ℤ) (i : Inventory) (W : World Db Cached)
    → find (at_place p w) W.db.inventory ≡ some i
    → available i +ℤ change <ℤ pos 0
    → ((update_stock (quiet ids) p w change i.version W).0 ≡ ok tt)
      × ¬ IsSound (update_stock (quiet ids) p w change i.version W).1.db
unfolding update_stock now query ◌>>=◌ update_inventory require_rows pure
withdrawal_oversells ids p w change i W f h = (
  rw (here_version p w i W.db.inventory f),
  rw (here_version p w i W.db.inventory f)
      λ s. oversold_row p w change W.calls i W.db.inventory f h s.stock,
)
