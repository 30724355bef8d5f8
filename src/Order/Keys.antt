-- ===== src/Order/Keys.antt =====
-- Idempotency keys: no two orders have the same one.
use realtime_order_inventory.Prelude.{
  ◌≡◌, refl, String, Bool, false, Option, none, some, List, [], ◌∷◌, ◌++◌, arith, eq_iff, some_row,
}
use realtime_order_inventory.Exec.Keeps.{Holds, Relies, StmtKeeps}
use realtime_order_inventory.Order.Domain.{OrderRow, Db, Host}
use realtime_order_inventory.Order.Postgres.{has_key, insert_order}
use realtime_order_inventory.Order.Items.{insert_item}
use realtime_order_inventory.Order.Outbox.{insert_event}
use realtime_order_inventory.Exec.{World}
use realtime_order_inventory.Order.Domain.{Cached}
use realtime_order_inventory.Order.Postgres.{E}
use realtime_order_inventory.Order.Repository.{order_repository, order_item_repository}
use realtime_order_inventory.Order.UseCase.{CreateOrderRequest, create_order}
use realtime_order_inventory.Order.Invariants.{
  IsKept, order_repository-KeepsOrders, create_order-Keeps,
}

abbrev clashes : {F : Type 0} → Option String → List (OrderRow F) → Bool
clashes none rows = false
clashes (some key) rows = some_row (has_key key) rows

abbrev pub UniqueKeys : {F : Type 0} → List (OrderRow F) → Type 0
UniqueKeys [] = Unit {0}
UniqueKeys (r ∷ rs) = (clashes r.idempotency_key rs ≡ false) × UniqueKeys rs

pub record HasUniqueKeys {F : Type 0} (d : Db F) : Type 0 where
  pub orders : UniqueKeys d.orders

module _ {F : Type 0} where
  clashes-append :
      (key : Option String) (rs : List (OrderRow F)) (row : OrderRow F)
      → clashes key rs ≡ false
      → clashes key (row ∷ []) ≡ false
      → clashes key (rs ++ row ∷ []) ≡ false
  unfolding some_row
  clashes-append none rs row h k = refl
  clashes-append (some key) [] row h k = k
  clashes-append (some key) (r ∷ rs) row h k = ground (arith, clashes-append (some key) rs row)

  clashes_comm :
      (a b : Option String) (r row : OrderRow F)
      → r.idempotency_key ≡ a
      → row.idempotency_key ≡ b
      → clashes b (r ∷ []) ≡ false
      → clashes a (row ∷ []) ≡ false
  unfolding some_row
  clashes_comm none b r row p q h = refl
  clashes_comm (some x) none r row p q h = rw q
  clashes_comm (some x) (some y) r row p q h = ground (arith, eq_iff x y, eq_iff y x)

  clashes_head :
      (key : Option String) (r : OrderRow F) (rs : List (OrderRow F))
      → clashes key (r ∷ rs) ≡ false
      → (clashes key (r ∷ []) ≡ false) × (clashes key rs ≡ false)
  unfolding some_row
  clashes_head none r rs h = (refl, refl)
  clashes_head (some key) r rs h = (ground arith, ground arith)

  UniqueKeys-append :
      (rs : List (OrderRow F)) (row : OrderRow F)
      → UniqueKeys rs
      → clashes row.idempotency_key rs ≡ false
      → UniqueKeys (rs ++ row ∷ [])
  UniqueKeys-append [] row u h = (h, tt)
  UniqueKeys-append (r ∷ rs) row u h =
      let (first, rest) = clashes_head row.idempotency_key r rs h in
      (
        clashes-append r.idempotency_key rs row u.0 (clashes_comm _ _ r row refl refl first),
        UniqueKeys-append rs row u.1 rest,
      )

  insert_order-Keys : (row : OrderRow F) → StmtKeeps HasUniqueKeys (insert_order row)
  unfolding insert_order
  insert_order-Keys row = record {
    at = λ d h. ground (arith, UniqueKeys-append d.orders row h.orders);
  }

  HasUniqueKeys-IsKept : IsKept (HasUniqueKeys {F = F})
  unfolding insert_item insert_event
  HasUniqueKeys-IsKept = record {
    order = insert_order-Keys;
    item = λ row. record { at = λ d h. ground arith };
    event = λ row. record { at = λ d h. ground arith };
  }

-- CreateOrder, from tables without two such orders, leaves no two orders with one idempotency key, whichever calls fail, where the other
-- connections keep the keys unique too.
pub create_order_unique_keys :
    {F : Type 0} (h : Host F) (e : E F) (rely : Relies HasUniqueKeys e) (req : CreateOrderRequest F)
    (w : World (Db F) (Cached F))
    → Holds HasUniqueKeys w
    → HasUniqueKeys (create_order h e (order_repository h e) (order_item_repository h e) req w).1.db
create_order_unique_keys h e rely req w u =
    ((create_order-Keeps HasUniqueKeys h e rely HasUniqueKeys-IsKept _ _
        (order_repository-KeepsOrders HasUniqueKeys h e rely HasUniqueKeys-IsKept) req).at
      w u).committed
