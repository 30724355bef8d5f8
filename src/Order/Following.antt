-- ===== src/Order/Following.antt =====
-- What the use cases of internal/order/usecase do to the orders of the table, from call to call.
use realtime_order_inventory.Prelude.{
  ℕ, ◌≡◌, refl, sym, subst, Bool, false, String, Option, none, some, List, [], ◌∷◌, ◌++◌, ◌==◌,
  arith, eq_iff, some_row, update,
}
use realtime_order_inventory.Errors.{Error, ok}
use realtime_order_inventory.Exec.{in_tx}
use realtime_order_inventory.Exec.Keeps.{
  Keeps, Holds, Relies, StmtKeeps, Keeps-bind, query-Keeps, now-Keeps,
}
use realtime_order_inventory.Exec.Yields.{Yields, Yields-then, read-Yields}
use realtime_order_inventory.Order.Domain.{OrderStatus, OrderRow, Host, Db}
use realtime_order_inventory.Order.Postgres
use realtime_order_inventory.Order.Postgres.{
  M, E, insert_order, set_status, or_missing, row_to_order,
}
use realtime_order_inventory.Order.Items.{insert_item}
use realtime_order_inventory.Order.Outbox.{insert_event}
use realtime_order_inventory.Order.Invariants.{IsKept}
use realtime_order_inventory.Order.Moves.{
  Tracks, UniqueIds, MayBecome, Tracks-append, Tracks-update, found-Near,
}

-- The tables, as a call that began with the orders `before` may leave them.
pub record Follows {F : Type 0} (before : List (OrderRow F)) (d : Db F) : Type 0 where
  pub rows : Tracks before d.orders
  pub ids : UniqueIds d.orders

-- No other connection writes orders.
pub record LeavesOrders {F : Type 0} (e : E F) : Type 0 where
  pub others : (n : ℕ) (d : Db F) → (e.others n d).orders ≡ d.orders

differs_comm : (a b : String) → (a == b) ≡ false → (b == a) ≡ false
differs_comm a b h = ground (arith, eq_iff a b, eq_iff b a)

found_some : {A : Type 0} (x : Error) (o : Option A) (a : A) → or_missing x o ≡ ok a → o ≡ some a
found_some x none a e = cc
found_some x (some b) a e = ground arith

module _ {F : Type 0} where
  absent-append :
      (id : String) (rs : List (OrderRow F)) (row : OrderRow F)
      → some_row (λ x. x.id == id) rs ≡ false
      → (row.id == id) ≡ false
      → some_row (λ x. x.id == id) (rs ++ row ∷ []) ≡ false
  unfolding some_row
  absent-append id [] row h k = rw k
  absent-append id (r ∷ rs) row h k = ground (arith, absent-append id rs row)

  UniqueIds-append :
      (rs : List (OrderRow F)) (row : OrderRow F)
      → UniqueIds rs
      → some_row (λ r. r.id == row.id) rs ≡ false
      → UniqueIds (rs ++ row ∷ [])
  unfolding some_row
  UniqueIds-append [] row u fresh = (refl, tt)
  UniqueIds-append (r ∷ rs) row u fresh = (
    absent-append r.id rs row u.0 (differs_comm r.id row.id (ground arith)),
    UniqueIds-append rs row u.1 (ground arith),
  )

  absent-update :
      (id : String) (p : OrderRow F → Bool) (s : OrderStatus) (time : ℕ) (rs : List (OrderRow F))
      → some_row (λ x. x.id == id) (update p (λ r. record r { status = s; updated_at = time }) rs)
        ≡ some_row (λ x. x.id == id) rs
  unfolding some_row update
  absent-update id p s time [] = refl
  absent-update id p s time (r ∷ rs) = ground (arith, absent-update id p s time rs)

  UniqueIds-update :
      (p : OrderRow F → Bool) (s : OrderStatus) (time : ℕ) (rs : List (OrderRow F))
      → UniqueIds rs
      → UniqueIds (update p (λ r. record r { status = s; updated_at = time }) rs)
  unfolding update
  UniqueIds-update p s time [] u = tt
  UniqueIds-update p s time (r ∷ rs) u =
      ground (arith, absent-update r.id p s time rs, UniqueIds-update p s time rs u.1)

  module _ (before : List (OrderRow F)) where
    Follows-orders : (d d' : Db F) → d'.orders ≡ d.orders → Follows before d → Follows before d'
    Follows-orders d d' e f = record {
      rows = subst (Tracks before) (sym e) f.rows;
      ids = subst UniqueIds (sym e) f.ids;
    }

    insert_order-Follows : (row : OrderRow F) → StmtKeeps (Follows before) (insert_order row)
    unfolding insert_order
    insert_order-Follows row = record {
      at = λ d f.
          ground
            (arith, UniqueIds-append d.orders row f.ids, Tracks-append before d.orders row f.rows);
    }

    pub Follows-IsKept : IsKept (Follows before)
    unfolding insert_item insert_event
    Follows-IsKept = record {
      order = insert_order-Follows;
      item = λ row. record { at = λ d f. ground (arith, f.rows, f.ids) };
      event = λ row. record { at = λ d f. ground (arith, f.rows, f.ids) };
    }

    set_status-Follows :
        (id : String) (s : OrderStatus) (time : ℕ)
        → MayBecome id s before
        → StmtKeeps (Follows before) (set_status id s time)
    unfolding set_status
    set_status-Follows id s time may = record {
      at = λ d f. record {
        rows = Tracks-update id s time before d.orders may f.rows;
        ids = UniqueIds-update _ s time d.orders f.ids;
      };
    }

  module _ (h : Host F) (e : E F) (leaves : LeavesOrders e) where
    pub leaves-Relies : (before : List (OrderRow F)) → Relies (Follows before) e
    leaves-Relies before = record {
      others = λ n d f. Follows-orders before d (e.others n d) (leaves.others n d) f;
    }

    pub write-Follows :
        (before : List (OrderRow F)) (id : String) (s : OrderStatus)
        → MayBecome id s before
        → Keeps (Holds (Follows before)) (Postgres.update_status_in_tx e in_tx id s)
    unfolding Postgres.update_status_in_tx
    write-Follows before id s may =
        let rely = leaves-Relies before in
        Keeps-bind _ _ (now-Keeps e rely)
          λ time. query-Keeps e rely _ (set_status-Follows before id s time may) in_tx

    -- What GetByID returns tells how near the order is to where it began.
    pub read-Follows :
        (before : List (OrderRow F)) (id : String)
        → UniqueIds before
        → Yields
            (Holds (Follows before))
            (λ o. MayBecome id o.status before)
            (Postgres.get_by_id h e id)
    unfolding Postgres.get_by_id Postgres.find_order row_to_order
    read-Follows before id u =
        Yields-then {Q = λ row. MayBecome id row.status before} _ _
          (read-Yields e (leaves-Relies before) _
            λ d row f found. found-Near id before d.orders row u f.rows (found_some _ _ row found))
          λ row near. near
