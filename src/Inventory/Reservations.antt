-- ===== src/Inventory/Reservations.antt =====
-- reservationRepository of internal/inventory/adapter/postgres/inventory_repo.go.
use realtime_order_inventory.Prelude.{
  String, Bool, true, false, ◌&&◌, Option, none, some, List, [], ◌∷◌, ◌++◌, map, ℕ, ◌==◌,
  if◌then◌else◌, find, select, update, some_row,
}
use realtime_order_inventory.Errors.{inventory, reservation_not_found, ok, err}
use realtime_order_inventory.Exec.{Executor, direct, Stmt, read, pure, ◌>>=◌, query, now}
use realtime_order_inventory.Inventory.Domain.{Reservation, ReservationRow, Db}
use realtime_order_inventory.Inventory.Postgres.{
  M, E, unique_violation, not_null_violation, or_missing,
}

-- sql.NullString{String: s, Valid: true} where s != ""
unfoldable pub null_string : String → Option String
null_string s = if s == "" then none else some s

-- row.OrderItemID.String
unfoldable pub string_of : Option String → String
string_of none = ""
string_of (some s) = s

unfoldable pub to_row : Reservation → ReservationRow
unfolding null_string
to_row r = record {
  id = r.id;
  order_id = r.order_id;
  order_item_id = null_string r.order_item_id;
  product_id = r.product_id;
  sku = r.sku;
  warehouse_id = r.warehouse_id;
  quantity = r.quantity;
  status = r.status;
  expires_at = r.expires_at;
  created_at = r.created_at;
  updated_at = r.updated_at;
}

unfoldable pub row_to_reservation : ReservationRow → Reservation
unfolding string_of
row_to_reservation row = record {
  id = row.id;
  order_id = row.order_id;
  order_item_id = string_of row.order_item_id;
  product_id = row.product_id;
  sku = row.sku;
  warehouse_id = row.warehouse_id;
  quantity = row.quantity;
  status = row.status;
  expires_at = row.expires_at;
  created_at = row.created_at;
  updated_at = row.updated_at;
}

abbrev pub is_null : Option String → Bool
is_null none = true
is_null (some s) = false

-- NOT NULL of 01-init.sql, then the primary key.
unfoldable pub insert_reservation : ReservationRow → Stmt Db (Unit {0})
insert_reservation row d =
    if d.order_item_not_null && is_null row.order_item_id
    then err not_null_violation
    else if some_row (λ r. r.id == row.id) d.reservations
    then err unique_violation
    else ok (tt, record d { reservations = d.reservations ++ row ∷ [] })

unfoldable pub create_in_tx : E → Executor → Reservation → M (Unit {0})
create_in_tx e x r = query e x (insert_reservation (to_row r))

unfoldable pub create : E → Reservation → M (Unit {0})
unfolding create_in_tx
create e r = create_in_tx e direct r

unfoldable pub find_reservation : String → Stmt Db ReservationRow
find_reservation id =
    read λ d. or_missing (inventory reservation_not_found) (find (λ r. r.id == id) d.reservations)

unfoldable pub get_by_id : E → String → M Reservation
get_by_id e id = do row ← query e direct (find_reservation id); pure (row_to_reservation row)

unfoldable pub get_by_order_id : E → String → M (List Reservation)
get_by_order_id e order = do
  rows ← query e direct (read λ d. ok (select (λ r. r.order_id == order) d.reservations))
  pure (map row_to_reservation rows)

unfoldable pub set_status : String → String → ℕ → Stmt Db (Unit {0})
set_status id status time d = ok (
  tt,
  record d {
    reservations =
        update (λ r. r.id == id) (λ r. record r { status = status; updated_at = time })
          d.reservations;
  },
)

unfoldable pub update_status : E → String → String → M (Unit {0})
update_status e id status = do time ← now e; query e direct (set_status id status time)
