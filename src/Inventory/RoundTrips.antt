-- ===== src/Inventory/RoundTrips.antt =====
-- What the repositories of internal/inventory store is what they read back.
use realtime_order_inventory.Prelude.{◌∙◌, ◌≡◌, ap, String, arith, eq_iff}
use realtime_order_inventory.Inventory.Domain.{Reservation, InventoryMovement}
use realtime_order_inventory.Inventory.Reservations
use realtime_order_inventory.Inventory.Reservations.{null_string, string_of}
use realtime_order_inventory.Inventory.Movements

string_of-null_string : (s : String) → string_of (null_string s) ≡ s
unfolding string_of null_string
string_of-null_string s = ground (arith, eq_iff s "")

-- A reservation comes back from its row as it was, an empty text being stored as NULL.
pub reservation_round_trip :
    (r : Reservation) → Reservations.row_to_reservation (Reservations.to_row r) ≡ r
unfolding Reservations.row_to_reservation Reservations.to_row
reservation_round_trip r =
    ap (λ x. record r { order_item_id = x }) (string_of-null_string r.order_item_id)

-- A movement comes back from its row as it was.
pub movement_round_trip :
    (m : InventoryMovement) → Movements.row_to_movement (Movements.to_row m) ≡ m
unfolding Movements.row_to_movement Movements.to_row
movement_round_trip m =
    ap
      (λ x. record m {
        reference_type = string_of (null_string m.reference_type);
        reference_id = x;
      })
      (string_of-null_string m.reference_id)
    ∙ ap (λ x. record m { reference_type = x }) (string_of-null_string m.reference_type)
