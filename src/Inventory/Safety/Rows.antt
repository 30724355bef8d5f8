-- ===== src/Inventory/Safety/Rows.antt =====
-- The invariant, and that each statement of the repositories keeps it.
use realtime_order_inventory.Prelude.{
  ℕ, ◌≡◌, refl, String, Bool, List, [], ◌∷◌, arith, update, All, All-append, ◌==◌, true, false,
  if◌then◌else◌,
}
use realtime_order_inventory.Prelude.Int.{ℤ, pos, ◌≤ℤ◌, ◌<ℤ◌, +ℤ_parts, -ℤ_parts}
use realtime_order_inventory.Exec.Keeps.{StmtKeeps}
use realtime_order_inventory.Inventory.Domain.{Inventory, ReservationRow, MovementRow, Db}
use realtime_order_inventory.Inventory.Postgres.{
  insert_inventory, update_inventory, adjust, reservable, add_reserved, releasable, sub_reserved,
  at_version,
}
use realtime_order_inventory.Inventory.Reservations.{insert_reservation, set_status}
use realtime_order_inventory.Inventory.Movements.{insert_movement}

pub record IsStocked (i : Inventory) : Type 0 where
  pub lower : pos 0 ≤ℤ i.quantity_reserved
  pub upper : i.quantity_reserved ≤ℤ i.quantity_on_hand

-- A reservation holds something.
pub record IsBooked (r : ReservationRow) : Type 0 where
  pub positive : pos 0 <ℤ r.quantity

pub record IsSound (d : Db) : Type 0 where
  pub stock : All IsStocked d.inventory
  pub booked : All IsBooked d.reservations

-- An update keeps a predicate of rows where it does so on the rows that it selects.
pub All-update :
    {A : Type 0} (P : A → Type 0) (p : A → Bool) (f : A → A) (xs : List A)
    → ((a : A) → p a ≡ true → P a → P (f a))
    → All P xs
    → All P (update p f xs)
unfolding update
All-update P p f [] k h = tt
All-update P p f (x ∷ xs) k h = (head (p x) refl, All-update P p f xs k h.1)
  where
    head : (b : Bool) → p x ≡ b → P (if b then f x else x)
    head true e = k x e h.0
    head false e = h.0

add_reserved-IsStocked :
    (p w : String) (q : ℤ) (v time : ℕ) (i : Inventory)
    → pos 0 ≤ℤ q
    → reservable p w q v i ≡ true
    → IsStocked i
    → IsStocked (add_reserved q time i)
unfolding reservable add_reserved
add_reserved-IsStocked p w q v time i h e s =
    ground (arith, +ℤ_parts i.quantity_reserved q, -ℤ_parts i.quantity_on_hand i.quantity_reserved)

sub_reserved-IsStocked :
    (p w : String) (q : ℤ) (time : ℕ) (i : Inventory)
    → pos 0 ≤ℤ q
    → releasable p w q i ≡ true
    → IsStocked i
    → IsStocked (sub_reserved q time i)
unfolding releasable sub_reserved
sub_reserved-IsStocked p w q time i h e s = ground (arith, -ℤ_parts i.quantity_reserved q)

adjust-IsStocked :
    (change : ℤ) (time : ℕ) (i : Inventory)
    → pos 0 ≤ℤ change
    → IsStocked i
    → IsStocked (adjust change time i)
unfolding adjust
adjust-IsStocked change time i h s = ground (arith, +ℤ_parts i.quantity_on_hand change)

pub insert_inventory-IsSound :
    (i : Inventory) → IsStocked i → StmtKeeps IsSound (insert_inventory i)
unfolding insert_inventory
insert_inventory-IsSound i s = record {
  at = λ d h. ground (arith, All-append IsStocked d.inventory (i ∷ []) h.stock (s, tt));
}

pub add_reserved-IsSound :
    (p w : String) (q : ℤ) (v time : ℕ)
    → pos 0 ≤ℤ q
    → StmtKeeps IsSound (update_inventory (reservable p w q v) (add_reserved q time))
unfolding update_inventory
add_reserved-IsSound p w q v time h = record {
  at = λ d k. record {
    stock =
        All-update IsStocked (reservable p w q v) (add_reserved q time) d.inventory
          (λ i e s. add_reserved-IsStocked p w q v time i h e s) k.stock;
    booked = k.booked;
  };
}

pub sub_reserved-IsSound :
    (p w : String) (q : ℤ) (time : ℕ)
    → pos 0 ≤ℤ q
    → StmtKeeps IsSound (update_inventory (releasable p w q) (sub_reserved q time))
unfolding update_inventory
sub_reserved-IsSound p w q time h = record {
  at = λ d k. record {
    stock =
        All-update IsStocked (releasable p w q) (sub_reserved q time) d.inventory
          (λ i e s. sub_reserved-IsStocked p w q time i h e s) k.stock;
    booked = k.booked;
  };
}

pub adjust-IsSound :
    (p w : String) (change : ℤ) (v time : ℕ)
    → pos 0 ≤ℤ change
    → StmtKeeps IsSound (update_inventory (at_version p w v) (adjust change time))
unfolding update_inventory
adjust-IsSound p w change v time h = record {
  at = λ d k. record {
    stock =
        All-update IsStocked (at_version p w v) (adjust change time) d.inventory
          (λ i e s. adjust-IsStocked change time i h s) k.stock;
    booked = k.booked;
  };
}

pub insert_reservation-IsSound :
    (row : ReservationRow) → IsBooked row → StmtKeeps IsSound (insert_reservation row)
unfolding insert_reservation
insert_reservation-IsSound row b = record {
  at = λ d h. ground (arith, All-append IsBooked d.reservations (row ∷ []) h.booked (b, tt));
}

pub set_status-IsSound :
    (id status : String) (time : ℕ) → StmtKeeps IsSound (set_status id status time)
unfolding set_status
set_status-IsSound id status time = record {
  at = λ d h. record {
    stock = h.stock;
    booked =
        All-update IsBooked (λ r. r.id == id) (λ r. record r { status = status; updated_at = time })
          d.reservations (λ r e b. record { positive = b.positive }) h.booked;
  };
}

pub insert_movement-IsSound : (row : MovementRow) → StmtKeeps IsSound (insert_movement row)
unfolding insert_movement
insert_movement-IsSound row = record { at = λ d h. ground arith }
