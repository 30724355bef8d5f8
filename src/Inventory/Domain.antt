-- ===== src/Inventory/Domain.antt =====
-- internal/inventory/domain/inventory.go, the row types of internal/inventory/adapter/postgres, and
-- the tables of migrations/inventory. Times are numbers; `int` and `int64` values are below 2 ^ 63.
use realtime_order_inventory.Prelude.{ℕ, String, Bool, Option, List}
use realtime_order_inventory.Prelude.Int.{ℤ, ◌-ℤ◌}

pub record Warehouse : Type 0 where
  pub id : String
  pub code : String
  pub name : String
  pub status : String
  pub created_at : ℕ

pub record Inventory : Type 0 where
  pub id : String
  pub product_id : String
  pub sku : String
  pub warehouse_id : String
  pub quantity_on_hand : ℤ
  pub quantity_reserved : ℤ
  pub version : ℕ
  pub updated_at : ℕ

unfoldable pub available : Inventory → ℤ
available i = i.quantity_on_hand -ℤ i.quantity_reserved

pub record Reservation : Type 0 where
  pub id : String
  pub order_id : String
  pub order_item_id : String
  pub product_id : String
  pub sku : String
  pub warehouse_id : String
  pub quantity : ℤ
  pub status : String
  pub expires_at : Option ℕ
  pub created_at : ℕ
  pub updated_at : ℕ

pub data MovementType : Type 0 where
  movement_in movement_out movement_reserve movement_release movement_adjustment : MovementType
  movement_transfer_in movement_transfer_out : MovementType

pub record InventoryMovement : Type 0 where
  pub id : String
  pub product_id : String
  pub sku : String
  pub warehouse_id : String
  pub movement_type : MovementType
  pub quantity : ℤ
  pub reference_type : String
  pub reference_id : String
  pub created_at : ℕ

-- Columns that may be NULL are options.
pub record ReservationRow : Type 0 where
  pub id : String
  pub order_id : String
  pub order_item_id : Option String
  pub product_id : String
  pub sku : String
  pub warehouse_id : String
  pub quantity : ℤ
  pub status : String
  pub expires_at : Option ℕ
  pub created_at : ℕ
  pub updated_at : ℕ

pub record MovementRow : Type 0 where
  pub id : String
  pub product_id : String
  pub sku : String
  pub warehouse_id : String
  pub movement_type : MovementType
  pub quantity : ℤ
  pub reference_type : Option String
  pub reference_id : Option String
  pub created_at : ℕ

-- The database. Two schemas are in the repository: in 01-init.sql the column order_item_id of the
-- reservations is NOT NULL, in inventory_reservations.sql it may be NULL.
pub record Db : Type 0 where
  pub order_item_not_null : Bool
  pub warehouses : List Warehouse
  pub inventory : List Inventory
  pub reservations : List ReservationRow
  pub movements : List MovementRow

-- What the service keeps in Redis.
pub data Cached : Type 0 where
  cached_inventory : Inventory → Cached
  cached_inventories : List Inventory → Cached
  cached_warehouse : Warehouse → Cached
