-- ===== src/Inventory/Fixtures.antt =====
-- Concrete tables and requests for the runs of the inventory service.
use realtime_order_inventory.Prelude.{ℕ, String, true, false, none, [], ◌∷◌, arith}
use realtime_order_inventory.Prelude.Int.{pos}
use realtime_order_inventory.Exec.{World, idle}
use realtime_order_inventory.Exec.Envs.{quiet}
use realtime_order_inventory.Exec.Keeps.{Holds, Relies}
use realtime_order_inventory.Redis.{Cache}
use realtime_order_inventory.Inventory.Domain.{Inventory, ReservationRow, Db, Cached}
use realtime_order_inventory.Inventory.UseCase.{ReserveStockRequest, UpdateStockRequest}
use realtime_order_inventory.Inventory.Safety.{IsStocked, IsSound}

abbrev pub ids : ℕ → String
ids n = "new"

-- Ten lamps in Hanoi, four of them reserved by one order.
abbrev pub lamps : Inventory
lamps = record {
  id = "row-1";
  product_id = "lamp";
  sku = "L1";
  warehouse_id = "hanoi";
  quantity_on_hand = pos 10;
  quantity_reserved = pos 4;
  version = 7;
  updated_at = 0;
}

abbrev pub booked : ReservationRow
booked = record {
  id = "reservation-1";
  order_id = "order-1";
  order_item_id = none;
  product_id = "lamp";
  sku = "L1";
  warehouse_id = "hanoi";
  quantity = pos 4;
  status = "reserved";
  expires_at = none;
  created_at = 0;
  updated_at = 0;
}

abbrev pub stock : Db
stock = record {
  order_item_not_null = false;
  warehouses = [];
  inventory = lamps ∷ [];
  reservations = booked ∷ [];
  movements = [];
}

abbrev pub world_of : Db → World Db Cached
world_of d = record { db = d; tx = idle; store = []; sent = []; committed = []; calls = 0 }

abbrev pub strict_stock : Db
strict_stock = record stock { order_item_not_null = true }

abbrev pub three_lamps : ReserveStockRequest
three_lamps = record {
  order_id = "order-2";
  product_id = "lamp";
  warehouse_id = "hanoi";
  warehouse_code = "";
  sku = "L1";
  quantity = pos 3;
}

abbrev pub delivery : UpdateStockRequest
delivery = record {
  product_id = "lamp";
  warehouse_id = "hanoi";
  warehouse_code = "";
  sku = "L1";
  quantity = pos 5;
}

abbrev pub cache : Cache
cache = record { prefix = "inventory" }

pub lamps-IsStocked : IsStocked lamps
lamps-IsStocked = record { lower = omega arith; upper = omega arith }

pub quiet-Relies : Relies {V = Cached} IsSound (quiet ids)
quiet-Relies = record { others = λ n d h. h }

pub stock-IsSound : IsSound stock
stock-IsSound = record {
  stock = (lamps-IsStocked, tt);
  booked = (record { positive = omega arith }, tt);
}

pub stock-Holds : Holds IsSound (world_of stock)
stock-Holds = record { committed = stock-IsSound; pending = λ d h. h }
