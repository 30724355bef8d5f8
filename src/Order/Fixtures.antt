-- ===== src/Order/Fixtures.antt =====
-- Concrete tables, requests and a host with whole amounts, for the runs of the order service.
use realtime_order_inventory.Prelude.{
  if◌then◌else◌, ℕ, ◌+◌, ◌-◌, ◌*◌, String, none, some, [], ◌∷◌, ◌==◌, some_row, ◌≡◌, false, refl,
}
use realtime_order_inventory.Prelude.Int.{ℤ, pos, negsuc}
use realtime_order_inventory.Exec.{World, idle}
use realtime_order_inventory.Order.Domain.{Address, OrderRow, OutboxEventRow, Host, Db, Cached}
use realtime_order_inventory.Order.UseCase.{CreateOrderRequest}

abbrev pub ids : ℕ → String
ids n = "new"

abbrev pub home : Address
home = record { street = "1 Main St"; city = "Hanoi"; state = ""; zip = "10000"; country = "VN" }

abbrev pub whole : ℤ → ℕ
whole (pos n) = n
whole (negsuc n) = 0

-- One address and one text are all that the examples encode.
abbrev pub host : Host ℕ
host = record {
  zero = 0;
  add = λ a b. a + b;
  sub = λ a b. a - b;
  mul = λ a b. a * b;
  of_int = whole;
  decimal = λ a. a;
  jsonb = λ s. s;
  scan = λ limit offset rows. rows;
  marshal_address = λ a. a.street;
  unmarshal_address = λ s. record home { street = s };
  marshal = λ fields. "{}";
  rfc3339 = λ n. "now";
  timestamp = λ s. if s == "now" then 2 else 1;
}

abbrev pub waiting : OrderRow ℕ
waiting = record {
  id = "order-1";
  customer_id = "ann";
  status = "pending_payment";
  currency = "USD";
  subtotal = 6;
  discount_amount = 0;
  shipping_fee = 0;
  tax_amount = 0;
  total_amount = 6;
  shipping_address = "1 Main St";
  idempotency_key = some "key-1";
  created_at = 0;
  updated_at = 0;
}

abbrev pub done : OrderRow ℕ
done = record waiting { id = "order-2"; status = "delivered"; idempotency_key = some "key-2" }

abbrev pub event : OutboxEventRow
event = record {
  id = "event-1";
  aggregate_type = "order";
  aggregate_id = "order-1";
  event_type = "order.created";
  payload = "{}";
  status = "PENDING";
  created_at = "now";
  published_at = none;
}

abbrev pub tables : Db ℕ
tables = record { orders = waiting ∷ done ∷ []; order_items = []; outbox_events = event ∷ [] }

abbrev pub world : World (Db ℕ) (Cached ℕ)
world = record { db = tables; tx = idle; store = []; sent = []; committed = []; calls = 0 }

abbrev pub request : CreateOrderRequest ℕ
request = record {
  customer_id = "ann";
  currency = "";
  items =
      record {
        product_id = "lamp";
        sku = "L1";
        product_name = "Lamp";
        quantity = pos 2;
        unit_price = 3;
      }
      ∷ [];
  shipping_address = home;
  idempotency_key = "key-1";
}

pub event_fresh : some_row (λ r. r.id == "new") tables.outbox_events ≡ false
unfolding some_row
event_fresh = refl
