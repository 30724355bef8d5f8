-- ===== src/Order/Domain.antt =====
-- internal/order/domain, the row types of internal/order/adapter/postgres, and the tables of
-- migrations/order. Amounts are of a type `F` that stands for float64; an OrderStatus is a text.
use realtime_order_inventory.Prelude.{ℕ, String, Bool, Option, List, [], ◌∷◌, ◌==◌, ◌||◌}
use realtime_order_inventory.Prelude.Int.{ℤ}

abbrev pub OrderStatus : Type 0
OrderStatus = String

abbrev pub pending_payment : OrderStatus
pending_payment = "pending_payment"

abbrev pub paid : OrderStatus
paid = "paid"

abbrev pub processing : OrderStatus
processing = "processing"

abbrev pub shipped : OrderStatus
shipped = "shipped"

abbrev pub delivered : OrderStatus
delivered = "delivered"

abbrev pub cancelled : OrderStatus
cancelled = "cancelled"

pub record Address : Type 0 where
  pub street : String
  pub city : String
  pub state : String
  pub zip : String
  pub country : String

pub record OrderItem (F : Type 0) : Type 0 where
  pub id : String
  pub order_id : String
  pub product_id : String
  pub sku : String
  pub product_name : String
  pub quantity : ℤ
  pub unit_price : F
  pub total_price : F

pub record Order (F : Type 0) : Type 0 where
  pub id : String
  pub customer_id : String
  pub status : OrderStatus
  pub currency : String
  pub subtotal : F
  pub discount_amount : F
  pub shipping_fee : F
  pub tax_amount : F
  pub total_amount : F
  pub shipping_address : Address
  pub items : List (OrderItem F)
  pub idempotency_key : String
  pub created_at : ℕ
  pub updated_at : ℕ

pub record OutboxEvent : Type 0 where
  pub id : String
  pub aggregate_type : String
  pub aggregate_id : String
  pub event_type : String
  pub payload : String
  pub status : String
  pub created_at : String
  pub published_at : String

-- The values of the maps that the use cases marshal.
pub data Json (F : Type 0) : Type 0 where
  text : String → Json F
  amount : F → Json F
  count : ℕ → Json F

pub record OrderRow (F : Type 0) : Type 0 where
  pub id : String
  pub customer_id : String
  pub status : String
  pub currency : String
  pub subtotal : F
  pub discount_amount : F
  pub shipping_fee : F
  pub tax_amount : F
  pub total_amount : F
  pub shipping_address : String
  pub idempotency_key : Option String
  pub created_at : ℕ
  pub updated_at : ℕ

-- What is not in the repository: float64, the columns of PostgreSQL, encoding/json and the format of times.
pub record Host (F : Type 0) : Type 0 where
  pub zero : F
  pub add : F → F → F
  pub sub : F → F → F
  pub mul : F → F → F
  pub of_int : ℤ → F
  -- What a DECIMAL(18,2) column keeps of an amount, and the text that a JSONB column gives back.
  pub decimal : F → F
  pub jsonb : String → String
  -- The order in which PostgreSQL meets the rows of a query with this LIMIT and OFFSET.
  pub scan : ℤ → ℤ → List (OrderRow F) → List (OrderRow F)
  pub marshal_address : Address → String
  pub unmarshal_address : String → Address
  pub marshal : List (String × Json F) → String
  pub rfc3339 : ℕ → String
  pub timestamp : String → ℕ

module _ {F : Type 0} (h : Host F) where
  -- for _, item := range o.Items { o.Subtotal += item.TotalPrice }
  unfoldable pub add_items : F → List (OrderItem F) → F
  add_items subtotal [] = subtotal
  add_items subtotal (item ∷ items) = add_items (h.add subtotal item.total_price) items

  unfoldable pub calculate_total : Order F → Order F
  unfolding add_items
  calculate_total o =
      let subtotal = add_items h.zero o.items in
      record o {
        subtotal = subtotal;
        total_amount = h.add (h.add (h.sub subtotal o.discount_amount) o.shipping_fee) o.tax_amount;
      }

unfoldable pub can_cancel : {F : Type 0} → Order F → Bool
can_cancel o = (o.status == pending_payment) || (o.status == paid)

pub record OrderItemRow (F : Type 0) : Type 0 where
  pub id : String
  pub order_id : String
  pub product_id : String
  pub sku : String
  pub product_name : String
  pub quantity : ℤ
  pub unit_price : F
  pub discount_amount : F
  pub total_amount : F
  pub created_at : ℕ

pub record OutboxEventRow : Type 0 where
  pub id : String
  pub aggregate_type : String
  pub aggregate_id : String
  pub event_type : String
  pub payload : String
  pub status : String
  pub created_at : String
  pub published_at : Option String

pub record Db (F : Type 0) : Type 0 where
  pub orders : List (OrderRow F)
  pub order_items : List (OrderItemRow F)
  pub outbox_events : List OutboxEventRow

-- What the service keeps in Redis.
pub data Cached (F : Type 0) : Type 0 where
  cached_order : Order F → Cached F
  cached_items : List (OrderItem F) → Cached F
