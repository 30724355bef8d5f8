-- ===== src/Order/RoundTrips.antt =====
-- What the repositories of internal/order store and what they read back.
use realtime_order_inventory.Prelude.{◌≡◌, []}
use realtime_order_inventory.Order.Domain.{Host, Order}
use realtime_order_inventory.Order.Postgres
use realtime_order_inventory.Order.Postgres.{row_to_order}

-- An order comes back from its row without its items and its idempotency key, with the
-- amounts that the columns keep, where its address is
-- decoded to what was encoded.
pub order_round_trip :
    {F : Type 0} (h : Host F) (o : Order F)
    → h.unmarshal_address (h.marshal_address o.shipping_address) ≡ o.shipping_address
    → row_to_order h (Postgres.to_row h o) ≡ record o {
      subtotal = h.decimal o.subtotal;
      discount_amount = h.decimal o.discount_amount;
      shipping_fee = h.decimal o.shipping_fee;
      tax_amount = h.decimal o.tax_amount;
      total_amount = h.decimal o.total_amount;
      items = [];
      idempotency_key = "";
    }
unfolding row_to_order Postgres.to_row
order_round_trip h o decoded = rw decoded
