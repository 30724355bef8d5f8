-- ===== src/Order/OutboxExamples.antt =====
-- Runs of the outbox and of the cached orders on concrete data, with amounts that are whole.
use realtime_order_inventory.Prelude.{
  ltb, if◌then◌else◌, some_row, ℕ, ◌≡◌, refl, String, Bool, true, false, some, List, [], ◌∷◌, ◌==◌,
  update,
}
use realtime_order_inventory.Errors.{Result, ok}
use realtime_order_inventory.Exec.{World}
use realtime_order_inventory.Exec.Envs.{quiet}
use realtime_order_inventory.Redis.{Cache, full_key, lookup}
use realtime_order_inventory.Order.Domain.{
  Order, OutboxEventRow, Db, Cached, cached_order, can_cancel,
}
use realtime_order_inventory.Order.Outbox
use realtime_order_inventory.Order.Outbox.{pending_rows, unlocked}
use realtime_order_inventory.Order.Repository.{order_item_repository}
use realtime_order_inventory.Order.UseCase.{cancel_order, order_event}
use realtime_order_inventory.Order.Staleness.{
  cached_orders, stale_after_cancel, after_confirm, confirming, cancelling,
  confirmed_then_cancelled,
}
use realtime_order_inventory.Order.Fixtures.{event_fresh, ids, home, host, tables, world}

abbrev unheld : String → Bool
unheld id = false

abbrev found : List OutboxEventRow
found = pending_rows host.timestamp 5 (unlocked unheld tables.outbox_events)

abbrev fetched : Order ℕ
fetched = record {
  id = "order-1";
  customer_id = "ann";
  status = "pending_payment";
  currency = "USD";
  subtotal = 6;
  discount_amount = 0;
  shipping_fee = 0;
  tax_amount = 0;
  total_amount = 6;
  shipping_address = home;
  items = [];
  idempotency_key = "key-1";
  created_at = 0;
  updated_at = 0;
}

abbrev cache : Cache
cache = record { prefix = "order" }

abbrev warm : World (Db ℕ) (Cached ℕ)
warm = record world { store = ("order:order-1", cached_order fetched) ∷ [] }

warm_hit : lookup (full_key cache "order-1") warm.store ≡ some (cached_order fetched)
unfolding lookup full_key
warm_hit = refl

fetched_open : can_cancel fetched ≡ true
unfolding can_cancel
fetched_open = refl

abbrev cancelled_warm : Result (Unit {0}) × World (Db ℕ) (Cached ℕ)
cancelled_warm =
    cancel_order host (quiet ids) (cached_orders host ids cache "order-1" fetched)
      (order_item_repository host (quiet ids)) "order-1" "late" warm

stale_after_cancel_example :
    (cancelled_warm.0 ≡ ok tt)
    × (cancelled_warm.1.db.orders
        ≡ update
            (λ r. r.id == "order-1")
            (λ r. record r { status = "cancelled"; updated_at = 4 })
            tables.orders)
    × (((cached_orders host ids cache "order-1" fetched).get_by_id "order-1" cancelled_warm.1).0
        ≡ ok fetched)
stale_after_cancel_example =
    stale_after_cancel host ids cache "order-1" fetched warm "late" warm_hit fetched_open
      event_fresh

abbrev two_ids : ℕ → String
two_ids n = if ltb n 5 then "new" else "newer"

confirmed_fresh :
    some_row
      (λ r. r.id == "newer")
      (after_confirm host two_ids cache "order-1" fetched warm "late").db.outbox_events
    ≡ false
unfolding some_row order_event Outbox.to_row
confirmed_fresh = refl

confirmed_then_cancelled_example :
    let first = confirming host two_ids cache "order-1" fetched warm "late" in
    let second = cancelling host two_ids cache "order-1" fetched warm "late" in
    (first.0 ≡ ok tt)
    × (second.0 ≡ ok tt)
    × (first.1.db.orders
        ≡ update
            (λ r. r.id == "order-1")
            (λ r. record r { status = "processing"; updated_at = 4 })
            tables.orders)
    × (second.1.db.orders
        ≡ update
            (λ r. r.id == "order-1")
            (λ r. record r { status = "cancelled"; updated_at = 12 })
            first.1.db.orders)
confirmed_then_cancelled_example =
    confirmed_then_cancelled host two_ids cache "order-1" fetched warm "late" warm_hit refl
      event_fresh confirmed_fresh
