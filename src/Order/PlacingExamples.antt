-- ===== src/Order/PlacingExamples.antt =====
-- A new order on concrete tables, with amounts that are whole.
use realtime_order_inventory.Prelude.{
  ℕ, ◌≡◌, refl, false, none, [], ◌∷◌, ◌++◌, map, ◌==◌, find, some_row,
}
use realtime_order_inventory.Prelude.Int.{pos}
use realtime_order_inventory.Errors.{ok}
use realtime_order_inventory.Exec.{World, idle}
use realtime_order_inventory.Exec.Envs.{quiet}
use realtime_order_inventory.Order.Domain.{Db, Cached, pending_payment}
use realtime_order_inventory.Order.Postgres
use realtime_order_inventory.Order.Postgres.{has_key}
use realtime_order_inventory.Order.Outbox
use realtime_order_inventory.Order.Outbox.{is_pending}
use realtime_order_inventory.Order.Repository.{order_repository, order_item_repository}
use realtime_order_inventory.Order.UseCase.{
  CreateOrderRequest, created, has_invalid_item, create_order, created_payload,
}
use realtime_order_inventory.Order.Publisher.{publish_batch}
use realtime_order_inventory.Order.Publishing.{content_of}
use realtime_order_inventory.Order.Storing.{AreNew}
use realtime_order_inventory.Order.Placing.{
  wanted, placed_order, placed_rows, placed_event, create_order_success,
}
use realtime_order_inventory.Order.Announcing.{nobody}
use realtime_order_inventory.Order.Placed.{after_create, create_order_announced}
use realtime_order_inventory.Order.Fixtures.{ids, host, event, tables, world, request}

abbrev fresh_request : CreateOrderRequest ℕ
fresh_request = record request { idempotency_key = "key-3" }

-- Nothing is pending.
abbrev settled : World (Db ℕ) (Cached ℕ)
settled = record world {
  db = record tables { outbox_events = record event { status = "PUBLISHED" } ∷ [] };
}

order_fresh : some_row (λ r. r.id == "new") settled.db.orders ≡ false
unfolding some_row
order_fresh = refl

key_unused : find (has_key "key-3") settled.db.orders ≡ none
unfolding find
key_unused = refl

rows_new : AreNew (placed_rows host ids settled fresh_request) settled.db.order_items
unfolding some_row
rows_new = (refl, tt)

event_unseen : some_row (λ r. r.id == "new") settled.db.outbox_events ≡ false
unfolding some_row
event_unseen = refl

items_valid : has_invalid_item fresh_request.items ≡ false
unfolding has_invalid_item some_row
items_valid = refl

none_pending : some_row is_pending settled.db.outbox_events ≡ false
unfolding some_row is_pending
none_pending = refl

create_order_success_example :
    let placed = placed_order host ids settled fresh_request in
    (create_order host
        (quiet ids)
        (order_repository host (quiet ids))
        (order_item_repository host (quiet ids))
        fresh_request
        settled
      ≡ (
        ok (created (placed_order host ids settled fresh_request)),
        record settled {
          db = record {
            orders =
                settled.db.orders
                ++ Postgres.to_row host (placed_order host ids settled fresh_request) ∷ [];
            order_items = placed_rows host ids settled fresh_request;
            outbox_events =
                settled.db.outbox_events
                ++ Outbox.to_row (placed_event host ids settled fresh_request) ∷ [];
          };
          tx = idle;
          calls = 13;
        },
      ))
    × (placed.status ≡ pending_payment)
    × (placed.customer_id ≡ "ann")
    × (placed.idempotency_key ≡ "key-3")
    × (map wanted placed.items ≡ ("lamp", "L1", pos 2) ∷ [])
create_order_success_example =
    create_order_success host ids settled fresh_request order_fresh key_unused rows_new event_unseen
      refl items_valid refl

create_order_announced_example :
    map content_of
      (publish_batch host
        (quiet ids)
        []
        nobody
        10
        (after_create host ids settled fresh_request)).1.sent
    ≡ ("order.created", "new", created_payload host (placed_order host ids settled fresh_request))
      ∷ []
create_order_announced_example =
    create_order_announced host ids settled fresh_request [] 9 order_fresh key_unused rows_new
      event_unseen refl items_valid refl none_pending
