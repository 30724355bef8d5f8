-- ===== src/Order/Placed.antt =====
-- From CreateOrder of internal/order/usecase/create_order.go to Kafka.
use realtime_order_inventory.Prelude.{
  ℕ, suc, ◌≡◌, refl, ◌∙◌, ap, String, false, true, none, List, [], ◌∷◌, ◌++◌, map, ◌==◌, find,
  some_row,
}
use realtime_order_inventory.Exec.{World}
use realtime_order_inventory.Exec.Envs.{quiet}
use realtime_order_inventory.Exec.Runs.{later}
use realtime_order_inventory.Order.Domain.{Host, Db, Cached}
use realtime_order_inventory.Order.Postgres.{has_key}
use realtime_order_inventory.Order.Outbox.{is_pending, row_to_event, to_row}
use realtime_order_inventory.Order.Repository.{order_repository, order_item_repository}
use realtime_order_inventory.Order.UseCase.{
  CreateOrderRequest, is_empty, has_invalid_item, create_order, created_payload, order_event,
}
use realtime_order_inventory.Order.Publisher.{publish_batch, get_topic_for_event}
use realtime_order_inventory.Order.Publishing.{content_of, published}
use realtime_order_inventory.Order.Storing.{AreNew}
use realtime_order_inventory.Order.Placing.{
  event_call, placed_order, placed_rows, placed_event, create_order_success,
}
use realtime_order_inventory.Order.Announcing.{nobody, event_announced}

module _ {F : Type 0} (h : Host F) (ids : ℕ → String) (w : World (Db F) (Cached F))
    (req : CreateOrderRequest F) where
  -- CreateOrder has run.
  abbrev pub after_create : World (Db F) (Cached F)
  after_create =
      (create_order h (quiet ids) (order_repository h (quiet ids))
        (order_item_repository h (quiet ids)) req w).1

  created_content : published (row_to_event h (to_row (placed_event h ids w req))) ≡ (
    "order.created",
    ids (later 1 w.calls),
    h.jsonb (created_payload h (placed_order h ids w req)),
  )
  unfolding to_row row_to_event order_event get_topic_for_event
  created_content = refl

  created-IsPending : is_pending (to_row (placed_event h ids w req)) ≡ true
  unfolding is_pending to_row order_event
  created-IsPending = refl

  -- After CreateOrder of a valid cart with a key that no order has, a batch of the publisher writes one
  -- message to Kafka: on the topic order.created, with the new order's identifier as its key and the
  -- text that the JSONB column gives back of the order's customer, total and number of items as its value, where no event was pending, the
  -- identifiers are fresh, no transaction holds a row and no call fails.
  pub create_order_announced :
      (trace : List (String × String)) (limit : ℕ)
      → some_row (λ r. r.id == ids (later 1 w.calls)) w.db.orders ≡ false
      → find (has_key req.idempotency_key) w.db.orders ≡ none
      → AreNew (placed_rows h ids w req) w.db.order_items
      → some_row (λ r. r.id == ids (event_call h ids w req)) w.db.outbox_events ≡ false
      → is_empty req.items ≡ false
      → has_invalid_item req.items ≡ false
      → (req.idempotency_key == "") ≡ false
      → some_row is_pending w.db.outbox_events ≡ false
      → map content_of (publish_batch h (quiet ids) trace nobody (suc limit) after_create).1.sent
        ≡ map content_of w.sent
          ++ (
            "order.created",
            ids (later 1 w.calls),
            h.jsonb (created_payload h (placed_order h ids w req)),
          )
            ∷ []
  create_order_announced trace limit fresh unused new unseen full valid given none_pending =
      let run = (create_order_success h ids w req fresh unused new unseen full valid given).0 in
      event_announced h ids trace limit (placed_event h ids w req) w.db.outbox_events after_create
        (ap (λ o. o.1.db.outbox_events) run) none_pending created-IsPending
      ∙ ap
          (λ s.
            map content_of s ++ published (row_to_event h (to_row (placed_event h ids w req))) ∷ [])
          (ap (λ o. o.1.sent) run)
      ∙ ap (λ c. map content_of w.sent ++ c ∷ []) created_content
