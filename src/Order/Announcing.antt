-- ===== src/Order/Announcing.antt =====
-- From a use case of internal/order/usecase to Kafka: the event in the outbox, claimed and published by
-- internal/order/adapter/kafka/outbox_publisher.go.
use realtime_order_inventory.Prelude.{
  ℕ, zero, suc, ◌≡◌, refl, ◌∙◌, ap, String, Bool, true, false, some, List, [], ◌∷◌, ◌++◌, map, ◌==◌,
  find, select, some_row, arith,
}
use realtime_order_inventory.Exec.{
  World, ◌>>=◌, pure, wrap, deferring_rollback, query, read, begin, commit, settle, idle,
}
use realtime_order_inventory.Exec.Envs.{quiet}
use realtime_order_inventory.Exec.Runs.{later, bind_ok}
use realtime_order_inventory.Order.Domain.{
  Host, OrderRow, OutboxEvent, OutboxEventRow, Db, Cached, can_cancel,
}
use realtime_order_inventory.Order.Postgres.{row_to_order}
use realtime_order_inventory.Order.Outbox.{
  is_pending, pending_rows, oldest_first, unlocked, claim, claim_rows, claim_batch, row_to_event,
  to_row,
}
use realtime_order_inventory.Order.Repository.{order_repository, order_item_repository}
use realtime_order_inventory.Order.UseCase.{cancel_order, cancelled_payload, order_event}
use realtime_order_inventory.Order.Publisher.{publish_all, publish_batch, get_topic_for_event}
use realtime_order_inventory.Order.Publishing.{content_of, published, publish_all_sends}
use realtime_order_inventory.Order.Claiming.{claim_batch_once}
use realtime_order_inventory.Order.Lifecycle.{cancel_order_success}

-- No other transaction holds a row.
abbrev pub nobody : String → Bool
nobody id = false

module _ {F : Type 0} (h : Host F) (ids : ℕ → String) where
  rows_sent :
      (found : List OutboxEventRow) (w : World (Db F) (Cached F))
      → w.tx ≡ idle
      → (claim_rows h (quiet ids) found w).1.sent ≡ w.sent
  unfolding claim_rows pure query ◌>>=◌ wrap commit settle claim
  rows_sent [] w t = refl
  rows_sent (r ∷ rs) w t = simp t

  -- A claim writes nothing to Kafka.
  claim_sent :
      (locked : String → Bool) (limit : ℕ) (w : World (Db F) (Cached F))
      → (claim_batch h (quiet ids) locked limit w).1.sent ≡ w.sent
  unfolding claim_batch begin ◌>>=◌ wrap deferring_rollback query read
  claim_sent locked limit w =
      rows_sent (pending_rows h.timestamp limit (unlocked locked w.db.outbox_events))
        (record w { tx = idle; calls = later 2 w.calls }) refl

  publish_batch_sends :
      (trace : List (String × String)) (locked : String → Bool) (limit : ℕ)
      (w : World (Db F) (Cached F))
      → map content_of (publish_batch h (quiet ids) trace locked limit w).1.sent
        ≡ map content_of w.sent
          ++ map published (
              map
                (row_to_event h)
                (pending_rows h.timestamp limit (unlocked locked w.db.outbox_events)))
  unfolding publish_batch
  publish_batch_sends trace locked limit w =
      let out = claim_batch h (quiet ids) locked limit w in
      let claimed = (claim_batch_once h ids locked locked limit limit w).0 in
      let events =
        map (row_to_event h)
          (pending_rows h.timestamp limit (unlocked locked w.db.outbox_events)) in
      let run =
        bind_ok (claim_batch h (quiet ids) locked limit) (publish_all h (quiet ids) trace) w events
          out.1 (ap (λ r. (r, out.1)) claimed) refl in
      ap (λ o. map content_of o.1.sent) run
      ∙ publish_all_sends h ids trace events out.1
      ∙ ap (λ s. map content_of s ++ map published events) (claim_sent locked limit w)

all_free : (rows : List OutboxEventRow) → unlocked nobody rows ≡ rows
unfolding unlocked select
all_free [] = refl
all_free (r ∷ rows) = ap (λ t. r ∷ t) (all_free rows)

only_last :
    (rows : List OutboxEventRow) (row : OutboxEventRow)
    → some_row is_pending rows ≡ false
    → is_pending row ≡ true
    → select is_pending (rows ++ row ∷ []) ≡ row ∷ []
unfolding some_row select
only_last [] row none_pending here = rw here
only_last (r ∷ rows) row none_pending here = ground (arith, only_last rows row)

one_pending :
    (timestamp : String → ℕ) (limit : ℕ) (rows : List OutboxEventRow) (row : OutboxEventRow)
    → some_row is_pending rows ≡ false
    → is_pending row ≡ true
    → pending_rows timestamp (suc limit) (unlocked nobody (rows ++ row ∷ [])) ≡ row ∷ []
unfolding pending_rows oldest_first
one_pending timestamp zero rows row none_pending here =
    rw (all_free (rows ++ row ∷ []), only_last rows row none_pending here)
one_pending timestamp (suc limit) rows row none_pending here =
    rw (all_free (rows ++ row ∷ []), only_last rows row none_pending here)

-- One pending event at the end of the outbox is what a batch writes.
pub event_announced :
    {F : Type 0} (h : Host F) (ids : ℕ → String) (trace : List (String × String)) (limit : ℕ)
    (ev : OutboxEvent) (old : List OutboxEventRow) (w : World (Db F) (Cached F))
    → w.db.outbox_events ≡ old ++ to_row ev ∷ []
    → some_row is_pending old ≡ false
    → is_pending (to_row ev) ≡ true
    → map content_of (publish_batch h (quiet ids) trace nobody (suc limit) w).1.sent
      ≡ map content_of w.sent ++ published (row_to_event h (to_row ev)) ∷ []
event_announced h ids trace limit ev old w events none_pending here =
    publish_batch_sends h ids trace nobody (suc limit) w
    ∙ ap
        (λ rows.
          map content_of w.sent
          ++ map published
              (map (row_to_event h) (pending_rows h.timestamp (suc limit) (unlocked nobody rows))))
        events
    ∙ ap (λ rows. map content_of w.sent ++ map published (map (row_to_event h) rows))
        (one_pending h.timestamp limit old (to_row ev) none_pending here)

-- CancelOrder has run.
abbrev pub after_cancel :
    {F : Type 0}
    → Host F
    → (ℕ → String)
    → World (Db F) (Cached F)
    → String
    → String
    → World (Db F) (Cached F)
after_cancel h ids w id reason =
    (cancel_order h (quiet ids) (order_repository h (quiet ids))
      (order_item_repository h (quiet ids)) id reason w).1

module _ {F : Type 0} (h : Host F) (ids : ℕ → String) (w : World (Db F) (Cached F))
    (row : OrderRow F) (id reason : String) where
  abbrev cancelled_event : OutboxEvent
  cancelled_event =
      order_event (ids (later 1 w.calls)) row.id "order.cancelled"
        (cancelled_payload h (row_to_order h row) reason) (h.rfc3339 (later 2 w.calls))

  cancelled_event-IsPending : is_pending (to_row cancelled_event) ≡ true
  unfolding is_pending to_row order_event
  cancelled_event-IsPending = refl

  cancelled_content :
      published (row_to_event h (to_row cancelled_event))
      ≡ ("order.cancelled", row.id, h.jsonb (cancelled_payload h (row_to_order h row) reason))
  unfolding to_row row_to_event order_event get_topic_for_event
  cancelled_content = refl

  -- After CancelOrder of an order that may be cancelled, a batch of the publisher writes one message to
  -- Kafka: on the topic order.cancelled, with the order's identifier as its key and the text that the JSONB
  -- column gives back of the statuses and the reason as its value, where no event was pending, the event's
  -- identifier is fresh, no transaction holds a row and no call fails.
  pub cancel_order_announced :
      (trace : List (String × String)) (limit : ℕ)
      → find (λ r. r.id == id) w.db.orders ≡ some row
      → some_row (λ r. r.id == ids (later 1 w.calls)) w.db.outbox_events ≡ false
      → can_cancel (row_to_order h row) ≡ true
      → some_row is_pending w.db.outbox_events ≡ false
      → map content_of
          (publish_batch h
            (quiet ids)
            trace
            nobody
            (suc limit)
            (after_cancel h ids w id reason)).1.sent
        ≡ map content_of w.sent
          ++ ("order.cancelled", row.id, h.jsonb (cancelled_payload h (row_to_order h row) reason))
            ∷ []
  cancel_order_announced trace limit found fresh open_ none_pending =
      let w' = after_cancel h ids w id reason in
      let run = cancel_order_success h ids w row id found fresh reason open_ in
      event_announced h ids trace limit cancelled_event w.db.outbox_events w'
        (ap (λ o. o.1.db.outbox_events) run) none_pending cancelled_event-IsPending
      ∙ ap (λ s. map content_of s ++ published (row_to_event h (to_row cancelled_event)) ∷ [])
          (ap (λ o. o.1.sent) run)
      ∙ ap (λ c. map content_of w.sent ++ c ∷ []) cancelled_content
