-- ===== src/Order/Lifecycle.antt =====
-- What CreateOrder, CancelOrder and ConfirmOrder do, branch by branch, where the service is alone
-- and no call fails.
use realtime_order_inventory.Prelude.{
  ℕ, suc, ◌≡◌, refl, String, true, false, some, [], ◌∷◌, ◌++◌, ◌==◌, find, update, some_row,
}
use realtime_order_inventory.Errors.{order, order_not_cancellable, ok, err}
use realtime_order_inventory.Exec.{
  World, pure, raise, ◌>>=◌, wrap, attempt, deferring_rollback, query, read, begin, commit, settle,
  new_id, now, idle,
}
use realtime_order_inventory.Exec.Envs.{quiet}
use realtime_order_inventory.Exec.Runs.{later, bind_ok}
use realtime_order_inventory.Order.Domain.{
  Host, OrderRow, OutboxEvent, Db, Cached, can_cancel, cancelled, processing, pending_payment,
}
use realtime_order_inventory.Order.Postgres
use realtime_order_inventory.Order.Postgres.{
  E, has_key, set_status, row_to_order, find_order, find_by_key,
}
use realtime_order_inventory.Order.Outbox
use realtime_order_inventory.Order.Outbox.{insert_event}
use realtime_order_inventory.Order.Repository.{order_repository, order_item_repository}
use realtime_order_inventory.Order.UseCase.{
  CreateOrderRequest, duplicate, is_empty, has_invalid_item, create_order, create_cart,
  create_unless, choose_key, cancel_order, confirm_order, change_status, make_event, order_event,
  cancelled_payload, confirmed_payload,
}

module _ {F : Type 0} (h : Host F) (ids : ℕ → String) where
  pub make_event_run :
      (id t payload : String) (w : World (Db F) (Cached F))
      → make_event h (quiet ids) id t payload w ≡ (
        ok (order_event (ids w.calls) id t payload (h.rfc3339 (later 1 w.calls))),
        record w { calls = later 2 w.calls },
      )
  unfolding make_event new_id now pure ◌>>=◌
  make_event_run id t payload w = refl

  pub change_status_run :
      (context id s : String) (ev : OutboxEvent) (w : World (Db F) (Cached F))
      → some_row (λ r. r.id == ev.id) w.db.outbox_events ≡ false
      → change_status h
          (quiet ids)
          (order_repository h (quiet ids))
          (order_item_repository h (quiet ids))
          context
          id
          s
          ev
          w
        ≡ (
          ok tt,
          record w {
            db = record w.db {
              orders =
                  update
                    (λ r. r.id == id)
                    (λ r. record r { status = s; updated_at = later 1 w.calls })
                    w.db.orders;
              outbox_events = w.db.outbox_events ++ Outbox.to_row ev ∷ [];
            };
            tx = idle;
            calls = later 5 w.calls;
          },
        )
  unfolding change_status begin now commit settle Postgres.update_status_in_tx set_status
      Outbox.create_in_tx insert_event Outbox.to_row query ◌>>=◌ wrap deferring_rollback pure
  change_status_run context id s ev w fresh = simp fresh

module _ {F : Type 0} (h : Host F) (ids : ℕ → String) (w : World (Db F) (Cached F))
    (row : OrderRow F) where
  -- CreateOrder of a valid cart with a key that an order has already returns that order and writes
  -- nothing, where no call fails.
  pub create_order_duplicate :
      (req : CreateOrderRequest F)
      → is_empty req.items ≡ false
      → has_invalid_item req.items ≡ false
      → (req.idempotency_key == "") ≡ false
      → find (has_key req.idempotency_key) w.db.orders ≡ some row
      → create_order h
          (quiet ids)
          (order_repository h (quiet ids))
          (order_item_repository h (quiet ids))
          req
          w
        ≡ (ok (duplicate (row_to_order h row)), record w { calls = suc w.calls })
  unfolding create_order create_cart choose_key Postgres.get_by_idempotency_key find_by_key
      create_unless query ◌>>=◌ pure attempt read
  create_order_duplicate req full valid given found = simp (full, valid, given, found)

  module _ (id : String) (found : find (λ r. r.id == id) w.db.orders ≡ some row) where
    lookup_run :
        Postgres.get_by_id h (quiet ids) id w
        ≡ (ok (row_to_order h row), record w { calls = suc w.calls })
    unfolding Postgres.get_by_id find_order query ◌>>=◌ pure read
    lookup_run = simp found

    -- CancelOrder fails with ErrOrderNotCancellable and writes nothing for an order that is neither
    -- waiting for payment nor paid, where no call fails.
    pub cancel_order_refused :
        (reason : String)
        → can_cancel (row_to_order h row) ≡ false
        → cancel_order h
            (quiet ids)
            (order_repository h (quiet ids))
            (order_item_repository h (quiet ids))
            id
            reason
            w
          ≡ (err (order order_not_cancellable), record w { calls = suc w.calls })
    unfolding cancel_order raise
    cancel_order_refused reason closed = bind_ok _ _ _ _ _ lookup_run (rw closed)

    -- What a change of the status leaves: the status and the time of the order, and one event more
    -- in the outbox, which is pending.
    abbrev changed : String → OutboxEvent → World (Db F) (Cached F)
    changed s ev = record w {
      db = record w.db {
        orders =
            update (λ r. r.id == id) (λ r. record r { status = s; updated_at = later 4 w.calls })
              w.db.orders;
        outbox_events = w.db.outbox_events ++ Outbox.to_row ev ∷ [];
      };
      tx = idle;
      calls = later 8 w.calls;
    }

    abbrev event_of : String → String → OutboxEvent
    event_of event_type payload =
        order_event (ids (later 1 w.calls)) row.id event_type payload (h.rfc3339 (later 2 w.calls))

    module _
        (fresh : some_row (λ r. r.id == ids (later 1 w.calls)) w.db.outbox_events ≡ false) where
      -- CancelOrder of an order that waits for payment or is paid makes it cancelled and adds one
      -- pending event to the outbox, with the old status and the reason, where the event's identifier
      -- is fresh and no call fails.
      pub cancel_order_success :
          (reason : String)
          → can_cancel (row_to_order h row) ≡ true
          → cancel_order h
              (quiet ids)
              (order_repository h (quiet ids))
              (order_item_repository h (quiet ids))
              id
              reason
              w
            ≡ (
              ok tt,
              changed cancelled
                  (event_of "order.cancelled" (cancelled_payload h (row_to_order h row) reason)),
            )
      unfolding cancel_order order_event row_to_order
      cancel_order_success reason open_ = bind_ok _ _ _ _ _ lookup_run (
          rw open_ (
            bind_ok _ _ _ _ _ (make_event_run h ids _ _ _ _)
              (change_status_run h ids _ _ _ _ _ fresh)))

      -- ConfirmOrder of an order that waits for payment makes it processing and adds one pending
      -- event to the outbox, where the event's identifier is fresh and no call fails.
      pub confirm_order_success :
          (row.status == pending_payment) ≡ true
          → confirm_order h
              (quiet ids)
              (order_repository h (quiet ids))
              (order_item_repository h (quiet ids))
              id
              w
            ≡ (
              ok tt,
              changed processing
                  (event_of "order.confirmed" (confirmed_payload h (row_to_order h row))),
            )
      unfolding confirm_order order_event row_to_order
      confirm_order_success waits = bind_ok _ _ _ _ _ lookup_run (
          rw waits (
            bind_ok _ _ _ _ _ (make_event_run h ids _ _ _ _)
              (change_status_run h ids _ _ _ _ _ fresh)))
