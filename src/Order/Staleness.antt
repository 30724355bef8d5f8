-- ===== src/Order/Staleness.antt =====
-- The cache of orders of internal/order/adapter/cache/order_repo.go and the statuses that change in a
-- transaction.
use realtime_order_inventory.Prelude.{
  ℕ, suc, ◌≡◌, ap, String, true, false, some, update, some_row, ◌==◌, ◌++◌, ◌∷◌, [],
}
use realtime_order_inventory.Errors.{Result, ok}
use realtime_order_inventory.Exec.{World, ◌>>=◌, pure}
use realtime_order_inventory.Exec.Envs.{quiet}
use realtime_order_inventory.Redis
use realtime_order_inventory.Redis.{Cache, full_key, lookup, decoded}
use realtime_order_inventory.Order.Domain.{Order, Host, Db, Cached, cached_order}
use realtime_order_inventory.Order.Repository.{OrderRepository}
use realtime_order_inventory.Order.Cache.{get_by_id, order_key, as_order, read_through, order_cache}
use realtime_order_inventory.Exec.Runs.{later, bind_ok}
use realtime_order_inventory.Order.Domain.{
  can_cancel, cancelled, processing, pending_payment, OutboxEvent,
}
use realtime_order_inventory.Order.Outbox
use realtime_order_inventory.Order.Repository.{order_repository, order_item_repository}
use realtime_order_inventory.Order.UseCase.{
  cancel_order, confirm_order, change_status, cancelled_payload, confirmed_payload, order_event,
}
use realtime_order_inventory.Order.Lifecycle.{make_event_run, change_status_run}

module _ {F : Type 0} (h : Host F) (ids : ℕ → String) (cache : Cache) (id : String)
    (o : Order F) where
  -- The repository that the service is wired with.
  abbrev pub cached_orders : OrderRepository F
  cached_orders = order_cache (quiet ids) cache (order_repository h (quiet ids))

  hit_run :
      (w : World (Db F) (Cached F))
      → lookup (full_key cache id) w.store ≡ some (cached_order o)
      → cached_orders.get_by_id id w ≡ (ok o, record w { calls = suc w.calls })
  unfolding get_by_id order_key Redis.get as_order read_through pure ◌>>=◌
  hit_run w hit = simp hit

  module _ (w : World (Db F) (Cached F)) (reason : String) where
    abbrev cancelled_event : OutboxEvent
    cancelled_event =
        order_event (ids (later 1 w.calls)) o.id "order.cancelled" (cancelled_payload h o reason)
          (h.rfc3339 (later 2 w.calls))

    -- What the cancellation leaves behind Redis, which it does not touch.
    abbrev after_cancel : World (Db F) (Cached F)
    after_cancel = record w {
      db = record w.db {
        orders =
            update (λ r. r.id == id)
              (λ r. record r { status = cancelled; updated_at = later 4 w.calls }) w.db.orders;
        outbox_events = w.db.outbox_events ++ Outbox.to_row cancelled_event ∷ [];
      };
      tx = record { aborted = false; writes = λ d. d };
      calls = later 8 w.calls;
    }

    cancel_run :
        lookup (full_key cache id) w.store ≡ some (cached_order o)
        → can_cancel o ≡ true
        → some_row (λ r. r.id == ids (later 1 w.calls)) w.db.outbox_events ≡ false
        → cancel_order h (quiet ids) cached_orders (order_item_repository h (quiet ids)) id reason w
          ≡ (ok tt, after_cancel)
    unfolding cancel_order change_status order_event
    cancel_run hit open_ fresh = bind_ok _ _ _ _ _ (hit_run w hit) (
        rw open_ (
          bind_ok _ _ _ _ _ (make_event_run h ids _ _ _ _)
            (change_status_run h ids _ _ _ _ _ fresh)))

    -- Where the cache holds an order that can be cancelled, the event's identifier is fresh and no call
    -- fails, CancelOrder succeeds, the table says cancelled, and the next GetByID still returns the
    -- cached order with its old status.
    pub stale_after_cancel :
        lookup (full_key cache id) w.store ≡ some (cached_order o)
        → can_cancel o ≡ true
        → some_row (λ r. r.id == ids (later 1 w.calls)) w.db.outbox_events ≡ false
        → let out =
            cancel_order h
              (quiet ids)
              cached_orders
              (order_item_repository h (quiet ids))
              id
              reason
              w in
          (out.0 ≡ ok tt)
          × (out.1.db.orders
              ≡ update
                  (λ r. r.id == id)
                  (λ r. record r { status = cancelled; updated_at = later 4 w.calls })
                  w.db.orders)
          × ((cached_orders.get_by_id id out.1).0 ≡ ok o)
    stale_after_cancel hit open_ fresh =
        let run = cancel_run hit open_ fresh in
        (
          ap (λ x. x.0) run,
          ap (λ x. x.1.db.orders) run,
          rw run (ap (λ x. x.0) (hit_run after_cancel hit)),
        )

  module _ (w : World (Db F) (Cached F)) (reason : String) where
    abbrev confirmed_event : OutboxEvent
    confirmed_event =
        order_event (ids (later 1 w.calls)) o.id "order.confirmed" (confirmed_payload h o)
          (h.rfc3339 (later 2 w.calls))

    abbrev pub after_confirm : World (Db F) (Cached F)
    after_confirm = record w {
      db = record w.db {
        orders =
            update (λ r. r.id == id)
              (λ r. record r { status = processing; updated_at = later 4 w.calls }) w.db.orders;
        outbox_events = w.db.outbox_events ++ Outbox.to_row confirmed_event ∷ [];
      };
      tx = record { aborted = false; writes = λ d. d };
      calls = later 8 w.calls;
    }

    confirm_run :
        lookup (full_key cache id) w.store ≡ some (cached_order o)
        → (o.status == pending_payment) ≡ true
        → some_row (λ r. r.id == ids (later 1 w.calls)) w.db.outbox_events ≡ false
        → confirm_order h (quiet ids) cached_orders (order_item_repository h (quiet ids)) id w
          ≡ (ok tt, after_confirm)
    unfolding confirm_order change_status order_event
    confirm_run hit waits fresh = bind_ok _ _ _ _ _ (hit_run w hit) (
        rw waits (
          bind_ok _ _ _ _ _ (make_event_run h ids _ _ _ _)
            (change_status_run h ids _ _ _ _ _ fresh)))

    abbrev pub confirming : Result (Unit {0}) × World (Db F) (Cached F)
    confirming =
        confirm_order h (quiet ids) cached_orders (order_item_repository h (quiet ids)) id w

    abbrev pub cancelling : Result (Unit {0}) × World (Db F) (Cached F)
    cancelling =
        cancel_order h (quiet ids) cached_orders (order_item_repository h (quiet ids)) id reason
          confirming.1

    -- Where the cache holds an order that waits for its payment, ConfirmOrder and then CancelOrder of it
    -- both succeed: the table says processing after the first and cancelled after the second, where the
    -- identifiers of both events are fresh and no call fails.
    pub confirmed_then_cancelled :
        lookup (full_key cache id) w.store ≡ some (cached_order o)
        → (o.status == pending_payment) ≡ true
        → some_row (λ r. r.id == ids (later 1 w.calls)) w.db.outbox_events ≡ false
        → some_row (λ r. r.id == ids (later 9 w.calls)) after_confirm.db.outbox_events ≡ false
        → (confirming.0 ≡ ok tt)
          × (cancelling.0 ≡ ok tt)
          × (confirming.1.db.orders
              ≡ update
                  (λ r. r.id == id)
                  (λ r. record r { status = processing; updated_at = later 4 w.calls })
                  w.db.orders)
          × (cancelling.1.db.orders
              ≡ update
                  (λ r. r.id == id)
                  (λ r. record r { status = cancelled; updated_at = later 12 w.calls })
                  confirming.1.db.orders)
    unfolding can_cancel
    confirmed_then_cancelled hit waits fresh fresh' =
        let run = confirm_run hit waits fresh in
        let open_ : can_cancel o ≡ true = rw waits in
        let run' = cancel_run after_confirm reason hit open_ fresh' in
        (
          ap (λ x. x.0) run,
          rw run (ap (λ x. x.0) run'),
          ap (λ x. x.1.db.orders) run,
          rw run (ap (λ x. x.1.db.orders) run'),
        )
