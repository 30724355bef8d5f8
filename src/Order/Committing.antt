-- ===== src/Order/Committing.antt =====
-- The whole transaction of CreateOrder in internal/order/usecase/create_order.go, where the service is alone
-- and no call fails.
use realtime_order_inventory.Prelude.{
  ℕ, suc, ◌≡◌, refl, ◌∙◌, ap, false, some, [], ◌∷◌, ◌++◌, ◌==◌, some_row, String,
}
use realtime_order_inventory.Errors.{ok}
use realtime_order_inventory.Exec.{
  World, in_tx, idle, after, state_of, ◌>>=◌, wrap, begin, commit, settle,
}
use realtime_order_inventory.Exec.Envs.{quiet}
use realtime_order_inventory.Exec.Runs.{later, bind_ok, query_in_tx, wrap_ok, rollback_any}
use realtime_order_inventory.Order.Domain.{Host, Order, OrderRow, OutboxEvent, Db, Cached}
use realtime_order_inventory.Order.Postgres
use realtime_order_inventory.Order.Postgres.{has_key, find_by_key, insert_order}
use realtime_order_inventory.Order.Outbox
use realtime_order_inventory.Order.Outbox.{insert_event}
use realtime_order_inventory.Order.Repository.{order_repository, order_item_repository}
use realtime_order_inventory.Order.UseCase.{store_order}
use realtime_order_inventory.Order.Storing.{
  AreNew, AreOf, item_rows, calls_after, written, written-others, written-calls, written-open,
  written-db, written-seen, items_run,
}

module _ {F : Type 0} (h : Host F) (ids : ℕ → String) where
  order_inserted :
      (r : OrderRow F) (key : String) (d : Db F)
      → r.idempotency_key ≡ some key
      → some_row (λ x. x.id == r.id) d.orders ≡ false
      → some_row (has_key key) d.orders ≡ false
      → insert_order r d ≡ ok (tt, record d { orders = d.orders ++ r ∷ [] })
  unfolding insert_order
  order_inserted r key d keyed fresh unused = rw (fresh, keyed, unused)

  event_inserted :
      (ev : OutboxEvent) (d : Db F)
      → some_row (λ r. r.id == ev.id) d.outbox_events ≡ false
      → insert_event (Outbox.to_row ev) d
        ≡ ok (tt, record d { outbox_events = d.outbox_events ++ Outbox.to_row ev ∷ [] })
  unfolding insert_event Outbox.to_row
  event_inserted ev d fresh = rw fresh

  commit_run :
      (w : World (Db F) (Cached F)) (d : Db F)
      → w.tx.aborted ≡ false
      → w.tx.writes w.db ≡ d
      → commit (quiet ids) w ≡ (ok tt, record w { db = d; tx = idle; calls = suc w.calls })
  unfolding commit settle
  commit_run w d alive sees = simp (alive, sees)

  -- The end of the transaction, on the tables `d` that it sees: the event, and the commit.
  announced_run :
      (ev : OutboxEvent) (v : World (Db F) (Cached F)) (d : Db F)
      → v.tx.aborted ≡ false
      → v.tx.writes v.db ≡ d
      → some_row (λ r. r.id == ev.id) d.outbox_events ≡ false
      → (wrap "failed to create outbox event" (Outbox.create_in_tx (quiet ids) in_tx ev) >>= λ _.
            wrap "failed to commit transaction" (commit (quiet ids)))
          v
        ≡ (
          ok tt,
          record v {
            db = record d { outbox_events = d.outbox_events ++ Outbox.to_row ev ∷ [] };
            tx = idle;
            calls = later 2 v.calls;
          },
        )
  unfolding Outbox.create_in_tx
  announced_run ev v d open_ sees unseen =
      let d' : Db F = record d { outbox_events = d.outbox_events ++ Outbox.to_row ev ∷ [] } in
      let run = ap (insert_event (Outbox.to_row ev)) sees ∙ event_inserted ev d unseen in
      let v' : World (Db F) (Cached F) = record v {
        tx = record {
          aborted = v.tx.aborted;
          writes = λ x. after (insert_event (Outbox.to_row ev)) (v.tx.writes x);
        };
        calls = suc v.calls;
      } in
      bind_ok _ _ _ _ _
        (wrap_ok _ _ _ _ _ (query_in_tx ids (insert_event (Outbox.to_row ev)) v tt d' open_ run))
        (wrap_ok _ _ _ _ _ (
          commit_run v' d' open_ (
            ap (after (insert_event (Outbox.to_row ev))) sees
            ∙ ap (state_of d) (event_inserted ev d unseen))))

  -- From BeginTxx to Commit, on the tables with the order, its items and the event.
  pub store_order_run :
      (o : Order F) (ev : OutboxEvent) (w : World (Db F) (Cached F))
      → some_row (λ r. r.id == o.id) w.db.orders ≡ false
      → some_row (has_key o.idempotency_key) w.db.orders ≡ false
      → AreNew (item_rows h ids o.items (later 2 w.calls)) w.db.order_items
      → AreOf (w.db.orders ++ Postgres.to_row h o ∷ []) (item_rows h ids o.items (later 2 w.calls))
      → some_row (λ r. r.id == ev.id) w.db.outbox_events ≡ false
      → store_order h
          (quiet ids)
          (order_repository h (quiet ids))
          (order_item_repository h (quiet ids))
          o
          ev
          w
        ≡ (
          ok tt,
          record w {
            db = record {
              orders = w.db.orders ++ Postgres.to_row h o ∷ [];
              order_items = w.db.order_items ++ item_rows h ids o.items (later 2 w.calls);
              outbox_events = w.db.outbox_events ++ Outbox.to_row ev ∷ [];
            };
            tx = idle;
            calls = later 2 (calls_after h ids o.items (later 2 w.calls));
          },
        )
  unfolding store_order begin Postgres.create_in_tx Postgres.to_row Outbox.create_in_tx
  store_order_run o ev w fresh unused new of unseen =
      let row = Postgres.to_row h o in
      let d : Db F = record w.db { orders = w.db.orders ++ row ∷ [] } in
      let d' : Db F = record d {
        order_items = d.order_items ++ item_rows h ids o.items (later 2 w.calls);
      } in
      let d'' : Db F = record d' { outbox_events = d'.outbox_events ++ Outbox.to_row ev ∷ [] } in
      let w' : World (Db F) (Cached F) = record w {
        tx = record { aborted = false; writes = λ x. after (insert_order row) x };
        calls = later 2 w.calls;
      } in
      let inserted = order_inserted row o.idempotency_key w.db refl fresh unused in
      let sees = ap (state_of w.db) inserted in
      let items = written h ids o.items w' in
      let seen =
        ap items.tx.writes (written-db h ids o.items w')
        ∙ written-seen h ids o.items w' d sees new of in
      bind_ok _ _ _ _ _ (wrap_ok _ _ _ _ _ refl) (
        rollback_any _ _ _ _ (
          bind_ok _ _ _ _ _
            (wrap_ok _ _ _ _ _ (
              query_in_tx ids (insert_order row) (record w { tx = idle; calls = suc w.calls }) tt d
                refl inserted))
            (bind_ok _ _ _ _ _ (wrap_ok _ _ _ _ _ (items_run h ids o.items w' d refl sees new of)) (
              announced_run ev items d' (written-open h ids o.items w') seen unseen
              ∙ ap (λ v. (ok tt, v))
                  (written-others h ids o.items w' d'' (later 2 items.calls)
                    ∙ ap (λ c. record w { db = d''; tx = idle; calls = later 2 c })
                        (written-calls h ids o.items w'))))))
