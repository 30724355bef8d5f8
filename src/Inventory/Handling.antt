-- ===== src/Inventory/Handling.antt =====
-- What the handler of order.created in internal/inventory/adapter/kafka does with the items of an
-- order, over any use case.
use realtime_order_inventory.Prelude.{ℕ, ◌≡◌, refl, ap, String, List, [], ◌∷◌, ◌++◌}
use realtime_order_inventory.Errors.{Error, Result, ok, err}
use realtime_order_inventory.Exec.{World, pure, raise, ◌>>=◌, attempt, ignore}
use realtime_order_inventory.Exec.Envs.{quiet}
use realtime_order_inventory.Exec.Runs.{bind_ok, bind_err}
use realtime_order_inventory.Kafka.Consumer.{write_through}
use realtime_order_inventory.Kafka.TraceHeaders.{inject_trace_headers}
use realtime_order_inventory.Inventory.Domain.{Db, Cached}
use realtime_order_inventory.Inventory.Postgres.{M}
use realtime_order_inventory.Inventory.EventHandler.{
  EventItem, InventoryUseCase, Decoder, item_request, failure_message, settle_item, reserve_items,
  publish_inventory_reservation_failed,
}

attempt_run :
    {A : Type 0} (m : M A) (w : World Db Cached) (r : Result A) (w' : World Db Cached)
    → m w ≡ (r, w')
    → attempt m w ≡ (ok r, w')
unfolding attempt
attempt_run m w r w' p = rw p

module _ (ids : ℕ → String) (d : Decoder) (uc : InventoryUseCase) (order_id : String) where
  report_run :
      (item : EventItem) (x : Error) (w : World Db Cached)
      → settle_item (quiet ids) d uc order_id item (err x) w ≡ (err x, w)
  unfolding settle_item publish_inventory_reservation_failed write_through failure_message
      inject_trace_headers ignore raise ◌>>=◌
  report_run item x w = refl

  -- The world after the items are reserved one by one.
  abbrev pub after_items : List EventItem → World Db Cached → World Db Cached
  after_items [] w = w
  after_items (i ∷ is) w = after_items is (uc.reserve_stock (item_request order_id i) w).1

  abbrev pub AllReserved : List EventItem → World Db Cached → Type 0
  AllReserved [] w = Unit {0}
  AllReserved (i ∷ is) w =
      ((uc.reserve_stock (item_request order_id i) w).0 ≡ ok tt)
      × AllReserved is (uc.reserve_stock (item_request order_id i) w).1

  -- The items of an order, each of which can be reserved, are reserved in their order.
  pub reserve_items_all :
      (items : List EventItem) (w : World Db Cached)
      → AllReserved items w
      → reserve_items (quiet ids) d uc order_id items w ≡ (ok tt, after_items items w)
  unfolding reserve_items settle_item pure
  reserve_items_all [] w a = refl
  reserve_items_all (i ∷ is) w a =
      bind_ok _ _ _ _ _
        (attempt_run _ w _ _ (ap (λ r. (r, (uc.reserve_stock (item_request order_id i) w).1)) a.0))
        (bind_ok _ _ _ _ _ refl (reserve_items_all is _ a.1))

  -- The first item that cannot be reserved ends the loop with its error. The writer refuses the message
  -- that would say which item it is, so none is sent; no later item is tried, and those before it
  -- stay reserved.
  pub reserve_items_stops :
      (done : List EventItem) (item : EventItem) (rest : List EventItem) (x : Error)
      (w w' : World Db Cached)
      → AllReserved done w
      → uc.reserve_stock (item_request order_id item) (after_items done w) ≡ (err x, w')
      → reserve_items (quiet ids) d uc order_id (done ++ item ∷ rest) w ≡ (err x, w')
  unfolding reserve_items settle_item pure
  reserve_items_stops [] item rest x w w' a f =
      bind_ok _ _ _ _ _ (attempt_run _ w _ _ f) (bind_err _ _ _ x _ (report_run item x w'))
  reserve_items_stops (i ∷ is) item rest x w w' a f =
      bind_ok _ _ _ _ _
        (attempt_run _ w _ _ (ap (λ r. (r, (uc.reserve_stock (item_request order_id i) w).1)) a.0))
        (bind_ok _ _ _ _ _ refl (reserve_items_stops is item rest x _ w' a.1 f))
