-- ===== src/Order/HistoryExamples.antt =====
-- Calls on concrete orders, one of which fails, and two at the same time.
use realtime_order_inventory.Prelude.{
  ◌≡◌, ℕ, refl, none, some, List, [], ◌∷◌, if◌then◌else◌, ltb, some_row, find, update, ◌==◌, false,
  map, ◌++◌,
}
use realtime_order_inventory.Errors.{ok}
use realtime_order_inventory.Exec.{
  Env, ◌>>=◌, wrap, deferring_rollback, pure, query, read, begin, new_id, now, commit, settle,
}
use realtime_order_inventory.Order.Postgres
use realtime_order_inventory.Order.Outbox
use realtime_order_inventory.Order.UseCase.{cancel_order, make_event, change_status, order_event}
use realtime_order_inventory.Order.Race.{other, confirmed, told, confirm_overwrites_cancel}
use realtime_order_inventory.Exec.Envs.{quiet}
use realtime_order_inventory.Order.Domain.{Db, Cached, can_cancel, cancelled, processing}
use realtime_order_inventory.Order.Moves.{Tracks, UniqueIds}
use realtime_order_inventory.Order.Following.{LeavesOrders}
use realtime_order_inventory.Order.History.{
  Call, create, cancel, confirm, all_called, order_history,
}
use realtime_order_inventory.Order.Fixtures.{ids, host, waiting, tables, world, request}

-- The eighth call fails, the commit of the first confirmation.
abbrev flaky : Env (Db ℕ) (Cached ℕ)
flaky = record (quiet ids) {
  fault = λ n. if ltb n 7 then none else if ltb n 8 then some "connection reset" else none;
}

flaky-LeavesOrders : LeavesOrders flaky
flaky-LeavesOrders = record { others = λ n d. refl }

abbrev calls : List (Call ℕ)
calls =
    confirm "order-1"
    ∷ create request
    ∷ cancel "order-1" "late"
    ∷ cancel "order-2" "late"
    ∷ confirm "order-1"
    ∷ []

two_orders : UniqueIds tables.orders
unfolding some_row
two_orders = (refl, (refl, tt))

order_history_example : Tracks tables.orders (all_called host flaky calls world).db.orders
order_history_example = order_history host flaky flaky-LeavesOrders calls world two_orders

waiting_found : find (λ r. r.id == "order-1") world.db.orders ≡ some waiting
unfolding find
waiting_found = refl

other_unused : some_row (λ r. r.id == "other") world.db.outbox_events ≡ false
unfolding some_row
other_unused = refl

other_fresh :
    some_row
      (λ r. r.id == "new")
      (other host ids (λ n. "other") world "order-1" "late").1.db.outbox_events
    ≡ false
unfolding cancel_order make_event change_status begin new_id now commit settle Postgres.get_by_id
    Postgres.find_order Postgres.update_status_in_tx Postgres.set_status Outbox.create_in_tx
    Outbox.insert_event Outbox.to_row query read ◌>>=◌ wrap deferring_rollback pure order_event
    Postgres.row_to_order can_cancel some_row find update
other_fresh = refl

confirm_overwrites_cancel_example :
    let cancelling = other host ids (λ n. "other") world "order-1" "late" in
    let confirming = confirmed host ids (λ n. "other") world "order-1" "late" in
    (cancelling.0 ≡ ok tt)
    × (confirming.0 ≡ ok tt)
    × (find (λ r. r.id == "order-1") cancelling.1.db.orders
        ≡ some (record waiting { status = cancelled; updated_at = 4 }))
    × (find (λ r. r.id == "order-1") confirming.1.db.orders
        ≡ some (record waiting { status = processing; updated_at = 4 }))
    × (map told confirming.1.db.outbox_events
        ≡ map told world.db.outbox_events
          ++ ("order-1", "order.cancelled") ∷ ("order-1", "order.confirmed") ∷ [])
confirm_overwrites_cancel_example =
    confirm_overwrites_cancel host ids (λ n. "other") world "order-1" "late" waiting waiting_found
      refl other_unused other_fresh
