-- ===== src/Order/Examples.antt =====
-- Runs of the order service on concrete data, with amounts that are whole.
use realtime_order_inventory.Prelude.{
  if◌then◌else◌, ltb, ℕ, ◌≡◌, refl, String, true, none, some, [], ◌∷◌, ◌==◌, find, update, some_row,
}
use realtime_order_inventory.Errors.{Result, driver, wrapped, ok, err}
use realtime_order_inventory.Exec.{
  Env, World, ◌>>=◌, pure, read, wrap, attempt, query, begin, commit, settle, deferring_rollback,
  new_id, now,
}
use realtime_order_inventory.Exec.Envs.{quiet}
use realtime_order_inventory.Exec.Keeps.{Holds}
use realtime_order_inventory.Exec.Atomic.{IsAlone}
use realtime_order_inventory.Order.Domain.{Db, Cached, can_cancel}
use realtime_order_inventory.Order.Postgres
use realtime_order_inventory.Order.Postgres.{has_key, row_to_order}
use realtime_order_inventory.Order.Outbox
use realtime_order_inventory.Order.Items
use realtime_order_inventory.Order.Outbox.{
  is_pending, pending_rows, unlocked, claim_batch, row_to_event, is_in,
}
use realtime_order_inventory.Order.Repository.{order_repository, order_item_repository}
use realtime_order_inventory.Order.UseCase.{
  CreateOrderRequest, has_invalid_item, order_event, cancelled_payload, Created, create_order,
  create_cart, create_unless, create_new, choose_key, make_items, make_event, store_order, item_of,
  new_order, with_items, cancel_order,
}
use realtime_order_inventory.Order.Keys.{HasUniqueKeys, create_order_unique_keys}
use realtime_order_inventory.Order.Atomic.{create_order_all_or_nothing}
use realtime_order_inventory.Order.Lifecycle.{cancel_order_success}
use realtime_order_inventory.Order.Fixtures.{
  ids, host, waiting, event, tables, event_fresh, world, request,
}

-- The calls fail from one of them on.
abbrev failing_from : ℕ → Env (Db ℕ) (Cached ℕ)
failing_from k = record (quiet ids) {
  fault = λ n. if ltb n k then none else some "connection reset";
}

failing-IsAlone : (k : ℕ) → IsAlone (failing_from k)
failing-IsAlone k = record { others = λ n d. refl }

tables-Holds : Holds HasUniqueKeys world
unfolding some_row
tables-Holds = record { committed = record { orders = (refl, (refl, tt)) }; pending = λ d h. h }

abbrev fresh_request : CreateOrderRequest ℕ
fresh_request = record request { idempotency_key = "key-3" }

abbrev create_at : Env (Db ℕ) (Cached ℕ) → Result (Created ℕ) × World (Db ℕ) (Cached ℕ)
create_at e =
    create_order host e (order_repository host e) (order_item_repository host e) fresh_request world

create_order_unique_keys_example : HasUniqueKeys (create_at (quiet ids)).1.db
create_order_unique_keys_example =
    create_order_unique_keys host (quiet ids) (record { others = λ n d h. h }) fresh_request world
      tables-Holds

-- The commit fails.
commit_fails :
    (create_at (failing_from 12)).0
    ≡ err (wrapped "failed to commit transaction" (driver "connection reset"))
unfolding create_order create_cart create_unless create_new choose_key has_invalid_item new_id now
    make_items make_event store_order begin commit query ◌>>=◌ wrap attempt pure deferring_rollback
    settle Postgres.create_in_tx Postgres.get_by_idempotency_key Postgres.find_by_key read
    Items.create_in_tx Items.insert_item Postgres.insert_order Outbox.create_in_tx
    Outbox.insert_event find some_row Items.to_row Outbox.to_row item_of new_order with_items
    order_event Postgres.to_row
commit_fails = refl

create_order_all_or_nothing_example : (create_at (failing_from 12)).1.db ≡ tables
create_order_all_or_nothing_example =
    create_order_all_or_nothing host (failing_from 12) (failing-IsAlone 12) world fresh_request
      (wrapped "failed to commit transaction" (driver "connection reset")) commit_fails

abbrev cancel_at : Env (Db ℕ) (Cached ℕ) → Result (Unit {0}) × World (Db ℕ) (Cached ℕ)
cancel_at e =
    cancel_order host e (order_repository host e) (order_item_repository host e) "order-1" "late"
      world

waiting_found : find (λ r. r.id == "order-1") tables.orders ≡ some waiting
unfolding find
waiting_found = refl

waiting_open : can_cancel (row_to_order host waiting) ≡ true
unfolding can_cancel row_to_order
waiting_open = refl

abbrev changed_tables : String → String → String → Db ℕ
changed_tables s event_type payload = record tables {
  orders =
      update (λ r. r.id == "order-1") (λ r. record r { status = s; updated_at = 4 }) tables.orders;
  outbox_events = event ∷ Outbox.to_row (order_event "new" "order-1" event_type payload "now") ∷ [];
}

cancel_order_success_example : cancel_at (quiet ids) ≡ (
  ok tt,
  record world {
    db =
        changed_tables "cancelled" "order.cancelled"
          (cancelled_payload host (row_to_order host waiting) "late");
    calls = 8;
  },
)
cancel_order_success_example =
    cancel_order_success host ids world waiting "order-1" waiting_found event_fresh "late"
      waiting_open
