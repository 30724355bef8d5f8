-- ===== src/Order/Storing.antt =====
-- The transaction of CreateOrder in internal/order/usecase/create_order.go, where the service is alone and
-- no call fails: the order, its items and the event.
use mathlib.Core.List.{append_assoc, append-nil}
use realtime_order_inventory.Prelude.{
  ℕ, suc, ◌≡◌, refl, ◌∙◌, ap, true, false, List, [], ◌∷◌, ◌++◌, ◌==◌, All, some_row, String,
}
use realtime_order_inventory.Errors.{ok}
use realtime_order_inventory.Exec.{World, in_tx, idle, after, state_of, pure, now}
use realtime_order_inventory.Exec.Envs.{quiet}
use realtime_order_inventory.Exec.Runs.{later, bind_ok, query_in_tx}
use realtime_order_inventory.Order.Domain.{Host, OrderItem, OrderItemRow, OrderRow, Db, Cached}
use realtime_order_inventory.Order.Items.{insert_item, to_row, create_in_tx}

module _ {F : Type 0} where
  -- The rows go in one after the other: each identifier is new, and each order is there.
  abbrev pub AreNew : List (OrderItemRow F) → List (OrderItemRow F) → Type 0
  AreNew [] items = Unit {0}
  AreNew (r ∷ rs) items = (some_row (λ x. x.id == r.id) items ≡ false) × AreNew rs (items ++ r ∷ [])

  abbrev pub AreOf : List (OrderRow F) → List (OrderItemRow F) → Type 0
  AreOf orders rows = All (λ r. some_row (λ o. o.id == r.order_id) orders ≡ true) rows

  item_inserted :
      (r : OrderItemRow F) (d : Db F)
      → some_row (λ x. x.id == r.id) d.order_items ≡ false
      → some_row (λ o. o.id == r.order_id) d.orders ≡ true
      → insert_item r d ≡ ok (tt, record d { order_items = d.order_items ++ r ∷ [] })
  unfolding insert_item
  item_inserted r d fresh there = rw (fresh, there)

module _ {F : Type 0} (h : Host F) (ids : ℕ → String) where
  abbrev pub item_rows : List (OrderItem F) → ℕ → List (OrderItemRow F)
  item_rows [] c = []
  item_rows (item ∷ items) c = to_row h (quiet ids) item c ∷ item_rows items (later 2 c)

  abbrev pub calls_after : List (OrderItem F) → ℕ → ℕ
  calls_after [] c = c
  calls_after (item ∷ items) c = calls_after items (later 2 c)

  abbrev pub one_written : OrderItem F → World (Db F) (Cached F) → World (Db F) (Cached F)
  one_written item w = record w {
    tx = record {
      aborted = w.tx.aborted;
      writes = λ d. after (insert_item (to_row h (quiet ids) item w.calls)) (w.tx.writes d);
    };
    calls = later 2 w.calls;
  }

  abbrev pub written : List (OrderItem F) → World (Db F) (Cached F) → World (Db F) (Cached F)
  written [] w = w
  written (item ∷ items) w = written items (one_written item w)

  pub written-others :
      (items : List (OrderItem F)) (w : World (Db F) (Cached F)) (d : Db F) (c : ℕ)
      → record (written items w) { db = d; tx = idle; calls = c }
        ≡ record w { db = d; tx = idle; calls = c }
  written-others [] w d c = refl
  written-others (item ∷ items) w d c = written-others items (one_written item w) d c

  pub written-calls :
      (items : List (OrderItem F)) (w : World (Db F) (Cached F))
      → (written items w).calls ≡ calls_after items w.calls
  written-calls [] w = refl
  written-calls (item ∷ items) w = written-calls items (one_written item w)

  pub written-open :
      (items : List (OrderItem F)) (w : World (Db F) (Cached F))
      → (written items w).tx.aborted ≡ w.tx.aborted
  written-open [] w = refl
  written-open (item ∷ items) w = written-open items (one_written item w)

  pub written-db :
      (items : List (OrderItem F)) (w : World (Db F) (Cached F)) → (written items w).db ≡ w.db
  written-db [] w = refl
  written-db (item ∷ items) w = written-db items (one_written item w)

  one_seen :
      (item : OrderItem F) (w : World (Db F) (Cached F)) (d : Db F)
      → w.tx.writes w.db ≡ d
      → some_row (λ x. x.id == item.id) d.order_items ≡ false
      → some_row (λ o. o.id == item.order_id) d.orders ≡ true
      → (one_written item w).tx.writes w.db
        ≡ record d { order_items = d.order_items ++ to_row h (quiet ids) item w.calls ∷ [] }
  unfolding to_row
  one_seen item w d sees fresh there =
      let row = to_row h (quiet ids) item w.calls in
      ap (after (insert_item row)) sees ∙ ap (state_of d) (item_inserted row d fresh there)

  -- What the transaction sees after the items.
  pub written-seen :
      (items : List (OrderItem F)) (w : World (Db F) (Cached F)) (d : Db F)
      → w.tx.writes w.db ≡ d
      → AreNew (item_rows items w.calls) d.order_items
      → AreOf d.orders (item_rows items w.calls)
      → (written items w).tx.writes w.db
        ≡ record d { order_items = d.order_items ++ item_rows items w.calls }
  unfolding to_row
  written-seen [] w d sees new of = rw (append-nil d.order_items) sees
  written-seen (item ∷ items) w d sees new of =
      let row = to_row h (quiet ids) item w.calls in
      written-seen items (one_written item w) (record d { order_items = d.order_items ++ row ∷ [] })
        (one_seen item w d sees new.0 of.0) new.1 of.1
      ∙ ap (λ l. record d { order_items = l })
          (append_assoc d.order_items (row ∷ []) (item_rows items (later 2 w.calls)))

  pub items_run :
      (items : List (OrderItem F)) (w : World (Db F) (Cached F)) (d : Db F)
      → w.tx.aborted ≡ false
      → w.tx.writes w.db ≡ d
      → AreNew (item_rows items w.calls) d.order_items
      → AreOf d.orders (item_rows items w.calls)
      → create_in_tx h (quiet ids) in_tx items w ≡ (ok tt, written items w)
  unfolding create_in_tx pure now to_row
  items_run [] w d alive sees new of = refl
  items_run (item ∷ items) w d alive sees new of =
      let row = to_row h (quiet ids) item w.calls in
      let d' : Db F = record d { order_items = d.order_items ++ row ∷ [] } in
      let inserted = item_inserted row d new.0 of.0 in
      bind_ok _ _ w w.calls (record w { calls = suc w.calls }) refl
        (bind_ok _ _ _ _ _
          (query_in_tx ids (insert_item row) (record w { calls = suc w.calls }) tt d' alive
            (ap (insert_item row) sees ∙ inserted))
          (items_run items (one_written item w) d' alive (one_seen item w d sees new.0 of.0) new.1
            of.1))
