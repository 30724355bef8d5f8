-- ===== src/Order/Race.antt =====
-- ConfirmOrder and CancelOrder of internal/order/usecase on one order, at the same time.
use mathlib.Core.List.{append_assoc, map-append}
use realtime_order_inventory.Prelude.{
  ℕ, ◌≡◌, ◌∙◌, ap, String, true, Bool-cases, inl, inr, false, some, map, List, [], ◌∷◌, ◌++◌, ◌==◌,
  find, update, some_row, if◌then◌else◌, ltb, arith,
}
use realtime_order_inventory.Errors.{Result, ok}
use realtime_order_inventory.Exec.{
  World, pure, ◌>>=◌, wrap, deferring_rollback, query, read, begin, commit, settle, new_id, now,
  idle,
}
use realtime_order_inventory.Exec.Envs.{quiet}
use realtime_order_inventory.Order.Domain.{
  Host, OrderRow, OutboxEvent, Db, Cached, OutboxEventRow, can_cancel, cancelled, processing,
  pending_payment,
}
use realtime_order_inventory.Order.Postgres
use realtime_order_inventory.Order.Postgres.{E, set_status, row_to_order, find_order}
use realtime_order_inventory.Order.Outbox
use realtime_order_inventory.Order.Outbox.{insert_event}
use realtime_order_inventory.Order.Repository.{order_repository, order_item_repository}
use realtime_order_inventory.Order.UseCase.{
  cancel_order, confirm_order, change_status, make_event, order_event, confirmed_payload,
}
use realtime_order_inventory.Order.Lifecycle.{cancel_order_success}

module _ {F : Type 0} (h : Host F) (ids : ℕ → String) where
  -- After the lookup, the identifier and the time of the event, another connection has left `d'`.
  abbrev pub interrupted : Db F → E F
  interrupted d' = record (quiet ids) {
    others = λ n d. if ltb n 3 then d else if ltb n 4 then d' else d;
  }

  abbrev from_start : World (Db F) (Cached F) → World (Db F) (Cached F)
  from_start w = record w { calls = 0 }

  abbrev announcement : OrderRow F → OutboxEvent
  announcement row =
      order_event (ids 1) row.id "order.confirmed" (confirmed_payload h (row_to_order h row))
        (h.rfc3339 2)

  interrupted_run :
      (d' : Db F) (row : OrderRow F) (id : String) (w : World (Db F) (Cached F))
      → find (λ r. r.id == id) w.db.orders ≡ some row
      → (row.status == pending_payment) ≡ true
      → some_row (λ r. r.id == ids 1) d'.outbox_events ≡ false
      → confirm_order h
          (interrupted d')
          (order_repository h (interrupted d'))
          (order_item_repository h (interrupted d'))
          id
          (from_start w)
        ≡ (
          ok tt,
          record w {
            db = record d' {
              orders =
                  update
                    (λ r. r.id == id)
                    (λ r. record r { status = processing; updated_at = 4 })
                    d'.orders;
              outbox_events = d'.outbox_events ++ Outbox.to_row (announcement row) ∷ [];
            };
            tx = idle;
            calls = 8;
          },
        )
  unfolding confirm_order make_event change_status begin new_id now commit settle Postgres.get_by_id
      find_order Postgres.update_status_in_tx set_status Outbox.create_in_tx insert_event
      Outbox.to_row query read ◌>>=◌ wrap deferring_rollback pure order_event row_to_order
  interrupted_run d' row id w found waits fresh = simp (found, waits, fresh)

some-value : {A : Type 0} (a b : A) → some a ≡ some b → a ≡ b
some-value a b e = ground arith

found-updated :
    {F : Type 0} (id : String) (s : String) (time : ℕ) (rs : List (OrderRow F)) (row : OrderRow F)
    → find (λ r. r.id == id) rs ≡ some row
    → find
        (λ r. r.id == id)
        (update (λ r. r.id == id) (λ r. record r { status = s; updated_at = time }) rs)
      ≡ some (record row { status = s; updated_at = time })
unfolding find update
found-updated {F} id s time [] row e = cc
found-updated {F} id s time (r ∷ rs) row e =
    let written : OrderRow F → OrderRow F = λ x. record x { status = s; updated_at = time } in
    elim (Bool-cases (r.id == id)) [
      | inl is ↦ simp is (ap (λ x. some (written x)) (some-value r row (ground arith)))
      | inr differs ↦ simp differs (found-updated id s time rs row (ground arith))
    ]

-- What the outbox tells of.
abbrev pub told : OutboxEventRow → String × String
told r = (r.aggregate_id, r.event_type)

two_told :
    (xs ys zs : List OutboxEventRow) (x y : OutboxEventRow)
    → ys ≡ xs ++ x ∷ []
    → zs ≡ ys ++ y ∷ []
    → map told zs ≡ map told xs ++ told x ∷ told y ∷ []
two_told xs ys zs x y e f =
    ap (map told) (f ∙ ap (λ l. l ++ y ∷ []) e ∙ append_assoc xs (x ∷ []) (y ∷ []))
    ∙ map-append told xs (x ∷ y ∷ [])

waiting_cancellable :
    {F : Type 0} (h : Host F) (row : OrderRow F)
    → (row.status == pending_payment) ≡ true
    → can_cancel (row_to_order h row) ≡ true
unfolding can_cancel row_to_order
waiting_cancellable h row waits = rw waits

module _ {F : Type 0} (h : Host F) (ids ids' : ℕ → String) (w : World (Db F) (Cached F))
    (id reason : String) where
  abbrev pub other : Result (Unit {0}) × World (Db F) (Cached F)
  other =
      cancel_order h (quiet ids') (order_repository h (quiet ids'))
        (order_item_repository h (quiet ids')) id reason (from_start h ids w)

  abbrev pub confirmed : Result (Unit {0}) × World (Db F) (Cached F)
  confirmed =
      let e = interrupted h ids other.1.db in
      confirm_order h e (order_repository h e) (order_item_repository h e) id (from_start h ids w)

  -- A CancelOrder that another connection carries out after ConfirmOrder has read the order is lost:
  -- both calls succeed, the order is cancelled and then processing, and the outbox has both events, where
  -- the events' identifiers are fresh and no call fails.
  pub confirm_overwrites_cancel :
      (row : OrderRow F)
      → find (λ r. r.id == id) w.db.orders ≡ some row
      → (row.status == pending_payment) ≡ true
      → some_row (λ r. r.id == ids' 1) w.db.outbox_events ≡ false
      → some_row (λ r. r.id == ids 1) other.1.db.outbox_events ≡ false
      → (other.0 ≡ ok tt)
        × (confirmed.0 ≡ ok tt)
        × (find (λ r. r.id == id) other.1.db.orders
            ≡ some (record row { status = cancelled; updated_at = 4 }))
        × (find (λ r. r.id == id) confirmed.1.db.orders
            ≡ some (record row { status = processing; updated_at = 4 }))
        × (map told confirmed.1.db.outbox_events
            ≡ map told w.db.outbox_events
              ++ (row.id, "order.cancelled") ∷ (row.id, "order.confirmed") ∷ [])
  unfolding Outbox.to_row order_event
  confirm_overwrites_cancel row found waits fresh fresh' =
      let cancel_run =
        cancel_order_success h ids' (from_start h ids w) row id found fresh reason
          (waiting_cancellable h row waits) in
      let run = interrupted_run h ids other.1.db row id w found waits fresh' in
      let gone =
        ap (λ o. find (λ r. r.id == id) o.1.db.orders) cancel_run
        ∙ found-updated id cancelled 4 w.db.orders row found in
      (
        ap (λ o. o.0) cancel_run,
        ap (λ o. o.0) run,
        gone,
        ap (λ o. find (λ r. r.id == id) o.1.db.orders) run
            ∙ found-updated id processing 4 other.1.db.orders
                (record row { status = cancelled; updated_at = 4 }) gone,
        two_told w.db.outbox_events other.1.db.outbox_events confirmed.1.db.outbox_events _ _
            (ap (λ o. o.1.db.outbox_events) cancel_run) (ap (λ o. o.1.db.outbox_events) run),
      )
