-- ===== src/Inventory/Consuming.antt =====
-- The inventory service as it consumes Kafka: cmd/inventory-service/main.go gives the use cases to
-- internal/inventory/adapter/kafka/order_event_handler.go, which pkg/kafka/consumer.go calls.
use realtime_order_inventory.Prelude.{ℕ, String, Option, none, some, List, [], ◌∷◌, ◌==◌, ◌&&◌, not}
use realtime_order_inventory.Errors.{Error, Result, ok, err}
use realtime_order_inventory.Exec.{Env, World, Exec, Message, write_message, commit_message}
use realtime_order_inventory.Exec.Keeps.{
  Keeps, Holds, Relies, Keeps-pure, Keeps-raise, Keeps-lift, Keeps-if, Keeps-wrap, Keeps-attempt,
  Keeps-ignore, Keeps-bind, advance-Holds, on_fault-Holds,
}
use realtime_order_inventory.Kafka.Consumer.{
  ConsumerConfig, no_topic, two_topics, write_through, read_committed, dlq_writer_topic,
  send_to_dlq, Round, message_read, read_failed, start, dlq_message, settle_message, process,
}
use realtime_order_inventory.Kafka.Keeping.{retry-Keeps}
use realtime_order_inventory.Redis.{Cache}
use realtime_order_inventory.Inventory.Domain.{Db, Cached}
use realtime_order_inventory.Inventory.Postgres.{E, M}
use realtime_order_inventory.Inventory.Repository.{InventoryRepository, inventory_repository}
use realtime_order_inventory.Inventory.Cache.{inventory_cache}
use realtime_order_inventory.Inventory.EventHandler.{
  Decoder, EventItem, InventoryUseCase, inventory_use_case_adapter, handle, handle_order_created,
  handle_order_cancelled, reserve_items, settle_item, failed_event_topic,
  publish_inventory_reservation_failed,
}
use realtime_order_inventory.Inventory.Safety.{
  IsSound, inventory_repository-KeepsStock, inventory_cache-KeepsStock, reserve_stock-IsSound,
  release_reservation-IsSound,
}

module _ {D V : Type 0} (e : Env D V) {I : D → Type 0} (rely : Relies I e) where
  write_message-Keeps : (m : Message) → Keeps (Holds I) (write_message e m)
  unfolding write_message
  write_message-Keeps m = record {
    at = λ w h.
        let a = advance-Holds e rely w h in
        on_fault-Holds e rely (e.fault w.calls) _ _
          (record { committed = a.committed; pending = a.pending }) (λ text. a);
  }

  commit_message-Keeps : (m : Message) → Keeps (Holds I) (commit_message e m)
  unfolding commit_message
  commit_message-Keeps m = record {
    at = λ w h.
        let a = advance-Holds e rely w h in
        on_fault-Holds e rely (e.fault w.calls) _ _
          (record { committed = a.committed; pending = a.pending }) (λ text. a);
  }

module _ {D V : Type 0} (e : Env D V) {I : D → Type 0} (rely : Relies I e) where
  write_through-Keeps : (topic : String) (m : Message) → Keeps (Holds I) (write_through e topic m)
  unfolding write_through
  write_through-Keeps topic m =
      Keeps-if ((topic == "") && (m.topic == "")) _ _ (Keeps-raise no_topic) (
        Keeps-if (not (topic == "") && not (m.topic == "")) _ _ (Keeps-raise two_topics)
          (write_message-Keeps e rely m))

  read_committed-Keeps : (m : Message) → Keeps (Holds I) (read_committed e m)
  unfolding read_committed
  read_committed-Keeps m = record {
    at = λ w h. record { committed = h.committed; pending = h.pending };
  }

  settle-Keeps :
      (c : ConsumerConfig) (m : Message) (time : String) (r : Result (Unit {0}))
      → Keeps (Holds I) (settle_message e c m time r)
  unfolding settle_message send_to_dlq
  settle-Keeps c m time (ok tt) = Keeps-pure tt
  settle-Keeps c m time (err x) = Keeps-ignore _ (
      Keeps-if (c.dlq_topic == "") _ _ (Keeps-pure tt)
        (write_through-Keeps dlq_writer_topic (dlq_message m x time)))

  process-Keeps :
      (c : ConsumerConfig) (done : ℕ → Option Error) (handler : Message → Exec D V (Unit {0}))
      (time : String) (m : Message)
      → Keeps (Holds I) (handler m)
      → Keeps (Holds I) (process e c done handler time m)
  unfolding process
  process-Keeps c done handler time m k =
      Keeps-bind _ _ (Keeps-attempt _ (retry-Keeps done (handler m) k c)) λ result.
        Keeps-bind _ _ (settle-Keeps c m time result)
          λ _. Keeps-ignore _ (commit_message-Keeps e rely m)

module _ (e : E) (rely : Relies IsSound e) (d : Decoder) (uc : InventoryUseCase)
    (reserves : (req : _) → Keeps (Holds IsSound) (uc.reserve_stock req))
    (releases : (id : String) → Keeps (Holds IsSound) (uc.release_reservation id)) where
  settle_item-Keeps :
      (order_id : String) (item : EventItem) (r : Result (Unit {0}))
      → Keeps (Holds IsSound) (settle_item e d uc order_id item r)
  unfolding settle_item publish_inventory_reservation_failed
  settle_item-Keeps order_id item (ok tt) = Keeps-pure tt
  settle_item-Keeps order_id item (err x) =
      Keeps-bind _ _ (Keeps-ignore _ (write_through-Keeps e rely failed_event_topic _))
        λ _. Keeps-raise x

  reserve_items-Keeps :
      (order_id : String) (items : List EventItem)
      → Keeps (Holds IsSound) (reserve_items e d uc order_id items)
  unfolding reserve_items
  reserve_items-Keeps order_id [] = Keeps-pure tt
  reserve_items-Keeps order_id (item ∷ items) = Keeps-bind _ _ (Keeps-attempt _ (reserves _)) λ r.
      Keeps-bind _ _ (settle_item-Keeps order_id item r) λ _. reserve_items-Keeps order_id items

  handle-Keeps : (m : Message) → Keeps (Holds IsSound) (handle e d uc m)
  unfolding handle handle_order_created handle_order_cancelled
  handle-Keeps m =
      Keeps-if _ _ _
        (Keeps-bind _ _ (Keeps-wrap _ _ (Keeps-lift (d.created m.value)))
          λ ev. reserve_items-Keeps ev.0 ev.1)
        (Keeps-if _ _ _
          (Keeps-bind _ _ (Keeps-wrap _ _ (Keeps-lift (d.cancelled m.value))) λ id. releases id)
          (Keeps-pure tt))

module _ (e : E) (stock_cache warehouse_cache : Cache) (d : Decoder) (c : ConsumerConfig) where
  abbrev pub stocks : InventoryRepository
  stocks = inventory_cache e (inventory_repository e) stock_cache warehouse_cache

  -- The consumer with its handler, as main puts them together.
  abbrev pub consume : List Round → M (Option Error)
  consume rounds = start e c (handle e d (inventory_use_case_adapter e stocks)) rounds

  handler-Keeps :
      Relies IsSound e
      → (m : Message) → Keeps (Holds IsSound) (handle e d (inventory_use_case_adapter e stocks) m)
  handler-Keeps rely m =
      let kept =
        inventory_cache-KeepsStock e rely (inventory_repository e) stock_cache warehouse_cache
          (inventory_repository-KeepsStock e rely) in
      handle-Keeps e rely d (inventory_use_case_adapter e stocks)
        (λ req. Keeps-bind _ _ (reserve_stock-IsSound e stocks rely kept _) λ _. Keeps-pure tt)
        (λ id. release_reservation-IsSound e stocks rely kept id) m

  consume-Keeps : Relies IsSound e → (rounds : List Round) → Keeps (Holds IsSound) (consume rounds)
  unfolding start
  consume-Keeps rely [] = Keeps-pure none
  consume-Keeps rely (read_failed (some x) ∷ rounds) = Keeps-pure (some x)
  consume-Keeps rely (read_failed none ∷ rounds) = consume-Keeps rely rounds
  consume-Keeps rely (message_read m done time ∷ rounds) =
      Keeps-bind _ _ (read_committed-Keeps e rely m) λ _.
        Keeps-bind _ _
          (process-Keeps e rely c done (handle e d (inventory_use_case_adapter e stocks)) time m
            (handler-Keeps rely m))
          λ _. consume-Keeps rely rounds

  -- The inventory service, fed any messages of Kafka one after the other, with the failed reads, the
  -- retries, the dead letters and the commits of its consumer, keeps
  -- 0 <= quantity_reserved <= quantity_on_hand in every row of inventory, and a positive quantity in every
  -- reservation: whatever the messages say, whichever calls fail, whenever the context ends, and whatever
  -- Redis forgets, where the other connections keep both too and the world started with both.
  pub consume_no_oversell :
      (rounds : List Round) (w : World Db Cached)
      → Relies IsSound e
      → Holds IsSound w
      → IsSound (consume rounds w).1.db
  consume_no_oversell rounds w rely sound = ((consume-Keeps rely rounds).at w sound).committed
