-- ===== src/Inventory/ConsumingExamples.antt =====
-- A run of the inventory service over two messages.
use realtime_order_inventory.Prelude.{String, none, some, List, [], ◌∷◌, if◌then◌else◌, ltb}
use realtime_order_inventory.Prelude.Int.{pos}
use realtime_order_inventory.Errors.{ok}
use realtime_order_inventory.Exec.{Env, Message}
use realtime_order_inventory.Exec.Envs.{quiet}
use realtime_order_inventory.Exec.Keeps.{Relies}
use realtime_order_inventory.Kafka.Consumer.{ConsumerConfig, Round, message_read, read_failed}
use realtime_order_inventory.Inventory.Domain.{Db, Cached}
use realtime_order_inventory.Inventory.EventHandler.{Decoder}
use realtime_order_inventory.Inventory.Safety.{IsSound}
use realtime_order_inventory.Inventory.Consuming.{consume, consume_no_oversell}
use realtime_order_inventory.Inventory.Fixtures.{ids, stock, world_of, stock-Holds, cache}

-- Any order.created event is of three lamps.
abbrev lamps_only : Decoder
lamps_only = record {
  created = λ value. ok (value, record { product_id = "lamp"; sku = "L1"; quantity = pos 3 } ∷ []);
  cancelled = λ value. ok value;
  encode_failure = λ order_id product_id reason. reason;
  trace = [];
}

abbrev config : ConsumerConfig
config = record { max_retries = pos 2; dlq_topic = "dlq" }

-- Every call from the twentieth on fails.
abbrev failing : Env Db Cached
failing = record (quiet ids) { fault = λ n. if ltb n 20 then none else some "connection reset" }

failing-Relies : Relies IsSound failing
failing-Relies = record { others = λ n d h. h }

abbrev event_of : String → Message
event_of t = record {
  offset = 1;
  topic = "orders";
  key = "order-1";
  value = "reservation-1";
  headers = ("event_type", t) ∷ [];
}

-- One read fails in between.
abbrev rounds : List Round
rounds =
    message_read (event_of "order.created") (λ k. none) "now"
    ∷ read_failed none
    ∷ message_read (event_of "order.cancelled") (λ k. none) "now"
    ∷ message_read (event_of "order.created") (λ k. none) "now"
    ∷ []

consume_no_oversell_example :
    IsSound (consume failing cache cache lamps_only config rounds (world_of stock)).1.db
consume_no_oversell_example =
    consume_no_oversell failing cache cache lamps_only config rounds (world_of stock) failing-Relies
      stock-Holds
