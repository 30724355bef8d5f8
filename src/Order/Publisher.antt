-- ===== src/Order/Publisher.antt =====
-- internal/order/adapter/kafka/outbox_publisher.go: claim pending events, write them to Kafka, and
-- mark each as published or failed.
use realtime_order_inventory.Prelude.{
  ℕ, zero, suc, String, Bool, ◌||◌, List, [], ◌∷◌, ◌==◌, if◌then◌else◌,
}
use realtime_order_inventory.Errors.{Result, ok, err}
use realtime_order_inventory.Exec.{
  Message, pure, ◌>>=◌, ◌>>◌, attempt, ignore, write_message, new_id,
}
use realtime_order_inventory.Kafka.TraceHeaders.{inject_trace_headers}
use realtime_order_inventory.Order.Domain.{OutboxEvent, Host}
use realtime_order_inventory.Order.Postgres.{M, E}
use realtime_order_inventory.Order.Outbox

unfoldable pub get_topic_for_event : String → String
get_topic_for_event t =
    if (t == "order.created")
      || (t == "order.paid")
      || (t == "order.confirmed")
      || (t == "order.cancelled")
      || (t == "order.shipped")
      || (t == "order.delivered")
    then t
    else if t == "order.status.changed"
    then "order.status.changed"
    else "default"

unfoldable pub event_message : OutboxEvent → String → Message
unfolding get_topic_for_event
event_message ev correlation = record {
  offset = 0;
  topic = get_topic_for_event ev.event_type;
  key = ev.aggregate_id;
  value = ev.payload;
  headers =
      ("event_type", ev.event_type) ∷ ("event_id", ev.id) ∷ ("correlation_id", correlation) ∷ [];
}

-- `trace` are the fields of the context's span; `locked` the rows that other transactions hold.
module _ {F : Type 0} (h : Host F) (e : E F) (trace : List (String × String)) where
  unfoldable pub publish_event : OutboxEvent → M F (Unit {0})
  unfolding event_message
  publish_event ev = do
    correlation ← new_id e
    write_message e (inject_trace_headers trace (event_message ev correlation))

  unfoldable pub mark_event : OutboxEvent → Result (Unit {0}) → M F (Unit {0})
  mark_event ev (ok tt) = ignore (Outbox.mark_published h e ev.id)
  mark_event ev (err x) = ignore (Outbox.mark_failed h e ev.id)

  unfoldable pub publish_all : List OutboxEvent → M F (Unit {0})
  unfolding publish_event mark_event
  publish_all [] = pure tt
  publish_all (ev ∷ evs) = do
    result ← attempt (publish_event ev)
    mark_event ev result
    publish_all evs

  unfoldable pub publish_batch : (String → Bool) → ℕ → M F (Unit {0})
  unfolding publish_all
  publish_batch locked batch_size = do
    events ← Outbox.claim_batch h e locked batch_size
    publish_all events

  -- Start, for a number of ticks: an error of a batch is logged only.
  unfoldable pub start : (String → Bool) → ℕ → ℕ → M F (Unit {0})
  unfolding publish_batch
  start locked batch_size zero = pure tt
  start locked batch_size (suc ticks) = do
    ignore (publish_batch locked batch_size)
    start locked batch_size ticks
