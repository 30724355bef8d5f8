-- ===== src/Order/Publishing.antt =====
-- What the outbox publisher of internal/order/adapter/kafka/outbox_publisher.go writes to Kafka.
use realtime_order_inventory.Prelude.{ℕ, ◌≡◌, refl, ap, ◌∙◌, String, List, [], ◌∷◌, ◌++◌, map}
use realtime_order_inventory.Exec.{
  World, Message, ◌>>=◌, pure, attempt, ignore, new_id, now, write_message, query,
}
use realtime_order_inventory.Exec.Envs.{quiet}
use realtime_order_inventory.Kafka.TraceHeaders.{inject_trace_headers}
use realtime_order_inventory.Order.Domain.{OutboxEvent, Host, Db, Cached}
use realtime_order_inventory.Order.Outbox
use realtime_order_inventory.Order.Publisher.{
  get_topic_for_event, event_message, publish_event, mark_event, publish_all,
}

-- The topic, the key and the value of a message.
abbrev pub content_of : Message → String × String × String
content_of m = (m.topic, m.key, m.value)

-- What Kafka is to get of an event.
abbrev pub published : OutboxEvent → String × String × String
published ev = (get_topic_for_event ev.event_type, ev.aggregate_id, ev.payload)

append_nil : {A : Type 0} (xs : List A) → xs ≡ xs ++ []
append_nil [] = refl
append_nil (x ∷ xs) = ap (λ ys. x ∷ ys) (append_nil xs)

contents-append :
    (sent : List Message) (m : Message) (rest : List (String × String × String))
    → map content_of (sent ++ m ∷ []) ++ rest ≡ map content_of sent ++ content_of m ∷ rest
contents-append [] m rest = refl
contents-append (x ∷ sent) m rest = ap (λ ms. content_of x ∷ ms) (contents-append sent m rest)

-- The events of a batch are written to Kafka each once and in their order, each to the topic of its
-- type, with the order's identifier as its key and its payload as its value, where no call fails.
pub publish_all_sends :
    {F : Type 0} (h : Host F) (ids : ℕ → String) (trace : List (String × String))
    (evs : List OutboxEvent) (w : World (Db F) (Cached F))
    → map content_of (publish_all h (quiet ids) trace evs w).1.sent
      ≡ map content_of w.sent ++ map published evs
unfolding publish_all publish_event event_message mark_event inject_trace_headers new_id now
    write_message query attempt ignore ◌>>=◌ pure Outbox.mark_published Outbox.mark
publish_all_sends h ids trace [] w = append_nil (map content_of w.sent)
publish_all_sends h ids trace (ev ∷ evs) w =
    publish_all_sends h ids trace evs _ ∙ contents-append w.sent _ (map published evs)
