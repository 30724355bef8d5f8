-- ===== src/Kafka/Producer.antt =====
-- pkg/kafka/producer.go. Spans and metrics are left out; `trace` are the fields of the span that is
-- started for a message.
use realtime_order_inventory.Prelude.{String, List, [], ◌∷◌}
use realtime_order_inventory.Exec.{Env, Exec, Message, pure, ◌>>◌, write_message}
use realtime_order_inventory.Kafka.TraceHeaders.{inject_trace_headers}

module _ {D V : Type 0} (e : Env D V) (trace : Message → List (String × String)) where
  -- The loop ends with the first error.
  unfoldable pub write_messages : List Message → Exec D V (Unit {0})
  write_messages [] = pure tt
  write_messages (m ∷ ms) = do write_message e (inject_trace_headers (trace m) m); write_messages ms
