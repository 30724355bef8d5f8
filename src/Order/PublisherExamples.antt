-- ===== src/Order/PublisherExamples.antt =====
-- Runs of the outbox publisher on concrete data.
use realtime_order_inventory.Prelude.{
  ℕ, refl, String, false≢true, none, some, List, [], ◌∷◌, if◌then◌else◌, ltb,
}
use realtime_order_inventory.Exec.{Env, World}
use realtime_order_inventory.Exec.Envs.{quiet}
use realtime_order_inventory.Exec.Atomic.{IsAlone}
use realtime_order_inventory.Order.Domain.{Db, Cached, OutboxEvent}
use realtime_order_inventory.Order.Outbox.{row_to_event}
use realtime_order_inventory.Order.Publisher.{publish_all}
use realtime_order_inventory.Order.Marking.{IsTold, published_were_sent}
use realtime_order_inventory.Order.Fixtures.{ids, host, event, tables, world}

-- The second write to Kafka fails.
abbrev flaky : Env (Db ℕ) (Cached ℕ)
flaky = record (quiet ids) {
  fault = λ n. if ltb n 4 then none else if ltb n 5 then some "broker down" else none;
}

flaky-IsAlone : IsAlone flaky
flaky-IsAlone = record { others = λ n d. refl }

abbrev trace : List (String × String)
trace = ("traceparent", "00-1") ∷ []

abbrev claimed : World (Db ℕ) (Cached ℕ)
claimed = record world {
  db = record tables { outbox_events = record event { status = "CLAIMED" } ∷ [] };
}

claimed-IsTold : IsTold claimed
claimed-IsTold = (λ p. absurd (false≢true p), tt)

abbrev batch : List OutboxEvent
batch = row_to_event host event ∷ record (row_to_event host event) { id = "event-2" } ∷ []

published_were_sent_example : IsTold (publish_all host flaky trace batch claimed).1
published_were_sent_example =
    published_were_sent host flaky flaky-IsAlone trace (refl, tt) batch claimed claimed-IsTold
