-- ===== src/Kafka/Examples.antt =====
-- Runs of the consumer and of the headers of pkg/kafka on concrete data.
use realtime_order_inventory.Prelude.{
  ◌≤◌, ℕ, suc, ◌≡◌, refl, String, Option, none, some, List, [], ◌∷◌, if◌then◌else◌, arith, ltb,
}
use realtime_order_inventory.Prelude.Int.{pos}
use realtime_order_inventory.Errors.{Error, driver, ok, err}
use realtime_order_inventory.Exec.{World, Exec, Message, idle}
use realtime_order_inventory.Exec.Envs.{quiet}
use realtime_order_inventory.Kafka.Consumer.{
  ConsumerConfig, retries, attempts, handle_with_retry, process,
}
use realtime_order_inventory.Kafka.Bounded.{Ends, retry_terminates}
use realtime_order_inventory.Kafka.Retrying.{retry_success, process_failure}

abbrev headers : List (String × String)
headers = ("event_type", "order.created") ∷ ("event_id", "e1") ∷ []

abbrev message : Message
message = record {
  offset = 5;
  topic = "order.created";
  key = "order-1";
  value = "{}";
  headers = headers;
}

-- The world counts what is handled.
abbrev world : World ℕ ℕ
world = record { db = 0; tx = idle; store = []; sent = []; committed = []; calls = 0 }

abbrev config : ConsumerConfig
config = record { max_retries = pos 2; dlq_topic = "dlq" }

abbrev down : Error
down = driver "down"

-- It fails once, and then succeeds.
abbrev recovers : Exec ℕ ℕ (Unit {0})
recovers w = (if ltb w.calls 1 then err down else ok tt, record w { calls = suc w.calls })

abbrev fails : Exec ℕ ℕ (Unit {0})
fails w = (err down, record w { calls = suc w.calls })

within : 1 ≤ retries config
unfolding retries
within = omega arith

retry_success_example :
    handle_with_retry (λ _. none) recovers config world ≡ (ok tt, record world { calls = 2 })
retry_success_example = retry_success recovers config 1 world within (refl, tt) refl

abbrev given_up : World ℕ ℕ
given_up = record world { calls = 3 }

handling_fails : handle_with_retry (λ _. none) fails config world ≡ (err down, given_up)
unfolding handle_with_retry attempts retries
handling_fails = refl

-- The context ends while the consumer waits before its second attempt.
abbrev ends_early : ℕ → Option Error
ends_early k = some (driver "context canceled")

retry_terminates_example :
    Ends fails (suc (retries config)) world (handle_with_retry ends_early fails config world)
retry_terminates_example = retry_terminates fails ends_early config world

process_failure_example :
    let out = (process (quiet λ _. "new") config (λ _. none) (λ _. fails) "now" message world).1 in
    (out.sent ≡ []) × (out.committed ≡ 5 ∷ []) × (out.db ≡ 0)
process_failure_example =
    process_failure (λ _. none) (λ _. "new") config (λ _. fails) "now" message down world given_up
      refl handling_fails
