-- ===== src/Kafka/LoopExamples.antt =====
-- Runs of the consumer's loop on concrete reads.
use realtime_order_inventory.Prelude.{
  ◌≡◌, ℕ, suc, String, none, some, List, [], ◌∷◌, ◌==◌, if◌then◌else◌,
}
use realtime_order_inventory.Prelude.Int.{pos}
use realtime_order_inventory.Errors.{driver, ok, err}
use realtime_order_inventory.Exec.{World, Exec, Message, idle}
use realtime_order_inventory.Exec.Envs.{quiet}
use realtime_order_inventory.Exec.Keeps.{Keeps}
use realtime_order_inventory.Kafka.Consumer.{
  ConsumerConfig, Round, message_read, read_failed, start,
}
use realtime_order_inventory.Kafka.Looping.{start_ends, start_commits}

abbrev message : ℕ → String → Message
message n text = record {
  offset = n;
  topic = "order.created";
  key = "order-1";
  value = text;
  headers = [];
}

abbrev world : World ℕ ℕ
world = record { db = 0; tx = idle; store = []; sent = []; committed = 4 ∷ []; calls = 0 }

abbrev config : ConsumerConfig
config = record { max_retries = pos 2; dlq_topic = "dlq" }

-- It refuses one text, and counts its calls.
abbrev handler : Message → Exec ℕ ℕ (Unit {0})
handler m w =
    (if m.value == "bad" then err (driver "down") else ok tt, record w { calls = suc w.calls })

handler-Keeps : (m : Message) (k : List ℕ) → Keeps (λ w. w.committed ≡ k) (handler m)
handler-Keeps m k = record { at = λ w h. h }

-- The broker is away for one read, and the context ends after the second message.
abbrev rounds : List Round
rounds =
    message_read (message 5 "bad") (λ k. none) "now"
    ∷ read_failed none
    ∷ message_read (message 6 "good") (λ k. none) "now"
    ∷ read_failed (some (driver "context canceled"))
    ∷ message_read (message 7 "good") (λ k. none) "now"
    ∷ []

start_ends_example :
    (start (quiet (λ n. "new")) config handler rounds world).0
    ≡ ok (some (driver "context canceled"))
start_ends_example = start_ends handler config (quiet (λ n. "new")) rounds world

start_commits_example :
    (start (quiet (λ n. "new")) config handler rounds world).1.committed ≡ 4 ∷ 5 ∷ 5 ∷ 6 ∷ 6 ∷ []
start_commits_example = start_commits handler config (λ n. "new") handler-Keeps rounds world
