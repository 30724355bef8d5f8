-- ===== src/Kafka/Consumer.antt =====
-- pkg/kafka/consumer.go: retries, the dead-letter queue and the commit of offsets. Spans, metrics
-- and logs are left out.
use realtime_order_inventory.Prelude.{
  ℕ, zero, suc, String, Option, none, some, List, [], ◌∷◌, ◌++◌, ◌==◌, ◌&&◌, not, if◌then◌else◌,
  ltb,
}
use realtime_order_inventory.Prelude.Int.{ℤ, pos, negsuc}
use realtime_order_inventory.Errors.{Error, driver, message, Result, ok, err}
use realtime_order_inventory.Exec.{
  Env, Exec, Message, pure, ◌>>=◌, ◌>>◌, raise, attempt, ignore, write_message, commit_message,
}

-- The fields of ConsumerConfig that the methods read; a dead-letter writer is there exactly when
-- `dlq_topic` is not empty.
pub record ConsumerConfig : Type 0 where
  pub max_retries : ℤ
  pub dlq_topic : String

-- NewConsumer: if cfg.MaxRetries <= 0 { cfg.MaxRetries = 3 }
unfoldable pub retries : ConsumerConfig → ℕ
retries c = elim c.max_retries [ pos zero ↦ 3 | pos (suc n) ↦ suc n | negsuc n ↦ 3 ]

abbrev pub returned : {D V : Type 0} → Option Error → Exec D V (Unit {0})
returned none w = (ok tt, w)
returned (some x) w = (err x, w)

module _ {D V : Type 0} (done : ℕ → Option Error) (handler : Exec D V (Unit {0})) where
  -- After an attempt: success returns, an error is kept as the last one for what follows.
  abbrev pub after_attempt :
      (Option Error → Exec D V (Unit {0})) → Result (Unit {0}) → Exec D V (Unit {0})
  after_attempt next (ok tt) w = (ok tt, w)
  after_attempt next (err x) w = next (some x) w

  abbrev pub unless_done : Option Error → Exec D V (Unit {0}) → Exec D V (Unit {0})
  unless_done none go w = go w
  unless_done (some x) go w = (err x, w)

  -- `done k` is the error of a context that ends during the wait before attempt `k`.
  unfoldable pub attempts : ℕ → ℕ → Option Error → Exec D V (Unit {0})
  attempts zero k last w = returned last w
  attempts (suc n) k last w =
      let next = attempts n (suc k) in
      let wait = if ltb 0 k then done k else none in
      unless_done wait (λ w₁. let (r, w₂) = handler w₁ in after_attempt next r w₂) w

  -- for attempt := 0; attempt <= c.config.MaxRetries; attempt++
  unfoldable pub handle_with_retry : ConsumerConfig → Exec D V (Unit {0})
  unfolding attempts retries
  handle_with_retry c = attempts (suc (retries c)) 0 none

-- The message has no topic of its own.
unfoldable pub dlq_message : Message → Error → String → Message
unfolding message
dlq_message m x time = record {
  offset = 0;
  topic = "";
  key = m.key;
  value = m.value;
  headers =
      m.headers
      ++ ("dlq_original_topic", m.topic) ∷ ("dlq_error", message x) ∷ ("dlq_timestamp", time) ∷ [];
}

-- What ReadMessage gives in a round of Start: a message, with what the waits and the clock say while it
-- is processed, or an error, with the context's own error if it has ended.
pub data Round : Type 0 where
  message_read : Message → (ℕ → Option Error) → String → Round
  read_failed : Option Error → Round

abbrev pub no_topic : Error
no_topic = driver "kafka.(*Writer): no topic"

abbrev pub two_topics : Error
two_topics = driver "kafka.(*Writer): two topics"

-- The dead-letter writer of NewConsumer has no topic.
abbrev pub dlq_writer_topic : String
dlq_writer_topic = ""

module _ {D V : Type 0} (e : Env D V) where
  -- WriteMessages of kafka-go, of a writer with a topic of its own or with none, "": exactly one of the
  -- writer and the message has to name a topic.
  unfoldable pub write_through : String → Message → Exec D V (Unit {0})
  write_through writer_topic m =
      if (writer_topic == "") && (m.topic == "")
      then raise no_topic
      else if not (writer_topic == "") && not (m.topic == "")
      then raise two_topics
      else write_message e m

  -- ReadMessage of kafka-go, of a reader with a GroupID, has committed the offset of what it returns.
  unfoldable pub read_committed : Message → Exec D V (Unit {0})
  read_committed m w = (ok tt, record w { committed = w.committed ++ m.offset ∷ [] })

  unfoldable pub send_to_dlq : ConsumerConfig → Message → Error → String → Exec D V (Unit {0})
  unfolding dlq_message write_through
  send_to_dlq c m x time =
      if c.dlq_topic == "" then pure tt else write_through dlq_writer_topic (dlq_message m x time)

  unfoldable pub settle_message :
      ConsumerConfig → Message → String → Result (Unit {0}) → Exec D V (Unit {0})
  unfolding send_to_dlq
  settle_message c m time (ok tt) = pure tt
  settle_message c m time (err x) = ignore (send_to_dlq c m x time)

  -- One round of Start, after the message is read: the offset is committed whatever happened.
  unfoldable pub process :
      ConsumerConfig
      → (ℕ → Option Error)
      → (Message → Exec D V (Unit {0}))
      → String
      → Message
      → Exec D V (Unit {0})
  unfolding handle_with_retry settle_message
  process c done handler time m = do
    result ← attempt (handle_with_retry done (handler m) c)
    settle_message c m time result
    ignore (commit_message e m)

  -- Start, for its first rounds: the error that it returns, or none where it still runs.
  unfoldable pub start :
      ConsumerConfig → (Message → Exec D V (Unit {0})) → List Round → Exec D V (Option Error)
  unfolding process read_committed
  start c handler [] = pure none
  start c handler (read_failed (some x) ∷ rounds) = pure (some x)
  start c handler (read_failed none ∷ rounds) = start c handler rounds
  start c handler (message_read m done time ∷ rounds) = do
    read_committed m
    process c done handler time m
    start c handler rounds
