-- ===== src/Kafka/Looping.antt =====
-- The loop of Start in pkg/kafka/consumer.go: when it ends, and which offsets it commits.
use mathlib.Core.List.{append-nil, append_assoc}
use realtime_order_inventory.Prelude.{
  ℕ, ◌≡◌, refl, sym, ◌∙◌, ap, String, Option, none, some, List, [], ◌∷◌, ◌++◌, ◌==◌, Bool-cases,
  inl, inr,
}
use realtime_order_inventory.Errors.{Error, Result, ok, err}
use realtime_order_inventory.Exec.{
  Env, World, Exec, Message, pure, ◌>>=◌, ◌>>◌, attempt, raise, ignore, commit_message,
}
use realtime_order_inventory.Exec.Envs.{quiet}
use realtime_order_inventory.Exec.Keeps.{Keeps}
use realtime_order_inventory.Kafka.Consumer.{
  ConsumerConfig, Round, message_read, read_failed, settle_message, send_to_dlq, process, start,
  handle_with_retry, write_through, read_committed,
}
use realtime_order_inventory.Kafka.Keeping.{retry-Keeps}
use realtime_order_inventory.Kafka.Retrying.{process_total, settled}

-- The error of the context at the first read that fails after the context has ended.
abbrev pub ended_by : List Round → Option Error
ended_by [] = none
ended_by (read_failed (some x) ∷ rounds) = some x
ended_by (read_failed none ∷ rounds) = ended_by rounds
ended_by (message_read m done time ∷ rounds) = ended_by rounds

-- The offsets of the messages that are read until then, each twice.
abbrev pub offsets : List Round → List ℕ
offsets [] = []
offsets (read_failed (some x) ∷ rounds) = []
offsets (read_failed none ∷ rounds) = offsets rounds
offsets (message_read m done time ∷ rounds) = m.offset ∷ m.offset ∷ offsets rounds

module _ {D V : Type 0} (handler : Message → Exec D V (Unit {0})) (c : ConsumerConfig) where
  -- Start returns exactly when a read fails after the context has ended, with the context's error,
  -- whatever the handler returns and whichever calls fail: no message and no other error of a read ends
  -- it.
  pub start_ends :
      (e : Env D V) (rounds : List Round) (w : World D V)
      → (start e c handler rounds w).0 ≡ ok (ended_by rounds)
  unfolding start pure read_committed ◌>>=◌
  start_ends e [] w = refl
  start_ends e (read_failed (some x) ∷ rounds) w = refl
  start_ends e (read_failed none ∷ rounds) w = start_ends e rounds w
  start_ends e (message_read m done time ∷ rounds) w =
      rw
        (process_total done e c handler time m
          (record w { committed = w.committed ++ m.offset ∷ [] }))
        (start_ends e rounds _)

  module _ (ids : ℕ → String)
      (keeps : (m : Message) (k : List ℕ) → Keeps (λ w. w.committed ≡ k) (handler m)) where
    settled_committed :
        (m : Message) (time : String) (r : Result (Unit {0})) (w : World D V)
        → (settle_message (quiet ids) c m time r w).1.committed ≡ w.committed
    unfolding settle_message send_to_dlq ignore pure write_through raise
    settled_committed m time (ok tt) w = refl
    settled_committed m time (err x) w = elim (Bool-cases (c.dlq_topic == "")) [
      | inl without ↦ rw without
      | inr named ↦ rw named
    ]

    tail_commits :
        (done : ℕ → Option Error) (m : Message) (time : String) (r : Result (Unit {0}))
        (w : World D V)
        → ((settle_message (quiet ids) c m time r >> ignore (commit_message (quiet ids) m))
            w).1.committed
          ≡ w.committed ++ m.offset ∷ []
    unfolding ◌>>=◌ ignore commit_message
    tail_commits done m time r w =
        rw (settled done (quiet ids) c m time r w)
          (ap (λ k. k ++ m.offset ∷ []) (settled_committed m time r w))

    process_commits :
        (done : ℕ → Option Error) (time : String) (m : Message) (w : World D V)
        → (process (quiet ids) c done handler time m w).1.committed ≡ w.committed ++ m.offset ∷ []
    unfolding process ◌>>=◌ attempt
    process_commits done time m w =
        let retried = handle_with_retry done (handler m) c w in
        tail_commits done m time retried.0 retried.1
        ∙ ap (λ k. k ++ m.offset ∷ [])
            ((retry-Keeps done (handler m) (keeps m w.committed) c).at w refl)

    -- Where no call fails, each message that Start reads has its offset committed twice, by the read
    -- itself, as a reader with a GroupID does, and again after its handling, in the order of the reads,
    -- whether its handler has succeeded or not, if the handler itself commits none.
    pub start_commits :
        (rounds : List Round) (w : World D V)
        → (start (quiet ids) c handler rounds w).1.committed ≡ w.committed ++ offsets rounds
    unfolding start pure read_committed ◌>>=◌
    start_commits [] w = sym (append-nil w.committed)
    start_commits (read_failed (some x) ∷ rounds) w = sym (append-nil w.committed)
    start_commits (read_failed none ∷ rounds) w = start_commits rounds w
    start_commits (message_read m done time ∷ rounds) w =
        let read_ : World D V = record w { committed = w.committed ++ m.offset ∷ [] } in
        let (result, w') = process (quiet ids) c done handler time m read_ in
        rw (process_total done (quiet ids) c handler time m read_) (
          start_commits rounds w'
          ∙ ap (λ k. k ++ offsets rounds) (process_commits done time m read_)
          ∙ append_assoc read_.committed (m.offset ∷ []) (offsets rounds)
          ∙ append_assoc w.committed (m.offset ∷ []) (m.offset ∷ offsets rounds))
