-- ===== src/Kafka/Retrying.antt =====
-- What the consumer of pkg/kafka/consumer.go makes of a handler that fails.
use realtime_order_inventory.Prelude.{
  ◌≤◌, ◌∙◌, Bool, ℕ, zero, suc, ◌≡◌, refl, String, true, false, Option, none, some, [], ◌∷◌, ◌++◌,
  ◌==◌, if◌then◌else◌, ltb, arith,
}
use realtime_order_inventory.Errors.{Error, Result, ok, err}
use realtime_order_inventory.Exec.{
  Env, World, Exec, Message, pure, ◌>>=◌, raise, attempt, ignore, commit_message,
}
use realtime_order_inventory.Exec.Envs.{quiet}
use realtime_order_inventory.Kafka.Consumer.{
  ConsumerConfig, retries, after_attempt, attempts, handle_with_retry, send_to_dlq, write_through,
  settle_message, process,
}

abbrev pub has_failed : {A : Type 0} → Result A → Bool
has_failed (ok a) = false
has_failed (err x) = true

no_wait : (b : Bool) → (let x : Option Error = none in if b then x else x) ≡ none
no_wait true = refl
no_wait false = refl

module _ {D V : Type 0} (handler : Exec D V (Unit {0})) where
  -- The worlds that a handler leaves which is called again and again.
  abbrev pub calls_of : ℕ → World D V → World D V
  calls_of zero w = w
  calls_of (suc n) w = calls_of n (handler w).1

  -- A number of calls, each of which fails.
  abbrev pub AllFail : ℕ → World D V → Type 0
  AllFail zero w = Unit {0}
  AllFail (suc n) w = (has_failed (handler w).0 ≡ true) × AllFail n (handler w).1

  one_attempt :
      (n k : ℕ) (last : Option Error) (w : World D V)
      → attempts (λ _. none) handler (suc n) k last w
        ≡ after_attempt
            (λ _. none)
            handler
            (attempts (λ _. none) handler n (suc k))
            (handler w).0
            (handler w).1
  unfolding attempts
  one_attempt n k last w = rw (no_wait (ltb 0 k))

  go_on :
      (next : Option Error → Exec D V (Unit {0})) (r : Result (Unit {0})) (w : World D V)
      (out : Result (Unit {0}) × World D V)
      → has_failed r ≡ true
      → ((last : Option Error) → next last w ≡ out)
      → after_attempt (λ _. none) handler next r w ≡ out
  go_on next (ok tt) w out f h = cc
  go_on next (err x) w out f h = h (some x)

  stop :
      (next : Option Error → Exec D V (Unit {0})) (r : Result (Unit {0})) (w : World D V)
      → r ≡ ok tt
      → after_attempt (λ _. none) handler next r w ≡ (ok tt, w)
  stop next r w h = rw h

  success_after :
      (n t k : ℕ) (last : Option Error) (w : World D V)
      → n ≤ t
      → AllFail n w
      → (handler (calls_of n w)).0 ≡ ok tt
      → attempts (λ _. none) handler (suc t) k last w ≡ (ok tt, calls_of (suc n) w)
  success_after zero t k last w b f h =
      one_attempt t k last w ∙ stop (attempts (λ _. none) handler t (suc k)) _ _ h
  success_after (suc n) zero k last w b f h = ground arith
  success_after (suc n) (suc t) k last w b f h =
      one_attempt (suc t) k last w
      ∙ go_on (attempts (λ _. none) handler (suc t) (suc k)) _ (handler w).1 _ f.0
          (λ last'. success_after n t (suc k) last' (handler w).1 (omega arith) f.1 h)

  last_failure :
      (r : Result (Unit {0})) (k : ℕ) (w : World D V)
      → has_failed r ≡ true
      → after_attempt (λ _. none) handler (attempts (λ _. none) handler 0 (suc k)) r w ≡ (r, w)
  unfolding attempts
  last_failure (ok tt) k w f = cc
  last_failure (err x) k w f = refl

  failure_after :
      (n k : ℕ) (last : Option Error) (w : World D V)
      → AllFail (suc n) w
      → attempts (λ _. none) handler (suc n) k last w
        ≡ ((handler (calls_of n w)).0, calls_of (suc n) w)
  failure_after zero k last w f = one_attempt 0 k last w ∙ last_failure _ _ _ f.0
  failure_after (suc n) k last w f =
      one_attempt (suc n) k last w
      ∙ go_on (attempts (λ _. none) handler (suc n) (suc k)) _ (handler w).1 _ f.0
          (λ last'. failure_after n (suc k) last' (handler w).1 f.1)

  -- A handler that fails n times, n at most MaxRetries, and then succeeds is called n + 1 times, and
  -- its message is handled, where the context does not end.
  pub retry_success :
      (c : ConsumerConfig) (n : ℕ) (w : World D V)
      → n ≤ retries c
      → AllFail n w
      → (handler (calls_of n w)).0 ≡ ok tt
      → handle_with_retry (λ _. none) handler c w ≡ (ok tt, calls_of (suc n) w)
  unfolding handle_with_retry
  retry_success c n w bound f h = success_after n (retries c) 0 none w bound f h

  -- A handler that fails MaxRetries + 1 times is called that often, and the error of the last call
  -- is the result, where the context does not end.
  pub retry_failure :
      (c : ConsumerConfig) (w : World D V)
      → AllFail (suc (retries c)) w
      → handle_with_retry (λ _. none) handler c w
        ≡ ((handler (calls_of (retries c) w)).0, calls_of (suc (retries c)) w)
  unfolding handle_with_retry
  retry_failure c w f = failure_after (retries c) 0 none w f

module _ {D V : Type 0} (done : ℕ → Option Error) where
  pub settled :
      (e : Env D V) (c : ConsumerConfig) (m : Message) (time : String) (r : Result (Unit {0}))
      (w : World D V)
      → (settle_message e c m time r w).0 ≡ ok tt
  unfolding settle_message pure ignore
  settled e c m time (ok tt) w = refl
  settled e c m time (err x) w = refl

  -- A round of the consumer's loop ends without an error, whatever the handler returns and
  -- whichever calls fail.
  pub process_total :
      (e : Env D V) (c : ConsumerConfig) (handler : Message → Exec D V (Unit {0})) (time : String)
      (m : Message) (w : World D V)
      → (process e c done handler time m w).0 ≡ ok tt
  unfolding process ◌>>=◌ attempt ignore
  process_total e c handler time m w = rw (settled e c m time _ _)

  -- A message whose handling failed is lost, though the consumer names a dead-letter topic and no call
  -- fails: its offset is committed and nothing is written to Kafka, since neither the dead-letter writer
  -- nor its message has a topic; the database stays as the handler left it.
  pub process_failure :
      (ids : ℕ → String) (c : ConsumerConfig) (handler : Message → Exec D V (Unit {0}))
      (time : String) (m : Message) (x : Error) (w w' : World D V)
      → (c.dlq_topic == "") ≡ false
      → handle_with_retry done (handler m) c w ≡ (err x, w')
      → let out = (process (quiet ids) c done handler time m w).1 in
        (out.sent ≡ w'.sent) × (out.committed ≡ w'.committed ++ m.offset ∷ []) × (out.db ≡ w'.db)
  unfolding process ◌>>=◌ attempt ignore settle_message send_to_dlq write_through raise
      commit_message
  process_failure ids c handler time m x w w' named h =
      (simp (h, named), simp (h, named), simp (h, named))
