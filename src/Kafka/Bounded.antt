-- ===== src/Kafka/Bounded.antt =====
-- The loop of handleWithRetry in pkg/kafka/consumer.go ends, whatever its handler and its context do.
use realtime_order_inventory.Prelude.{
  ℕ, zero, suc, ◌≤◌, ◌≡◌, refl, ap, Option, none, some, if◌then◌else◌, ltb, arith,
}
use realtime_order_inventory.Errors.{Error, Result, ok, err}
use realtime_order_inventory.Exec.{World, Exec}
use realtime_order_inventory.Kafka.Consumer.{
  ConsumerConfig, retries, after_attempt, unless_done, attempts, handle_with_retry,
}
use realtime_order_inventory.Kafka.Retrying.{calls_of}

module _ {D V : Type 0} (handler : Exec D V (Unit {0})) where
  -- A run that makes at most n calls of the handler, and nothing else; with a success, the last of
  -- them has succeeded.
  pub record Ends (n : ℕ) (w : World D V) (out : Result (Unit {0}) × World D V) : Type 0 where
    pub calls : ℕ
    pub bound : calls ≤ n
    pub world : out.1 ≡ calls_of handler calls w
    pub success :
        out.0 ≡ ok tt → (m : ℕ) × ((calls ≡ suc m) × ((handler (calls_of handler m w)).0 ≡ ok tt))

  ended : (n : ℕ) (x : Error) (w : World D V) → Ends n w (err x, w)
  ended n x w = record { calls = 0; bound = omega arith; world = refl; success = λ h. cc }

  -- One call, and the rest of the loop.
  call_then :
      (done : ℕ → Option Error) (n : ℕ) (next : Option Error → Exec D V (Unit {0}))
      (r : Result (Unit {0})) (w : World D V)
      → (handler w).0 ≡ r
      → ((x : Error) → Ends n (handler w).1 (next (some x) (handler w).1))
      → Ends (suc n) w (after_attempt done handler next r (handler w).1)
  call_then done n next (ok tt) w same rest = record {
    calls = 1;
    bound = omega arith;
    world = refl;
    success = λ h. (0, (refl, same));
  }
  call_then done n next (err x) w same rest =
      let run = rest x in
      record {
        calls = suc run.calls;
        bound = let b = run.bound in omega arith;
        world = run.world;
        success = λ h. let (m, (count, last)) = run.success h in (suc m, (ap suc count, last));
      }

  module _ (done : ℕ → Option Error) where
    waiting :
        (n : ℕ) (wait : Option Error) (go : Exec D V (Unit {0})) (w : World D V)
        → Ends n w (go w)
        → Ends n w (unless_done done handler wait go w)
    waiting n none go w run = run
    waiting n (some x) go w run = ended n x w

    retrying :
        (n k : ℕ) (x : Error) (w : World D V) → Ends n w (attempts done handler n k (some x) w)
    unfolding attempts
    retrying zero k x w = ended 0 x w
    retrying (suc n) k x w = waiting (suc n) (if ltb 0 k then done k else none) _ w (
        call_then done n (attempts done handler n (suc k)) (handler w).0 w refl
          λ y. retrying n (suc k) y (handler w).1)

    -- handleWithRetry ends after at most MaxRetries + 1 calls of its handler, whatever the handler
    -- returns and whenever the context ends: what it leaves is what those calls left, and it returns no
    -- error only where the last of them returned none.
    pub retry_terminates :
        (c : ConsumerConfig) (w : World D V)
        → Ends (suc (retries c)) w (handle_with_retry done handler c w)
    unfolding handle_with_retry attempts
    retry_terminates c w =
        call_then done (retries c) (attempts done handler (retries c) 1) (handler w).0 w refl
          λ y. retrying (retries c) 1 y (handler w).1
