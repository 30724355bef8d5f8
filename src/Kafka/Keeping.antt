-- ===== src/Kafka/Keeping.antt =====
-- What the retries of pkg/kafka/consumer.go keep.
use realtime_order_inventory.Prelude.{ℕ, zero, suc, Option, none, some, if◌then◌else◌, ltb}
use realtime_order_inventory.Errors.{Error, Result, ok, err}
use realtime_order_inventory.Exec.{World, Exec}
use realtime_order_inventory.Exec.Keeps.{Keeps}
use realtime_order_inventory.Kafka.Consumer.{
  ConsumerConfig, retries, after_attempt, unless_done, attempts, handle_with_retry,
}

-- The consumer keeps what its handler keeps.
module _ {D V : Type 0} {P : World D V → Type 0} (done : ℕ → Option Error)
    (handler : Exec D V (Unit {0})) (k : Keeps P handler) where
  after-Keeps :
      (next : Option Error → Exec D V (Unit {0})) (r : Result (Unit {0})) (w : World D V)
      → ((x : Error) → Keeps P (next (some x)))
      → P w
      → P (after_attempt done handler next r w).1
  after-Keeps next (ok tt) w n h = h
  after-Keeps next (err x) w n h = (n x).at w h

  unless-Keeps :
      (wait : Option Error) (go : Exec D V (Unit {0})) (w : World D V)
      → (P w → P (go w).1)
      → P w
      → P (unless_done done handler wait go w).1
  unless-Keeps none go w g h = g h
  unless-Keeps (some x) go w g h = h

  attempts-Keeps : (n i : ℕ) (last : Option Error) → Keeps P (attempts done handler n i last)
  unfolding attempts
  attempts-Keeps zero i none = record { at = λ w h. h }
  attempts-Keeps zero i (some x) = record { at = λ w h. h }
  attempts-Keeps (suc n) i last = record {
    at = λ w h.
        unless-Keeps (if ltb 0 i then done i else none) _ w
          (λ p.
            after-Keeps (attempts done handler n (suc i)) (handler w).0 (handler w).1
              (λ x. attempts-Keeps n (suc i) (some x)) (k.at w p))
          h;
  }

  pub retry-Keeps : (c : ConsumerConfig) → Keeps P (handle_with_retry done handler c)
  unfolding handle_with_retry
  retry-Keeps c = attempts-Keeps (suc (retries c)) 0 none
