-- ===== src/Exec/Envs.antt =====
-- Environments: one in which the service is alone and nothing fails.
use realtime_order_inventory.Prelude.{ℕ, String, none}
use realtime_order_inventory.Exec.{Env}

abbrev pub quiet : {D V : Type 0} → (ℕ → String) → Env D V
quiet ids = record {
  fault = λ _. none;
  others = λ _ d. d;
  evict = λ _ s. s;
  new_id = ids;
  now = λ n. n;
}
