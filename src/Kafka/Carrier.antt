-- ===== src/Kafka/Carrier.antt =====
-- The headers of pkg/kafka/trace_headers.go as a map from keys to values.
use realtime_order_inventory.Prelude.{
  ◌≡◌, refl, String, false, List, [], ◌∷◌, ◌==◌, arith, eq_iff, eq_refl,
}
use realtime_order_inventory.Exec.{Message}
use realtime_order_inventory.Kafka.TraceHeaders.{
  get, set, set_all, inject_trace_headers, event_type,
}

-- A header that was set is the one that is read.
pub get-set : (k v : String) (hs : List (String × String)) → get k (set k v hs) ≡ v
unfolding get set
get-set k v [] = ground (arith, eq_refl k)
get-set k v ((x, y) ∷ hs) = ground (arith, get-set k v hs)

-- To set a header leaves what is read of every other key.
pub get-set_other :
    (k k' v : String) (hs : List (String × String))
    → (k' == k) ≡ false
    → get k (set k' v hs) ≡ get k hs
unfolding get set
get-set_other k k' v [] h = ground arith
get-set_other k k' v ((x, y) ∷ hs) h = ground (arith, get-set_other k k' v hs, eq_iff x k')

abbrev pub Lacks : String → List (String × String) → Type 0
Lacks k [] = Unit {0}
Lacks k ((x, y) ∷ fields) = ((x == k) ≡ false) × Lacks k fields

pub get-set_all :
    (k : String) (fields hs : List (String × String))
    → Lacks k fields
    → get k (set_all fields hs) ≡ get k hs
unfolding set_all
get-set_all k [] hs h = refl
get-set_all k ((x, y) ∷ fields) hs h =
    simp (get-set_all k fields (set x y hs) h.1, get-set_other k x y hs h.0)

-- The trace fields that a producer puts into a message's headers, where none of them is called
-- event_type, leave the event type that the consumers read.
pub event_type-inject :
    (fields : List (String × String)) (m : Message)
    → Lacks "event_type" fields
    → event_type (inject_trace_headers fields m) ≡ event_type m
unfolding event_type inject_trace_headers
event_type-inject fields m h = get-set_all "event_type" fields m.headers h
