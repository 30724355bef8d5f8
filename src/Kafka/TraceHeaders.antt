-- ===== src/Kafka/TraceHeaders.antt =====
-- pkg/kafka/trace_headers.go: the headers of a message as a carrier of trace fields, and the
-- lookup of the event type that both event handlers make.
use realtime_order_inventory.Prelude.{String, List, [], ◌∷◌, map, ◌==◌, if◌then◌else◌}
use realtime_order_inventory.Exec.{Message}

-- The value of the first header with the key, or "".
unfoldable pub get : String → List (String × String) → String
get key [] = ""
get key ((k, v) ∷ hs) = if k == key then v else get key hs

-- The first header with the key gets the value; without one, a header is added at the end.
unfoldable pub set : String → String → List (String × String) → List (String × String)
set key value [] = (key, value) ∷ []
set key value ((k, v) ∷ hs) = if k == key then (k, value) ∷ hs else (k, v) ∷ set key value hs

unfoldable pub keys : List (String × String) → List String
keys hs = map (λ h. h.0) hs

-- otel's propagator sets some fields, which the caller's context determines.
unfoldable pub set_all : List (String × String) → List (String × String) → List (String × String)
unfolding set
set_all [] hs = hs
set_all ((k, v) ∷ fields) hs = set_all fields (set k v hs)

unfoldable pub inject_trace_headers : List (String × String) → Message → Message
unfolding set_all
inject_trace_headers fields m = record m { headers = set_all fields m.headers }

-- getEventType, getOrderEventType
unfoldable pub event_type : Message → String
unfolding get
event_type m = get "event_type" m.headers
