-- ===== src/Serving/Writer.antt =====
-- net/http as the code uses it: a handler turns a request into what it does with its ResponseWriter,
-- and the connection answers. A ResponseWriter is an interface, which a wrapper implements again.
use Prim.Native.Char.{code}
use Prim.Native.String.{◌++◌ as concat}
use realtime_order_inventory.Prelude.{
  Bool, true, ℕ, ◌+◌, String, Option, none, some, List, [], ◌∷◌, if◌then◌else◌, ltb,
}
use realtime_order_inventory.Kafka.TraceHeaders.{set}

-- `url` is the text of the whole URL, `route_pattern` is what chi has matched, or "".
pub record Request : Type 0 where
  pub method : String
  pub path : String
  pub url : String
  pub route_pattern : String
  pub authorization : String

-- Header().Set, WriteHeader and Write. To set a header replaces its values.
pub data Action : Type 0 where
  set_header : String → String → Action
  write_header : ℕ → Action
  write : String → Action

abbrev pub Handler : Type 0
Handler = Request → List Action

-- Write returns the number of bytes that it has written. `hijacker` tells whether the value also
-- implements http.Hijacker.
pub record ResponseWriter (W : Type 0) : Type 0 where
  pub hijacker : Bool
  pub set_header : String → String → W → W
  pub write_header : ℕ → W → W
  pub write : String → W → ℕ × W

-- next.ServeHTTP(w, r)
module _ {W : Type 0} (writer : ResponseWriter W) where
  unfoldable pub act : Action → W → W
  act (Action.set_header k v) w = writer.set_header k v w
  act (Action.write_header status) w = writer.write_header status w
  act (Action.write text) w = (writer.write text w).1

  unfoldable pub serve : List Action → W → W
  unfolding act
  serve [] w = w
  serve (a ∷ actions) w = serve actions (act a w)

-- The length of a text in UTF-8.
unfoldable pub char_size : ℕ → ℕ
char_size c = if ltb c 128 then 1 else if ltb c 2048 then 2 else if ltb c 65536 then 3 else 4

unfoldable pub byte_length : String → ℕ
unfolding char_size
byte_length String.[] = 0
byte_length (String.◌∷◌ c s) = char_size (code c) + byte_length s

-- What went out first: a status, and the headers at that time.
pub record Head : Type 0 where
  pub status : ℕ
  pub header : List (String × String)

pub record Connection : Type 0 where
  pub header : List (String × String)
  pub head : Option Head
  pub body : String

-- Only the first WriteHeader counts.
unfoldable pub send_head : Option Head → Head → Option Head
send_head none h = some h
send_head (some sent) h = some sent

abbrev pub connection : ResponseWriter Connection
connection = record {
  hijacker = true;
  set_header = λ k v c. record c { header = set k v c.header };
  write_header = λ status c. record c {
    head = send_head c.head record { status = status; header = c.header };
  };
  write = λ text c. (
    byte_length text,
    record c {
      head = send_head c.head record { status = 200; header = c.header };
      body = concat c.body text;
    },
  );
}

abbrev pub fresh : Connection
fresh = record { header = []; head = none; body = "" }

-- The end of the handler: without a WriteHeader the status is 200.
unfoldable pub reply : Connection → Head
reply c = elim c.head [ none ↦ record { status = 200; header = c.header } | some h ↦ h ]
