-- ===== src/Serving/Transparency.antt =====
-- The wrappers of pkg/metrics/middleware.go and pkg/tracing/middleware.go change nothing that a client
-- sees, and what they report is what the client got.
use Prim.Native.String.{◌++◌ as concat}
use text.Mathlib.TextLemmas.{cons-append, nil-append}
use realtime_order_inventory.Prelude.{
  ℕ, ◌+◌, ◌≡◌, refl, sym, ◌∙◌, ap, String, Bool, true, false, none, some, List, [], ◌∷◌, leb, arith,
}
use realtime_order_inventory.Serving.Writer.{
  Request, Action, set_header, write_header, write, ResponseWriter, serve, act, connection,
  Connection, fresh, reply, byte_length, send_head, Head,
}
use realtime_order_inventory.Serving.Middleware.{
  StatusWriter, status_writer, StatusRecorder, status_recorder, metrics, tracing, served, Counted,
  Span,
}

-- The last status that a handler asks for.
abbrev pub last_status : List Action → ℕ → ℕ
last_status [] status = status
last_status (set_header k v ∷ actions) status = last_status actions status
last_status (write_header code ∷ actions) status = last_status actions code
last_status (write text ∷ actions) status = last_status actions status

module _ {W : Type 0} (writer : ResponseWriter W) where
  pub status_writer_lem :
      (actions : List Action) (w : StatusWriter W)
      → serve (status_writer writer) actions w ≡ record {
        response_writer = serve writer actions w.response_writer;
        status = last_status actions w.status;
      }
  unfolding serve act status_writer
  status_writer_lem [] w = refl
  status_writer_lem (set_header k v ∷ actions) w = status_writer_lem actions _
  status_writer_lem (write_header code ∷ actions) w = status_writer_lem actions _
  status_writer_lem (write text ∷ actions) w = status_writer_lem actions _

  -- The sum of the counts that the writes of a handler return.
  pub bytes : List Action → W → ℕ → ℕ
  unfolding act
  bytes [] w n = n
  bytes (set_header k v ∷ actions) w n = bytes actions (act writer (set_header k v) w) n
  bytes (write_header code ∷ actions) w n = bytes actions (act writer (write_header code) w) n
  bytes (write text ∷ actions) w n =
      bytes actions (act writer (write text) w) (n + (writer.write text w).0)

  status_recorder_lem :
      (actions : List Action) (w : StatusRecorder W)
      → serve (status_recorder writer) actions w ≡ record {
        response_writer = serve writer actions w.response_writer;
        status = last_status actions w.status;
        written = bytes actions w.response_writer w.written;
      }
  unfolding serve act status_recorder bytes
  status_recorder_lem [] w = refl
  status_recorder_lem (set_header k v ∷ actions) w = status_recorder_lem actions _
  status_recorder_lem (write_header code ∷ actions) w = status_recorder_lem actions _
  status_recorder_lem (write text ∷ actions) w = status_recorder_lem actions _

concat-length : (a b : String) → byte_length (concat a b) ≡ byte_length a + byte_length b
unfolding byte_length
concat-length String.[] b = ap byte_length (nil-append b) ∙ omega arith
concat-length (String.◌∷◌ c s) b =
    let rest = concat-length s b in ap byte_length (cons-append c s b) ∙ omega arith

-- No WriteHeader.
abbrev has_no_status : List Action → Bool
has_no_status [] = true
has_no_status (set_header k v ∷ actions) = has_no_status actions
has_no_status (write_header code ∷ actions) = false
has_no_status (write text ∷ actions) = has_no_status actions

-- At most one WriteHeader, and no Write before it.
abbrev pub is_orderly : List Action → Bool
is_orderly [] = true
is_orderly (set_header k v ∷ actions) = is_orderly actions
is_orderly (write_header code ∷ actions) = has_no_status actions
is_orderly (write text ∷ actions) = has_no_status actions

bytes-status_writer :
    {W : Type 0} (writer : ResponseWriter W) (actions : List Action) (w : StatusWriter W) (n : ℕ)
    → bytes (status_writer writer) actions w n ≡ bytes writer actions w.response_writer n
unfolding bytes act status_writer
bytes-status_writer writer [] w n = refl
bytes-status_writer writer (set_header k v ∷ actions) w n = bytes-status_writer writer actions _ n
bytes-status_writer writer (write_header code ∷ actions) w n =
    bytes-status_writer writer actions _ n
bytes-status_writer writer (write text ∷ actions) w n = bytes-status_writer writer actions _ _

bytes-connection :
    (actions : List Action) (c : Connection) (n : ℕ)
    → bytes connection actions c n + byte_length c.body
      ≡ n + byte_length (serve connection actions c).body
unfolding bytes serve act
bytes-connection [] c n = refl
bytes-connection (set_header k v ∷ actions) c n = bytes-connection actions _ n
bytes-connection (write_header code ∷ actions) c n = bytes-connection actions _ n
bytes-connection (write text ∷ actions) c n =
    let rest = bytes-connection actions (connection.write text c).1 (n + byte_length text) in
    let size = concat-length c.body text in omega arith

-- Behind a WriteHeader the head stays.
sent_head :
    (actions : List Action) (c : Connection) (h : Head)
    → has_no_status actions ≡ true
    → c.head ≡ some h
    → reply (serve connection actions c) ≡ h
unfolding serve act send_head reply
sent_head [] c h quiet sent = rw sent
sent_head (set_header k v ∷ actions) c h quiet sent = sent_head actions _ h quiet sent
sent_head (write_header code ∷ actions) c h quiet sent = cc
sent_head (write text ∷ actions) c h quiet sent = sent_head actions _ h quiet (rw sent)

same_status :
    (actions : List Action) (n : ℕ) → has_no_status actions ≡ true → last_status actions n ≡ n
same_status [] n h = refl
same_status (set_header k v ∷ actions) n h = same_status actions n h
same_status (write_header code ∷ actions) n h = cc
same_status (write text ∷ actions) n h = same_status actions n h

orderly_status :
    (actions : List Action) (c : Connection)
    → is_orderly actions ≡ true
    → c.head ≡ none
    → (reply (serve connection actions c)).status ≡ last_status actions 200
unfolding serve act send_head reply
orderly_status [] c h empty = rw empty
orderly_status (set_header k v ∷ actions) c h empty = orderly_status actions _ h empty
orderly_status (write_header code ∷ actions) c h empty =
    let sent : Head = record { status = code; header = c.header } in
    ap (λ x. x.status) (sent_head actions _ sent h (rw empty)) ∙ sym (same_status actions code h)
orderly_status (write text ∷ actions) c h empty =
    let sent : Head = record { status = 200; header = c.header } in
    ap (λ x. x.status) (sent_head actions _ sent h (rw empty)) ∙ sym (same_status actions 200 h)

module _ (service : String) (r : Request) (actions : List Action) {W : Type 0}
    (writer : ResponseWriter W) (w : W) where
  wrapped_twice :
      serve (status_recorder (status_writer writer)) actions (record {
        response_writer = record { response_writer = w; status = 200 };
        status = 200;
        written = 0;
      })
      ≡ record {
        response_writer = record {
          response_writer = serve writer actions w;
          status = last_status actions 200;
        };
        status = last_status actions 200;
        written = bytes writer actions w 0;
      }
  wrapped_twice = rw (
    status_recorder_lem (status_writer writer) actions _,
    status_writer_lem writer actions _,
    bytes-status_writer writer actions (record { response_writer = w; status = 200 }) 0,
  )

  abbrev pub passed : W × (Counted × (Span × Unit {0}))
  passed = served service r actions W writer w

  -- Behind metrics and tracing a handler that sets headers, calls WriteHeader and writes does to the
  -- ResponseWriter of the server, whatever that one does with it, exactly what it does without them, and
  -- the length in the span is the sum of the counts that Write has returned. A handler that asks for other
  -- interfaces of its ResponseWriter is not among these.
  pub served_transparent :
      (passed.0 ≡ serve writer actions w)
      × (passed.1.1.0.response_content_length ≡ bytes writer actions w 0)
  unfolding metrics tracing
  served_transparent =
      (ap (λ b. b.response_writer.response_writer) wrapped_twice, ap (λ b. b.written) wrapped_twice)

-- Both wrappers, at once.
both :
    (actions : List Action)
    → serve (status_recorder (status_writer connection)) actions (record {
      response_writer = record { response_writer = fresh; status = 200 };
      status = 200;
      written = 0;
    })
      ≡ record {
        response_writer = record {
          response_writer = serve connection actions fresh;
          status = last_status actions 200;
        };
        status = last_status actions 200;
        written = byte_length (serve connection actions fresh).body;
      }
unfolding byte_length
both actions =
    let sum = bytes-connection actions fresh 0 in
    let size : bytes connection actions fresh 0
        ≡ byte_length (serve connection actions fresh).body =
      omega arith in
    rw (
      status_recorder_lem (status_writer connection) actions _,
      status_writer_lem connection actions _,
      bytes-status_writer connection actions (record { response_writer = fresh; status = 200 }) 0,
      size,
    )

module _ (service : String) (r : Request) (actions : List Action) where
  abbrev pub outcome : Connection × (Counted × (Span × Unit {0}))
  outcome = served service r actions Connection connection fresh

  -- Behind metrics and tracing a handler answers as it does without them on a plain connection, and the
  -- length in the span is that of the body in bytes.
  pub served_connected :
      (outcome.0 ≡ serve connection actions fresh)
      × (outcome.1.1.0.response_content_length ≡ byte_length outcome.0.body)
  unfolding metrics tracing
  served_connected = (
    ap (λ b. b.response_writer.response_writer) (both actions),
    ap (λ b. b.written) (both actions)
        ∙ sym (ap (λ b. byte_length b.response_writer.response_writer.body) (both actions)),
  )

  -- A handler that calls WriteHeader at most once, and before it writes, is counted with the status
  -- that the client got, its span has that status, and is an error from 500 on.
  pub served_status :
      is_orderly actions ≡ true
      → let status = (reply outcome.0).status in
        (outcome.1.0.status ≡ status)
        × (outcome.1.1.0.status_code ≡ status)
        × (outcome.1.1.0.error ≡ leb 500 status)
  unfolding metrics tracing
  served_status orderly =
      let same = orderly_status actions fresh orderly refl in
      let sent : (reply outcome.0).status ≡ last_status actions 200 =
        ap (λ b. (reply b.response_writer.response_writer).status) (both actions) ∙ same in
      (
        ap (λ b. b.response_writer.status) (both actions) ∙ sym sent,
        ap (λ b. b.status) (both actions) ∙ sym sent,
        ap (leb 500) (ap (λ b. b.status) (both actions) ∙ sym sent),
      )
