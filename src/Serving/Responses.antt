-- ===== src/Serving/Responses.antt =====
-- Responses of pkg/response/response.go on their way through the wrappers.
use text.Mathlib.TextLemmas.{nil-append}
use realtime_order_inventory.Prelude.{◌≡◌, refl, ◌∙◌, ap, String, true, Option, none, some, [], ◌∷◌}
use realtime_order_inventory.Kafka.TraceHeaders.{set}
use realtime_order_inventory.Http.Response.{Response, written, encoded}
use realtime_order_inventory.Serving.Writer.{
  Request, Connection, connection, fresh, reply, serve, send_head,
}
use realtime_order_inventory.Serving.Middleware.{Counted, Span}
use realtime_order_inventory.Serving.Transparency.{
  outcome, is_orderly, served_connected, served_status,
}

-- The text that was encoded, or nothing.
abbrev pub text_of : Option String → String
text_of none = ""
text_of (some text) = text

module _ (service : String) (r : Request) {A : Type 0} (encode : Response A → Option String)
    (response : Response A) where
  abbrev pub arrived : Connection × (Counted × (Span × Unit {0}))
  arrived = outcome service r (written encode response)

  plain_run :
      (text : Option String)
      → encode response ≡ text
      → serve connection (written encode response) fresh ≡ record {
        header = ("Content-Type", "application/json") ∷ [];
        head = some (record {
          status = response.status;
          header = ("Content-Type", "application/json") ∷ [];
        });
        body = text_of text;
      }
  unfolding written encoded serve set send_head
  plain_run none e = rw e
  plain_run (some text) e = rw (e, nil-append text)

  orderly :
      (text : Option String) → encode response ≡ text → is_orderly (written encode response) ≡ true
  unfolding written encoded
  orderly none e = rw e
  orderly (some text) e = rw e

  -- A response of a handler arrives, through metrics and tracing, with its status, its media type and
  -- its encoded text, and is counted and traced with its status.
  pub response_arrives :
      (reply arrived.0
        ≡ record { status = response.status; header = ("Content-Type", "application/json") ∷ [] })
      × ((arrived.0.body ≡ text_of (encode response))
          × ((arrived.1.0.status ≡ response.status)
              × (arrived.1.1.0.status_code ≡ response.status)))
  unfolding reply
  response_arrives =
      let plain = served_connected service r (written encode response) in
      let run = plain.0 ∙ plain_run (encode response) refl in
      let (counted, status, error) =
        served_status service r (written encode response) (orderly (encode response) refl) in
      let sent = ap (λ c. (reply c).status) run in
      (ap reply run, (ap (λ c. c.body) run, (counted ∙ sent, status ∙ sent)))
