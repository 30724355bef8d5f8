-- ===== src/Websocket/Listening.antt =====
-- Start and handleMessage of internal/websocket/subscriber.go, over the messages of Redis as they arrive.
use realtime_order_inventory.Prelude.{◌≡◌, refl, ◌∙◌, String, Option, none, some, List, [], ◌∷◌}
use realtime_order_inventory.Errors.{Error, driver, Result, ok, err}
use realtime_order_inventory.Websocket.Hub.{Hub}
use realtime_order_inventory.Websocket.Subscriber.{EventMessage, handle_message}

-- What the select of the loop receives: the end of the context, the end of the channel of Redis, or a
-- message with its channel and payload.
pub data Arrival : Type 0 where
  context_ended : Error → Arrival
  channel_closed : Arrival
  arrived : String → String → Arrival

-- json.Unmarshal of a payload, and the text of the message that is broadcast for it.
module _ (decode : String → Result EventMessage) (message_text : String → String) where
  abbrev handle_decoded : String → String → Result EventMessage → Hub → Hub
  handle_decoded channel payload (ok ev) h = handle_message channel ev (message_text payload) h
  handle_decoded channel payload (err x) h = h

  unfoldable pub handle_payload : String → String → Hub → Hub
  handle_payload channel payload h = handle_decoded channel payload (decode payload) h

  -- The error that Start returns, if it has returned.
  unfoldable pub start : List Arrival → Hub → Option Error × Hub
  unfolding handle_payload
  start [] h = (none, h)
  start (context_ended x ∷ arrivals) h = (some x, h)
  start (channel_closed ∷ arrivals) h = (some (driver "redis channel closed"), h)
  start (arrived channel payload ∷ arrivals) h = start arrivals (handle_payload channel payload h)

  -- The messages before the end.
  abbrev heard : List Arrival → List (String × String)
  heard [] = []
  heard (context_ended x ∷ arrivals) = []
  heard (channel_closed ∷ arrivals) = []
  heard (arrived channel payload ∷ arrivals) = (channel, payload) ∷ heard arrivals

  -- Those that decode, with what they decode to.
  abbrev with_decoded :
      String
      → String
      → Result EventMessage
      → List (String × EventMessage × String)
      → List (String × EventMessage × String)
  with_decoded channel payload (ok ev) rest = (channel, ev, message_text payload) ∷ rest
  with_decoded channel payload (err x) rest = rest

  abbrev understood : List (String × String) → List (String × EventMessage × String)
  understood [] = []
  understood ((channel, payload) ∷ rest) =
      with_decoded channel payload (decode payload) (understood rest)

  abbrev broadcast_each : List (String × EventMessage × String) → Hub → Hub
  broadcast_each [] h = h
  broadcast_each ((channel, ev, m) ∷ rest) h = broadcast_each rest (handle_message channel ev m h)

  decoded_step :
      (channel payload : String) (r : Result EventMessage)
      (rest : List (String × EventMessage × String)) (h : Hub)
      → broadcast_each rest (handle_decoded channel payload r h)
        ≡ broadcast_each (with_decoded channel payload r rest) h
  decoded_step channel payload (ok ev) rest h = refl
  decoded_step channel payload (err x) rest h = refl

  -- A payload that does not decode ends nothing: Start broadcasts the others, in order, until its context
  -- or the channel ends.
  pub start_skips :
      (arrivals : List Arrival) (h : Hub)
      → (start arrivals h).1 ≡ broadcast_each (understood (heard arrivals)) h
  unfolding start handle_payload
  start_skips [] h = refl
  start_skips (context_ended x ∷ arrivals) h = refl
  start_skips (channel_closed ∷ arrivals) h = refl
  start_skips (arrived channel payload ∷ arrivals) h =
      start_skips arrivals (handle_payload channel payload h)
      ∙ decoded_step channel payload (decode payload) (understood (heard arrivals)) h
