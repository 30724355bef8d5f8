-- ===== src/Events/Flat.antt =====
-- The events of the order service, from internal/order/usecase/create_order.go by
-- internal/order/adapter/kafka/outbox_publisher.go, as the inventory service reads them.
use realtime_order_inventory.Prelude.{
  ℕ, ◌≡◌, refl, subst, Bool-cases, inl, inr, eq_iff, All, false, String, Option, none, some, List,
  [], ◌∷◌, ◌==◌, if◌then◌else◌,
}
use realtime_order_inventory.Errors.{Error, ok}
use realtime_order_inventory.Exec.{World, Message, pure}
use realtime_order_inventory.Kafka.TraceHeaders.{event_type, get, inject_trace_headers}
use realtime_order_inventory.Kafka.Carrier.{Lacks, event_type-inject}
use realtime_order_inventory.Inventory.Domain.{Db, Cached}
use realtime_order_inventory.Inventory.Postgres.{E}
use realtime_order_inventory.Inventory.EventHandler.{InventoryUseCase, handle, reserve_items}
use realtime_order_inventory.Order.Domain as Orders
use realtime_order_inventory.Order.Domain.{Host, Order}
use realtime_order_inventory.Order.UseCase.{
  created_fields, created_payload, cancelled_fields, cancelled_payload, order_event,
}
use realtime_order_inventory.Order.Publisher.{event_message}
use realtime_order_inventory.Events.Json.{
  Json, number, text, object, Fields, end, field, or_else, Codec, member, read_text, read_float,
  read_struct, read_slice, read_texts,
}
use realtime_order_inventory.Events.Inventory.{
  decode_created, decode_cancelled, decode_items, read_data, order_event_decoder,
}
use realtime_order_inventory.Events.Envelopes.{created_run, cancelled_run}

-- How json.Marshal writes numbers.
pub record Numbers (F : Type 0) : Type 0 where
  pub amount : F → String
  pub count : ℕ → String

or_else-none : {A : Type 0} (o : Option A) → or_else o none ≡ o
or_else-none none = refl
or_else-none (some a) = refl

module _ {F : Type 0} (numbers : Numbers F) where
  abbrev pub value_json : Orders.Json F → Json
  value_json (Orders.text s) = text s
  value_json (Orders.amount a) = number (numbers.amount a)
  value_json (Orders.count n) = number (numbers.count n)

  abbrev pub value_at : String → List (String × Orders.Json F) → Option Json
  value_at k [] = none
  value_at k ((x, v) ∷ fs) = if x == k then some (value_json v) else value_at k fs

  -- A text that json.Marshal has made of a map, or that a JSONB column gives back of it, is read as an
  -- object with exactly its keys and values, in some order.
  pub record IsMarshalled (c : Codec) (s : String) (fs : List (String × Orders.Json F))
      : Type 0 where
    pub fields : Fields
    pub parsed : c.parse s ≡ ok (object fields)
    pub same : (k : String) → member k fields ≡ value_at k fs

  abbrev pub AreDistinct : List (String × Orders.Json F) → Type 0
  AreDistinct [] = Unit {0}
  AreDistinct ((x, v) ∷ fs) = All (λ f. (f.0 == x) ≡ false) fs × AreDistinct fs

  abbrev pub fields_of : List (String × Orders.Json F) → Fields
  fields_of [] = end
  fields_of ((x, v) ∷ fs) = field x (value_json v) (fields_of fs)

  value_at-none :
      (k : String) (fs : List (String × Orders.Json F))
      → All (λ f. (f.0 == k) ≡ false) fs
      → value_at k fs ≡ none
  value_at-none k [] h = refl
  value_at-none k ((x, v) ∷ fs) h = rw h.0 (value_at-none k fs h.1)

  -- An object with the same keys and values in the same order has the same members.
  pub member-fields_of :
      (fs : List (String × Orders.Json F)) (k : String)
      → AreDistinct fs
      → member k (fields_of fs) ≡ value_at k fs
  unfolding member
  member-fields_of [] k d = refl
  member-fields_of ((x, v) ∷ fs) k d = elim (Bool-cases (x == k)) [
    | inl same ↦
        let x_k : x ≡ k = (eq_iff x k).0 same in
        let absent : value_at k fs ≡ none =
          subst (λ (y : String). value_at y fs ≡ none) x_k (value_at-none x fs d.0) in
        rw (same, member-fields_of fs k d.1, absent)
    | inr other ↦ rw (other, member-fields_of fs k d.1) (or_else-none (value_at k fs))
  ]

  module _ (mismatch : Error) (o : Order F) (fs : Fields) where
    flat_created :
        ((k : String) → member k fs ≡ value_at k (created_fields o))
        → decode_created mismatch (object fs) ≡ ok ("", [])
    unfolding decode_created decode_items read_data read_text read_float read_struct read_slice
        created_fields
    flat_created same = rw (same "event_id", same "event_type", same "data", member)

    flat_cancelled :
        (reason : String)
        → ((k : String) → member k fs ≡ value_at k (cancelled_fields o reason))
        → decode_cancelled mismatch (object fs) ≡ ok ""
    unfolding decode_cancelled read_data read_text read_struct read_slice read_texts
        cancelled_fields
    flat_cancelled reason same = rw (same "event_id", same "event_type", same "data", member)

module _ {F : Type 0} (fields : List (String × String)) (o : Order F)
    (id time correlation : String) where
  -- What OutboxPublisher writes for an event of an order.
  abbrev pub order_message : String → String → Message
  order_message event_type payload =
      inject_trace_headers fields
        (event_message (order_event id o.id event_type payload time) correlation)

  typed :
      (t payload : String) → Lacks "event_type" fields → event_type (order_message t payload) ≡ t
  unfolding event_message order_event event_type get
  typed t payload lacks =
      event_type-inject fields (event_message (order_event id o.id t payload time) correlation)
        lacks

module _ {F : Type 0} (numbers : Numbers F) (c : Codec) (h : Host F) (e : E) (uc : InventoryUseCase)
    (trace fields : List (String × String)) (o : Order F) (id time correlation : String)
    (w : World Db Cached) where
  -- The message that the order service writes for a created order is accepted by the inventory service
  -- and changes nothing there: no item of the order is reserved and no failure is reported, whatever the
  -- order, where no trace field is called event_type and the text that the JSONB column gives back
  -- of the payload is read as the map that was marshalled.
  pub created_reserves_nothing :
      Lacks "event_type" fields
      → IsMarshalled numbers c (h.jsonb (created_payload h o)) (created_fields o)
      → handle e
          (order_event_decoder c trace)
          uc
          (order_message fields o id time correlation "order.created"
            (h.jsonb (created_payload h o)))
          w
        ≡ (ok tt, w)
  unfolding order_event_decoder inject_trace_headers event_message order_event reserve_items pure
  created_reserves_nothing lacks read =
      created_run e (order_event_decoder c trace) uc
        (order_message fields o id time correlation "order.created" (h.jsonb (created_payload h o)))
        w "" []
        (typed fields o id time correlation "order.created" (h.jsonb (created_payload h o)) lacks)
        (rw read.parsed (flat_created numbers c.mismatch o read.fields read.same))

  -- The handler of the inventory service, if it is given the message that the order service writes for a
  -- cancelled order, asks for the release of the reservation with the empty identifier, whatever the order
  -- and the reason, under the same conditions. main subscribes the service to order.created only, so that
  -- no such message reaches the handler.
  pub cancelled_releases_empty :
      (reason : String)
      → Lacks "event_type" fields
      → IsMarshalled numbers c (h.jsonb (cancelled_payload h o reason)) (cancelled_fields o reason)
      → handle e
          (order_event_decoder c trace)
          uc
          (order_message fields o id time correlation "order.cancelled"
            (h.jsonb (cancelled_payload h o reason)))
          w
        ≡ uc.release_reservation "" w
  unfolding order_event_decoder inject_trace_headers event_message order_event
  cancelled_releases_empty reason lacks read =
      cancelled_run e (order_event_decoder c trace) uc
        (order_message fields o id time correlation "order.cancelled"
          (h.jsonb (cancelled_payload h o reason)))
        w ""
        (typed fields o id time correlation "order.cancelled"
          (h.jsonb (cancelled_payload h o reason)) lacks)
        (rw read.parsed (flat_cancelled numbers c.mismatch o read.fields reason read.same))
