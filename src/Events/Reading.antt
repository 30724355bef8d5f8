-- ===== src/Events/Reading.antt =====
-- The failure event of the inventory service, as the order service reads it.
use realtime_order_inventory.Prelude.{◌≡◌, refl, String, List}
use realtime_order_inventory.Errors.{Error, ok}
use realtime_order_inventory.Exec.{World, Message, ◌>>=◌, lift, wrap}
use realtime_order_inventory.Kafka.TraceHeaders.{event_type, get, inject_trace_headers}
use realtime_order_inventory.Kafka.Carrier.{Lacks, event_type-inject}
use realtime_order_inventory.Inventory.EventHandler.{failure_message}
use realtime_order_inventory.Order.EventHandler.{
  Decoder, OrderUseCase, handle, handle_reservation_failed,
}
use realtime_order_inventory.Events.Json.{Codec, read_text, read_struct, member}
use realtime_order_inventory.Events.Inventory.{failure_event, order_event_decoder, read_data}
use realtime_order_inventory.Events.Order.{decode_reservation_failed, inventory_event_decoder}

failure_decoded :
    (mismatch : Error) (order_id product_id reason : String)
    → decode_reservation_failed mismatch (failure_event order_id product_id reason)
      ≡ ok (order_id, reason)
unfolding decode_reservation_failed failure_event read_text read_struct member read_data
failure_decoded mismatch order_id product_id reason = refl

reservation_failed_run :
    (d : Decoder) {D V : Type 0} (uc : OrderUseCase D V) (m : Message) (order_id reason : String)
    (w : World D V)
    → event_type m ≡ "inventory.reservation_failed"
    → d.reservation_failed m.value ≡ ok (order_id, reason)
    → handle d uc m w ≡ uc.cancel_order order_id reason w
unfolding handle handle_reservation_failed ◌>>=◌ lift wrap
reservation_failed_run d uc m order_id reason w t read = rw (t, read)

module _ (c : Codec) {D V : Type 0} (uc : OrderUseCase D V) (trace fields : List (String × String))
    (order_id product_id reason : String) where
  -- The handler of the order service, if it is given the message that the inventory service makes when an
  -- item cannot be reserved, calls CancelOrder with that order and the same reason, where no trace field is
  -- called event_type and the JSON of the event is read back as it was. Nothing is said of the message's
  -- way: as main wires the services, the writer refuses it and no consumer reads its topic.
  pub failure_cancels :
      (w : World D V)
      → Lacks "event_type" fields
      → c.parse (c.print (failure_event order_id product_id reason))
        ≡ ok (failure_event order_id product_id reason)
      → handle
          (inventory_event_decoder c)
          uc
          (inject_trace_headers fields
            (failure_message (order_event_decoder c trace) order_id product_id reason))
          w
        ≡ uc.cancel_order order_id reason w
  unfolding failure_message inject_trace_headers get event_type order_event_decoder
      inventory_event_decoder
  failure_cancels w lacks parsed =
      let m = failure_message (order_event_decoder c trace) order_id product_id reason in
      reservation_failed_run (inventory_event_decoder c) uc (inject_trace_headers fields m) order_id
        reason w (event_type-inject fields m lacks)
        (rw parsed (failure_decoded c.mismatch order_id product_id reason))
