-- ===== src/Order/EventHandler.antt =====
-- internal/order/adapter/kafka/inventory_event_handler.go. The decoding of a message's JSON is a
-- parameter; spans and logs are left out.
use realtime_order_inventory.Prelude.{String, ◌==◌, if◌then◌else◌}
use realtime_order_inventory.Errors.{Result}
use realtime_order_inventory.Exec.{Exec, Message, pure, lift, wrap, ◌>>=◌, ◌>>◌}
use realtime_order_inventory.Kafka.TraceHeaders.{event_type}

pub record OrderUseCase (D V : Type 0) : Type 0 where
  pub confirm_order : String → Exec D V (Unit {0})
  pub cancel_order : String → String → Exec D V (Unit {0})

-- The parts of the events that the handlers read.
pub record Decoder : Type 0 where
  pub reserved : String → Result String
  pub reservation_failed : String → Result (String × String)
  pub released : String → Result String

module _ {D V : Type 0} (d : Decoder) (uc : OrderUseCase D V) where
  unfoldable pub handle_inventory_reserved : Message → Exec D V (Unit {0})
  handle_inventory_reserved m = do
    order_id ← wrap "failed to unmarshal inventory.reserved event" (lift (d.reserved m.value))
    uc.confirm_order order_id

  unfoldable pub handle_reservation_failed : Message → Exec D V (Unit {0})
  handle_reservation_failed m = do
    event ←
        wrap "failed to unmarshal inventory.reservation_failed event"
          (lift (d.reservation_failed m.value))
    uc.cancel_order event.0 event.1

  unfoldable pub handle_inventory_released : Message → Exec D V (Unit {0})
  handle_inventory_released m = do
    wrap "failed to unmarshal inventory.released event" (lift (d.released m.value))
    pure tt

  unfoldable pub handle : Message → Exec D V (Unit {0})
  unfolding handle_inventory_reserved handle_reservation_failed handle_inventory_released
  handle m =
      let t = event_type m in
      if t == "inventory.reserved"
      then handle_inventory_reserved m
      else if t == "inventory.reservation_failed"
      then handle_reservation_failed m
      else if t == "inventory.released"
      then handle_inventory_released m
      else pure tt
