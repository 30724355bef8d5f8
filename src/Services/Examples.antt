-- ===== src/Services/Examples.antt =====
-- Services that stop and services that cannot start.
use realtime_order_inventory.Prelude.{◌≡◌, refl, true, false, [], ◌∷◌}
use realtime_order_inventory.Services.Process.{
  Outside, event_writer, listen, consuming, consumer, redis, database, tracer, logger,
}
use realtime_order_inventory.Services.Mains.{order_main, inventory_main, websocket_main, auth_main}
use realtime_order_inventory.Services.Monitor.{
  left_open, respects, conflicts, store_needs, store_uses, socket_needs, socket_uses,
}
use realtime_order_inventory.Services.Stopping.{
  inventory, orderly, consumer_outlives_its_parts, stopped_clean,
}

abbrev all_well : Outside
all_well = record { getenv = λ key. key; succeeds = λ call. true }

-- The port is taken.
abbrev port_taken : Outside
port_taken = record {
  getenv = λ key. key;
  succeeds = λ call. elim call [ listen ↦ false | _ ↦ true ];
}

orderly_example :
    (respects store_needs store_uses [] [] (order_main port_taken).events ≡ true)
    × (respects socket_needs socket_uses [] [] (auth_main port_taken).events ≡ true)
    × (conflicts socket_uses [] (websocket_main port_taken).events ≡ [])
unfolding websocket_main
orderly_example = orderly port_taken

inventory_returned : (inventory_main all_well).returned ≡ true
unfolding inventory_main
inventory_returned = refl

consumer_outlives_its_parts_example :
    conflicts store_uses [] (inventory_main all_well).events
    ≡ (consuming, consumer)
      ∷ (consuming, redis)
      ∷ (consuming, database)
      ∷ (consuming, tracer)
      ∷ (consuming, logger)
      ∷ []
consumer_outlives_its_parts_example = consumer_outlives_its_parts all_well inventory_returned

stopped_clean_example : left_open [] (inventory_main all_well).events ≡ event_writer ∷ []
stopped_clean_example = stopped_clean all_well inventory inventory_returned
