-- ===== src/Services/Mains.antt =====
-- main of cmd/order-service, cmd/inventory-service, cmd/websocket-service and cmd/auth-service.
use realtime_order_inventory.Prelude.{String, List, [], ◌∷◌, ◌==◌, if◌then◌else◌}
use realtime_order_inventory.Services.Process.{
  Event, opened, closed, started, wrapped, routed, happen, cancelled, shut_down, Outside, Main,
  ◌>>◌, pure, happens, exit, Run, run_main, publishing, consuming, subscribing, hub_running,
  serving, outbox_writer, event_writer, consumer,
}
use realtime_order_inventory.Services.Parts.{
  start_logger, start_tracer, open_database, open_redis, wait_for_signal,
}

-- router.Use, router.Mount, router.Get and router.Handle, of a router with one handler of its own.
abbrev pub router : String → List Event
router path =
    wrapped "middleware.Logger"
    ∷ wrapped "middleware.Recoverer"
    ∷ wrapped "middleware.RequestID"
    ∷ wrapped "metrics.Middleware"
    ∷ wrapped "tracing.Middleware"
    ∷ routed path
    ∷ routed "/health"
    ∷ routed "/metrics"
    ∷ []

module _ (o : Outside) where
  -- An error of Shutdown, or of a Close, is only logged.
  unfoldable pub order_service : Main (Unit {0})
  unfolding start_logger start_tracer open_database open_redis wait_for_signal
  order_service = do
    start_logger o
    start_tracer o
    open_database o
    open_redis o
    happens (opened outbox_writer)
    happens (started publishing)
    happens (opened event_writer)
    happens (opened consumer)
    happens (started consuming)
    happen (router "/api/orders")
    happens (started serving)
    wait_for_signal o
    happens cancelled
    happens shut_down
    happens (closed outbox_writer)
    happens (closed consumer)

  unfoldable pub inventory_service : Main (Unit {0})
  unfolding start_logger start_tracer open_database open_redis wait_for_signal
  inventory_service = do
    start_logger o
    start_tracer o
    open_database o
    open_redis o
    happens (opened event_writer)
    happens (opened consumer)
    happens (started consuming)
    happen (router "/api/inventory")
    happens (started serving)
    wait_for_signal o
    happens shut_down
    happens (closed consumer)

  unfoldable pub websocket_service : Main (Unit {0})
  unfolding start_logger start_tracer open_redis wait_for_signal
  websocket_service = do
    start_logger o
    start_tracer o
    open_redis o
    happens (started hub_running)
    happens (started subscribing)
    happen (router "/ws")
    happens (started serving)
    wait_for_signal o
    happens cancelled
    happens shut_down

  unfoldable pub auth_service : Main (Unit {0})
  unfolding start_logger start_tracer wait_for_signal
  auth_service = do
    start_logger o
    if o.getenv "JWT_SECRET" == "" then exit else pure tt
    start_tracer o
    happen (routed "/verify" ∷ routed "/health" ∷ routed "/metrics" ∷ [])
    happens (started serving)
    wait_for_signal o
    happens cancelled
    happens shut_down

  unfoldable pub order_main : Run
  unfolding order_service
  order_main = run_main order_service

  unfoldable pub inventory_main : Run
  unfolding inventory_service
  inventory_main = run_main inventory_service

  unfoldable pub websocket_main : Run
  unfolding websocket_service
  websocket_main = run_main websocket_service

  unfoldable pub auth_main : Run
  unfolding auth_service
  auth_main = run_main auth_service
