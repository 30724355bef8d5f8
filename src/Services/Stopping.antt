-- ===== src/Services/Stopping.antt =====
-- How the services of cmd end: which parts they close, in which order, and what they leave open.
use realtime_order_inventory.Prelude.{
  ◌≡◌, Bool, ◌==◌, Bool-cases, inl, inr, true, false, not, ◌&&◌, List, [], ◌∷◌, ◌++◌, if◌then◌else◌,
  arith,
}
use realtime_order_inventory.Services.Process.{
  Outside, Run, Task, hub_running, consuming, Resource, logger, tracer, database, redis, consumer,
  trace_exporter, event_writer, new_trace_exporter, new_trace_resource,
}
use realtime_order_inventory.Services.Parts.{get_env}
use realtime_order_inventory.Services.Mains.{order_main, inventory_main, websocket_main, auth_main}
use realtime_order_inventory.Services.Monitor.{
  left_open, closes_some, flushed, respects, conflicts, store_needs, store_uses, socket_needs,
  socket_uses,
}

pub data Service : Type 0 where
  orders inventory websocket auth : Service

abbrev pub main_of : Service → Outside → Run
main_of orders o = order_main o
main_of inventory o = inventory_main o
main_of websocket o = websocket_main o
main_of auth o = auth_main o

-- What main has no Close for.
abbrev pub left_by : Service → List Resource
left_by orders = event_writer ∷ []
left_by inventory = event_writer ∷ []
left_by websocket = []
left_by auth = []

-- main has no cancel of its own before the deferred one.
abbrev pub cancels_last : Service → Bool
cancels_last inventory = true
cancels_last _ = false

-- The exporter of a tracer that could not be made.
abbrev pub unused_exporter : Outside → List Resource
unused_exporter o =
    if o.succeeds new_trace_exporter && not (o.succeeds new_trace_resource)
    then trace_exporter ∷ []
    else []

module _ (o : Outside) where
  -- The endpoint of the collector is never empty.
  endpoint_given :
      (get_env o.getenv "OTEL_EXPORTER_OTLP_ENDPOINT" "otel-collector:4317" == "") ≡ false
  unfolding get_env
  endpoint_given = elim (Bool-cases (o.getenv "OTEL_EXPORTER_OTLP_ENDPOINT" == "")) [
    | inl missing ↦ rw missing
    | inr given ↦ rw given given
  ]

  auth_orderly : respects socket_needs socket_uses [] [] (auth_main o).events ≡ true
  unfolding respects auth_main
  auth_orderly = elim (Bool-cases (o.getenv "JWT_SECRET" == "")) [
    | inl missing ↦ rw (missing, endpoint_given) (ground arith)
    | inr given ↦ rw (given, endpoint_given) (ground arith)
  ]

  order_orderly : respects store_needs store_uses [] [] (order_main o).events ≡ true
  unfolding respects order_main
  order_orderly = rw endpoint_given (ground arith)

  hub_conflict :
      conflicts socket_uses [] (websocket_main o).events
      ≡ (if (websocket_main o).returned then (hub_running, logger) ∷ [] else [])
  unfolding conflicts websocket_main
  hub_conflict = rw endpoint_given (ground arith)

  -- In the order and auth services a task starts only when all that it needs is open, its logger
  -- included, and nothing that it uses, its logger and tracer included, is closed before the task has been
  -- told to end, by its context or by Shutdown: whichever calls fail, and whether the process returns from
  -- main or exits. In the websocket service that returns from main the one exception is the logger, which
  -- is closed under the hub, since nothing tells the hub to end.
  pub orderly :
      (respects store_needs store_uses [] [] (order_main o).events ≡ true)
      × (respects socket_needs socket_uses [] [] (auth_main o).events ≡ true)
      × (conflicts socket_uses [] (websocket_main o).events
          ≡ (if (websocket_main o).returned then (hub_running, logger) ∷ [] else []))
  orderly = (order_orderly, auth_orderly, hub_conflict)

  -- The tracer that there is.
  abbrev pub tracing_task : Task → List (Task × Resource)
  tracing_task t =
      if o.succeeds new_trace_exporter && o.succeeds new_trace_resource
      then (t, tracer) ∷ []
      else []

  -- An inventory service that returns from main has closed the reader, Redis, the database, the tracer
  -- that there is and the logger under its consumer, in this order, without having told it to end, and
  -- nothing else under any other task.
  pub consumer_outlives_its_parts :
      (inventory_main o).returned ≡ true
      → conflicts store_uses [] (inventory_main o).events
        ≡ (consuming, consumer)
            ∷ (consuming, redis)
            ∷ (consuming, database)
            ∷ tracing_task consuming
          ++ (consuming, logger) ∷ []
  unfolding conflicts inventory_main
  consumer_outlives_its_parts = rw endpoint_given (λ returned. ground arith)

  order_left :
      (order_main o).returned ≡ true
      → left_open [] (order_main o).events ≡ unused_exporter o ++ event_writer ∷ []
  unfolding left_open order_main
  order_left returned = ground arith

  inventory_left :
      (inventory_main o).returned ≡ true
      → left_open [] (inventory_main o).events ≡ unused_exporter o ++ event_writer ∷ []
  unfolding left_open inventory_main
  inventory_left returned = ground arith

  websocket_left :
      (websocket_main o).returned ≡ true
      → left_open [] (websocket_main o).events ≡ unused_exporter o ++ []
  unfolding left_open websocket_main
  websocket_left returned = ground arith

  auth_left :
      (auth_main o).returned ≡ true → left_open [] (auth_main o).events ≡ unused_exporter o ++ []
  unfolding left_open auth_main
  auth_left = elim (Bool-cases (o.getenv "JWT_SECRET" == "")) [
    | inl missing ↦ rw (missing, endpoint_given) (λ returned. ground arith)
    | inr given ↦ rw (given, endpoint_given) (λ returned. ground arith)
  ]

  -- A service that returns from main has closed what it opened, but for the writer of events of the order
  -- and inventory services, and the exporter of a tracer that could not be made.
  pub stopped_clean :
      (s : Service)
      → (main_of s o).returned ≡ true
      → left_open [] (main_of s o).events ≡ unused_exporter o ++ left_by s
  stopped_clean orders = order_left
  stopped_clean inventory = inventory_left
  stopped_clean websocket = websocket_left
  stopped_clean auth = auth_left

  order_exit : (order_main o).returned ≡ false → closes_some (order_main o).events ≡ false
  unfolding closes_some order_main
  order_exit exited = ground arith

  inventory_exit :
      (inventory_main o).returned ≡ false → closes_some (inventory_main o).events ≡ false
  unfolding closes_some inventory_main
  inventory_exit exited = ground arith

  websocket_exit :
      (websocket_main o).returned ≡ false → closes_some (websocket_main o).events ≡ false
  unfolding closes_some websocket_main
  websocket_exit exited = ground arith

  auth_exit : (auth_main o).returned ≡ false → closes_some (auth_main o).events ≡ false
  unfolding closes_some auth_main
  auth_exit = elim (Bool-cases (o.getenv "JWT_SECRET" == "")) [
    | inl missing ↦ rw (missing, endpoint_given) (λ exited. ground arith)
    | inr given ↦ rw (given, endpoint_given) (λ exited. ground arith)
  ]

  -- A service that exits, by os.Exit or a fatal log line, has closed nothing of what it opened: the
  -- deferred calls do not run, among them the one that sends the last log lines.
  pub exit_closes_nothing :
      (s : Service) → (main_of s o).returned ≡ false → closes_some (main_of s o).events ≡ false
  exit_closes_nothing orders = order_exit
  exit_closes_nothing inventory = inventory_exit
  exit_closes_nothing websocket = websocket_exit
  exit_closes_nothing auth = auth_exit

  order_flushed : (order_main o).returned ≡ true → flushed (order_main o).events ≡ false
  unfolding flushed order_main
  order_flushed returned = ground arith

  inventory_flushed : (inventory_main o).returned ≡ true → flushed (inventory_main o).events ≡ true
  unfolding flushed inventory_main
  inventory_flushed = rw endpoint_given (λ returned. ground arith)

  websocket_flushed : (websocket_main o).returned ≡ true → flushed (websocket_main o).events ≡ false
  unfolding flushed websocket_main
  websocket_flushed returned = ground arith

  auth_flushed : (auth_main o).returned ≡ true → flushed (auth_main o).events ≡ false
  unfolding flushed auth_main
  auth_flushed = elim (Bool-cases (o.getenv "JWT_SECRET" == "")) [
    | inl missing ↦ rw (missing, endpoint_given) (λ returned. ground arith)
    | inr given ↦ rw (given, endpoint_given) (λ returned. ground arith)
  ]

  -- Of the services that return from main only the inventory service closes its logger while the context
  -- that the clean-up uses still lives; the others have cancelled it before.
  pub logs_sent_last :
      (s : Service) → (main_of s o).returned ≡ true → flushed (main_of s o).events ≡ cancels_last s
  logs_sent_last orders = order_flushed
  logs_sent_last inventory = inventory_flushed
  logs_sent_last websocket = websocket_flushed
  logs_sent_last auth = auth_flushed
