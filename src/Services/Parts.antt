-- ===== src/Services/Parts.antt =====
-- What the mains start with: InitLogger of pkg/logger, InitTracer of pkg/tracing, NewPostgresConnection of
-- pkg/database and NewRedisClient of pkg/cache/redis.go. none is an error; a constructor that fails
-- halfway keeps what it has opened. Logs, options and the texts of errors are left out.
use realtime_order_inventory.Prelude.{
  String, Bool, true, false, not, ◌++◌, Option, none, some, List, [], ◌∷◌, ◌==◌, if◌then◌else◌,
}
use realtime_order_inventory.Services.Process.{
  Event, opened, closed, warned, cancelled, Outside, Main, ◌>>=◌, ◌>>◌, pure, happens, deferring,
  exit, log_exporter, logger, trace_exporter, tracer, database, redis, build_logger,
  new_log_exporter, new_log_resource, new_trace_exporter, new_trace_resource, connect_database,
  ping_database, ping_redis, listen, signalled,
}

unfoldable pub get_env : (String → String) → String → String → String
get_env getenv key fallback = let v = getenv key in if v == "" then fallback else v

-- A part is made, and closed by `clean_up`, or there is an error.
abbrev pub make : Bool → List Event → List Event → Main (Option (List Event))
make true events clean_up p = (some (some clean_up), record p { events = p.events ++ events })
make false events clean_up p = (some none, p)

module _ (o : Outside) where
  unfoldable pub log_provider : Main (Option (List Event))
  log_provider = do
    happens (opened log_exporter)
    make (o.succeeds new_log_resource) (opened logger ∷ [])
        (closed logger ∷ closed log_exporter ∷ [])

  -- The clean-up of the logger, none where it cannot be made. Without an endpoint it only writes to
  -- stdout.
  unfoldable pub init_logger : String → Main (Option (List Event))
  unfolding log_provider
  init_logger endpoint =
      if not (o.succeeds build_logger)
      then pure none
      else if endpoint == ""
      then pure (some [])
      else if o.succeeds new_log_exporter
      then log_provider
      else pure none

  -- tp.Shutdown shuts its exporter down too.
  unfoldable pub trace_provider : Main (Option (List Event))
  trace_provider = do
    happens (opened trace_exporter)
    make (o.succeeds new_trace_resource) (opened tracer ∷ [])
        (closed tracer ∷ closed trace_exporter ∷ [])

  unfoldable pub init_tracer : Main (Option (List Event))
  unfolding trace_provider
  init_tracer = if o.succeeds new_trace_exporter then trace_provider else pure none

  -- The pool stays open where the ping fails.
  unfoldable pub pinged_database : Main (Option (List Event))
  pinged_database = do
    happens (opened database)
    make (o.succeeds ping_database) [] (closed database ∷ [])

  unfoldable pub new_postgres_connection : Main (Option (List Event))
  unfolding pinged_database
  new_postgres_connection = if o.succeeds connect_database then pinged_database else pure none

  unfoldable pub new_redis_client : Main (Option (List Event))
  new_redis_client = do happens (opened redis); make (o.succeeds ping_redis) [] (closed redis ∷ [])

-- if err != nil { logClient.Fatal(...) }; defer clean-up
abbrev pub or_exit : Option (List Event) → Main (Unit {0})
or_exit none = exit
or_exit (some evs) = deferring evs

-- if err != nil { logClient.Warn(...) } else { defer clean-up }
abbrev pub or_warn : Option (List Event) → Main (Unit {0})
or_warn none = happens warned
or_warn (some evs) = deferring evs

module _ (o : Outside) where
  -- The context, the logger and the tracer, as every main makes them.
  unfoldable pub start_logger : Main (Unit {0})
  unfolding init_logger get_env
  start_logger = do
    deferring (cancelled ∷ [])
    made ← init_logger o (get_env o.getenv "OTEL_EXPORTER_OTLP_ENDPOINT" "otel-collector:4317")
    or_exit made

  unfoldable pub start_tracer : Main (Unit {0})
  unfolding init_tracer
  start_tracer = do made ← init_tracer o; or_warn made

  unfoldable pub open_database : Main (Unit {0})
  unfolding new_postgres_connection
  open_database = do made ← new_postgres_connection o; or_exit made

  unfoldable pub open_redis : Main (Unit {0})
  unfolding new_redis_client
  open_redis = do made ← new_redis_client o; or_exit made

  -- <-quit, unless the goroutine of the server has ended the process.
  unfoldable pub wait_for_signal : Main (Unit {0})
  wait_for_signal = if o.succeeds listen then happens signalled else exit
