-- ===== src/Services/Monitor.antt =====
-- What the events of a process have to satisfy, as an automaton that reads them.
use realtime_order_inventory.Prelude.{
  String, Bool, true, false, not, ◌&&◌, List, [], ◌∷◌, ◌++◌, ◌==◌, select, some_row, if◌then◌else◌,
}
use realtime_order_inventory.Services.Process

abbrev pub name : Process.Resource → String
name Process.log_exporter = "log exporter"
name Process.logger = "logger"
name Process.trace_exporter = "trace exporter"
name Process.tracer = "tracer"
name Process.database = "database"
name Process.redis = "redis"
name Process.outbox_writer = "outbox writer"
name Process.event_writer = "event writer"
name Process.consumer = "consumer"

abbrev pub same : Process.Resource → Process.Resource → Bool
same r s = name r == name s

-- The resources that are open after the events, the earliest first.
unfoldable pub left_open : List Process.Resource → List Process.Event → List Process.Resource
unfolding select
left_open open_ [] = open_
left_open open_ (Process.opened r ∷ evs) = left_open (open_ ++ r ∷ []) evs
left_open open_ (Process.closed r ∷ evs) = left_open (select (λ s. not (same r s)) open_) evs
left_open open_ (_ ∷ evs) = left_open open_ evs

-- What a task of a service uses.
abbrev pub Needs : Type 0
Needs = Process.Task → List Process.Resource

abbrev pub is_in : List Process.Resource → Process.Resource → Bool
is_in rs r = some_row (same r) rs

abbrev pub all_in : List Process.Resource → List Process.Resource → Bool
all_in rs [] = true
all_in rs (r ∷ more) = is_in rs r && all_in rs more

-- The server ends by Shutdown, the hub never, and the other tasks by their context.
abbrev pub survives_cancel : Process.Task → Bool
survives_cancel Process.serving = true
survives_cancel Process.hub_running = true
survives_cancel _ = false

abbrev pub survives_shutdown : Process.Task → Bool
survives_shutdown Process.serving = false
survives_shutdown _ = true

-- A task starts when all that it needs is open, and what it uses is closed only after the task has been
-- told to end.
module _ (needs uses : Needs) where
  unfoldable pub respects : List Process.Resource → List Process.Task → List Process.Event → Bool
  unfolding select some_row
  respects open_ running [] = true
  respects open_ running (Process.opened r ∷ evs) = respects (r ∷ open_) running evs
  respects open_ running (Process.closed r ∷ evs) =
      not (some_row (λ t. is_in (uses t) r) running)
      && respects (select (λ s. not (same r s)) open_) running evs
  respects open_ running (Process.started t ∷ evs) =
      all_in open_ (needs t) && respects open_ (t ∷ running) evs
  respects open_ running (Process.cancelled ∷ evs) =
      respects open_ (select survives_cancel running) evs
  respects open_ running (Process.shut_down ∷ evs) =
      respects open_ (select survives_shutdown running) evs
  respects open_ running (_ ∷ evs) = respects open_ running evs

-- What is closed under which task that has not been told to end, in order.
module _ (uses : Needs) where
  abbrev pub users : Process.Resource → List Process.Task → List (Process.Task × Process.Resource)
  users r [] = []
  users r (t ∷ ts) = let rest = users r ts in if is_in (uses t) r then (t, r) ∷ rest else rest

  unfoldable pub conflicts :
      List Process.Task → List Process.Event → List (Process.Task × Process.Resource)
  unfolding select some_row
  conflicts running [] = []
  conflicts running (Process.closed r ∷ evs) = users r running ++ conflicts running evs
  conflicts running (Process.started t ∷ evs) = conflicts (t ∷ running) evs
  conflicts running (Process.cancelled ∷ evs) = conflicts (select survives_cancel running) evs
  conflicts running (Process.shut_down ∷ evs) = conflicts (select survives_shutdown running) evs
  conflicts running (_ ∷ evs) = conflicts running evs

-- The repositories, the caches, the publisher and the consumer of the order and inventory services, all
-- of which log.
abbrev pub store_needs : Needs
store_needs Process.serving = Process.logger ∷ Process.database ∷ Process.redis ∷ []
store_needs Process.publishing = Process.logger ∷ Process.database ∷ Process.outbox_writer ∷ []
store_needs Process.consuming =
    Process.logger ∷ Process.consumer ∷ Process.database ∷ Process.redis ∷ Process.event_writer ∷ []
store_needs _ = []

-- Spans go to the tracer where there is one.
abbrev pub store_uses : Needs
store_uses t = Process.tracer ∷ store_needs t

-- The hub, the subscriber and the handlers of the websocket and auth services.
abbrev pub socket_needs : Needs
socket_needs Process.subscribing = Process.logger ∷ Process.redis ∷ []
socket_needs Process.hub_running = Process.logger ∷ []
socket_needs Process.serving = Process.logger ∷ []
socket_needs _ = []

abbrev pub socket_uses : Needs
socket_uses Process.serving = Process.tracer ∷ Process.logger ∷ []
socket_uses t = socket_needs t

unfoldable pub closes_some : List Process.Event → Bool
closes_some [] = false
closes_some (Process.closed r ∷ evs) = true
closes_some (_ ∷ evs) = closes_some evs

-- The clean-up of InitLogger uses the context of main: it sends what is left only while that lives.
unfoldable pub flushed : List Process.Event → Bool
flushed [] = false
flushed (Process.closed Process.logger ∷ evs) = true
flushed (Process.cancelled ∷ evs) = false
flushed (_ ∷ evs) = flushed evs
