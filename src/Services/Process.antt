-- ===== src/Services/Process.antt =====
-- A Go process as far as its main function goes: what it opens and closes, the tasks that it starts, the
-- calls that it has deferred, and os.Exit, which runs none of them.
use realtime_order_inventory.Prelude.{
  String, Bool, true, false, Option, none, some, List, [], ◌∷◌, ◌++◌,
}

pub data Resource : Type 0 where
  log_exporter logger trace_exporter tracer database redis : Resource
  outbox_writer event_writer consumer : Resource

pub data Task : Type 0 where
  publishing consuming subscribing hub_running serving : Task

pub data Event : Type 0 where
  opened closed : Resource → Event
  started : Task → Event
  wrapped routed : String → Event
  warned signalled cancelled shut_down : Event

-- The calls of other libraries that may fail.
pub data Call : Type 0 where
  build_logger new_log_exporter new_log_resource new_trace_exporter new_trace_resource : Call
  connect_database ping_database ping_redis listen : Call

-- The environment's variables, and which calls succeed.
pub record Outside : Type 0 where
  pub getenv : String → String
  pub succeeds : Call → Bool

-- `deferred` in the order in which they will run.
pub record Process : Type 0 where
  pub events : List Event
  pub deferred : List Event

-- none where the process has exited.
abbrev pub Main : Type 0 → Type 0
Main A = Process → Option A × Process

infixl 10 ◌>>=◌ ◌>>◌
abbrev pub ◌>>=◌ : {A B : Type 0} → Main A → (A → Main B) → Main B
◌>>=◌ m f p = let (r, p') = m p in elim r [ none ↦ (none, p') | some a ↦ f a p' ]

abbrev pub ◌>>◌ : {A B : Type 0} → Main A → Main B → Main B
m >> n = m >>= λ _. n

abbrev pub pure : {A : Type 0} → A → Main A
pure a p = (some a, p)

abbrev pub happens : Event → Main (Unit {0})
happens ev p = (some tt, record p { events = p.events ++ ev ∷ [] })

abbrev pub happen : List Event → Main (Unit {0})
happen evs p = (some tt, record p { events = p.events ++ evs })

-- defer
abbrev pub deferring : List Event → Main (Unit {0})
deferring evs p = (some tt, record p { deferred = evs ++ p.deferred })

-- os.Exit(1), and logger.Fatal, which calls it
abbrev pub exit : {A : Type 0} → Main A
exit p = (none, p)

-- What a run leaves: whether main returned, and what happened.
pub record Run : Type 0 where
  pub returned : Bool
  pub events : List Event

abbrev pub ended : Option (Unit {0}) × Process → Run
ended (none, p) = record { returned = false; events = p.events }
ended (some tt, p) = record { returned = true; events = p.events ++ p.deferred }

abbrev pub run_main : Main (Unit {0}) → Run
run_main m = ended (m (record { events = []; deferred = [] }))
