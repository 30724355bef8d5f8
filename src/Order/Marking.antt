-- ===== src/Order/Marking.antt =====
-- What the outbox publisher of internal/order/adapter/kafka/outbox_publisher.go marks as published,
-- whichever of its calls fail.
use realtime_order_inventory.Prelude.{
  suc, ◌≡◌, refl, sym, subst, String, Bool, some, true, false, false≢true, List, [], ◌∷◌, ◌++◌,
  ◌==◌, eq_iff, eq_refl, if◌then◌else◌, some_row, update, All, arith,
}
use realtime_order_inventory.Errors.{Result, ok, err}
use realtime_order_inventory.Exec.{
  World, Message, direct, ◌>>=◌, pure, attempt, ignore, advance, new_id, now, write_message, query,
}
use realtime_order_inventory.Exec.Runs.{bind_ok}
use realtime_order_inventory.Exec.Atomic.{IsAlone, on_fault-elim}
use realtime_order_inventory.Kafka.TraceHeaders.{get, inject_trace_headers}
use realtime_order_inventory.Kafka.Carrier.{Lacks, get-set_all}
use realtime_order_inventory.Order.Domain.{OutboxEvent, OutboxEventRow, Host, Db, Cached}
use realtime_order_inventory.Order.Postgres.{E}
use realtime_order_inventory.Order.Outbox
use realtime_order_inventory.Order.Publisher.{event_message, publish_event, mark_event, publish_all}

-- A message about the event was written.
abbrev pub has_event : String → List Message → Bool
has_event id sent = some_row (λ m. get "event_id" m.headers == id) sent

abbrev pub Told : List Message → OutboxEventRow → Type 0
Told sent r = (r.status == "PUBLISHED") ≡ true → has_event r.id sent ≡ true

-- Each event that is marked as published was written to Kafka.
abbrev pub IsTold : {F : Type 0} → World (Db F) (Cached F) → Type 0
IsTold w = All (Told w.sent) w.db.outbox_events

has_event-append :
    (id : String) (sent : List Message) (m : Message)
    → has_event id sent ≡ true
    → has_event id (sent ++ m ∷ []) ≡ true
unfolding some_row
has_event-append id [] m h = cc
has_event-append id (x ∷ sent) m h = ground (arith, has_event-append id sent m)

has_event-last :
    (sent : List Message) (m : Message)
    → has_event (get "event_id" m.headers) (sent ++ m ∷ []) ≡ true
unfolding some_row
has_event-last [] m = rw (eq_refl (get "event_id" m.headers))
has_event-last (x ∷ sent) m = ground (arith, has_event-last sent m)

Told-append :
    (sent : List Message) (m : Message) (rows : List OutboxEventRow)
    → All (Told sent) rows
    → All (Told (sent ++ m ∷ [])) rows
Told-append sent m [] h = tt
Told-append sent m (r ∷ rows) h =
    (λ p. has_event-append r.id sent m (h.0 p), Told-append sent m rows h.1)

Told-mark :
    (sent : List Message) (status time id : String) (rows : List OutboxEventRow)
    → All (Told sent) rows
    → ((status == "PUBLISHED") ≡ true → has_event id sent ≡ true)
    → All (Told sent) (
        update (λ r. r.id == id) (λ r. record r { status = status; published_at = some time }) rows)
unfolding update
Told-mark sent status time id [] h told = tt
Told-mark sent status time id (r ∷ rows) h told =
    (Told-if (r.id == id) refl, Told-mark sent status time id rows h.1 told)
  where
    marked : OutboxEventRow
    marked = record r { status = status; published_at = some time }

    Told-if : (b : Bool) → (r.id == id) ≡ b → Told sent (if b then marked else r)
    Told-if true same =
        λ p. subst (λ x. has_event x sent ≡ true) (sym ((eq_iff r.id id).0 same)) (told p)
    Told-if false other = h.0

module _ {F : Type 0} (h : Host F) (e : E F) (alone : IsAlone e) (trace : List (String × String))
    (lacks : Lacks "event_id" trace) where
  advance-IsTold : (w : World (Db F) (Cached F)) → IsTold w → IsTold (advance e w)
  unfolding advance
  advance-IsTold w told =
      subst (λ d. All (Told w.sent) d.outbox_events) (sym (alone.others w.calls w.db)) told

  -- A mark, with a reason for the status that it sets.
  marked-IsTold :
      (status time id : String) (w : World (Db F) (Cached F))
      → ((status == "PUBLISHED") ≡ true → has_event id w.sent ≡ true)
      → IsTold w
      → IsTold (query e direct (Outbox.mark status time id) w).1
  unfolding query Outbox.mark advance
  marked-IsTold status time id w reason told =
      let now_told = advance-IsTold w told in
      on_fault-elim {D = Db F} {V = Cached F} {A = Unit {0}} (λ o. IsTold {F = F} o.1)
        (e.fault w.calls) _ _ (Told-mark w.sent status time id _ now_told reason) λ text. now_told

  abbrev message_of : OutboxEvent → String → Message
  message_of ev correlation = inject_trace_headers trace (event_message ev correlation)

  named : (ev : OutboxEvent) (c : String) → get "event_id" (message_of ev c).headers ≡ ev.id
  unfolding inject_trace_headers event_message get
  named ev c = get-set_all "event_id" trace (event_message ev c).headers lacks

  abbrev Reason : OutboxEvent → Result (Unit {0}) × World (Db F) (Cached F) → Type 0
  Reason ev out = IsTold out.1 × (out.0 ≡ ok tt → has_event ev.id out.1.sent ≡ true)

  publish-Reason :
      (ev : OutboxEvent) (w : World (Db F) (Cached F))
      → IsTold w
      → Reason ev (publish_event h e trace ev w)
  unfolding publish_event new_id write_message ◌>>=◌ advance
  publish-Reason ev w told =
      let c = e.new_id w.calls in
      let m = message_of ev c in
      let w' : World (Db F) (Cached F) = record w { calls = suc w.calls } in
      let now_told = advance-IsTold w' told in
      on_fault-elim (Reason ev) (e.fault (suc w.calls)) _ _
        (
          Told-append w.sent m _ now_told,
          λ _.
              subst (λ x. has_event x (w.sent ++ m ∷ []) ≡ true) (named ev c)
                (has_event-last w.sent m),
        )
        λ text. (now_told, λ q. cc)

  mark-IsTold :
      (ev : OutboxEvent) (r : Result (Unit {0})) (w : World (Db F) (Cached F))
      → IsTold w
      → (r ≡ ok tt → has_event ev.id w.sent ≡ true)
      → IsTold (mark_event h e trace ev r w).1
  unfolding mark_event ignore Outbox.mark_published Outbox.mark_failed now ◌>>=◌
  mark-IsTold ev (ok tt) w told reason =
      marked-IsTold "PUBLISHED" (h.rfc3339 (e.now w.calls)) ev.id (record w { calls = suc w.calls })
        (λ p. reason refl) told
  mark-IsTold ev (err x) w told reason =
      marked-IsTold "FAILED" (h.rfc3339 (e.now w.calls)) ev.id (record w { calls = suc w.calls })
        (λ p. absurd (false≢true p)) told

  mark_ok :
      (ev : OutboxEvent) (r : Result (Unit {0})) (w : World (Db F) (Cached F))
      → mark_event h e trace ev r w ≡ (ok tt, (mark_event h e trace ev r w).1)
  unfolding mark_event ignore
  mark_ok ev (ok tt) w = refl
  mark_ok ev (err x) w = refl

  -- After a publisher's loop over claimed events, whichever calls fail, each event that is marked as
  -- published was written to Kafka, if that was so before, where no one else writes to the tables and
  -- no field of the trace is called event_id.
  pub published_were_sent :
      (evs : List OutboxEvent) (w : World (Db F) (Cached F))
      → IsTold w
      → IsTold (publish_all h e trace evs w).1
  unfolding publish_all pure ◌>>=◌ attempt
  published_were_sent [] w told = told
  published_were_sent (ev ∷ evs) w told =
      let (still, reason) = publish-Reason ev w told in
      let r = (publish_event h e trace ev w).0 in
      let w' = (publish_event h e trace ev w).1 in
      let run =
        bind_ok (mark_event h e trace ev r) (λ _. publish_all h e trace evs) w' tt _
          (mark_ok ev r w') refl in
      subst (λ o. IsTold o.1) (sym run)
        (published_were_sent evs _ (mark-IsTold ev r w' still reason))
