-- ===== src/Order/Outbox.antt =====
-- outboxRepository of internal/order/adapter/postgres/order_repo.go.
use realtime_order_inventory.Prelude.{
  ℕ, String, Bool, true, false, not, none, some, List, [], ◌∷◌, ◌++◌, map, ◌==◌, if◌then◌else◌,
  select, update, some_row, take, leb,
}
use realtime_order_inventory.Errors.{ok, err}
use realtime_order_inventory.Exec.{
  Executor, direct, in_tx, Stmt, read, pure, ◌>>=◌, ◌>>◌, query, now, wrap, begin, commit,
  deferring_rollback,
}
use realtime_order_inventory.Order.Domain.{OutboxEvent, OutboxEventRow, Host, Db}
use realtime_order_inventory.Order.Postgres.{M, E, unique_violation}

unfoldable pub to_row : OutboxEvent → OutboxEventRow
to_row ev = record {
  id = ev.id;
  aggregate_type = ev.aggregate_type;
  aggregate_id = ev.aggregate_id;
  event_type = ev.event_type;
  payload = ev.payload;
  status = ev.status;
  created_at = ev.created_at;
  published_at = none;
}

-- The JSONB column payload keeps a value: its text is not the one that was written.
unfoldable pub row_to_event : {F : Type 0} → Host F → OutboxEventRow → OutboxEvent
row_to_event h row = record {
  id = row.id;
  aggregate_type = row.aggregate_type;
  aggregate_id = row.aggregate_id;
  event_type = row.event_type;
  payload = h.jsonb row.payload;
  status = row.status;
  created_at = row.created_at;
  published_at = "";
}

unfoldable pub is_pending : OutboxEventRow → Bool
is_pending r = r.status == "PENDING"

unfoldable pub insert_event : {F : Type 0} → OutboxEventRow → Stmt (Db F) (Unit {0})
insert_event row d =
    if some_row (λ r. r.id == row.id) d.outbox_events
    then err unique_violation
    else ok (tt, record d { outbox_events = d.outbox_events ++ row ∷ [] })

-- ORDER BY created_at ASC, by the time that a text stands for.
module _ (timestamp : String → ℕ) where
  unfoldable pub insert_by_age : OutboxEventRow → List OutboxEventRow → List OutboxEventRow
  insert_by_age r [] = r ∷ []
  insert_by_age r (x ∷ xs) =
      if leb (timestamp r.created_at) (timestamp x.created_at)
      then r ∷ x ∷ xs
      else x ∷ insert_by_age r xs

  unfoldable pub oldest_first : List OutboxEventRow → List OutboxEventRow
  unfolding insert_by_age
  oldest_first [] = []
  oldest_first (r ∷ rs) = insert_by_age r (oldest_first rs)

  -- WHERE status = 'PENDING' ORDER BY created_at ASC LIMIT $1
  unfoldable pub pending_rows : ℕ → List OutboxEventRow → List OutboxEventRow
  unfolding oldest_first is_pending
  pending_rows limit rows = take limit (oldest_first (select is_pending rows))

-- FOR UPDATE SKIP LOCKED
unfoldable pub unlocked : (String → Bool) → List OutboxEventRow → List OutboxEventRow
unlocked locked rows = select (λ r. not (locked r.id)) rows

-- id = ANY($1)
unfoldable pub is_in : List String → String → Bool
is_in [] id = false
is_in (x ∷ xs) id = if x == id then true else is_in xs id

unfoldable pub claim : {F : Type 0} → List String → Stmt (Db F) (Unit {0})
unfolding is_in
claim ids d = ok (
  tt,
  record d {
    outbox_events =
        update (λ r. is_in ids r.id) (λ r. record r { status = "CLAIMED" }) d.outbox_events;
  },
)

unfoldable pub mark : {F : Type 0} → String → String → String → Stmt (Db F) (Unit {0})
mark status time id d = ok (
  tt,
  record d {
    outbox_events =
        update (λ r. r.id == id) (λ r. record r { status = status; published_at = some time })
          d.outbox_events;
  },
)

module _ {F : Type 0} (h : Host F) (e : E F) where
  unfoldable pub get_pending : ℕ → M F (List OutboxEvent)
  get_pending limit = do
    rows ← query e direct (read λ d. ok (pending_rows h.timestamp limit d.outbox_events))
    pure (map (row_to_event h) rows)

  -- After the SELECT: UPDATE and COMMIT. Nothing to claim commits nothing.
  unfoldable pub claim_rows : List OutboxEventRow → M F (List OutboxEvent)
  claim_rows [] = pure []
  claim_rows (row ∷ rows) = do
    wrap "failed to mark events as claimed" (query e in_tx (claim (map (λ r. r.id) (row ∷ rows))))
    wrap "failed to commit claim transaction" (commit e)
    pure (map (row_to_event h) (row ∷ rows))

  -- `locked` says which rows other transactions hold.
  unfoldable pub claim_batch : (String → Bool) → ℕ → M F (List OutboxEvent)
  unfolding claim_rows
  claim_batch locked limit = do
    wrap "failed to begin transaction" (begin e)
    deferring_rollback (do
      rows ← wrap "failed to claim pending events" (
          query e in_tx
            (read λ d. ok (pending_rows h.timestamp limit (unlocked locked d.outbox_events))))
      claim_rows rows)

  unfoldable pub mark_published : String → M F (Unit {0})
  mark_published id = do time ← now e; query e direct (mark "PUBLISHED" (h.rfc3339 time) id)

  unfoldable pub mark_failed : String → M F (Unit {0})
  mark_failed id = do time ← now e; query e direct (mark "FAILED" (h.rfc3339 time) id)

module _ {F : Type 0} (e : E F) where
  unfoldable pub create_in_tx : Executor → OutboxEvent → M F (Unit {0})
  create_in_tx x ev = query e x (insert_event (to_row ev))

  unfoldable pub create : OutboxEvent → M F (Unit {0})
  unfolding create_in_tx
  create ev = create_in_tx direct ev
