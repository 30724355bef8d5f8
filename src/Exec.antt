-- ===== src/Exec.antt =====
-- The code as state passing: a call takes the world and returns a result and the new world.
-- A Go function's `(T, error)` is a `Result T`; `if err != nil { return err }` is a bind.
-- What the services call and do not implement is in `Env`, a parameter: which calls fail and with
-- what text, what other connections commit before a call, what Redis forgets or is told by others,
-- fresh identifiers and the time.
pub mod Keeps
pub mod Yields
pub mod Envs
pub mod Runs
pub mod Atomic
use realtime_order_inventory.Prelude.{
  ℕ, suc, String, Bool, true, false, Option, none, some, List, [], ◌∷◌, ◌++◌, ◌==◌, if◌then◌else◌,
}
use realtime_order_inventory.Errors.{Error, driver, wrapped, Result, ok, err}

-- A Redis database: keys with decoded values.
abbrev pub Store : Type 0 → Type 0
Store V = List (String × V)

-- kafka.Message; keys and values are texts.
pub record Message : Type 0 where
  pub offset : ℕ
  pub topic : String
  pub key : String
  pub value : String
  pub headers : List (String × String)

pub record Env (D V : Type 0) : Type 0 where
  pub fault : ℕ → Option String
  pub others : ℕ → D → D
  pub evict : ℕ → Store V → Store V
  pub new_id : ℕ → String
  pub now : ℕ → ℕ

-- The service's transaction: what it has written, not yet visible to others.
pub record Tx (D : Type 0) : Type 0 where
  pub aborted : Bool
  pub writes : D → D

-- Besides the database: Redis, what was written to Kafka and which offsets were committed there.
pub record World (D V : Type 0) : Type 0 where
  pub db : D
  pub tx : Tx D
  pub store : Store V
  pub sent : List Message
  pub committed : List ℕ
  pub calls : ℕ

abbrev pub Exec : Type 0 → Type 0 → Type 0 → Type 0
Exec D V A = World D V → Result A × World D V

-- database.DBExecutor: `r.db`, or the transaction where `tx != nil`.
pub data Executor : Type 0 where
  direct in_tx : Executor

-- A statement reads a database and fails or returns a value and the database after it.
abbrev pub Stmt : Type 0 → Type 0 → Type 0
Stmt D A = D → Result (A × D)

module _ {D V A : Type 0} where
  unfoldable pub pure : A → Exec D V A
  pure a w = (ok a, w)

  unfoldable pub raise : Error → Exec D V A
  raise x w = (err x, w)

  unfoldable pub lift : Result A → Exec D V A
  lift r w = (r, w)

module _ {D V A B : Type 0} where
  abbrev pub continue : Result A → (A → Exec D V B) → Exec D V B
  continue (ok a) f w = f a w
  continue (err x) f w = (err x, w)

  infixl 10 ◌>>=◌ ◌>>◌
  unfoldable pub ◌>>=◌ : Exec D V A → (A → Exec D V B) → Exec D V B
  unfolding pure raise lift
  ◌>>=◌ m f w = let (r, w') = m w in continue r f w'

  abbrev pub ◌>>◌ : Exec D V A → Exec D V B → Exec D V B
  m >> n = m >>= λ _. n

abbrev pub idle : {D : Type 0} → Tx D
idle = record { aborted = false; writes = λ d. d }

abbrev pub wrap_result : {A : Type 0} → String → Result A → Result A
wrap_result text (ok a) = ok a
wrap_result text (err x) = err (wrapped text x)

module _ {D V A : Type 0} where
  -- if err != nil { return fmt.Errorf("text: %w", err) }
  unfoldable pub wrap : String → Exec D V A → Exec D V A
  wrap text m w = let (r, w') = m w in (wrap_result text r, w')

  -- the result and the error as values, for code that looks at the error
  unfoldable pub attempt : Exec D V A → Exec D V (Result A)
  attempt m w = let (r, w') = m w in (ok r, w')

  -- _ = m
  unfoldable pub ignore : Exec D V A → Exec D V (Unit {0})
  ignore m w = let (r, w') = m w in (ok tt, w')

  -- defer func() { _ = tx.Rollback() }(): after Commit the transaction is idle already.
  unfoldable pub deferring_rollback : Exec D V A → Exec D V A
  deferring_rollback m w = let (r, w') = m w in (r, record w' { tx = idle })

-- What happens before any call that leaves the process.
unfoldable pub advance : {D V : Type 0} → Env D V → World D V → World D V
advance e w = record w {
  db = e.others w.calls w.db;
  store = e.evict w.calls w.store;
  calls = suc w.calls;
}

abbrev pub abort : {D V : Type 0} → World D V → World D V
abort w = record w { tx = record { aborted = true; writes = w.tx.writes } }

abbrev pub state_of : {D A : Type 0} → D → Result (A × D) → D
state_of d (ok (a, d')) = d'
state_of d (err x) = d

abbrev pub after : {D A : Type 0} → Stmt D A → D → D
after s d = state_of d (s d)

abbrev pub value_of : {D A : Type 0} → Result (A × D) → Result A
value_of (ok (a, d)) = ok a
value_of (err x) = err x

abbrev pub attach : {D A : Type 0} → D → Result A → Result (A × D)
attach d (ok a) = ok (a, d)
attach d (err x) = err x

-- A SELECT.
unfoldable pub read : {D A : Type 0} → (D → Result A) → Stmt D A
read r d = attach d (r d)

-- A call that the environment makes fail with a text, or lets through.
abbrev pub on_fault : {A : Type 0} → Option String → A → (String → A) → A
on_fault none through failed = through
on_fault (some text) through failed = failed text

abbrev pub in_failed_tx : Error
in_failed_tx = driver "pq: current transaction is aborted"

module _ {D V A : Type 0} where
  -- In a transaction the statement sees the committed data under the transaction's own writes.
  unfoldable pub run_in_tx : Stmt D A → Result (A × D) → World D V → World D V
  run_in_tx s (ok _) w = record w {
    tx = record { aborted = w.tx.aborted; writes = λ d. after s (w.tx.writes d) };
  }
  run_in_tx s (err _) w = abort w

  unfoldable pub run_stmt : Executor → Stmt D A → Exec D V A
  unfolding run_in_tx
  run_stmt direct s w = (value_of (s w.db), record w { db = after s w.db })
  run_stmt in_tx s w =
      if w.tx.aborted
      then (err in_failed_tx, w)
      else (value_of (s (w.tx.writes w.db)), run_in_tx s (s (w.tx.writes w.db)) w)

  -- A failed statement aborts the transaction that it stands in.
  unfoldable pub fail_stmt : Executor → String → Exec D V A
  fail_stmt direct text w = (err (driver text), w)
  fail_stmt in_tx text w = (err (driver text), abort w)

  -- executor.ExecContext, GetContext, SelectContext
  unfoldable pub query : Env D V → Executor → Stmt D A → Exec D V A
  unfolding advance run_stmt fail_stmt
  query e x s w =
      on_fault (e.fault w.calls) (run_stmt x s (advance e w)) λ text. fail_stmt x text (advance e w)

module _ {D V : Type 0} where
  -- db.BeginTxx
  unfoldable pub begin : Env D V → Exec D V (Unit {0})
  unfolding advance
  begin e w =
      on_fault (e.fault w.calls) (ok tt, record (advance e w) { tx = idle })
        λ text. (err (driver text), advance e w)

  -- The end of a transaction, rolled back with an error where a statement of it failed.
  unfoldable pub settle : Bool → Exec D V (Unit {0})
  settle true w = (err in_failed_tx, record w { tx = idle })
  settle false w = (ok tt, record w { db = w.tx.writes w.db; tx = idle })

  -- tx.Commit. A commit that fails has written nothing.
  unfoldable pub commit : Env D V → Exec D V (Unit {0})
  unfolding advance settle
  commit e w =
      on_fault (e.fault w.calls) (settle w.tx.aborted (advance e w))
        λ text. (err (driver text), record (advance e w) { tx = idle })

  -- uuid.New().String()
  unfoldable pub new_id : Env D V → Exec D V String
  new_id e w = (ok (e.new_id w.calls), record w { calls = suc w.calls })

  -- time.Now()
  unfoldable pub now : Env D V → Exec D V ℕ
  now e w = (ok (e.now w.calls), record w { calls = suc w.calls })

  -- writer.WriteMessages, of one message
  unfoldable pub write_message : Env D V → Message → Exec D V (Unit {0})
  unfolding advance
  write_message e m w =
      on_fault (e.fault w.calls) (ok tt, record (advance e w) { sent = w.sent ++ m ∷ [] })
        λ text. (err (driver text), advance e w)

  -- reader.CommitMessages, of one message
  unfoldable pub commit_message : Env D V → Message → Exec D V (Unit {0})
  unfolding advance
  commit_message e m w =
      on_fault (e.fault w.calls)
        (ok tt, record (advance e w) { committed = w.committed ++ m.offset ∷ [] })
        λ text. (err (driver text), advance e w)
