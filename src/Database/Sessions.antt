-- ===== src/Database/Sessions.antt =====
-- Any sequence of calls through TracedDB of pkg/tracing/db.go, against the same calls without it.
use mathlib.Core.List.{append-nil, append_assoc}
use realtime_order_inventory.Prelude.{
  ◌≡◌, refl, String, Option, none, some, List, [], ◌∷◌, ◌++◌, map,
}
use realtime_order_inventory.Errors.{Error, message}
use realtime_order_inventory.Database.Traced.{
  Sqlx, DbSpan, TracedDb, start_span, record_error, end_span, traced_db,
}

pub data Call (V : Type 0) : Type 0 where
  exec : String → List V → Call V
  query : String → List V → Call V
  query_row : String → List V → Call V
  named_exec : String → V → Call V
  select : String → List V → Call V
  get : String → List V → Call V

abbrev pub text_of : {V : Type 0} → Call V → String
text_of (exec q args) = q
text_of (query q args) = q
text_of (query_row q args) = q
text_of (named_exec q arg) = q
text_of (select q args) = q
text_of (get q args) = q

-- What a call answers, with its error.
abbrev pub Answer : Type 0 → Type 0
Answer A = A × Option Error

module _ {S A V : Type 0} (sqlx : Sqlx S A V) where
  unfoldable pub call : Call V → S → Answer A × S
  call (exec q args) d = sqlx.exec_context q args d
  call (query q args) d = sqlx.query_context q args d
  call (query_row q args) d =
      let (row, after) = sqlx.query_row_context q args d in ((row, none), after)
  call (named_exec q arg) d = sqlx.named_exec_context q arg d
  call (select q args) d = sqlx.select_context q args d
  call (get q args) d = sqlx.get_context q args d

  -- The answers of a list of calls, and the database after them.
  unfoldable pub session : List (Call V) → S → List (String × Answer A) × S
  session [] d = ([], d)
  session (c ∷ calls) d =
      let (answer, after) = call c d in
      let (answers, last) = session calls after in ((text_of c, answer) ∷ answers, last)

abbrev pub errors_of : Option Error → List Error
errors_of none = []
errors_of (some e) = e ∷ []

abbrev pub status_of : Option Error → Option String
status_of none = none
status_of (some e) = some (message e)

-- The span that a call with its text and its answer has.
abbrev pub span_of : {A : Type 0} → String × Answer A → DbSpan
span_of (q, (answer, error)) = record {
  name = "db.query";
  kind = "client";
  db_system = "postgresql";
  db_statement = q;
  recorded = errors_of error;
  status = status_of error;
}

recorded_lem :
    {A : Type 0} (q : String) (answer : A) (error : Option Error)
    → record_error error (start_span q) ≡ span_of (q, (answer, error))
unfolding record_error start_span
recorded_lem q answer none = refl
recorded_lem q answer (some e) = refl

module _ {S A V : Type 0} (sqlx : Sqlx S A V) where
  -- A call through TracedDB, with the span that it ends.
  IsTraced : Call V → TracedDb S → Type 0
  IsTraced c t =
      let (answer, d) = call sqlx c t.db in
      call (traced_db sqlx) c t
      ≡ (answer, record { db = d; ended = t.ended ++ span_of (text_of c, answer) ∷ [] })

  call-IsTraced : (c : Call V) (t : TracedDb S) → IsTraced c t
  unfolding IsTraced call traced_db end_span start_span
  call-IsTraced (exec q args) t = rw (recorded_lem q (sqlx.exec_context q args t.db).0.0)
  call-IsTraced (query q args) t = rw (recorded_lem q (sqlx.query_context q args t.db).0.0)
  call-IsTraced (query_row q args) t = refl
  call-IsTraced (named_exec q arg) t = rw (recorded_lem q (sqlx.named_exec_context q arg t.db).0.0)
  call-IsTraced (select q args) t = rw (recorded_lem q (sqlx.select_context q args t.db).0.0)
  call-IsTraced (get q args) t = rw (recorded_lem q (sqlx.get_context q args t.db).0.0)

  -- Through TracedDB, any sequence of calls answers and leaves the database as without it, whichever of
  -- them fail, and it ends one span for each call, in order, with the statement and the error of that
  -- call; the error of a QueryRow comes with its Scan, and its span has none.
  pub session_traced :
      (calls : List (Call V)) (t : TracedDb S)
      → session (traced_db sqlx) calls t ≡ (
        (session sqlx calls t.db).0,
        record {
          db = (session sqlx calls t.db).1;
          ended = t.ended ++ map span_of (session sqlx calls t.db).0;
        },
      )
  unfolding session IsTraced
  session_traced [] t = rw (append-nil t.ended)
  session_traced (c ∷ calls) t =
      let (answer, d) = call sqlx c t.db in
      let span = span_of (text_of c, answer) in
      let rest = session_traced calls (record { db = d; ended = t.ended ++ span ∷ [] }) in
      rw
        (
          call-IsTraced c t,
          rest,
          append_assoc t.ended (span ∷ []) (map span_of (session sqlx calls d).0),
        )
        refl
