-- ===== src/Database/Traced.antt =====
-- TracedDB of pkg/tracing/db.go, over any database: each call runs in a span of its own, which ends when
-- the call returns. The tracer keeps the spans that have ended, in that order.
use realtime_order_inventory.Prelude.{String, Option, none, some, List, [], ◌∷◌, ◌++◌}
use realtime_order_inventory.Errors.{Error, message}

-- The methods of sqlx.DB that TracedDB calls: S is the database, A what a call answers with (a result,
-- rows, or what it stores in dest) and V an argument. The error of a row is read by its Scan, later.
pub record Sqlx (S A V : Type 0) : Type 0 where
  pub exec_context : String → List V → S → (A × Option Error) × S
  pub query_context : String → List V → S → (A × Option Error) × S
  pub query_row_context : String → List V → S → A × S
  pub named_exec_context : String → V → S → (A × Option Error) × S
  pub select_context : String → List V → S → (A × Option Error) × S
  pub get_context : String → List V → S → (A × Option Error) × S

pub record DbSpan : Type 0 where
  pub name : String
  pub kind : String
  pub db_system : String
  pub db_statement : String
  pub recorded : List Error
  pub status : Option String

pub record TracedDb (S : Type 0) : Type 0 where
  pub db : S
  pub ended : List DbSpan

unfoldable pub start_span : String → DbSpan
start_span query = record {
  name = "db.query";
  kind = "client";
  db_system = "postgresql";
  db_statement = query;
  recorded = [];
  status = none;
}

-- if err != nil { span.RecordError(err); span.SetStatus(codes.Error, err.Error()) }
unfoldable pub record_error : Option Error → DbSpan → DbSpan
record_error none span = span
record_error (some e) span = record span {
  recorded = span.recorded ++ e ∷ [];
  status = some (message e);
}

-- span.End(), deferred.
unfoldable pub end_span : {S : Type 0} → DbSpan → S → List DbSpan → TracedDb S
end_span span d spans = record { db = d; ended = spans ++ span ∷ [] }

unfoldable pub traced_db : {S A V : Type 0} → Sqlx S A V → Sqlx (TracedDb S) A V
traced_db sqlx = record {
  exec_context = λ query args t.
      let ((result, error), d) = sqlx.exec_context query args t.db in
      ((result, error), end_span (record_error error (start_span query)) d t.ended);
  query_context = λ query args t.
      let ((rows, error), d) = sqlx.query_context query args t.db in
      ((rows, error), end_span (record_error error (start_span query)) d t.ended);
  query_row_context = λ query args t.
      let (row, d) = sqlx.query_row_context query args t.db in
      (row, end_span (start_span query) d t.ended);
  named_exec_context = λ query arg t.
      let ((result, error), d) = sqlx.named_exec_context query arg t.db in
      ((result, error), end_span (record_error error (start_span query)) d t.ended);
  select_context = λ query args t.
      let ((dest, error), d) = sqlx.select_context query args t.db in
      ((dest, error), end_span (record_error error (start_span query)) d t.ended);
  get_context = λ query args t.
      let ((dest, error), d) = sqlx.get_context query args t.db in
      ((dest, error), end_span (record_error error (start_span query)) d t.ended);
}
