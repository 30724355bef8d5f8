-- ===== src/Serving/Middleware.antt =====
-- pkg/metrics/middleware.go and pkg/tracing/middleware.go: wrappers that see what a handler writes.
-- Durations are left out.
use Prim.Native.String.{◌++◌ as concat}
use realtime_order_inventory.Prelude.{false, ℕ, ◌+◌, String, Bool, List, ◌==◌, leb, if◌then◌else◌}
use realtime_order_inventory.Serving.Writer.{Request, Action, ResponseWriter, serve}

-- A handler that has its request: it works on any ResponseWriter, and leaves something for the
-- observers.
abbrev pub Next : Type 0 → Type 1
Next X = (W : Type 0) → ResponseWriter W → W → W × X

abbrev pub handling : List Action → Next (Unit {0})
handling actions _ writer w = (serve writer actions w, tt)

-- Embedding the interface http.ResponseWriter gives its methods only: a wrapper is no http.Hijacker.
pub record StatusWriter (W : Type 0) : Type 0 where
  pub response_writer : W
  pub status : ℕ

unfoldable pub status_writer : {W : Type 0} → ResponseWriter W → ResponseWriter (StatusWriter W)
status_writer writer = record {
  hijacker = false;
  set_header = λ k v w. record w { response_writer = writer.set_header k v w.response_writer };
  write_header = λ code w. record {
    response_writer = writer.write_header code w.response_writer;
    status = code;
  };
  write = λ text w.
      let (n, inner) = writer.write text w.response_writer in
      (n, record w { response_writer = inner });
}

-- The labels of HTTPRequestsTotal; strconv.Itoa of the status is left to who reads them.
pub record Counted : Type 0 where
  pub service : String
  pub method : String
  pub path : String
  pub status : ℕ

unfoldable pub metrics : {X : Type 0} → String → Request → Next X → Next (Counted × X)
unfolding status_writer
metrics service r next W writer w =
    let (wrapped, x) =
      next (StatusWriter W) (status_writer writer) (record { response_writer = w; status = 200 }) in
    (
      wrapped.response_writer,
      (
        record {
          service = service;
          method = r.method;
          path = if r.route_pattern == "" then r.path else r.route_pattern;
          status = wrapped.status;
        },
        x,
      ),
    )

pub record StatusRecorder (W : Type 0) : Type 0 where
  pub response_writer : W
  pub status : ℕ
  pub written : ℕ

unfoldable pub status_recorder : {W : Type 0} → ResponseWriter W → ResponseWriter (StatusRecorder W)
status_recorder writer = record {
  hijacker = false;
  set_header = λ k v w. record w { response_writer = writer.set_header k v w.response_writer };
  write_header = λ code w. record {
    response_writer = writer.write_header code w.response_writer;
    status = code;
    written = w.written;
  };
  write = λ text w.
      let (n, inner) = writer.write text w.response_writer in
      (n, record w { response_writer = inner; written = w.written + n });
}

-- What a span of a request says.
pub record Span : Type 0 where
  pub name : String
  pub method : String
  pub url : String
  pub status_code : ℕ
  pub response_content_length : ℕ
  pub error : Bool

unfoldable pub tracing : {X : Type 0} → Request → Next X → Next (Span × X)
unfolding status_recorder
tracing r next W writer w =
    let (wrapped, x) =
      next (StatusRecorder W) (status_recorder writer)
        (record { response_writer = w; status = 200; written = 0 }) in
    (
      wrapped.response_writer,
      (
        record {
          name = concat "HTTP " (concat r.method (concat " " r.path));
          method = r.method;
          url = r.url;
          status_code = wrapped.status;
          response_content_length = wrapped.written;
          error = leb 500 wrapped.status;
        },
        x,
      ),
    )

-- router.Use(metrics.Middleware(service)), then router.Use(tracing.Middleware(service)): the first is
-- outside. The wrappers of chi around both are left out.
abbrev pub served : String → Request → List Action → Next (Counted × (Span × Unit {0}))
served service r actions = metrics service r (tracing r (handling actions))
