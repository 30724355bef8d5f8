-- ===== src/Auth/Verify.antt =====
-- cmd/auth-service/main.go: the handler of /verify, its observers, and the configuration. The library
-- golang-jwt is a parameter; log lines are left out.
use Prim.Native.String.{◌++◌ as concat}
use realtime_order_inventory.Prelude.{
  ℕ, String, Bool, Option, none, some, List, [], ◌∷◌, ◌==◌, if◌then◌else◌,
}
use realtime_order_inventory.Serving.Writer.{
  Request, Action, set_header, write_header, write, Handler, Connection, connection, fresh,
}
use realtime_order_inventory.Serving.Middleware.{
  Next, StatusWriter, status_writer, Counted, handling,
}
use realtime_order_inventory.Auth.Header.{cut}

-- `issuer` and `audience` are of the registered claims.
pub record Claims : Type 0 where
  pub user_id : String
  pub email : String
  pub role : String
  pub issuer : String
  pub audience : List String

pub data SigningMethod : Type 0 where
  hmac : SigningMethod
  other_method : String → SigningMethod

-- `claims` is none where they are not of the service's type.
pub record Token : Type 0 where
  pub method : SigningMethod
  pub valid : Bool
  pub claims : Option Claims

pub record ParserOptions : Type 0 where
  pub issuer : String
  pub audience : String
  pub leeway_seconds : ℕ

-- jwt.ParseWithClaims, with none for its error; and what it means that a text has a signature by a
-- method and a key.
pub record Jwt : Type 0 where
  pub parse_with_claims : String → (SigningMethod → Option String) → ParserOptions → Option Token
  pub signed : String → SigningMethod → String → Bool

-- jwtSecret, issuer, audience
pub record Settings : Type 0 where
  pub jwt_secret : String
  pub issuer : String
  pub audience : String

unfoldable pub get_env : (String → String) → String → String → String
get_env getenv key fallback = let v = getenv key in if v == "" then fallback else v

-- Without a JWT_SECRET the service does not start.
unfoldable pub load_settings : (String → String) → Option Settings
unfolding get_env
load_settings getenv =
    if getenv "JWT_SECRET" == ""
    then none
    else some (record {
      jwt_secret = getenv "JWT_SECRET";
      issuer = get_env getenv "JWT_ISSUER" "order-inventory-system";
      audience = get_env getenv "JWT_AUDIENCE" "order-inventory-api";
    })

abbrev pub missing_header : String
missing_header = "{\"error\":\"missing authorization header\"}"

abbrev pub invalid_format : String
invalid_format = "{\"error\":\"invalid authorization header format\"}"

abbrev pub invalid_token : String
invalid_token = "{\"error\":\"invalid token\"}"

abbrev pub invalid_claims : String
invalid_claims = "{\"error\":\"invalid claims\"}"

-- http.Error
unfoldable pub refuse : String → List Action
refuse text =
    set_header "Content-Type" "text/plain; charset=utf-8"
    ∷ set_header "X-Content-Type-Options" "nosniff"
    ∷ write_header 401
    ∷ write (concat text "\n")
    ∷ []

-- The identity goes into headers, and unescaped into a JSON text.
unfoldable pub accept : Claims → List Action
accept c =
    set_header "X-User-Id" c.user_id
    ∷ set_header "X-User-Role" c.role
    ∷ set_header "Content-Type" "application/json"
    ∷ write_header 200
    ∷ write (
        concat "{\"user_id\":\"" (concat c.user_id (concat "\",\"role\":\"" (concat c.role "\"}"))))
    ∷ []

module _ (jwt : Jwt) (settings : Settings) where
  -- The key for an HMAC method, an error for any other.
  unfoldable pub key_func : SigningMethod → Option String
  key_func hmac = some settings.jwt_secret
  key_func (other_method alg) = none

  unfoldable pub parse : String → Option Token
  unfolding key_func
  parse token =
      jwt.parse_with_claims token key_func
        (record { issuer = settings.issuer; audience = settings.audience; leeway_seconds = 30 })

unfoldable pub check_claims : Option Claims → List Action
unfolding refuse accept
check_claims none = refuse invalid_claims
check_claims (some c) = accept c

unfoldable pub check_token : Option Token → List Action
unfolding refuse check_claims
check_token none = refuse invalid_token
check_token (some t) = if t.valid then check_claims t.claims else refuse invalid_token

module _ (jwt : Jwt) (settings : Settings) where
  unfoldable pub check_parts : Option (String × String) → List Action
  unfolding refuse check_token parse
  check_parts none = refuse invalid_format
  check_parts (some (scheme, token)) =
      if scheme == "Bearer" then check_token (parse jwt settings token) else refuse invalid_format

  unfoldable pub handle_verify : Handler
  unfolding refuse check_parts cut
  handle_verify r =
      if r.authorization == "" then refuse missing_header else check_parts (cut r.authorization)

unfoldable pub handle_health : Handler
handle_health r =
    set_header "Content-Type" "application/json"
    ∷ write_header 200
    ∷ write "{\"status\":\"ok\"}"
    ∷ []

pub record VerifySpan : Type 0 where
  pub name : String
  pub method : String
  pub url : String
  pub handler : String

-- traceHandler: the name of the span says POST for any method.
unfoldable pub trace_handler : {X : Type 0} → String → Request → Next X → Next (VerifySpan × X)
trace_handler name r next W writer w =
    let (w', x) = next W writer w in
    (w', (record { name = "HTTP POST /verify"; method = r.method; url = r.url; handler = name }, x))

-- metricsHTTP, with the path as it was asked for
unfoldable pub metrics_http : {X : Type 0} → String → Request → Next X → Next (Counted × X)
unfolding status_writer
metrics_http service r next W writer w =
    let (wrapped, x) =
      next (StatusWriter W) (status_writer writer) (record { response_writer = w; status = 200 }) in
    (
      wrapped.response_writer,
      (record { service = service; method = r.method; path = r.path; status = wrapped.status }, x),
    )

-- http.Handle("/verify", ...)
unfoldable pub verify_route :
    Jwt → Settings → Request → Connection × (Counted × (VerifySpan × Unit {0}))
unfolding metrics_http trace_handler handle_verify
verify_route jwt settings r =
    metrics_http "auth-service" r
      (trace_handler "auth.verify" r (handling (handle_verify jwt settings r))) Connection
      connection fresh
