-- ===== src/Auth/Decisions.antt =====
-- The answers of cmd/auth-service/main.go to a parsed token, and what golang-jwt promises of one.
use realtime_order_inventory.Prelude.{
  ℕ, ◌≡◌, refl, ◌∙◌, ap, String, true, ◌⊎◌, inl, inr, Bool-cases, Option-cases, Option, none, some,
  List, [], ◌∷◌, ◌==◌, some_row, if◌then◌else◌, arith,
}
use realtime_order_inventory.Serving.Writer.{
  Action, serve, connection, fresh, reply, Head, send_head,
}
use realtime_order_inventory.Kafka.TraceHeaders.{set}
use realtime_order_inventory.Auth.Header.{cut}
use realtime_order_inventory.Auth.Verify.{
  Claims, SigningMethod, hmac, other_method, Token, ParserOptions, Jwt, Settings, refuse, accept,
  invalid_token, invalid_claims, key_func, check_claims, check_token,
}

-- The claims of a parsed token that may be used.
abbrev pub usable : Option Token → Option Claims
usable none = none
usable (some t) = if t.valid then t.claims else none

-- What golang-jwt promises of a token that it accepts: the key function gave a key for the token's
-- method, the signature is right under it, and the claims name the issuer and the audience asked for.
pub record IsDocumented (jwt : Jwt) : Type 0 where
  pub signed :
      (token : String) (keys : SigningMethod → Option String) (options : ParserOptions) (t : Token)
      → jwt.parse_with_claims token keys options ≡ some t
      → (key : String) × ((keys t.method ≡ some key) × (jwt.signed token t.method key ≡ true))
  pub issued :
      (token : String) (keys : SigningMethod → Option String) (options : ParserOptions) (t : Token)
      (c : Claims)
      → jwt.parse_with_claims token keys options ≡ some t
      → t.claims ≡ some c
      → (c.issuer ≡ options.issuer) × (some_row (λ a. a == options.audience) c.audience ≡ true)

-- The head of the answer that lets the request pass as the user of the claims.
abbrev pub passed : Claims → Head
passed c = record {
  status = 200;
  header =
      ("X-User-Id", c.user_id)
      ∷ ("X-User-Role", c.role)
      ∷ ("Content-Type", "application/json")
      ∷ [];
}

abbrev pub head_of : List Action → Head
head_of actions = reply (serve connection actions fresh)

pub accept_head : (c : Claims) → head_of (accept c) ≡ passed c
unfolding accept serve reply send_head set
accept_head c = refl

pub refuse_head : (text : String) → (head_of (refuse text)).status ≡ 401
unfolding refuse serve reply send_head
refuse_head text = refl

pub cut_nothing : cut "" ≡ none
unfolding cut
cut_nothing = refl

-- A token passes with its usable claims, and is refused without.
pub token_cases :
    (o : Option Token)
    → ((c : Claims) × ((usable o ≡ some c) × (check_token o ≡ accept c)))
      ⊎ ((text : String) × ((usable o ≡ none) × (check_token o ≡ refuse text)))
unfolding check_token check_claims
token_cases none = inr (invalid_token, (refl, refl))
token_cases (some t) = elim (Bool-cases t.valid) [
  | inl valid ↦ elim (Option-cases t.claims) [
    | inl missing ↦ inr (invalid_claims, (rw (valid, missing), rw (valid, missing)))
    | inr (c, found) ↦ inl (c, (rw (valid, found), rw (valid, found)))
  ]
  | inr invalid ↦ inr (invalid_token, (rw invalid, rw invalid))
]

pub usable_token : (o : Option Token) (c : Claims) → usable o ≡ some c → check_token o ≡ accept c
usable_token o c h = elim (token_cases o) [
  | inl (d, (held, run)) ↦ run ∙ ap accept cc
  | inr (text, (nothing, run)) ↦ cc
]

pub status_differs : Path ℕ 200 401 → ⊥
status_differs e = omega arith

pub usable-some :
    (o : Option Token) (c : Claims)
    → usable o ≡ some c
    → (t : Token) × ((o ≡ some t) × (t.claims ≡ some c))
usable-some none c h = cc
usable-some (some t) c h = elim (Bool-cases t.valid) [
  | inl valid ↦ (t, (refl, rw valid at h))
  | inr invalid ↦ let nothing : usable (some t) ≡ none = rw invalid in cc
]

-- The key function gives a key to HMAC methods only.
pub hmac_only :
    (jwt : Jwt) (settings : Settings) (token : String) (m : SigningMethod) (key : String)
    → key_func jwt settings m ≡ some key
    → jwt.signed token m key ≡ true
    → jwt.signed token hmac settings.jwt_secret ≡ true
unfolding key_func
hmac_only jwt settings token hmac key given h =
    let same : settings.jwt_secret ≡ key = cc in rw same h
hmac_only jwt settings token (other_method alg) key given h = cc
