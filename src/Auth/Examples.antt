-- ===== src/Auth/Examples.antt =====
-- Requests to the auth service on concrete data.
use Prim.Native.String.{◌++◌ as concat}
use realtime_order_inventory.Prelude.{
  ◌≡◌, ◌↔◌, refl, sym, ap, ◌∙◌, String, true, Option, none, some, [], ◌∷◌, ◌==◌, some_row, eq_refl,
  Bool-cases, inl, inr, if◌then◌else◌,
}
use realtime_order_inventory.Serving.Writer.{Request, reply}
use realtime_order_inventory.Auth.Verify.{
  Claims, SigningMethod, hmac, Token, ParserOptions, Jwt, Settings, parse, key_func,
}
use realtime_order_inventory.Auth.Decisions.{IsDocumented, usable, passed}
use realtime_order_inventory.Auth.Authorization.{IsAuthorized, answer, verify_decides, verify_safe}

abbrev anna : ParserOptions → Claims
anna options = record {
  user_id = "anna";
  email = "anna@example.com";
  role = "buyer";
  issuer = options.issuer;
  audience = options.audience ∷ [];
}

abbrev token_for : Option String → ParserOptions → Option Token
token_for none options = none
token_for (some key) options =
    some (record { method = hmac; valid = true; claims = some (anna options) })

-- A library that accepts one token, signed by whatever key it is given.
abbrev one_token : Jwt
one_token = record {
  parse_with_claims =
      λ token keys options. if token == "good" then token_for (keys hmac) options else none;
  signed = λ token method key. true;
}

abbrev settings : Settings
settings = record { jwt_secret = "secret"; issuer = "shop"; audience = "api" }

abbrev with_token : Request
with_token = record {
  method = "GET";
  path = "/verify";
  url = "/verify";
  route_pattern = "";
  authorization = "Bearer good";
}

found_token :
    (key : Option String) (options : ParserOptions) (t : Token)
    → token_for key options ≡ some t
    → (k : String) × ((key ≡ some k)
        × (Path Token t (record { method = hmac; valid = true; claims = some (anna options) })))
found_token none options t h = cc
found_token (some k) options t h = (k, (refl, cc))

parsed_token :
    (token : String) (keys : SigningMethod → Option String) (options : ParserOptions) (t : Token)
    → one_token.parse_with_claims token keys options ≡ some t
    → (k : String) × ((keys hmac ≡ some k)
        × (Path Token t (record { method = hmac; valid = true; claims = some (anna options) })))
parsed_token token keys options t h = elim (Bool-cases (token == "good")) [
  | inl good ↦ found_token (keys hmac) options t (rw good at h)
  | inr bad ↦ let nothing : Path (Option Token) none (some t) = rw bad at h in cc
]

one_token-IsDocumented : IsDocumented one_token
unfolding some_row
one_token-IsDocumented = record {
  signed = λ token keys options t h.
      let (k, (key, same)) = parsed_token token keys options t h in (k, (rw same key, refl));
  issued = λ token keys options t c h claims.
      let (k, (key, same)) = parsed_token token keys options t h in
      let mine : some (anna options) ≡ some c = rw same at claims in
      let who : anna options ≡ c = cc in
      (
        ap (λ x. x.issuer) (sym who),
        ap (λ x. some_row (λ a. a == options.audience) x.audience) (sym who)
            ∙ rw (eq_refl options.audience),
      );
}

anna_parsed : Path (Option Token) (parse one_token settings "good") (
    some (record {
      method = hmac;
      valid = true;
      claims = some (anna (record { issuer = "shop"; audience = "api"; leeway_seconds = 30 }));
    }))
unfolding parse key_func
anna_parsed = refl

abbrev anna_claims : Claims
anna_claims = anna (record { issuer = "shop"; audience = "api"; leeway_seconds = 30 })

abbrev anna_authorized :
    (token : String) × ((with_token.authorization ≡ concat "Bearer" (concat " " token))
      × (usable (parse one_token settings token) ≡ some anna_claims))
anna_authorized = ("good", (refl, ap usable anna_parsed))

verify_decides_example :
    (((reply (answer one_token settings with_token).0).status ≡ 200)
      ↔ ((c : Claims) × IsAuthorized one_token settings with_token c))
    × (((reply (answer one_token settings with_token).0).status ≡ 401)
        ↔ ((c : Claims) → IsAuthorized one_token settings with_token c → ⊥))
verify_decides_example = verify_decides one_token settings with_token

verify_safe_example :
    (token : String) × ((c : Claims) × ((with_token.authorization
          ≡ concat "Bearer" (concat " " token))
        × ((one_token.signed token hmac settings.jwt_secret ≡ true)
            × (((c.issuer ≡ settings.issuer)
                  × (some_row (λ a. a == settings.audience) c.audience ≡ true))
                × (reply (answer one_token settings with_token).0 ≡ passed c)))))
verify_safe_example =
    verify_safe one_token settings with_token one_token-IsDocumented
      ((verify_decides one_token settings with_token).0.1 (anna_claims, anna_authorized))
