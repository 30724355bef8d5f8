-- ===== src/Auth/Authorization.antt =====
-- The decision of cmd/auth-service/main.go: who may pass, and as whom.
use Prim.Native.String.{◌++◌ as concat}
use realtime_order_inventory.Prelude.{
  ◌≡◌, ◌↔◌, refl, sym, ◌∙◌, ap, String, true, ◌⊎◌, inl, inr, Bool-cases, Option-cases, none, some,
  List, ◌==◌, some_row, eq_iff,
}
use realtime_order_inventory.Serving.Writer.{
  Request, Action, serve, Connection, connection, fresh, reply,
}
use realtime_order_inventory.Serving.Middleware.{Counted}
use realtime_order_inventory.Serving.Transparency.{status_writer_lem, last_status}
use realtime_order_inventory.Auth.Header.{cut, cut-join, join-cut}
use realtime_order_inventory.Auth.Verify.{
  VerifySpan, Claims, hmac, Jwt, Settings, refuse, accept, missing_header, invalid_format, parse,
  check_token, check_parts, handle_verify, verify_route, metrics_http, trace_handler,
}
use realtime_order_inventory.Auth.Decisions.{
  usable, IsDocumented, passed, head_of, accept_head, refuse_head, cut_nothing, token_cases,
  usable_token, status_differs, usable-some, hmac_only,
}

module _ (jwt : Jwt) (settings : Settings) (r : Request) where
  -- The header is `Bearer`, a space and a token with these claims.
  abbrev pub IsAuthorized : Claims → Type 0
  IsAuthorized c =
      (token : String) × ((r.authorization ≡ concat "Bearer" (concat " " token))
        × (usable (parse jwt settings token) ≡ some c))

  abbrev actions : List Action
  actions = handle_verify jwt settings r

  verify_cases :
      ((c : Claims) × (IsAuthorized c × (actions ≡ accept c)))
      ⊎ ((text : String) × (actions ≡ refuse text))
  unfolding handle_verify check_parts
  verify_cases = elim (Bool-cases (r.authorization == "")) [
    | inl empty ↦ inr (missing_header, rw empty)
    | inr given ↦ elim (Option-cases (cut r.authorization)) [
      | inl missing ↦ inr (invalid_format, rw (given, missing))
      | inr ((scheme, token), parts) ↦ elim (Bool-cases (scheme == "Bearer")) [
        | inl bearer ↦
            let header : r.authorization ≡ concat "Bearer" (concat " " token) =
              join-cut r.authorization scheme token parts
              ∙ ap (λ s. concat s (concat " " token)) ((eq_iff scheme "Bearer").0 bearer) in
            let checked : actions ≡ check_token (parse jwt settings token) =
              rw (given, parts, bearer) in
            elim (token_cases (parse jwt settings token)) [
              | inl (c, (held, run)) ↦ inl (c, ((token, (header, held)), checked ∙ run))
              | inr (text, (held, run)) ↦ inr (text, checked ∙ run)
            ]
        | inr other ↦ inr (invalid_format, rw (given, parts, other))
      ]
    ]
  ]

  -- A header that authorizes is accepted.
  authorized_run : (c : Claims) → IsAuthorized c → actions ≡ accept c
  unfolding handle_verify check_parts
  authorized_run c (token, (header, held)) =
      let parts : cut r.authorization ≡ some ("Bearer", token) =
        ap cut header
        ∙ cut-join "Bearer" token (refl, (refl, (refl, (refl, (refl, (refl, tt)))))) in
      let checked : check_token (parse jwt settings token) ≡ accept c =
        usable_token (parse jwt settings token) c held in
      elim (Bool-cases (r.authorization == "")) [
        | inl empty ↦
            let none_found : cut r.authorization ≡ none =
              ap cut ((eq_iff r.authorization "").0 empty) ∙ cut_nothing in
            cc
        | inr given ↦ rw (given, parts) checked
      ]

  abbrev pub answer : Connection × (Counted × (VerifySpan × Unit {0}))
  answer = verify_route jwt settings r

  route_run :
      (answer.0 ≡ serve connection actions fresh) × (answer.1.0.status ≡ last_status actions 200)
  unfolding verify_route metrics_http trace_handler
  route_run = (
    ap (λ x. x.response_writer) (status_writer_lem connection actions _),
    ap (λ x. x.status) (status_writer_lem connection actions _),
  )

  head_run : reply answer.0 ≡ head_of actions
  head_run = ap reply route_run.0

  -- A request with the header `Bearer`, a space and a token that golang-jwt accepts is answered with
  -- status 200 and the identity of the token's claims in the headers, and is counted with 200.
  pub verify_authorized :
      (c : Claims) → IsAuthorized c → (reply answer.0 ≡ passed c) × (answer.1.0.status ≡ 200)
  unfolding accept
  verify_authorized c h =
      let run = authorized_run c h in
      (head_run ∙ ap head_of run ∙ accept_head c, route_run.1 ∙ ap (λ x. last_status x 200) run)

  accepted_or_refused :
      ((c : Claims) × (IsAuthorized c × (reply answer.0 ≡ passed c)))
      ⊎ (((reply answer.0).status ≡ 401) × (answer.1.0.status ≡ 401))
  unfolding refuse
  accepted_or_refused = elim verify_cases [
    | inl (c, (h, run)) ↦ inl (c, (h, (verify_authorized c h).0))
    | inr (text, run) ↦ inr (
      ap (λ x. x.status) (head_run ∙ ap head_of run) ∙ refuse_head text,
      route_run.1 ∙ ap (λ x. last_status x 200) run,
    )
  ]

  -- The service answers 200 exactly to the requests with the header `Bearer`, a space and a token that
  -- golang-jwt accepts with claims, and 401 exactly to the others.
  pub verify_decides :
      (((reply answer.0).status ≡ 200) ↔ ((c : Claims) × IsAuthorized c))
      × (((reply answer.0).status ≡ 401) ↔ ((c : Claims) → IsAuthorized c → ⊥))
  verify_decides = (
    (
      λ h. elim accepted_or_refused [
        | inl (c, (found, head)) ↦ (c, found)
        | inr (refused, counted) ↦ absurd (status_differs (sym h ∙ refused))
      ],
      λ h. ap (λ x. x.status) (verify_authorized h.0 h.1).0,
    ),
    (
      λ h c found. status_differs (sym (ap (λ x. x.status) (verify_authorized c found).0) ∙ h),
      λ h. elim accepted_or_refused [
        | inl (c, (found, head)) ↦ absurd (h c found)
        | inr (refused, counted) ↦ refused
      ],
    ),
  )

  -- Where golang-jwt keeps its promises: who gets 200 has sent a token with an HMAC signature by the
  -- service's secret and the configured issuer
  -- and audience, and passes with the user and role of its claims.
  pub verify_safe :
      IsDocumented jwt
      → (reply answer.0).status ≡ 200
      → (token : String) × ((c : Claims) × ((r.authorization ≡ concat "Bearer" (concat " " token))
            × ((jwt.signed token hmac settings.jwt_secret ≡ true)
                × (((c.issuer ≡ settings.issuer)
                      × (some_row (λ a. a == settings.audience) c.audience ≡ true))
                    × (reply answer.0 ≡ passed c)))))
  unfolding parse
  verify_safe documented h =
      let (c, (token, (header, held))) = verify_decides.0.0 h in
      let (t, (parsed, claims)) = usable-some (parse jwt settings token) c held in
      let (key, (given, signature)) = documented.signed token _ _ t parsed in
      (
        token,
        (
          c,
          (
            header,
            (
              hmac_only jwt settings token t.method key given signature,
              (
                documented.issued token _ _ t c parsed claims,
                (verify_authorized c (token, (header, held))).0,
              ),
            ),
          ),
        ),
      )
