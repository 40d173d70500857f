-- ===== src/MockServices.antt =====
-- mock-services/auth-service/main.py and mock-services/order-service/main.py: the two services behind
-- the gateway. `jwt.encode` and the clock are parameters.
use d_ai_api_sec.Prelude.{
  ℕ, ◌≡◌, refl, ◌≢◌, ◌⊎◌, inl, inr, ◌&&◌, String, str_eq, eq_iff, Bool-cases, List, [], ◌∷◌, ◌++◌,
  arith, if◌then◌else◌, ap, sym, ◌∙◌,
}
use mathlib.Core.List.{append-nil, append_assoc}
use d_ai_api_sec.Json.{Json}
use d_ai_api_sec.Errors.{Error, Result, ok, err, http_error}
use d_ai_api_sec.Errors as Errors
use d_ai_api_sec.Float.{Float}
use d_ai_api_sec.Exec.{Exec, lift, modify, pure, ◌>>=◌, ◌>>◌}

pub record LoginRequest : Type 0 where
  pub username : String
  pub password : String

pub record Token : Type 0 where
  pub access_token : String
  pub token_type : String

-- The claims that are signed; `int(time.time())` is a number of whole seconds.
pub record Claims : Type 0 where
  pub sub : String
  pub iat : ℕ

abbrev pub demo_username : String
demo_username = "demo_user"

abbrev pub demo_password : String
demo_password = "correct-horse-battery-staple"

module _ (encode : Claims → String → Result String) (jwt_secret : String) where
  abbrev pub issue : String → ℕ → Result Token
  issue username now =
      Errors.◌>>=◌ (encode (record { sub = username; iat = now }) jwt_secret)
        λ token. ok record { access_token = token; token_type = "bearer" }

  unfoldable pub login : LoginRequest → ℕ → Result Token
  login req now =
      if str_eq req.username demo_username && str_eq req.password demo_password
      then issue req.username now
      else err (http_error 401)

  -- A login either carries the demonstration's name and password, and then a token for that name and
  -- time is issued, or differs in one of them, and then it is answered by a 401.
  login_cases :
      (req : LoginRequest) (now : ℕ)
      → ((req.username ≡ demo_username) × (req.password ≡ demo_password))
          × (login req now ≡ issue demo_username now)
        ⊎ ((req.username ≢ demo_username) ⊎ (req.password ≢ demo_password))
          × (login req now ≡ err (http_error 401))
  unfolding login
  login_cases req now = elim (Bool-cases (str_eq req.username demo_username)) [
    | inr other_name ↦
        inr (inl (ground (arith, eq_iff req.username demo_username)), rw other_name refl)
    | inl same_name ↦ elim (Bool-cases (str_eq req.password demo_password)) [
      | inr other_word ↦
          inr (
            inr (ground (arith, eq_iff req.password demo_password)),
            rw (same_name, other_word) refl,
          )
      | inl same_word ↦
          let name = (eq_iff req.username demo_username).0 same_name in
          inl (
            (name, (eq_iff req.password demo_password).0 same_word),
            rw (same_name, same_word) (ap (λ u. issue u now) name),
          )
    ]
  ]

-- The answers that say no more than a status.
pub record Status : Type 0 where
  pub status : String

unfoldable pub register : Status
register = record { status = "registration disabled in demo" }

-- `health` of the auth service
unfoldable pub auth_health : Status
auth_health = record { status = "ok" }

-- `health` of the order service
unfoldable pub order_health : Status
order_health = record { status = "ok" }

-- The answer of the order service.
pub record Accepted : Type 0 where
  pub status : String
  pub received : Json
  pub server_time : Float

pub data Endpoint : Type 0 where
  orders checkout : Endpoint

-- One request: its endpoint, how the reading of its body ends, and the time of the answer.
pub record OrderRequest : Type 0 where
  pub endpoint : Endpoint
  pub json : Result Json
  pub time : Float

-- The lines printed, oldest first.
abbrev pub Printed : Type 0
Printed = List (Endpoint × Json)

-- `create_order` and `checkout`
unfoldable pub accept : OrderRequest → Exec Printed Accepted
accept request = do
  body ← lift request.json
  modify (λ printed. printed ++ (request.endpoint, body) ∷ [])
  pure record { status = "accepted"; received = body; server_time = request.time }

-- The requests of a run; an answer of 500 to one does not touch the next.
unfoldable pub serve : List OrderRequest → Printed → List (Result Accepted) × Printed
serve [] printed = ([], printed)
serve (request ∷ requests) printed =
    let (answer, after) = accept request printed in
    let (answers, last) = serve requests after in (answer ∷ answers, last)

abbrev pub lines_of : Endpoint → Result Json → Printed
lines_of endpoint (ok body) = (endpoint, body) ∷ []
lines_of endpoint (err e) = []

abbrev pub bodies : List OrderRequest → Printed
bodies [] = []
bodies (request ∷ requests) = lines_of request.endpoint request.json ++ bodies requests

abbrev pub echo : Float → Result Json → Result Accepted
echo time (ok body) = ok record { status = "accepted"; received = body; server_time = time }
echo time (err e) = err e

abbrev pub echoes : List OrderRequest → List (Result Accepted)
echoes [] = []
echoes (request ∷ requests) = echo request.time request.json ∷ echoes requests

accept_lem :
    (request : OrderRequest) (printed : Printed)
    → accept request printed
      ≡ (echo request.time request.json, printed ++ lines_of request.endpoint request.json)
unfolding accept
accept_lem request printed = by_body request.json
  where
    by_body :
        (r : Result Json)
        → (lift r >>= λ body.
              modify (λ printed. printed ++ (request.endpoint, body) ∷ [])
              >> pure record { status = "accepted"; received = body; server_time = request.time })
            printed
          ≡ (echo request.time r, printed ++ lines_of request.endpoint r)
    by_body (ok body) = refl
    by_body (err e) = ap (λ l. (err e, l)) (sym (append-nil printed))

-- The order service answers each request whose body can be read by that body, and any other by the
-- failure of the reading, and it prints exactly the bodies read, in the order of the requests: a
-- request that never reaches it leaves no line.
serve_prints :
    (requests : List OrderRequest) (printed : Printed)
    → serve requests printed ≡ (echoes requests, printed ++ bodies requests)
unfolding serve
serve_prints [] printed = ap (λ l. ([], l)) (sym (append-nil printed))
serve_prints (request ∷ requests) printed =
    ap (λ (p : Result Accepted × Printed). (p.0 ∷ (serve requests p.1).0, (serve requests p.1).1))
      (accept_lem request printed)
    ∙ ap (λ (p : List (Result Accepted) × Printed). (echo request.time request.json ∷ p.0, p.1))
        (serve_prints requests (printed ++ lines_of request.endpoint request.json))
    ∙ ap (λ l. (echo request.time request.json ∷ echoes requests, l))
        (append_assoc printed (lines_of request.endpoint request.json) (bodies requests))
