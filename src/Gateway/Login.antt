-- ===== src/Gateway/Login.antt =====
-- A token from mock-services/auth-service/main.py at JwtAuthValidator, of
-- gateway/src/main/java/com/aisecfirewall/gateway/filter.
use Prim.Native.String.{◌++◌ as append, slice}
use package.text.Mathlib.TextPositions.{starts_with-append, slice-append_right, len-append}
use d_ai_api_sec.Prelude.{ℕ, ◌≡◌, refl, String, some, ap, ◌∙◌}
use d_ai_api_sec.Prelude.Int.{pos}
use d_ai_api_sec.Errors.{Result, ok}
use d_ai_api_sec.MockServices as MockServices
use d_ai_api_sec.MockServices.{Token, demo_username, demo_password, login}
use d_ai_api_sec.Gateway.Signal.{Claims}
use d_ai_api_sec.Gateway.{Setting, validate}

validate_bearer :
    {S : Type 0} (env : Setting S) (token : String)
    → validate env (some (append "Bearer " token)) ≡ env.parse_signed_claims token
unfolding validate
validate_bearer env token = rw (starts_with-append "Bearer " token) (
    ap env.parse_signed_claims (
      ap (slice (append "Bearer " token) 7) (len-append "Bearer " token)
      ∙ slice-append_right "Bearer " token))

-- What the gateway reads of the claims that are signed.
abbrev pub claims_of_token : MockServices.Claims → Claims
claims_of_token c = record { subject = some c.sub; issued_at = some (pos c.iat) }

module _ (encode : MockServices.Claims → String → Result String) (secret : String) {S : Type 0}
    (env : Setting S) where
  -- Both services have one secret: the parser of signed claims returns what the encoder has signed.
  abbrev pub IsShared : Type 0
  IsShared =
      (c : MockServices.Claims) (token : String)
      → encode c secret ≡ ok token
      → env.parse_signed_claims token ≡ some (claims_of_token c)

  -- A login with the demonstration's name and password at a time yields a token that the gateway
  -- accepts as one of that user, issued at that time, if the encoder signs these claims and the two
  -- services share the secret.
  pub login_accepted :
      (now : ℕ) (token : String)
      → IsShared
      → encode (record { sub = demo_username; iat = now }) secret ≡ ok token
      → (t : Token) × (login encode secret
            (record { username = demo_username; password = demo_password })
            now
          ≡ ok t)
        × (t.token_type ≡ "bearer")
        × (validate env (some (append "Bearer " t.access_token))
            ≡ some (record { subject = some demo_username; issued_at = some (pos now) }))
  unfolding login
  login_accepted now token shared e = (
    record { access_token = token; token_type = "bearer" },
    rw e refl,
    refl,
    validate_bearer env token ∙ shared (record { sub = demo_username; iat = now }) token e,
  )
