-- ===== src/Tests/Services.antt =====
-- Runs of the mock services, of the audit query and of the credential stuffing.
use Prim.Native.String.{◌++◌ as append}
use d_ai_api_sec.Prelude.{none, ◌≡◌, refl, String, List, [], ◌∷◌, ◌++◌, length}
use d_ai_api_sec.Prelude.Int.{pos}
use d_ai_api_sec.Json.{Json, null, text, integer, end}
use d_ai_api_sec.Errors.{timeout_error, Result, ok, err, http_error, type_error, value_error}
use d_ai_api_sec.Float.{Float, nought, dec}
use d_ai_api_sec.MockServices.{
  LoginRequest, Claims, login, OrderRequest, orders, checkout, serve, accept,
}
use d_ai_api_sec.ThreatEngine.Consumer.{Event, event_of}
use d_ai_api_sec.Query.{print_hits}
use d_ai_api_sec.Query.Rows.{IsReadable, hit_of, hits_of, print_hits-stops}
use d_ai_api_sec.Simulation.{Response, burst, attempt, answered, request_failed}
use d_ai_api_sec.Tests.Model.{alarm}

abbrev encode : Claims → String → Result String
encode claims secret = ok (append claims.sub secret)

abbrev guess : LoginRequest
guess = record { username = "demo_user"; password = "123456" }

guess_refused : login encode "secret" guess 7 ≡ err (http_error 401)
unfolding login
guess_refused = refl

abbrev requests : List OrderRequest
requests =
    record { endpoint = orders; json = ok (integer (pos 1)); time = nought }
    ∷ record { endpoint = checkout; json = err value_error; time = dec 1 0 }
    ∷ []

requests_served : serve requests [] ≡ (
  ok (record { status = "accepted"; received = integer (pos 1); server_time = nought })
      ∷ err value_error
      ∷ [],
  (orders, integer (pos 1)) ∷ [],
)
unfolding serve accept
requests_served = refl

abbrev fixed_3 : Float → String
fixed_3 x = "0.000"

abbrev text_of : Json → String
text_of value = "None"

abbrev seen : Event
seen = record (event_of end (text "10.0.0.1") alarm) { timestamp = text "2026-03-07T00:00:00Z" }

seen-IsReadable : IsReadable seen
seen-IsReadable = record {
  time = "2026-03-07T00:00:00Z";
  ip = "10.0.0.1";
  timestamp = refl;
  client_ip = refl;
}

print_hits-stops_example :
    (lines : List String) × (length lines ≡ 1)
    × (print_hits fixed_3 text_of (hits_of (seen ∷ []) ++ hit_of (event_of end null alarm) ∷ []) []
        ≡ (err type_error, lines))
print_hits-stops_example =
    print_hits-stops fixed_3 text_of (seen ∷ []) end null alarm [] [] (seen-IsReadable, tt) refl

abbrev denied : Response
denied = record { status_code = 401; risk_level = none }

abbrev attempts : List (String × Result Response)
attempts = ("admin", ok denied) ∷ ("root", err timeout_error) ∷ []

attempts_made : burst 0 attempts [] ≡ (ok tt, answered 0 "admin" 401 "-" ∷ request_failed 1 ∷ [])
unfolding burst attempt
attempts_made = refl
