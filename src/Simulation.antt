-- ===== src/Simulation.antt =====
-- scripts/simulate_credential_stuffing.py: the burst of logins. The random choices and how each request
-- ends are given with the attempts. The other two scripts that send traffic are below.
pub mod Abuse
pub mod Detected
pub mod Load
use d_ai_api_sec.Prelude.{
  ℕ, zero, suc, ◌≡◌, refl, String, Option, none, some, List, [], ◌∷◌, ◌++◌, length, All, ap, sym,
  ◌∙◌,
}
use mathlib.Core.List.{append-nil, append_assoc}
use d_ai_api_sec.Errors.{Result, ok, err, connection_error, timeout_error}
use d_ai_api_sec.Exec.{Exec, modify, pure, raise, ◌>>◌, bind-ok}

abbrev pub usernames : List String
usernames = "admin" ∷ "demo_user" ∷ "root" ∷ "test" ∷ "administrator" ∷ "jsmith" ∷ "support" ∷ []

abbrev pub passwords : List String
passwords =
    "123456" ∷ "password" ∷ "letmein" ∷ "qwerty123" ∷ "Passw0rd!" ∷ "welcome1"
    ∷ "correct-horse-battery-staple" ∷ []

-- The status code and the header X-Risk-Level of an answer.
pub record Response : Type 0 where
  pub status_code : ℕ
  pub risk_level : Option String

-- What is printed for the attempt of a number.
pub data Line : Type 0 where
  answered : ℕ → String → ℕ → String → Line
  request_failed : ℕ → Line

abbrev pub risk_of : Option String → String
risk_of none = "-"
risk_of (some risk) = risk

abbrev pub print_line : Line → Exec (List Line) Unit
print_line l = modify (λ printed. printed ++ l ∷ [])

-- One attempt: the failures of the connection are `httpx.HTTPError`, which is caught.
unfoldable pub attempt : String → Result Response → ℕ → Exec (List Line) Unit
attempt username (ok resp) i =
    print_line (answered i username resp.status_code (risk_of resp.risk_level))
attempt username (err connection_error) i = print_line (request_failed i)
attempt username (err timeout_error) i = print_line (request_failed i)
attempt username (err e) i = raise e

-- The loop of `main`, from the attempt i on.
unfoldable pub burst : ℕ → List (String × Result Response) → Exec (List Line) Unit
burst i [] = pure tt
burst i ((username, outcome) ∷ attempts) = do attempt username outcome i; burst (suc i) attempts

abbrev pub number_of : Line → ℕ
number_of (answered i username status risk) = i
number_of (request_failed i) = i

abbrev pub numbers : List Line → List ℕ
numbers [] = []
numbers (l ∷ lines) = number_of l ∷ numbers lines

abbrev pub range_from : ℕ → ℕ → List ℕ
range_from i zero = []
range_from i (suc n) = i ∷ range_from (suc i) n

-- A request that is answered or fails as httpx reports it.
pub data Ends : Result Response → Type 0 where
  response : (r : Response) → Ends (ok r)
  refused : Ends (err connection_error)
  timed_out : Ends (err timeout_error)

attempt_line :
    (username : String) (outcome : Result Response) (i : ℕ) (printed : List Line)
    → Ends outcome
    → (l : Line) × (number_of l ≡ i)
      × (attempt username outcome i printed ≡ (ok tt, printed ++ l ∷ []))
unfolding attempt
attempt_line username _ i printed (response r) = (_, refl, refl)
attempt_line username _ i printed refused = (request_failed i, refl, refl)
attempt_line username _ i printed timed_out = (request_failed i, refl, refl)

-- A burst in which every request is answered, refused or times out makes all its attempts: it prints
-- one line for each, numbered in order.
burst_prints :
    (i : ℕ) (attempts : List (String × Result Response)) (printed : List Line)
    → All (λ a. Ends a.1) attempts
    → (lines : List Line) × (burst i attempts printed ≡ (ok tt, printed ++ lines))
      × (numbers lines ≡ range_from i (length attempts))
unfolding burst
burst_prints i [] printed h = ([], ap (λ l. (ok tt, l)) (sym (append-nil printed)), refl)
burst_prints i ((username, outcome) ∷ attempts) printed (h, hs) =
    let (l, n, e) = attempt_line username outcome i printed h in
    let (lines, run, ns) = burst_prints (suc i) attempts (printed ++ l ∷ []) hs in
    (
      l ∷ lines,
      bind-ok (attempt username outcome i) (λ _. burst (suc i) attempts) printed e
          ∙ run
          ∙ ap (λ k. (ok tt, k)) (append_assoc printed (l ∷ []) lines),
      λ j. n j ∷ ns j,
    )
