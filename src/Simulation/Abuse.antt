-- ===== src/Simulation/Abuse.antt =====
-- scripts/simulate_business_logic_abuse.py: ordinary and tampered orders. How each request ends is a
-- parameter, numbered by the requests before it; the pauses are left out.
use Prim.Native.String.{◌++◌ as append}
use mathlib.Core.List.{append-nil, append_assoc}
use d_ai_api_sec.Prelude.{
  ℕ, suc, ◌≡◌, refl, true, String, str_eq, List, [], ◌∷◌, ◌++◌, length, map, if◌then◌else◌, ap, sym,
  ◌∙◌,
}
use d_ai_api_sec.Prelude.Int.{pos, negsuc}
use d_ai_api_sec.Prelude.Dict.{Dict}
use d_ai_api_sec.Json.{integer, number, boolean, Fields, end, field}
use d_ai_api_sec.Errors.{Result, ok}
use d_ai_api_sec.Exec.{Exec, pure, modify, ◌>>=◌, ◌>>◌, bind-ok}
use d_ai_api_sec.Float.{minus, dec}
use d_ai_api_sec.Simulation.{Response, risk_of}

abbrev pub normal_orders : List Fields
normal_orders =
    field "item_id" (integer (pos 101))
      (field "qty" (integer (pos 1)) (field "price" (number (dec 2999 2)) end))
    ∷ field "item_id" (integer (pos 205))
        (field "qty" (integer (pos 2)) (field "price" (number (dec 1450 2)) end))
    ∷ field "item_id" (integer (pos 310))
        (field "qty" (integer (pos 1)) (field "price" (number (dec 8900 2)) end))
    ∷ []

abbrev pub tampered_orders : List Fields
tampered_orders =
    field "item_id" (integer (pos 101)) (
      field "qty" (integer (negsuc 4)) (
        field "price" (number (dec 1 2))
          (field "coupon_stack" (integer (pos 12)) (field "admin_override" (boolean true) end))))
    ∷ field "item_id" (integer (pos 205)) (
        field "qty" (integer (pos 999))
          (field "price" (number (dec 0 2)) (field "internal_test_mode" (boolean true) end)))
    ∷ field "item_id" (integer (pos 310)) (
        field "qty" (integer (pos 1))
          (field "price" (number (minus (dec 8900 2))) (field "refund_now" (boolean true) end)))
    ∷ []

pub record Post : Type 0 where
  pub url : String
  pub json : Fields
  pub headers : Dict String

pub data Line : Type 0 where
  banner : String → Line
  answered : String → ℕ → Fields → ℕ → String → Line

-- The requests sent and the lines printed, oldest first.
pub record Run : Type 0 where
  pub posted : List Post
  pub printed : List Line

abbrev pub headers_of : String → Dict String
headers_of token = if str_eq token "" then [] else ("Authorization", append "Bearer " token) ∷ []

abbrev pub post_of : String → String → Fields → Post
post_of target token order = record {
  url = append target "/api/checkout";
  json = order;
  headers = headers_of token;
}

abbrev pub print : Line → Exec Run Unit
print l = modify (λ run. record run { printed = run.printed ++ l ∷ [] })

module _ (client : ℕ → Post → Result Response) where
  abbrev pub post : Post → Exec Run Response
  post p run = (client (length run.posted) p, record run { posted = run.posted ++ p ∷ [] })

  -- The loop, from the order of number i on.
  unfoldable pub send_from : String → String → String → ℕ → List Fields → Exec Run Unit
  send_from target token label i [] = pure tt
  send_from target token label i (order ∷ orders) = do
    resp ← post (post_of target token order)
    print (answered label i order resp.status_code (risk_of resp.risk_level))
    send_from target token label (suc i) orders

  unfoldable pub send_batch : String → String → List Fields → String → Exec Run Unit
  send_batch target token orders label = send_from target token label 0 orders

  unfoldable pub main : String → String → Exec Run Unit
  main target token = do
    print (banner "--- sending normal traffic (should ALLOW) ---")
    send_batch target token normal_orders "normal"
    print (banner "\n--- sending tampered traffic (should CHALLENGE/BLOCK) ---")
    send_batch target token tampered_orders "tampered"

  -- Every request gets an answer, whatever its status is.
  abbrev pub IsAnswering : Type 0
  IsAnswering = (n : ℕ) (p : Post) → (r : Response) × (client n p ≡ ok r)

  send_from-posts :
      (target token label : String) (i : ℕ) (orders : List Fields) (run : Run)
      → IsAnswering
      → (run' : Run) × (send_from target token label i orders run ≡ (ok tt, run'))
        × (run'.posted ≡ run.posted ++ map (post_of target token) orders)
  unfolding send_from
  send_from-posts target token label i [] run h = (run, refl, sym (append-nil run.posted))
  send_from-posts target token label i (order ∷ orders) run h =
      let p = post_of target token order in
      let (resp, e) = h (length run.posted) p in
      let after : Run = record {
        posted = run.posted ++ p ∷ [];
        printed =
            run.printed ++ answered label i order resp.status_code (risk_of resp.risk_level) ∷ [];
      } in
      let (run', k, sent) = send_from-posts target token label (suc i) orders after h in
      (run', rw e k, sent ∙ append_assoc run.posted (p ∷ []) (map (post_of target token) orders))

  -- If every request is answered, with whatever status, a run of the script posts exactly its six
  -- orders to the checkout, the ordinary ones first, in their order, each with the token.
  main_posts :
      (target token : String) (run : Run)
      → IsAnswering
      → (run' : Run) × (main target token run ≡ (ok tt, run'))
        × (run'.posted
            ≡ run.posted ++ map (post_of target token) (normal_orders ++ tampered_orders))
  unfolding main send_batch
  main_posts target token run h =
      let first : Run = record run {
        printed = run.printed ++ banner "--- sending normal traffic (should ALLOW) ---" ∷ [];
      } in
      let (middle, e, sent) = send_from-posts target token "normal" 0 normal_orders first h in
      let second : Run = record middle {
        printed =
            middle.printed
            ++ banner "\n--- sending tampered traffic (should CHALLENGE/BLOCK) ---" ∷ [];
      } in
      let (run', k, more) = send_from-posts target token "tampered" 0 tampered_orders second h in
      (
        run',
        bind-ok (send_batch target token normal_orders "normal")
              (λ _.
                print (banner "\n--- sending tampered traffic (should CHALLENGE/BLOCK) ---")
                >> send_batch target token tampered_orders "tampered")
              first e
            ∙ k,
        more
            ∙ ap (λ l. l ++ map (post_of target token) tampered_orders) sent
            ∙ append_assoc run.posted (map (post_of target token) normal_orders)
                (map (post_of target token) tampered_orders),
      )
