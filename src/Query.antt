-- ===== src/Query.antt =====
-- scripts/query_audit_trail.py: the table of the recent decisions that are not ALLOW. The texts of
-- numbers and of other values are parameters.
pub mod Rows
use Prim.Native.String.{◌++◌ as append, count}
use d_ai_api_sec.Prelude.{
  ℕ, zero, suc, ◌+◌, ◌-◌, ◌≡◌, refl, ◌≢◌, ◌⊎◌, inl, inr, Bool, true, false, not, ◌&&◌, leb,
  if◌then◌else◌, String, str_eq, Option, none, some, List, [], ◌∷◌, ◌++◌, length, All, arith, ap,
  sym, ◌∙◌,
}
use mathlib.Core.List.{append_assoc}
use d_ai_api_sec.Prelude.Int.{ℤ, pos}
use d_ai_api_sec.Json.{
  Json, null, boolean, integer, number, text, array, object, Items, nil, cons, Fields, end, field,
  get_or, item,
}
use d_ai_api_sec.Errors.{
  Error, Result, ok, err, type_error, value_error, attribute_error, http_error, >>=-eq-ok,
}
use d_ai_api_sec.Errors as Errors
use d_ai_api_sec.Exec.{Exec, lift, modify, pure, raise, ◌>>=◌, ◌>>◌, bind-ok}
use d_ai_api_sec.Float.{Float, float, is_zero}
use d_ai_api_sec.ThreatEngine.Consumer.{Event, event_of, fields_of}
use d_ai_api_sec.ThreatEngine.Model.{ScoreResult}

abbrev pub spaces : ℕ → String
spaces zero = ""
spaces (suc n) = append " " (spaces n)

-- `f"{value:<width>s}"`: only a text has this format.
abbrev pub format_s : ℕ → Json → Result String
format_s width (text t) = ok (append t (spaces (width - count t)))
format_s width (boolean b) = err value_error
format_s width (integer n) = err value_error
format_s width (number x) = err value_error
format_s width null = err type_error
format_s width (array values) = err type_error
format_s width (object fields) = err type_error

-- `not value`
abbrev pub is_falsy : Json → Bool
is_falsy null = true
is_falsy (boolean b) = not b
is_falsy (integer (pos zero)) = true
is_falsy (number x) = is_zero x
is_falsy (text t) = str_eq t ""
is_falsy (array nil) = true
is_falsy (object end) = true
is_falsy _ = false

abbrev pub list_of : Items → List Json
list_of nil = []
list_of (cons v values) = v ∷ list_of values

-- The values that a loop visits; what else is no list fails at the latest at its first hit.
abbrev pub elements : Json → Result (List Json)
elements (array values) = ok (list_of values)
elements _ = err type_error

abbrev pub header : String
header = append "timestamp" (
    append (spaces 17) (
      append "client_ip"
        (append (spaces 7) (append "decision" (append (spaces 3) "final_score  reason")))))

abbrev pub dashes : ℕ → String
dashes zero = ""
dashes (suc n) = append "-" (dashes n)

abbrev pub rule : String
rule = dashes 100

-- `QUERY`: the decisions that are not ALLOW, the newest first.
abbrev pub query : Json
query = object (
    field "size" (integer (pos 20)) (
      field "sort" (array (cons (object (field "timestamp" (text "desc") end)) nil)) (
        field "query"
          (object (
            field "bool"
              (object (
                field "must_not"
                  (array (
                    cons (object (field "term" (object (field "decision" (text "ALLOW") end)) end))
                      nil))
                  end))
              end))
          end)))

-- `resp.raise_for_status()`
abbrev pub is_success : ℕ → Bool
is_success status = leb 200 status && leb status 299

-- The request, whose answer has a status and a body that is read as JSON.
unfoldable pub search : (String → Json → Result (ℕ × Result Json)) → String → Result Json
search post es_url =
    Errors.◌>>=◌ (post (append es_url "/api-audit-events-*/_search") query)
      λ resp. if is_success resp.0 then resp.1 else err (http_error resp.0)

module _ (fixed_3 : Float → String) (text_of : Json → String) where
  -- `f"{value:>11.3f}"`: only a number has this format.
  abbrev pub right_11 : Float → String
  right_11 x = append (spaces (11 - count (fixed_3 x))) (fixed_3 x)

  abbrev pub bit : Bool → ℤ
  bit true = pos 1
  bit false = pos 0

  abbrev pub format_f : Json → Result String
  format_f (number x) = ok (right_11 x)
  format_f (integer n) = Errors.◌>>=◌ (float n) λ x. ok (right_11 x)
  format_f (boolean b) = Errors.◌>>=◌ (float (bit b)) λ x. ok (right_11 x)
  format_f (text t) = err value_error
  format_f null = err type_error
  format_f (array values) = err type_error
  format_f (object fields) = err type_error

  abbrev pub plain : Json → String
  plain (text t) = t
  plain value = text_of value

  -- One line of the table.
  unfoldable pub line : Fields → Result String
  line src = Errors.◌>>=◌ (format_s 25 (get_or src "timestamp" (text ""))) λ timestamp.
      Errors.◌>>=◌ (format_s 15 (get_or src "client_ip" (text ""))) λ client_ip.
        Errors.◌>>=◌ (format_s 10 (get_or src "decision" (text ""))) λ decision.
          Errors.◌>>=◌ (format_f (get_or src "final_score" (integer (pos 0)))) λ final_score. ok (
            append timestamp (
              append " " (
                append client_ip (
                  append " " (
                    append decision (
                      append " " (
                        append final_score
                          (append "  " (plain (get_or src "reason" (text "")))))))))))

  -- The line of one hit.
  unfoldable pub hit_line : Json → Result String
  hit_line hit =
      Errors.◌>>=◌ (item hit "_source") λ source. Errors.◌>>=◌ (fields_of source) λ src. line src

  -- The loop over the hits: each line is printed before the next is formatted.
  unfoldable pub print_hits : List Json → Exec (List String) Unit
  print_hits [] = pure tt
  print_hits (hit ∷ hits) = do
    l ← lift (hit_line hit)
    modify (λ printed. printed ++ l ∷ [])
    print_hits hits

  abbrev pub print : String → Exec (List String) Unit
  print l = modify (λ printed. printed ++ l ∷ [])

  abbrev pub print_table : Bool → Json → Exec (List String) Unit
  print_table true hits =
      print "No BLOCK/CHALLENGE events found yet. Run an attack simulation script first."
  print_table false hits = do print header; print rule; list ← lift (elements hits); print_hits list

  -- `main`, from the answer of Elasticsearch: its JSON, or the exception of the request.
  unfoldable pub main : Result Json → Exec (List String) Unit
  main response = do
    body ← lift response
    fields ← lift (fields_of body)
    outer ← lift (fields_of (get_or fields "hits" (object end)))
    let hits = get_or outer "hits" (array nil)
    print_table (is_falsy hits) hits

  -- The whole of `main`.
  unfoldable pub run : (String → Json → Result (ℕ × Result Json)) → String → Exec (List String) Unit
  run post es_url = main (search post es_url)
