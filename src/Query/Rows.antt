-- ===== src/Query/Rows.antt =====
-- Which audit events scripts/query_audit_trail.py can print.
use mathlib.Core.Path.{subst}
use mathlib.Core.List.{append_assoc, append-nil}
use d_ai_api_sec.Prelude.{suc, ◌≡◌, refl, String, List, [], ◌∷◌, ◌++◌, length, All, ap, sym, ◌∙◌}
use d_ai_api_sec.Json.{Json, null, number, text, object, Fields, end, field, get_or}
use d_ai_api_sec.Errors.{ok, err, type_error}
use d_ai_api_sec.Float.{Float}
use d_ai_api_sec.ThreatEngine.Model.{ScoreResult}
use d_ai_api_sec.ThreatEngine.Consumer.{Event, event_of}
use d_ai_api_sec.Query.{line, hit_line, print_hits}

-- The document that the indexer stores for an event of the consumer.
abbrev pub document : Event → Fields
document e = field "request_id" e.request_id (
    field "client_ip" e.client_ip (
      field "endpoint" e.endpoint (
        field "method" e.method (
          field "timestamp" e.timestamp (
            field "isolation_score" (number e.isolation_score) (
              field "xgboost_score" (number e.xgboost_score) (
                field "final_score" (number e.final_score)
                  (field "decision" (text e.decision) (field "reason" (text e.reason) end)))))))))

abbrev pub hit_of : Event → Json
hit_of e = object (field "_source" (object (document e)) end)

abbrev pub hits_of : List Event → List Json
hits_of [] = []
hits_of (e ∷ events) = hit_of e ∷ hits_of events

-- An event with a text for its time and its client.
pub record IsReadable (e : Event) : Type 0 where
  pub time : String
  pub ip : String
  pub timestamp : e.timestamp ≡ text time
  pub client_ip : e.client_ip ≡ text ip

module _ (fixed_3 : Float → String) (text_of : Json → String) where
  text_line :
      (e : Event) (time ip : String)
      → (l : String) × (hit_line fixed_3 text_of
            (hit_of (record e { timestamp = text time; client_ip = text ip }))
          ≡ ok l)
  unfolding hit_line line
  text_line e time ip = (_, refl)

  readable_line :
      (e : Event) → IsReadable e → (l : String) × (hit_line fixed_3 text_of (hit_of e) ≡ ok l)
  readable_line e h =
      subst (λ (d : Event). (l : String) × (hit_line fixed_3 text_of (hit_of d) ≡ ok l))
        (λ i. record e { timestamp = sym h.timestamp i; client_ip = sym h.client_ip i })
        (text_line e h.time h.ip)

  readable_lines :
      (events : List Event) (printed : List String) (rest : List Json)
      → All IsReadable events
      → (lines : List String) × (length lines ≡ length events)
        × (print_hits fixed_3 text_of (hits_of events ++ rest) printed
            ≡ print_hits fixed_3 text_of rest (printed ++ lines))
  unfolding print_hits
  readable_lines [] printed rest h =
      ([], refl, ap (print_hits fixed_3 text_of rest) (sym (append-nil printed)))
  readable_lines (e ∷ events) printed rest (h, hs) =
      let (l, k) = readable_line e h in
      let (ls, n, run) = readable_lines events (printed ++ l ∷ []) rest hs in
      (
        l ∷ ls,
        ap suc n,
        rw k (run ∙ ap (print_hits fixed_3 text_of rest) (append_assoc printed (l ∷ []) ls)),
      )

  null_line :
      (e : Event) → e.timestamp ≡ null → hit_line fixed_3 text_of (hit_of e) ≡ err type_error
  unfolding hit_line line
  null_line e h = rw h refl

  -- The events that have texts for their time and client are printed, one line each, up to the first
  -- event of a message without a timestamp, for which the consumer has stored a null: there the
  -- script raises `TypeError`, and nothing of what follows is printed.
  pub print_hits-stops :
      (events : List Event) (payload : Fields) (client_ip : Json) (r : ScoreResult)
      (rest : List Json) (printed : List String)
      → All IsReadable events
      → get_or payload "timestamp" null ≡ null
      → (lines : List String) × (length lines ≡ length events)
        × (print_hits fixed_3 text_of
              (hits_of events ++ hit_of (event_of payload client_ip r) ∷ rest)
              printed
            ≡ (err type_error, printed ++ lines))
  unfolding print_hits
  print_hits-stops events payload client_ip r rest printed h missing =
      let (ls, n, run) =
        readable_lines events printed (hit_of (event_of payload client_ip r) ∷ rest) h in
      (ls, n, run ∙ rw (null_line (event_of payload client_ip r) missing) refl)
