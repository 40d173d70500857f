-- ===== src/Simulation/Detected.antt =====
-- The orders of scripts/simulate_business_logic_abuse.py at the gateway, with the ranges of
-- gateway/src/main/resources/application.yml, and what threat-engine/app/features.py sees in them.
use Prim.Native.String.{◌++◌ as append}
use mathlib.Core.Path.{subst}
use d_ai_api_sec.Prelude.{
  ℕ, ◌≡◌, refl, false, String, str_eq, eq_iff, Bool-cases, ◌++◌, ◌∙◌, Option, some, List, [], ◌∷◌,
  All, Any, ap, sym, inl, inr,
}
use d_ai_api_sec.Prelude.Int.{ℤ}
use d_ai_api_sec.Prelude.Dict.{Dict, get}
use d_ai_api_sec.Json.{Fields}
use d_ai_api_sec.Errors.{ok}
use d_ai_api_sec.Float.{Float, nought, dec, arithmetic}
use d_ai_api_sec.ThreatEngine.Signal.{RequestSignal}
use d_ai_api_sec.ThreatEngine.Anomaly.{numeric_field_anomaly}
use d_ai_api_sec.ThreatEngine.Anomaly.Detect.{InRange, anomaly-InRange}
use d_ai_api_sec.Gateway.Signal.{
  SecurityProperties, Claims, unconstrained, build_signal, numbers_in, numbers_of, baselines,
}
use d_ai_api_sec.Gateway.Accepted.{signal_of_dto}
use d_ai_api_sec.Simulation.Abuse.{normal_orders, tampered_orders}

-- `numeric-baselines`, with the keys as they are written.
abbrev pub numeric_baselines : Dict (List Float)
numeric_baselines =
    ("/api/checkout:qty", dec 1 0 ∷ dec 10 0 ∷ [])
    ∷ ("/api/checkout:price", dec 1 0 ∷ dec 10000 0 ∷ [])
    ∷ ("/api/checkout:discount_pct", dec 0 0 ∷ dec 30 0 ∷ [])
    ∷ []

-- The map that a `Map<String, List<Double>>` is bound to.
abbrev pub bound : (String → String) → Dict (List Float) → Dict (List Float)
bound bind_key [] = []
bound bind_key ((key, range) ∷ written) = (bind_key key, range) ∷ bound bind_key written

-- The rest of the configuration does not matter here.
abbrev pub configured : (String → String) → SecurityProperties → SecurityProperties
configured bind_key properties = record properties {
  numeric_baselines = bound bind_key numeric_baselines;
}

-- Spring Boot's documented binding of a map's key that is not in brackets: all characters but letters,
-- digits, `-` and `.` are removed, so that no key begins with a slash.
abbrev pub IsBinding : (String → String) → Type 0
IsBinding bind_key = (key rest : String) → ¬ (bind_key key ≡ append "/" rest)

module _ (bind_key : String → String) (properties : SecurityProperties) where
  abbrev ranges_of : Fields → Dict (List Float)
  ranges_of order = baselines (configured bind_key properties) "/api/checkout" (numbers_in order)

  unseen :
      (key rest : String)
      → IsBinding bind_key
      → key ≡ append "/" rest
      → get (bound bind_key numeric_baselines) key unconstrained ≡ unconstrained
  unseen key rest h e =
      rw (miss "/api/checkout:qty", miss "/api/checkout:price", miss "/api/checkout:discount_pct")
        refl
    where
      miss : (written : String) → str_eq (bind_key written) key ≡ false
      miss written = elim (Bool-cases (str_eq (bind_key written) key)) [
        | inl same ↦ absurd (h written rest ((eq_iff (bind_key written) key).0 same ∙ e))
        | inr other ↦ other
      ]

  -- No number of the script's orders is looked up under a key that is bound, and all lie in the
  -- unconstrained range.
  orders-InRange :
      IsBinding bind_key
      → All
          (λ order. All (InRange (ranges_of order)) (numbers_in order))
          (normal_orders ++ tampered_orders)
  unfolding arithmetic
  orders-InRange h =
      let item_id = unseen "/api/checkout:item_id" "api/checkout:item_id" h refl in
      let qty = unseen "/api/checkout:qty" "api/checkout:qty" h refl in
      let price = unseen "/api/checkout:price" "api/checkout:price" h refl in
      let coupons = unseen "/api/checkout:coupon_stack" "api/checkout:coupon_stack" h refl in
      (
        ((_, _, item_id, refl, refl), ((_, _, qty, refl, refl), ((_, _, price, refl, refl), tt))),
        (
          ((_, _, item_id, refl, refl), ((_, _, qty, refl, refl), ((_, _, price, refl, refl), tt))),
          (
            (
              (_, _, item_id, refl, refl),
              ((_, _, qty, refl, refl), ((_, _, price, refl, refl), tt)),
            ),
            (
              (
                (_, _, item_id, refl, refl),
                (
                  (_, _, qty, refl, refl),
                  ((_, _, price, refl, refl), ((_, _, coupons, refl, refl), tt)),
                ),
              ),
              (
                (
                  (_, _, item_id, refl, refl),
                  ((_, _, qty, refl, refl), ((_, _, price, refl, refl), tt)),
                ),
                (
                  (
                    (_, _, item_id, refl, refl),
                    ((_, _, qty, refl, refl), ((_, _, price, refl, refl), tt)),
                  ),
                  tt,
                ),
              ),
            ),
          ),
        ),
      )

  chosen :
      (P : Fields → Type 0) (orders : List Fields) (order : Fields)
      → All P orders
      → Any (λ o. order ≡ o) orders
      → P order
  chosen P [] order h mem = elim mem [ ]
  chosen P (o ∷ orders) order (p, ps) (inl e) = subst P (sym e) p
  chosen P (o ∷ orders) order (p, ps) (inr later) = chosen P orders order ps later

  module _ (to_lower_case : String → String) (read_map : String → Option Fields)
      (rate_10s rate_60s streak : ℕ) (ua : Option String) (claims : Option Claims) (now : ℤ)
      (hour : ℕ) (body : String) where
    -- What the engine reads of a checkout.
    abbrev pub checkout_signal : RequestSignal
    checkout_signal = signal_of_dto (
        build_signal to_lower_case read_map (configured bind_key properties) rate_10s rate_60s
          streak ua claims now hour "/api/checkout" body)

    reads_order :
        (order : Fields)
        → read_map body ≡ some order
        → (checkout_signal.numeric_fields ≡ numbers_in order)
          × (checkout_signal.baseline_numeric_ranges ≡ ranges_of order)
    unfolding build_signal
    reads_order order e = (
      ap (numbers_of to_lower_case read_map) e,
      ap
          (λ m.
            baselines (configured bind_key properties) "/api/checkout"
              (numbers_of to_lower_case read_map m))
          e,
    )

    -- As Spring Boot documents the binding of the keys, none of the configured ranges is ever found: the
    -- engine's anomaly of the gateway's signal is 0.0 for each order of the script, the tampered ones
    -- with their negative prices and quantities included, however the other parts of the signal are.
    pub orders_alike :
        (order : Fields)
        → IsBinding bind_key
        → Any (λ o. order ≡ o) (normal_orders ++ tampered_orders)
        → read_map body ≡ some order
        → numeric_field_anomaly checkout_signal ≡ ok nought
    orders_alike order binding mem e =
        let (fields, ranges) = reads_order order e in
        anomaly-InRange checkout_signal (
          subst (λ r. All (InRange r) checkout_signal.numeric_fields) (sym ranges)
            (subst (All (InRange (ranges_of order))) (sym fields) (
              chosen (λ o. All (InRange (ranges_of o)) (numbers_in o))
                (normal_orders ++ tampered_orders) order (orders-InRange binding) mem)))
