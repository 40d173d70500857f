-- ===== src/ThreatEngine/Anomaly.antt =====
-- `_numeric_field_anomaly` of threat-engine/app/features.py.
pub mod Bounds
pub mod Exact
pub mod Raises
pub mod Detect
pub mod Tampered
use d_ai_api_sec.Prelude.{ℕ, ◌≡◌, refl, String, Option, none, some, List, [], ◌∷◌, if◌then◌else◌}
use d_ai_api_sec.Prelude.Dict.{Dict, get}
use d_ai_api_sec.Errors.{Result, ok, err, value_error, ◌>>=◌}
use d_ai_api_sec.Float.{Float, sub, div, nought, dec, lt, max, min}
use d_ai_api_sec.ThreatEngine.Signal.{RequestSignal}

-- `lo, hi = …`
abbrev pub unpack : List Float → Result (Float × Float)
unpack (lo ∷ hi ∷ []) = ok (lo, hi)
unpack _ = err value_error

abbrev pub default_range : List Float
default_range = dec 0 1 ∷ dec 1 1 ∷ []

-- `max(hi - lo, 1e-6)`
unfoldable pub span : Float → Float → Float
span lo hi = max (sub hi lo) (dec 1 6)

-- `dev`, by how far a value lies outside its range, in spans.
unfoldable pub deviation : Float → Float → Float → Result Float
deviation lo hi value =
    if lt value lo
    then div (sub lo value) (span lo hi)
    else if lt hi value
    then div (sub value hi) (span lo hi)
    else ok (dec 0 1)

-- One pass of the loop.
unfoldable pub field_deviation : Dict (List Float) → String → Float → Result Float
field_deviation ranges field value = do
  bounds ← unpack (get ranges field default_range)
  deviation bounds.0 bounds.1 value

unfoldable pub worst_deviation : Dict (List Float) → Dict Float → Float → Result Float
worst_deviation ranges [] worst = ok worst
worst_deviation ranges ((field, value) ∷ fields) worst = do
  dev ← field_deviation ranges field value
  worst_deviation ranges fields (max worst dev)

abbrev pub anomaly_of : Dict (List Float) → Dict Float → Result Float
anomaly_of ranges [] = ok (dec 0 1)
anomaly_of ranges fields = do
  worst ← worst_deviation ranges fields (dec 0 1)
  ok (min worst (dec 100 1))

unfoldable pub numeric_field_anomaly : RequestSignal → Result Float
numeric_field_anomaly signal = anomaly_of signal.baseline_numeric_ranges signal.numeric_fields
