-- ===== src/Json.antt =====
-- The values that `json.loads` returns.
use d_ai_api_sec.Prelude.{Bool, String, str_eq, Option, none, some, if◌then◌else◌}
use d_ai_api_sec.Prelude.Int.{ℤ}
use d_ai_api_sec.Errors.{Result, ok, err, key_error, type_error}
use d_ai_api_sec.Float.{Float}

mutual
  pub data Json : Type 0 where
    null : Json
    boolean : Bool → Json
    integer : ℤ → Json
    number : Float → Json
    text : String → Json
    array : Items → Json
    object : Fields → Json

  pub data Items : Type 0 where
    nil : Items
    cons : Json → Items → Items

  pub data Fields : Type 0 where
    end : Fields
    field : String → Json → Fields → Fields

abbrev pub find : String → Fields → Option Json
find k end = none
find k (field j v rest) = if str_eq j k then some v else find k rest

-- `value[key]`: a missing key and a value that is no dict raise. (A list, a text and None raise
-- `TypeError` at a text for an index.)
abbrev pub item : Json → String → Result Json
item (object fields) k = elim (find k fields) [ none ↦ err key_error | some v ↦ ok v ]
item _ k = err type_error

-- `fields.get(key, default)`
abbrev pub get_or : Fields → String → Json → Json
get_or end k default = default
get_or (field j v rest) k default = if str_eq j k then v else get_or rest k default
