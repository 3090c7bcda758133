-- ===== src/Domain/Codec.antt =====
-- domain/telemetry_models.hpp: `fromJson` reads back what `toJson` wrote.
use aqua_regulator_server.Base.{
  ℕ, ◌<◌, ◌^◌, Bool, String, ◌≡◌, refl, List, [], ◌∷◌, Option, none, some, ok, str_eq,
  if◌then◌else◌,
}
use aqua_regulator_server.Domain.{
  TelemetryReading, reading_fields, reading_to_json, reading_from_json,
}
use aqua_regulator_server.Platform.{Json, Double}

-- The entry of a key in a list of fields.
unfoldable pub field : {J : Type 0} → String → List (String × J) → Option J
field key [] = none
field key ((k, j) ∷ fields) = if str_eq k key then some j else field key fields

-- What nlohmann::json documents of `value` and `find` on an object that has the key, with a value of the type.
pub record IsJson {J W : Type 0} (json : Json J W) : Type 0 where
  pub value_text_found :
      (fields : List (String × J)) (key default s : String)
      → field key fields ≡ some (json.text s)
      → json.value_text (json.object fields) key default ≡ ok s
  pub value_double_found :
      (fields : List (String × J)) (key : String) (default x : W)
      → field key fields ≡ some (json.double x)
      → json.value_double (json.object fields) key default ≡ ok x
  pub value_u16_found :
      (fields : List (String × J)) (key : String) (default n : ℕ)
      → field key fields ≡ some (json.natural n)
      → n < 2 ^ 16
      → json.value_u16 (json.object fields) key default ≡ ok n
  pub value_bool_found :
      (fields : List (String × J)) (key : String) (default b : Bool)
      → field key fields ≡ some (json.boolean b)
      → json.value_bool (json.object fields) key default ≡ ok b
  pub find_found :
      (fields inner : List (String × J)) (key : String)
      → field key fields ≡ some (json.object inner)
      → json.find (json.object fields) key ≡ some (json.object inner)

module _ {J W : Type 0} (json : Json J W) (law : IsJson json) (real : Double W) where
  open law use {value_text_found, value_double_found}

  -- A reading survives the way through its JSON object, all eight fields, if `value` finds the
  -- fields of an object.
  pub reading_from_json-reading_to_json :
      (r : TelemetryReading W) → reading_from_json json real (reading_to_json json r) ≡ ok r
  unfolding reading_from_json reading_to_json reading_fields field
  reading_from_json-reading_to_json r =
      let fields = reading_fields json r in
      rw (
        value_text_found fields "label" "" r.label refl,
        value_text_found fields "timestamp" "" r.timestamp refl,
        value_double_found fields "temperature" real.nought r.temperature refl,
        value_double_found fields "humidity" real.nought r.humidity refl,
        value_double_found fields "light" real.nought r.light refl,
        value_double_found fields "soil" real.nought r.soil refl,
        value_double_found fields "gas" real.nought r.gas refl,
        value_double_found fields "raindrop" real.nought r.raindrop refl,
      )
