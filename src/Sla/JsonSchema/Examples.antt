-- ===== src/Sla/JsonSchema/Examples.antt =====
-- Runs of the checker and the validator, and the theorems at them.
use verdikt.Base.{Option}
use verdikt.Sla.JsonSchema.Failure.{SchemaFailure}
use verdikt.Sla.JsonSchema.Total.{validate-returns}
use verdikt.Base.{◌≡◌, refl, [], ◌∷◌, none, some, ok, throw, js, List}
use verdikt.Json.{Json, Members, object, array, null, num, str, arr, obj, bool}
use verdikt.Json.Numbers.{of_ℕ, lt, eq, is_integer}
use verdikt.Sla.JsonSchema.{describe_value, a_string}
use verdikt.Sla.JsonSchema.Assert.{assert_schema, unsupported_keyword}
use verdikt.Sla.JsonSchema.Failure.{types, described}
use verdikt.Sla.JsonSchema.Validate.{validate}
use verdikt.Base.{false}
use verdikt.Base.{Option}
use verdikt.Sla.JsonSchema.Failure.{SchemaFailure}

abbrev pub weather_schema : Json
weather_schema = obj (
    object (
      (js "type", str (js "object"))
      ∷ (js "required", arr (array (str (js "temp") ∷ [])))
      ∷ (
        js "properties",
        obj (object ((js "temp", obj (object ((js "type", str (js "number")) ∷ []))) ∷ [])),
      )
      ∷ []))

abbrev pub good_body : Json
good_body = obj (object ((js "city", str (js "Oslo")) ∷ (js "temp", num (of_ℕ 7)) ∷ []))

abbrev pub bad_body : Json
bad_body = obj (object ((js "temp", str (js "7")) ∷ []))

accepted : assert_schema weather_schema [] ≡ ok tt
unfolding assert_schema js verdikt.Base.sort_texts verdikt.Base.same_text verdikt.Base.Dict.get
accepted = refl

conforming : validate weather_schema good_body [] ≡ ok none
unfolding validate js verdikt.Base.Dict.get verdikt.Base.same_text
    verdikt.Sla.JsonSchema.matches_type verdikt.Base.sort_texts verdikt.Json.Numbers.is_finite
conforming = refl

mismatch :
    validate weather_schema bad_body []
    ≡ ok (
        some (record {
          pointer = js "/temp";
          expected = types (str (js "number") ∷ []);
          actual = described (a_string (js "7") false);
        }))
unfolding validate js describe_value verdikt.Base.Dict.get verdikt.Base.same_text
    verdikt.Sla.JsonSchema.matches_type verdikt.Base.sort_texts verdikt.Sla.JsonSchema.child
mismatch = refl

pattern_refused :
    assert_schema (obj (object ((js "pattern", str (js "a+")) ∷ []))) []
    ≡ throw (unsupported_keyword (js "pattern") [])
unfolding assert_schema js verdikt.Base.sort_texts verdikt.Base.same_text
pattern_refused = refl

validate-returns_example :
    (found : Option SchemaFailure) × (validate weather_schema bad_body [] ≡ ok found)
validate-returns_example = validate-returns weather_schema bad_body [] [] accepted
