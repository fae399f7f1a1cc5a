-- ===== src/Sla/Observation.antt =====
-- What the verifier saw of one paid call, and `assertObservation` of packages/sla/index.js. The
-- tests on JavaScript types hold by the record's types.
use verdikt.Base.{Bool, not, ◌||◌, Option, none, some, JsString, Result, ◌>>◌, throw_if}
use verdikt.Base.Dict.{Dict}
use verdikt.Json.{Json}
use verdikt.Json.Numbers.{ℤ, pos, Number, lt, lt_ℤ, of_ℕ, is_integer}
use verdikt.Sla.JsonSchema.Assert.{SchemaError}
use verdikt.Sla.JsonSchema.Failure.{SchemaFailure, ValidateError}
use verdikt.Base.{false}

pub record SlaObservation : Type 0 where
  pub status : Option Number
  pub headers : Dict JsString
  pub body : Json
  pub latency_ms : Number
  pub paid_amount : ℤ
  pub transport_error : Option JsString

-- What the engine throws.
pub data SlaError : Type 0 where
  bad_status bad_latency : Number → SlaError
  bad_paid_amount : ℤ → SlaError
  not_json : SlaError
  invalid_sla : SchemaFailure → SlaError
  validation_fault : ValidateError → SlaError
  reserved_id : SlaError
  duplicate_id : JsString → SlaError
  bad_schema : SchemaError → SlaError
  not_decimal : (id bound : JsString) → SlaError
  crossed_bounds : JsString → SlaError
  unknown_clause : SlaError

abbrev status_error : Option Number → Bool
status_error none = false
status_error (some status) = not (is_integer status) || lt status (of_ℕ 100) || lt (of_ℕ 599) status

abbrev status_value : Option Number → Number
status_value none = of_ℕ 0
status_value (some status) = status

unfoldable pub assert_observation : SlaObservation → Result SlaError (Unit {0})
assert_observation observation = do
  throw_if (status_error observation.status) (bad_status (status_value observation.status))
  throw_if (not (is_integer observation.latency_ms) || lt observation.latency_ms (of_ℕ 0))
      (bad_latency observation.latency_ms)
  throw_if (lt_ℤ observation.paid_amount (pos 0)) (bad_paid_amount observation.paid_amount)
