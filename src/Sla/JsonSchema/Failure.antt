-- ===== src/Sla/JsonSchema/Failure.antt =====
-- What `validate` of packages/sla/jsonschema.js reports, and how a check hands on to the next.
use verdikt.Base.{ℕ, List, Option, none, some, JsString, Result, ok, throw}
use verdikt.Json.{Json}
use verdikt.Json.Numbers.{Number}
use verdikt.Sla.JsonSchema.{Description}

pub data Expected : Type 0 where
  types : List Json → Expected
  constant : Json → Expected
  one_of : List Json → Expected
  at_least at_most : Number → Expected
  length_at_least length_at_most : Number → Expected
  items_at_least items_at_most : Number → Expected
  present no_such_member : Expected
  exactly_one_of : ℕ → Expected

pub data Actual : Type 0 where
  described : Description → Actual
  number : Number → Actual
  length_of items_of : ℕ → Actual
  absent : Actual
  matched : ℕ → Actual

pub record SchemaFailure : Type 0 where
  pub pointer : JsString
  pub expected : Expected
  pub actual : Actual

-- A schema that is no object is a fault of the caller, which checks schemas before.
pub data ValidateError : Type 0 where
  non_object_schema : ValidateError
  out_of_fuel : ValidateError

abbrev pub Finding : Type 0
Finding = Result ValidateError (Option SchemaFailure)

abbrev pub fail : JsString → Expected → Actual → Option SchemaFailure
fail pointer expected actual =
    some (record { pointer = pointer; expected = expected; actual = actual })

-- `if (failure) return failure;`
infixr 20 ◌else_check◌
abbrev pub ◌else_check◌ : Finding → Finding → Finding
ok none else_check later = later
ok (some failure) else_check later = ok (some failure)
throw e else_check later = throw e
