-- ===== src/Sla/Clauses.antt =====
-- packages/sla/clauses.js: the evaluators of single clauses. The texts of a result are kept as
-- data: a number is not rendered, and a text that is quoted is carried.
use verdikt.Base.{
  ℕ, Bool, true, false, not, ◌&&◌, [], ◌∷◌, ◌++◌, Option, none, some, JsString, Result, ok, throw,
  length, take, ltb, if◌then◌else◌, js,
}
use verdikt.Json.{Json}
use verdikt.Json.Numbers.{ℤ, pos, Number, lt, le, lt_ℤ, of_ℕ}
use verdikt.Sla.JsonSchema.Failure.{Expected, Actual, SchemaFailure, Finding}
use verdikt.Sla.JsonSchema.Validate.{validate}
use verdikt.Sla.Observation.{SlaObservation, SlaError, validation_fault}

-- A clause of a document that has been validated. The bounds of a price are the numbers that
-- `BigInt` reads them as.
pub data SlaClause : Type 0 where
  schema : (id : JsString) → Json → SlaClause
  latency : (id : JsString) → (max_ms : Number) → SlaClause
  price_range :
      (id : JsString) → (min_minor_units max_minor_units : ℕ) → (asset : JsString) → SlaClause
  semantic : (id criteria : JsString) → SlaClause

unfoldable pub id_of : SlaClause → JsString
id_of (schema id _) = id
id_of (latency id _) = id
id_of (price_range id _ _ _) = id
id_of (semantic id _) = id

pub data ClauseResultType : Type 0 where
  delivery schema latency price_range semantic : ClauseResultType

-- An `expected` or an `actual` text.
pub data Detail : Type 0 where
  a_response : Detail
  no_response : Option JsString → Detail
  status_below_500 : Detail
  status_was : Number → Detail
  schema_wants : JsString → Expected → Detail
  schema_found : JsString → Actual → Detail
  body_matches : Detail
  at_most_ms took_ms : Number → Detail
  price_between : ℕ → ℕ → JsString → Detail
  paid : ℤ → JsString → Detail
  promised : JsString → Detail
  not_judged_here : Detail

pub record SlaClauseResult : Type 0 where
  pub id : JsString
  pub type : ClauseResultType
  pub pass : Bool
  pub expected : Detail
  pub actual : Detail

unfoldable pub delivery_clause_id : JsString
unfolding js
delivery_clause_id = js "delivery"

abbrev pub max_criteria_in_result : ℕ
max_criteria_in_result = 200

-- `…` is 8230.
unfoldable pub truncate_criteria : JsString → JsString
truncate_criteria criteria =
    if ltb max_criteria_in_result (length criteria)
    then take max_criteria_in_result criteria ++ 8230 ∷ []
    else criteria

-- `evaluateDelivery`, by the `status` and the `transportError` of the observation.
abbrev pub delivery_result : Option Number → Option JsString → SlaClauseResult
delivery_result none transport_error = record {
  id = delivery_clause_id;
  type = ClauseResultType.delivery;
  pass = false;
  expected = a_response;
  actual = no_response transport_error;
}
delivery_result (some status) transport_error = record {
  id = delivery_clause_id;
  type = ClauseResultType.delivery;
  pass = lt status (of_ℕ 500);
  expected = status_below_500;
  actual = status_was status;
}

abbrev pub evaluate_delivery : SlaObservation → SlaClauseResult
evaluate_delivery observation = delivery_result observation.status observation.transport_error

abbrev pub schema_result : JsString → Option SchemaFailure → SlaClauseResult
schema_result id none = record {
  id = id;
  type = ClauseResultType.schema;
  pass = true;
  expected = body_matches;
  actual = body_matches;
}
schema_result id (some failure) = record {
  id = id;
  type = ClauseResultType.schema;
  pass = false;
  expected = schema_wants failure.pointer failure.expected;
  actual = schema_found failure.pointer failure.actual;
}

abbrev pub lift : JsString → Finding → Result SlaError SlaClauseResult
lift id (ok found) = ok (schema_result id found)
lift id (throw e) = throw (validation_fault e)

-- `a <= b` on bigints.
abbrev pub le_ℤ : ℤ → ℤ → Bool
le_ℤ a b = not (lt_ℤ b a)

unfoldable pub evaluate_clause : SlaClause → SlaObservation → Result SlaError SlaClauseResult
unfolding truncate_criteria
evaluate_clause (schema id s) observation = lift id (validate s observation.body [])
evaluate_clause (latency id max_ms) observation = ok (record {
  id = id;
  type = ClauseResultType.latency;
  pass = le observation.latency_ms max_ms;
  expected = at_most_ms max_ms;
  actual = took_ms observation.latency_ms;
})
evaluate_clause (price_range id low high asset) observation = ok (record {
  id = id;
  type = ClauseResultType.price_range;
  pass = le_ℤ (pos low) observation.paid_amount && le_ℤ observation.paid_amount (pos high);
  expected = price_between low high asset;
  actual = paid observation.paid_amount asset;
})
evaluate_clause (semantic id criteria) observation = ok (record {
  id = id;
  type = ClauseResultType.semantic;
  pass = true;
  expected = promised (truncate_criteria criteria);
  actual = not_judged_here;
})
