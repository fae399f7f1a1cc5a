-- ===== src/Cre/Judge/Examples.antt =====
-- Runs of the judgement, and the theorems at them.
use verdikt.Base.{◌≡◌, refl, false, [], Option, none, some, JsString, ok, js, ℕ}
use verdikt.Json.{Json, null}
use verdikt.Json.Numbers.{of_ℕ, pos}
use verdikt.Sla.Observation.{SlaObservation, assert_observation}
use verdikt.Sla.Evaluate.{fail, evaluate_status_only}
use verdikt.Cre.Judge.{Judgement, judge, refused, status_only, sla_empty}
use verdikt.Cre.Judge.Causes.{judge-returns, judge-fail-Cause, Cause}

abbrev answered_with : ℕ → SlaObservation
answered_with status = record {
  status = some (of_ℕ status);
  headers = [];
  body = null;
  latency_ms = of_ℕ 20;
  paid_amount = pos 10;
  transport_error = none;
}

abbrev no_parser : JsString → Option Json
no_parser text = none

abbrev server_error : Judgement
server_error = record {
  mode = status_only;
  outcome = some fail;
  clauses = [];
  fallback_reason = some sla_empty;
}

judged_503 : judge no_parser (some []) (answered_with 503) ≡ ok server_error
unfolding judge verdikt.Json.Numbers.eq evaluate_status_only assert_observation
    verdikt.Json.Numbers.is_integer verdikt.Json.Numbers.lt
judged_503 = refl

valid_503 : assert_observation (answered_with 503) ≡ ok tt
unfolding assert_observation verdikt.Json.Numbers.is_integer verdikt.Json.Numbers.lt
valid_503 = refl

judge-returns_example :
    (j : Judgement) × (judge no_parser (some (js "{")) (answered_with 503) ≡ ok j)
judge-returns_example = judge-returns no_parser (some (js "{")) (answered_with 503) valid_503

judge-fail-Cause_example :
    Cause no_parser (some []) (answered_with 503) × (refused (some (of_ℕ 503)) ≡ false)
judge-fail-Cause_example =
    judge-fail-Cause no_parser (some []) (answered_with 503) server_error judged_503 refl
