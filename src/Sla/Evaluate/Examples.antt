-- ===== src/Sla/Evaluate/Examples.antt =====
-- Runs of the engine, and the theorems at them.
use verdikt.Base.{All, map, ◌↔◌, true}
use verdikt.Json.Numbers.{lt}
use verdikt.Sla.Observation.{assert_observation}
use verdikt.Sla.Clauses.{SlaClause, id_of, delivery_clause_id}
use verdikt.Sla.Document.Checked.{IsSound, Fresh, assert_sla_document-IsSound}
use verdikt.Sla.Evaluate.{SlaEvaluation}
use verdikt.Sla.Evaluate.Verdict.{Satisfied, evaluate-returns, evaluate-pass_iff, evaluate-down_iff}
use verdikt.Base.{◌≡◌, refl, [], ◌∷◌, none, some, ok, throw, js, List, ℕ}
use verdikt.Json.{Json, Members, object, array, null, num, str, arr, obj, bool}
use verdikt.Json.Numbers.{of_ℕ, pos}
use verdikt.Sla.Observation.{SlaObservation}
use verdikt.Sla.Document.{assert_sla_document}
use verdikt.Sla.Clauses.{latency, price_range}
use verdikt.Sla.Evaluate.{evaluate, pass, down}

abbrev pub sample_sla : Json
sample_sla = obj (
    object (
      (js "version", num (of_ℕ 1))
      ∷ (
        js "clauses",
        arr (
            array (
              obj (
                object (
                  (js "id", str (js "fast"))
                  ∷ (js "type", str (js "latency"))
                  ∷ (js "maxMs", num (of_ℕ 800))
                  ∷ []))
              ∷ obj (
                  object (
                    (js "id", str (js "price"))
                    ∷ (js "type", str (js "priceRange"))
                    ∷ (js "minMinorUnits", str (js "0"))
                    ∷ (js "maxMinorUnits", str (js "2500"))
                    ∷ (js "asset", str (js "USDC"))
                    ∷ []))
              ∷ [])),
      )
      ∷ []))

abbrev pub seen : ℕ → ℕ → SlaObservation
seen status latency_ms = record {
  status = some (of_ℕ status);
  headers = [];
  body = null;
  latency_ms = of_ℕ latency_ms;
  paid_amount = pos 2500;
  transport_error = none;
}

sample_clauses :
    assert_sla_document sample_sla
    ≡ ok (latency (js "fast") (of_ℕ 800) ∷ price_range (js "price") 0 2500 (js "USDC") ∷ [])
unfolding assert_sla_document js verdikt.Sla.JsonSchema.Validate.validate
    verdikt.Sla.MetaSchema.meta_schema verdikt.Base.Dict.get verdikt.Base.same_text
    verdikt.Sla.JsonSchema.matches_type verdikt.Base.sort_texts verdikt.Json.Numbers.lt
    verdikt.Json.Numbers.is_integer verdikt.Sla.JsonSchema.Validate.same_json
    verdikt.Json.Numbers.eq verdikt.Sla.Clauses.id_of verdikt.Sla.Clauses.delivery_clause_id
sample_clauses = refl

abbrev pub the_clauses : List SlaClause
the_clauses = latency (js "fast") (of_ℕ 800) ∷ price_range (js "price") 0 2500 (js "USDC") ∷ []

abbrev lost : SlaObservation
lost = record {
  status = none;
  headers = [];
  body = null;
  latency_ms = of_ℕ 3000;
  paid_amount = pos 2500;
  transport_error = some (js "timeout");
}

valid_seen : assert_observation (seen 200 750) ≡ ok tt
unfolding assert_observation verdikt.Json.Numbers.is_integer lt
valid_seen = refl

evaluate-returns_example : (e : SlaEvaluation) × (evaluate sample_sla (seen 200 750) ≡ ok e)
evaluate-returns_example =
    evaluate-returns sample_sla (seen 200 750) the_clauses valid_seen sample_clauses

evaluate-pass_iff_example :
    (evaluate-returns_example.0.outcome ≡ pass)
    ↔ ((lt (of_ℕ 200) (of_ℕ 500) ≡ true) × All (Satisfied (seen 200 750)) the_clauses)
evaluate-pass_iff_example =
    evaluate-pass_iff sample_sla (seen 200 750) evaluate-returns_example.0 the_clauses (of_ℕ 200)
      evaluate-returns_example.1 sample_clauses refl

evaluate-down_iff_example :
    (evaluate-returns_example.0.outcome ≡ down) ↔ ((seen 200 750).status ≡ none)
evaluate-down_iff_example =
    evaluate-down_iff sample_sla (seen 200 750) evaluate-returns_example.0 the_clauses
      evaluate-returns_example.1 sample_clauses

assert_sla_document-IsSound_example : All IsSound the_clauses × Fresh [] (map id_of the_clauses)
assert_sla_document-IsSound_example =
    assert_sla_document-IsSound sample_sla the_clauses sample_clauses
