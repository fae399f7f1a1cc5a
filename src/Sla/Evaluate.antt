-- ===== src/Sla/Evaluate.antt =====
-- `evaluate` and `evaluateStatusOnly` of packages/sla/index.js.
pub mod Verdict
mod Examples
use verdikt.Base.{
  ℕ, Bool, true, false, not, ◌&&◌, ◌||◌, List, [], ◌∷◌, Option, none, some, Result, ok, throw,
  ◌>>=◌, ◌>>◌, every, if◌then◌else◌,
}
use verdikt.Json.{Json}
use verdikt.Json.Numbers.{Number, lt, of_ℕ}
use verdikt.Sla.Observation.{SlaObservation, SlaError, assert_observation}
use verdikt.Sla.Clauses.{SlaClause, SlaClauseResult, evaluate_delivery, evaluate_clause}
use verdikt.Sla.Document.{assert_sla_document}

pub data SlaOutcome : Type 0 where
  pass fail down : SlaOutcome

pub record SlaEvaluation : Type 0 where
  pub outcome : SlaOutcome
  pub clauses : List SlaClauseResult

-- `sla.clauses.map((clause) => evaluateClause(clause, observation))`
unfoldable pub evaluate_clauses :
    List SlaClause → SlaObservation → Result SlaError (List SlaClauseResult)
evaluate_clauses [] observation = ok []
evaluate_clauses (c ∷ cs) observation = do
  r ← evaluate_clause c observation
  rs ← evaluate_clauses cs observation
  ok (r ∷ rs)

abbrev pub passed : SlaClauseResult → Bool
passed r = r.pass

abbrev pub judged : List SlaClauseResult → SlaEvaluation
judged clauses = record { outcome = if every passed clauses then pass else fail; clauses = clauses }

abbrev pub no_delivery : SlaClauseResult → SlaEvaluation
no_delivery delivery = record { outcome = down; clauses = delivery ∷ [] }

-- The end of `evaluate`, by the `status` of the observation.
abbrev pub evaluate_answer :
    Option Number → List SlaClause → SlaObservation → Result SlaError SlaEvaluation
evaluate_answer none clauses observation = ok (no_delivery (evaluate_delivery observation))
evaluate_answer (some _) clauses observation = do
  results ← evaluate_clauses clauses observation
  ok (judged (evaluate_delivery observation ∷ results))

unfoldable pub evaluate : Json → SlaObservation → Result SlaError SlaEvaluation
evaluate sla observation = do
  assert_observation observation
  clauses ← assert_sla_document sla
  evaluate_answer observation.status clauses observation

abbrev pub status_only : Option Number → Option SlaOutcome
status_only none = some down
status_only (some status) =
    if not (lt status (of_ℕ 200)) && lt status (of_ℕ 300)
    then some pass
    else if not (lt status (of_ℕ 500))
    then some fail
    else none

-- Its `clauses` are always empty.
unfoldable pub evaluate_status_only : SlaObservation → Result SlaError (Option SlaOutcome)
evaluate_status_only observation = do
  assert_observation observation
  ok (status_only observation.status)
