-- ===== src/Sla/Aggregate.antt =====
-- packages/sla/aggregate.js: the reputation ratios. An outcome is a text, as it comes.
pub mod Ratios
mod Examples
use verdikt.Base.{
  ℕ, zero, suc, ◌+◌, ◌*◌, ◌/◌, Bool, ◌||◌, List, [], ◌∷◌, Option, none, some, JsString, Result, ok,
  throw, ◌>>=◌, ◌==◌, same_text, if◌then◌else◌, js,
}
use verdikt.Base.{false}

abbrev pub score_scale : ℕ
score_scale = 1000

abbrev pub no_data_score : ℕ
no_data_score = score_scale

-- A bare outcome, or an object with one, which may be missing.
pub data Entry : Type 0 where
  bare : JsString → Entry
  wrapped : Option JsString → Entry

abbrev pub outcome_of : Entry → Option JsString
outcome_of (bare s) = some s
outcome_of (wrapped o) = o

pub data AggregateError : Type 0 where
  unknown_outcome : Option JsString → AggregateError

pub record Counts : Type 0 where
  pub pass : ℕ
  pub fail : ℕ
  pub down : ℕ

pub record ReputationScores : Type 0 where
  pub conformance : ℕ
  pub availability : ℕ
  pub counts : Counts
  pub total : ℕ

abbrev pub is : Option JsString → JsString → Bool
is none t = false
is (some s) t = same_text s t

-- The loop of `aggregateWindow`.
unfoldable pub tally : Counts → List Entry → Result AggregateError Counts
tally c [] = ok c
tally c (entry ∷ rest) =
    let passed = tally (record c { pass = c.pass + 1 }) rest in
    let failed = tally (record c { fail = c.fail + 1 }) rest in
    let downed = tally (record c { down = c.down + 1 }) rest in
    if is (outcome_of entry) (js "PASS")
    then passed
    else if is (outcome_of entry) (js "FAIL")
    then failed
    else if is (outcome_of entry) (js "DOWN")
    then downed
    else throw (unknown_outcome (outcome_of entry))

-- `Math.floor((part * SCORE_SCALE) / whole)`, and full marks where nothing is known.
unfoldable pub ratio : ℕ → ℕ → ℕ
ratio part whole = if whole == 0 then no_data_score else part * score_scale / whole

unfoldable pub scores_of : Counts → ReputationScores
unfolding ratio
scores_of c =
    let answered = c.pass + c.fail in
    let total = answered + c.down in
    record {
      conformance = ratio c.pass answered;
      availability = ratio answered total;
      counts = c;
      total = total;
    }

abbrev pub no_verdicts : Counts
no_verdicts = record { pass = 0; fail = 0; down = 0 }

unfoldable pub aggregate_window : List Entry → Result AggregateError ReputationScores
unfolding tally scores_of
aggregate_window verdicts = do c ← tally no_verdicts verdicts; ok (scores_of c)

pub record SemanticCounts : Type 0 where
  pub met : ℕ
  pub breach : ℕ
  pub undecided : ℕ

pub record SemanticScore : Type 0 where
  pub semantic_conformance : ℕ
  pub counts : SemanticCounts
  pub decided : ℕ

-- The loop of `aggregateSemantic`.
unfoldable pub tally_semantic : SemanticCounts → List Entry → Result AggregateError SemanticCounts
tally_semantic c [] = ok c
tally_semantic c (entry ∷ rest) =
    let outcome = outcome_of entry in
    let kept = tally_semantic (record c { met = c.met + 1 }) rest in
    let broken = tally_semantic (record c { breach = c.breach + 1 }) rest in
    let open_yet = tally_semantic (record c { undecided = c.undecided + 1 }) rest in
    if is outcome (js "MET")
    then kept
    else if is outcome (js "BREACH")
    then broken
    else if is outcome (js "OPEN") || is outcome (js "UNDETERMINED") || is outcome (js "CANCELLED")
    then open_yet
    else throw (unknown_outcome outcome)

unfoldable pub semantic_scores_of : SemanticCounts → SemanticScore
unfolding ratio
semantic_scores_of c =
    let decided = c.met + c.breach in
    record { semantic_conformance = ratio c.met decided; counts = c; decided = decided }

unfoldable pub aggregate_semantic : List Entry → Result AggregateError SemanticScore
unfolding tally_semantic semantic_scores_of
aggregate_semantic settlements = do
  c ← tally_semantic (record { met = 0; breach = 0; undecided = 0 }) settlements
  ok (semantic_scores_of c)
