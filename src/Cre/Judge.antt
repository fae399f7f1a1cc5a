-- ===== src/Cre/Judge.antt =====
-- cre/lib/judge.js: the judgement of one paid call. `JSON.parse` is a parameter.
pub mod Causes
pub mod Named
mod Examples
use verdikt.Base.{
  Bool, true, false, not, List, [], ◌∷◌, Option, none, some, JsString, Result, ok, throw, ◌>>=◌,
  ◌>>◌, find, is_some, if◌then◌else◌,
}
use verdikt.Base.Dict.{Dict}
use verdikt.Json.{Json, null, str}
use verdikt.Json.Numbers.{ℤ, Number, eq, of_ℕ}
use verdikt.Sla.Observation.{SlaObservation, SlaError}
use verdikt.Sla.Clauses.{SlaClauseResult}
use verdikt.Sla.Document.{parse_sla}
use verdikt.Sla.Evaluate.{SlaOutcome, SlaEvaluation, evaluate, evaluate_status_only, passed}

pub data JudgementMode : Type 0 where
  sla status_only : JudgementMode

pub data FallbackReason : Type 0 where
  payment_refused sla_unreadable sla_empty : FallbackReason
  sla_unusable : SlaError → FallbackReason

pub record Judgement : Type 0 where
  pub mode : JudgementMode
  pub outcome : Option SlaOutcome
  pub clauses : List SlaClauseResult
  pub fallback_reason : Option FallbackReason

-- `status === PAYMENT_REFUSED`
abbrev pub refused : Option Number → Bool
refused none = false
refused (some status) = eq status (of_ℕ 402)

abbrev pub usable_sla : Option JsString → Bool
usable_sla none = false
usable_sla (some []) = false
usable_sla (some (_ ∷ _)) = true

abbrev pub refusal : Option JsString → Judgement
refusal sla_text = record {
  mode = if usable_sla sla_text then sla else status_only;
  outcome = none;
  clauses = [];
  fallback_reason = some payment_refused;
}

-- `{ ...statusOnly(observation), fallbackReason }`
abbrev pub fallback : FallbackReason → SlaObservation → Result SlaError Judgement
fallback reason observation = do
  outcome ← evaluate_status_only observation
  ok (record { mode = status_only; outcome = outcome; clauses = []; fallback_reason = some reason })

-- The `try` and its `catch`.
abbrev pub judgement_of : Result SlaError SlaEvaluation → SlaObservation → Result SlaError Judgement
judgement_of (ok e) observation =
    ok
      (record { mode = sla; outcome = some e.outcome; clauses = e.clauses; fallback_reason = none })
judgement_of (throw fault) observation = fallback (sla_unusable fault) observation

abbrev pub should_write_verdict : Judgement → Bool
should_write_verdict judgement = is_some judgement.outcome

abbrev pub id_if_some : Option SlaClauseResult → Option JsString
id_if_some none = none
id_if_some (some r) = some r.id

abbrev pub first_failed : List SlaClauseResult → Option JsString
first_failed clauses = id_if_some (find (λ r. not (passed r)) clauses)

abbrev pub failed_clause_of : Judgement → Option JsString
failed_clause_of judgement = first_failed judgement.clauses

-- What the enclave saw.
pub record Seen : Type 0 where
  pub status : Option Number
  pub headers : Option (Dict JsString)
  pub body_text : Option JsString
  pub latency_ms : Number
  pub paid_amount : ℤ
  pub transport_error : Option JsString

abbrev pub headers_or_none : Option (Dict JsString) → Dict JsString
headers_or_none none = []
headers_or_none (some headers) = headers

abbrev pub non_empty : Option JsString → Option JsString
non_empty none = none
non_empty (some []) = none
non_empty (some (c ∷ cs)) = some (c ∷ cs)

abbrev pub parsed_or : JsString → Option Json → Json
parsed_or text none = str text
parsed_or text (some body) = body

module _ (parse_json : JsString → Option Json) where
  -- `evaluate(parseSla(slaText), observation)`
  abbrev pub evaluate_text : JsString → SlaObservation → Result SlaError SlaEvaluation
  evaluate_text text observation =
      parse_sla parse_json text >>= λ document. evaluate document observation

  abbrev pub judge_delivered : Option JsString → SlaObservation → Result SlaError Judgement
  judge_delivered none observation = fallback sla_unreadable observation
  judge_delivered (some []) observation = fallback sla_empty observation
  judge_delivered (some (c ∷ cs)) observation =
      judgement_of (evaluate_text (c ∷ cs) observation) observation

  unfoldable pub judge : Option JsString → SlaObservation → Result SlaError Judgement
  judge sla_text observation =
      if refused observation.status
      then ok (refusal sla_text)
      else judge_delivered sla_text observation

  abbrev pub body_of : Option JsString → Json
  body_of none = null
  body_of (some text) = parsed_or text (parse_json text)

  unfoldable pub observation_from : Seen → SlaObservation
  observation_from seen = record {
    status = seen.status;
    headers = headers_or_none seen.headers;
    body = body_of seen.body_text;
    latency_ms = seen.latency_ms;
    paid_amount = seen.paid_amount;
    transport_error = non_empty seen.transport_error;
  }
