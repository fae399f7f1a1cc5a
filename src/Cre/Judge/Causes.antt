-- ===== src/Cre/Judge/Causes.antt =====
-- What a judgement rests on.
use verdikt.Base.{
  some-injective, ◌≡◌, refl, sym, ap, ◌∙◌, false, List, [], ◌∷◌, Option, none, some, JsString,
  Result, ok, throw, >>=-eq-ok, >>-eq-ok, ok-injective, Bool-cases, inl, inr, ◌⊎◌, All, arith,
}
use verdikt.Json.{Json}
use verdikt.Json.Numbers.{Number, lt, of_ℕ}
use verdikt.Sla.Observation.{SlaObservation, SlaError, assert_observation}
use verdikt.Sla.Clauses.{SlaClause}
use verdikt.Sla.Document.{parse_sla, checked, assert_sla_document}
use verdikt.Sla.Evaluate.{fail, SlaEvaluation, evaluate, evaluate_status_only, status_only}
use verdikt.Sla.Evaluate.Verdict.{Satisfied, evaluate-pass_iff, evaluate-down_iff}
use verdikt.Cre.Judge.{
  sla_unusable, sla_unreadable, sla_empty, JudgementMode, FallbackReason, Judgement, refused,
  refusal, fallback, judgement_of, judge, judge_delivered, evaluate_text,
}

fallback-returns :
    (reason : FallbackReason) (seen : SlaObservation)
    → assert_observation seen ≡ ok tt
    → (j : Judgement) × (fallback reason seen ≡ ok j)
unfolding evaluate_status_only
fallback-returns reason seen h = (
  record {
    mode = JudgementMode.status_only;
    outcome = status_only seen.status;
    clauses = [];
    fallback_reason = some reason;
  },
  rw h refl,
)

judgement_of-returns :
    (r : Result SlaError SlaEvaluation) (seen : SlaObservation)
    → assert_observation seen ≡ ok tt
    → (j : Judgement) × (judgement_of r seen ≡ ok j)
judgement_of-returns (ok e) seen h = (_, refl)
judgement_of-returns (throw e) seen h = fallback-returns _ seen h

module _ (parse_json : JsString → Option Json) where
  judge_delivered-returns :
      (text : Option JsString) (seen : SlaObservation)
      → assert_observation seen ≡ ok tt
      → (j : Judgement) × (judge_delivered parse_json text seen ≡ ok j)
  judge_delivered-returns none seen h = fallback-returns _ seen h
  judge_delivered-returns (some []) seen h = fallback-returns _ seen h
  judge_delivered-returns (some (c ∷ cs)) seen h = judgement_of-returns _ seen h

  -- For a valid observation `judge` returns a judgement, whatever the text of the SLA is.
  pub judge-returns :
      (text : Option JsString) (seen : SlaObservation)
      → assert_observation seen ≡ ok tt
      → (j : Judgement) × (judge parse_json text seen ≡ ok j)
  unfolding judge
  judge-returns text seen h = elim (Bool-cases (refused seen.status)) [
    | inl e ↦ (refusal text, rw e refl)
    | inr e ↦ let (j, made) = judge_delivered-returns text seen h in (j, rw e made)
  ]

  -- What justifies a verdict of FAIL: a server error, or that the text of the SLA is a valid
  -- document of which a clause does not hold.
  abbrev pub Cause : Option JsString → SlaObservation → Type 0
  Cause sla_text seen =
      (status : Number) × (seen.status ≡ some status)
      × ((lt status (of_ℕ 500) ≡ false)
          ⊎ ((text : JsString) × (document : Json) × (cs : List SlaClause) × (sla_text ≡ some text)
              × (parse_json text ≡ some document)
              × (assert_sla_document document ≡ ok cs)
              × ¬ (All (Satisfied seen) cs)))

  status_only-fail :
      (o : Option Number)
      → status_only o ≡ some fail
      → (status : Number) × (o ≡ some status) × (lt status (of_ℕ 500) ≡ false)
  status_only-fail none h = cc
  status_only-fail (some status) h = (status, refl, ground arith)

  fallback-fail :
      (sla_text : Option JsString) (reason : FallbackReason) (seen : SlaObservation) (j : Judgement)
      → fallback reason seen ≡ ok j
      → j.outcome ≡ some fail
      → Cause sla_text seen
  unfolding evaluate_status_only
  fallback-fail sla_text reason seen j h f =
      let (o, got, made) = >>=-eq-ok (evaluate_status_only seen) _ h in
      let (_, out) = >>-eq-ok (assert_observation seen) _ got in
      let (status, s, big) =
        status_only-fail seen.status
          (ok-injective out ∙ ap (λ x. x.outcome) (ok-injective made) ∙ f) in
      (status, s, inl big)

  checked-document :
      (o : Option Json) (document : Json)
      → checked o ≡ ok document
      → (cs : List SlaClause) × (o ≡ some document) × (assert_sla_document document ≡ ok cs)
  checked-document none document h = cc
  checked-document (some parsed) document h =
      let (cs, got, made) = >>=-eq-ok (assert_sla_document parsed) _ h in
      (cs, ap some (ok-injective made), ap assert_sla_document (sym (ok-injective made)) ∙ got)

  evaluate_text-parts :
      (text : JsString) (seen : SlaObservation) (e : SlaEvaluation)
      → evaluate_text parse_json text seen ≡ ok e
      → (document : Json) × (cs : List SlaClause) × (parse_json text ≡ some document)
        × (assert_sla_document document ≡ ok cs)
        × (evaluate document seen ≡ ok e)
  unfolding parse_sla
  evaluate_text-parts text seen e h =
      let (document, read, made) = >>=-eq-ok (parse_sla parse_json text) _ h in
      let (cs, parsed, sound) = checked-document (parse_json text) document read in
      (document, cs, parsed, sound, made)

  failed-Cause :
      (text : JsString) (document : Json) (seen : SlaObservation) (e : SlaEvaluation)
      (cs : List SlaClause) (o : Option Number)
      → evaluate document seen ≡ ok e
      → parse_json text ≡ some document
      → assert_sla_document document ≡ ok cs
      → seen.status ≡ o
      → e.outcome ≡ fail
      → Cause (some text) seen
  failed-Cause text document seen e cs none h p a s f =
      absurd (let d = (evaluate-down_iff document seen e cs h a).1 s in cc)
  failed-Cause text document seen e cs (some status) h p a s f = (
    status,
    s,
    elim (Bool-cases (lt status (of_ℕ 500))) [
      | inl small ↦ inr (
        text,
        document,
        cs,
        refl,
        p,
        a,
        λ all. let v = (evaluate-pass_iff document seen e cs status h a s).1 (small, all) in cc,
      )
      | inr big ↦ inl big
    ],
  )

  judgement_of-fail :
      (text : JsString) (seen : SlaObservation) (r : Result SlaError SlaEvaluation) (j : Judgement)
      → evaluate_text parse_json text seen ≡ r
      → judgement_of r seen ≡ ok j
      → j.outcome ≡ some fail
      → Cause (some text) seen
  judgement_of-fail text seen (ok e) j h made f =
      let (document, cs, parsed, sound, run) = evaluate_text-parts text seen e h in
      failed-Cause text document seen e cs seen.status run parsed sound refl
        (some-injective (ap (λ x. x.outcome) (ok-injective made) ∙ f))
  judgement_of-fail text seen (throw fault) j h made f =
      fallback-fail (some text) (sla_unusable fault) seen j made f

  judge_delivered-fail :
      (text : Option JsString) (seen : SlaObservation) (j : Judgement)
      → judge_delivered parse_json text seen ≡ ok j
      → j.outcome ≡ some fail
      → Cause text seen
  judge_delivered-fail none seen j h f = fallback-fail none sla_unreadable seen j h f
  judge_delivered-fail (some []) seen j h f = fallback-fail (some []) sla_empty seen j h f
  judge_delivered-fail (some (c ∷ cs)) seen j h f =
      judgement_of-fail (c ∷ cs) seen (evaluate_text parse_json (c ∷ cs) seen) j refl h f

  -- A judgement whose outcome is FAIL has a cause: the response came with a status of 500 or more,
  -- or the text of the SLA parses to a valid document that declares a clause which does not hold of
  -- what was seen. The status is never the 402 of a refused payment.
  pub judge-fail-Cause :
      (text : Option JsString) (seen : SlaObservation) (j : Judgement)
      → judge parse_json text seen ≡ ok j
      → j.outcome ≡ some fail
      → Cause text seen × (refused seen.status ≡ false)
  unfolding judge
  judge-fail-Cause text seen j h f = elim (Bool-cases (refused seen.status)) [
    | inl e ↦ let h' = rw e at h in absurd (let o = ap (λ x. x.outcome) (ok-injective h') in cc)
    | inr e ↦ (judge_delivered-fail text seen j (rw e at h) f, e)
  ]
