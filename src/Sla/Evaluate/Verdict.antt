-- ===== src/Sla/Evaluate/Verdict.antt =====
-- What decides the outcome of an evaluation, and that a valid document always gets one.
use verdikt.Base.{
  ◌&&◌, and_iff, ◌∙◌, ℕ, ◌≡◌, refl, ◌≤◌, true, List, [], ◌∷◌, Option, none, some, JsString, arith,
  ok, throw, All, >>=-eq-ok, >>-eq-ok, Bool-cases, ok-injective, map, ◌↔◌, every, inl, inr,
}
use verdikt.Json.{Json}
use verdikt.Json.Numbers.{ℤ, pos, negsuc, Number, lt, le, of_ℕ}
use verdikt.Sla.JsonSchema.Validate.{validate}
use verdikt.Sla.JsonSchema.Total.{validate-returns}
use verdikt.Sla.Observation.{SlaObservation, assert_observation}
use verdikt.Sla.Clauses.{
  SlaClause, schema, latency, price_range, semantic, id_of, SlaClauseResult, evaluate_clause,
  evaluate_delivery, delivery_clause_id, lift, schema_result,
}
use verdikt.Sla.Document.{assert_sla_document}
use verdikt.Sla.Document.Checked.{IsSound, assert_sla_document-IsSound}
use verdikt.Sla.Evaluate.{
  pass, down, SlaEvaluation, evaluate, evaluate_clauses, evaluate_answer, passed,
}
use verdikt.Sla.Clauses.{le_ℤ}
use verdikt.Sla.Clauses.{delivery_result}
use verdikt.Base.{subst}
use verdikt.Sla.JsonSchema.Failure.{Finding}
use verdikt.Base.{sym}
use verdikt.Base.{ap}
use verdikt.Sla.Evaluate.{judged}
use verdikt.Sla.Evaluate.{no_delivery}

-- A clause of the SLA holds of what was seen.
abbrev pub Satisfied : SlaObservation → SlaClause → Type 0
Satisfied seen (schema id s) = validate s seen.body [] ≡ ok none
Satisfied seen (latency id max_ms) = le seen.latency_ms max_ms ≡ true
Satisfied seen (price_range id low high asset) =
    (amount : ℕ) × (seen.paid_amount ≡ pos amount) × (low ≤ amount) × (amount ≤ high)
Satisfied seen (semantic id criteria) = Unit

lift-passed :
    (id : JsString) (f : Finding) (r : SlaClauseResult)
    → lift id f ≡ ok r
    → ((r.pass ≡ true) ↔ (f ≡ ok none)) × (r.id ≡ id)
lift-passed id (ok none) r h = rw (← (ok-injective h)) ((λ _. refl, λ _. refl), refl)
lift-passed id (ok (some failure)) r h = rw (← (ok-injective h)) ((λ e. cc, λ e. cc), refl)
lift-passed id (throw e) r h = cc

evaluate_clause-passed :
    (c : SlaClause) (seen : SlaObservation) (r : SlaClauseResult)
    → evaluate_clause c seen ≡ ok r
    → ((r.pass ≡ true) ↔ Satisfied seen c) × (r.id ≡ id_of c)
unfolding evaluate_clause id_of
evaluate_clause-passed (schema id s) seen r h = lift-passed id (validate s seen.body []) r h
evaluate_clause-passed (latency id max_ms) seen r h =
    rw (← (ok-injective h)) ((λ e. e, λ e. e), refl)
evaluate_clause-passed (price_range id low high asset) seen r h =
    rw (← (ok-injective h)) (price low high seen.paid_amount, refl)
  where
    price :
        (low high : ℕ) (p : ℤ)
        → ((le_ℤ (pos low) p && le_ℤ p (pos high)) ≡ true)
          ↔ ((amount : ℕ) × (p ≡ pos amount) × (low ≤ amount) × (amount ≤ high))
    price low high (pos n) =
        (λ e. (n, refl, ground arith, ground arith), λ (m, e, p, q). ground arith)
    price low high (negsuc n) = (λ e. cc, λ (m, e, p, q). cc)
evaluate_clause-passed (semantic id criteria) seen r h =
    rw (← (ok-injective h)) ((λ e. tt, λ e. refl), refl)

abbrev pub ids : List SlaClauseResult → List JsString
ids = map (λ r. r.id)

same_ids :
    (r : SlaClauseResult) (rs : List SlaClauseResult) (c : SlaClause) (cs : List SlaClause)
    → r.id ≡ id_of c
    → ids rs ≡ map id_of cs
    → ids (r ∷ rs) ≡ map id_of (c ∷ cs)
same_ids r rs c cs p q = cc

evaluate_clauses-passed :
    (cs : List SlaClause) (seen : SlaObservation) (rs : List SlaClauseResult)
    → evaluate_clauses cs seen ≡ ok rs
    → ((every passed rs ≡ true) ↔ All (Satisfied seen) cs) × (ids rs ≡ map id_of cs)
unfolding evaluate_clauses
evaluate_clauses-passed [] seen rs h = rw (← (ok-injective h)) ((λ _. tt, λ _. refl), refl)
evaluate_clauses-passed (c ∷ cs) seen rs h =
    let (r, got, h1) = >>=-eq-ok (evaluate_clause c seen) _ h in
    let (rest, later, made) = >>=-eq-ok (evaluate_clauses cs seen) _ h1 in
    let (one, id) = evaluate_clause-passed c seen r got in
    let (all, names) = evaluate_clauses-passed cs seen rest later in
    rw (← (ok-injective made))
      (and_iff r.pass (every passed rest) one all, same_ids r rest c cs id names)

evaluate_clauses-returns :
    (cs : List SlaClause) (seen : SlaObservation)
    → All IsSound cs
    → (rs : List SlaClauseResult) × (evaluate_clauses cs seen ≡ ok rs)
unfolding evaluate_clauses
evaluate_clauses-returns [] seen h = ([], refl)
evaluate_clauses-returns (c ∷ cs) seen (sound, h) =
    let (r, e) = one c sound in
    let (rs, es) = evaluate_clauses-returns cs seen h in (r ∷ rs, rw (e, es))
  where
    one : (c : SlaClause) → IsSound c → (r : SlaClauseResult) × (evaluate_clause c seen ≡ ok r)
    one (schema id s) (at, accepted) =
        let (found, e) = validate-returns s seen.body at [] accepted in
        unfold evaluate_clause in (schema_result id found, rw e)
    one (latency id max_ms) _ = unfold evaluate_clause in (_, refl)
    one (price_range id low high asset) _ = unfold evaluate_clause in (_, refl)
    one (semantic id criteria) _ = unfold evaluate_clause in (_, refl)

evaluate-parts :
    (sla : Json) (seen : SlaObservation) (e : SlaEvaluation) (cs : List SlaClause)
    (o : Option Number)
    → evaluate sla seen ≡ ok e
    → assert_sla_document sla ≡ ok cs
    → seen.status ≡ o
    → evaluate_answer o cs seen ≡ ok e
unfolding evaluate
evaluate-parts sla seen e cs o h a s =
    let (_, h1) = >>-eq-ok (assert_observation seen) _ h in
    let (cs', got, h2) = >>=-eq-ok (assert_sla_document sla) _ h1 in
    let same = ok-injective (sym got ∙ a) in
    subst (λ l. evaluate_answer o l seen ≡ ok e) same
      (subst (λ x. evaluate_answer x cs' seen ≡ ok e) s h2)

-- Of a response that came.
answered :
    (cs : List SlaClause) (seen : SlaObservation) (e : SlaEvaluation) (status : Number)
    → evaluate_answer (some status) cs seen ≡ ok e
    → (rs : List SlaClauseResult) × (evaluate_clauses cs seen ≡ ok rs)
      × (judged (evaluate_delivery seen ∷ rs) ≡ e)
answered cs seen e status h =
    let (rs, got, made) = >>=-eq-ok (evaluate_clauses cs seen) _ h in (rs, got, ok-injective made)

evaluate_answer-returns :
    (cs : List SlaClause) (seen : SlaObservation)
    → All IsSound cs
    → (o : Option Number) → (e : SlaEvaluation) × (evaluate_answer o cs seen ≡ ok e)
evaluate_answer-returns cs seen sound none = (no_delivery (evaluate_delivery seen), refl)
evaluate_answer-returns cs seen sound (some n) =
    let (rs, made) = evaluate_clauses-returns cs seen sound in
    (judged (evaluate_delivery seen ∷ rs), rw made refl)

delivered :
    (seen : SlaObservation) (o : Option Number) (status : Number)
    → seen.status ≡ o
    → o ≡ some status
    → (evaluate_delivery seen).pass ≡ lt status (of_ℕ 500)
delivered seen o status s e = ap (λ x. (delivery_result x seen.transport_error).pass) (s ∙ e)

outcome-pass : (rs : List SlaClauseResult) → ((judged rs).outcome ≡ pass) ↔ (every passed rs ≡ true)
outcome-pass rs = elim (Bool-cases (every passed rs)) [
  | inl e ↦ rw e (λ _. refl, λ _. refl)
  | inr e ↦ rw e (λ h. cc, λ h. cc)
]

outcome-down : (rs : List SlaClauseResult) → (judged rs).outcome ≡ down → ⊥
outcome-down rs h = elim (Bool-cases (every passed rs)) [
  | inl e ↦ let h' = rw e at h in cc
  | inr e ↦ let h' = rw e at h in cc
]

-- A valid observation of a call to a service with a valid SLA always gets an outcome: `evaluate`
-- neither throws nor runs out of fuel.
pub evaluate-returns :
    (sla : Json) (seen : SlaObservation) (cs : List SlaClause)
    → assert_observation seen ≡ ok tt
    → assert_sla_document sla ≡ ok cs
    → (e : SlaEvaluation) × (evaluate sla seen ≡ ok e)
unfolding evaluate
evaluate-returns sla seen cs h a =
    let sound = (assert_sla_document-IsSound sla cs a).0 in
    let (e, made) = evaluate_answer-returns cs seen sound seen.status in (e, rw (h, a) made)

down-of_none :
    (cs : List SlaClause) (seen : SlaObservation) (e : SlaEvaluation) (o : Option Number)
    → evaluate_answer o cs seen ≡ ok e
    → (e.outcome ≡ down) ↔ (o ≡ none)
down-of_none cs seen e none h = rw (← (ok-injective h)) (λ _. refl, λ _. refl)
down-of_none cs seen e (some status) h =
    let (rs, got, made) = answered cs seen e status h in
    (
      λ d. absurd (outcome-down (evaluate_delivery seen ∷ rs) (ap (λ x. x.outcome) made ∙ d)),
      λ n. cc,
    )

-- An evaluation is DOWN exactly when no response came.
pub evaluate-down_iff :
    (sla : Json) (seen : SlaObservation) (e : SlaEvaluation) (cs : List SlaClause)
    → evaluate sla seen ≡ ok e
    → assert_sla_document sla ≡ ok cs
    → (e.outcome ≡ down) ↔ (seen.status ≡ none)
evaluate-down_iff sla seen e cs h a =
    down-of_none cs seen e seen.status (evaluate-parts sla seen e cs seen.status h a refl)

-- Of a response that came, the outcome is PASS exactly when its status is below 500 and every
-- declared clause holds of it.
pub evaluate-pass_iff :
    (sla : Json) (seen : SlaObservation) (e : SlaEvaluation) (cs : List SlaClause) (status : Number)
    → evaluate sla seen ≡ ok e
    → assert_sla_document sla ≡ ok cs
    → seen.status ≡ some status
    → (e.outcome ≡ pass) ↔ ((lt status (of_ℕ 500) ≡ true) × All (Satisfied seen) cs)
evaluate-pass_iff sla seen e cs status h a s =
    let (rs, got, made) =
      answered cs seen e status (evaluate-parts sla seen e cs (some status) h a s) in
    let all = (evaluate_clauses-passed cs seen rs got).0 in
    let came = delivered seen seen.status status refl s in
    let both =
      and_iff (evaluate_delivery seen).pass (every passed rs) (λ e. sym came ∙ e, λ e. came ∙ e)
        all in
    let out = outcome-pass (evaluate_delivery seen ∷ rs) in
    subst (λ x. (x.outcome ≡ pass) ↔ ((lt status (of_ℕ 500) ≡ true) × All (Satisfied seen) cs)) made
      (λ p. both.0 (out.0 p), λ q. out.1 (both.1 q))

-- Of a response that came, there is a result for the delivery and then one for each clause of the
-- SLA, in its order.
pub evaluate-ids :
    (sla : Json) (seen : SlaObservation) (e : SlaEvaluation) (cs : List SlaClause) (status : Number)
    → evaluate sla seen ≡ ok e
    → assert_sla_document sla ≡ ok cs
    → seen.status ≡ some status
    → ids e.clauses ≡ delivery_clause_id ∷ map id_of cs
evaluate-ids sla seen e cs status h a s =
    let (rs, got, made) =
      answered cs seen e status (evaluate-parts sla seen e cs (some status) h a s) in
    let names = (evaluate_clauses-passed cs seen rs got).1 in
    let first : (evaluate_delivery seen).id ≡ delivery_clause_id =
      ap (λ o. (delivery_result o seen.transport_error).id) s in
    subst (λ x. ids x.clauses ≡ delivery_clause_id ∷ map id_of cs) made
      (let step : ((evaluate_delivery seen).id ∷ ids rs) ≡ delivery_clause_id ∷ map id_of cs = cc in
        step)
