-- ===== src/Proxy/Paid/Examples.antt =====
-- A paid call, run, and the theorems at it.
use verdikt.Base.{
  ℕ, ◌≡◌, refl, Bool, true, false, List, [], ◌∷◌, Option, none, some, JsString, Result, ok, throw,
  js, not, ◌&&◌, ◌==◌, to_lower, same_text,
}
use verdikt.Base.Dict.{Dict, get}
use verdikt.Json.{Json}
use verdikt.Json.Numbers.{pos}
use verdikt.Sdk.Payment.{DecodedPayment}
use verdikt.Proxy.Paid.{
  VerificationResult, VerifyRequest, Fault, PaidCall, PaidReply, Paid, ProbeAnswer, verified,
  integer_text, text_or, verdict_headers, overlay, challenge_headers, accepts_of, decode_challenge,
}
use verdikt.Json.{obj, object, arr, array}
use verdikt.Sdk.Payment.{decode_payment}
use verdikt.Sdk.Payment.Signed.{Vouched}
use verdikt.Sdk.Payment.Examples.{
  sample_option, read_header, same_base64, five, text_address, some_hash, owner_recovered,
  call_data, decoded_answer, agreeing_account,
}
use verdikt.Proxy.Paid.Refund.{decode_for_router, verified-Vouched}
use verdikt.Proxy.Paid.Trace.{Traced, verified-Traced}
use verdikt.Proxy.Paid.Sent.{verdict_headers-trusted, joined, matching}

abbrev paid_call : PaidCall
paid_call = record {
  method = js "POST";
  headers = (js "x-payment", js "signed") ∷ (js "accept", js "any") ∷ [];
  body = some (1 ∷ 2 ∷ []);
  service_id = js "0x01";
  slug = js "weather";
  sla = none;
  upstream = js "https://weather.example/x";
  payment = record { name = js "x-payment"; value = js "signed" };
  judge = some (js "7", js "0x02");
  evidence = some (λ filed. false);
  evidence_filing_window_ms = 600;
  now = 1000;
}

-- The provider answers with a verdict of its own.
abbrev forged_result : VerificationResult
forged_result = record {
  outcome = some (js "FAIL");
  mode = js "normal";
  reason = none;
  clauses =
      record { id = js "c1"; type = js "latency"; pass = false; expected = js "1"; actual = js "2" }
      ∷ [];
  tx = none;
  status = some 200;
  headers = (js "x-verdikt-verdict", js "PASS") ∷ [];
  body = js "hot";
  body_truncated = false;
}

abbrev no_json : JsString → Option Json
no_json text = none

abbrev same : JsString → JsString
same text = text

abbrev answering_probe : JsString → JsString → Dict JsString → Option ProbeAnswer
answering_probe method url headers = some (record { payment_required = none; body = [] })

abbrev some_payment : JsString → List Json → Option DecodedPayment
some_payment header accepts = some (record { payer = js "0x03"; amount = pos 5 })

abbrev bytes_read : List ℕ → JsString
bytes_read bytes = bytes

abbrev some_workflow : Option (VerifyRequest → Result Fault VerificationResult)
some_workflow = some (λ request. ok forged_result)

-- These statuses admit no body.
abbrev most_responses : (status : ℕ) (headers : Dict JsString) (body : JsString) → Bool
most_responses status headers body = not (status == 204) && not (status == 304)

abbrev outcome_run : Paid
outcome_run =
    verified no_json same answering_probe some_payment bytes_read most_responses some_workflow
      paid_call (js "r1")

verified-Traced_example :
    Traced no_json same answering_probe some_payment bytes_read most_responses some_workflow
      paid_call
      (js "r1")
      outcome_run
      outcome_run.triggered
verified-Traced_example =
    verified-Traced no_json same answering_probe some_payment bytes_read most_responses
      some_workflow paid_call (js "r1")

-- The store throws: the reply is as it was, and nothing is kept.
store_throws : outcome_run.cached ≡ none
unfolding verified verdikt.Proxy.Paid.decode_challenge js
store_throws = refl

-- What an agent reads of the headers of a response, with nothing to trim.
abbrev read_joined : Dict JsString → (name : JsString) → Option JsString
read_joined headers name = joined same (matching name headers)

verdict_headers-trusted_example :
    let sent = overlay forged_result.headers (verdict_headers paid_call (js "r1") forged_result) in
    (read_joined sent (js "x-verdikt-verdict") ≡ some (text_or (js "NONE") forged_result.outcome))
    × (read_joined sent (js "x-verdikt-mode") ≡ some forged_result.mode)
    × (read_joined sent (js "x-verdikt-request-id") ≡ some (js "r1"))
    × (get (js "payment-signature") (challenge_headers paid_call.headers) ≡ none)
    × (get (js "x-payment") (challenge_headers paid_call.headers) ≡ none)
unfolding to_lower js get
verdict_headers-trusted_example =
    verdict_headers-trusted same read_joined (λ headers name low. refl) paid_call (js "r1")
      forged_result (refl, tt) (refl, tt)

-- A name in another case survives the spread, and the agent reads both values.
capital_verdict :
    read_joined
      (overlay
        ((js "X-Verdikt-Verdict", js "PASS") ∷ [])
        (verdict_headers paid_call (js "r1") forged_result))
      (js "x-verdikt-verdict")
    ≡ some (js "PASS, FAIL")
unfolding overlay verdict_headers js to_lower same_text verdikt.Base.Dict.set
    verdikt.Proxy.HeaderText.failure_detail_headers verdikt.Proxy.HeaderText.header_safe
capital_verdict = refl

-- A header and a challenge in one: the envelope also lists the options.
abbrev read_both : JsString → Option Json
read_both [] = some (obj (object ((js "accepts", arr (array (sample_option ∷ []))) ∷ [])))
read_both (c ∷ cs) = read_header (c ∷ cs)

abbrev sdk_decode : JsString → List Json → Option DecodedPayment
sdk_decode =
    decode_for_router read_both same_base64 five text_address some_hash owner_recovered call_data
      decoded_answer answering_probe (some agreeing_account) bytes_read most_responses

abbrev vouched_run : Paid
vouched_run =
    verified read_both same_base64 answering_probe sdk_decode bytes_read most_responses
      some_workflow paid_call (js "r1")

abbrev asked_request : VerifyRequest
asked_request = record {
  service_id = js "0x01";
  request_id = js "r1";
  provider_url = js "https://weather.example/x";
  method = js "POST";
  payment_header = js "signed";
  payment_header_name = js "x-payment";
  body_hex = some (js "0x0102");
  content_type = none;
  payer = js "0x03";
  paid_amount_minor_units = js "5";
  sla = none;
}

vouched_asked : vouched_run.triggered ≡ some asked_request
unfolding verified decode_payment verdikt.Sdk.Payment.decode_payment_envelope js get
    verdikt.Base.same_text verdikt.Sdk.Payment.matching_option verdikt.Proxy.Paid.decode_challenge
    verdikt.Sdk.Payment.verify_exact verdikt.Sdk.Payment.domain_of verdikt.Sdk.Payment.chain_id_of
    verdikt.Sdk.Payment.message_of verdikt.Sdk.Payment.validated_by_account
    verdikt.Cre.RequestBody.body_to_hex verdikt.Base.decimal
vouched_asked = refl

verified-Vouched_example :
    (payment : DecodedPayment) × (challenge : ProbeAnswer) × (accepts : List Json)
    × (answering_probe paid_call.method paid_call.upstream (challenge_headers paid_call.headers)
        ≡ some challenge)
    × (accepts
        ≡ accepts_of
            (decode_challenge read_both same_base64 challenge.payment_required challenge.body))
    × (asked_request.payer ≡ payment.payer)
    × (asked_request.paid_amount_minor_units ≡ integer_text payment.amount)
    × (asked_request.payment_header ≡ paid_call.payment.value)
    × Vouched read_both same_base64 five text_address some_hash owner_recovered call_data
        decoded_answer paid_call.payment.value
        (some accepts)
        (some agreeing_account)
        payment
verified-Vouched_example =
    verified-Vouched read_both same_base64 five text_address some_hash owner_recovered call_data
      decoded_answer answering_probe (some agreeing_account) bytes_read most_responses some_workflow
      paid_call (js "r1") asked_request vouched_asked
