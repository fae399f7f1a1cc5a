-- ===== src/Proxy/Paid/Trace.antt =====
-- What the paid leg does before it answers.
use verdikt.Base.{
  ℕ, ◌≡◌, refl, sym, Bool, true, List, Option, none, some, JsString, Result, ok, throw, ◌↔◌,
  is_some, subst, js,
}
use verdikt.Base.Dict.{Dict, get}
use verdikt.Json.{Json}
use verdikt.Sdk.Payment.{DecodedPayment}
use verdikt.Cre.RequestBody.{body_to_hex}
use verdikt.Proxy.Paid.{
  VerificationResult, VerifyRequest, Fault, PaidCall, delivered, Paid, StoreCall, truthy, status_or,
  integer_text, decoded_body, verdict_headers, overlay, evidence_of, ProbeAnswer, verify_request,
  store_call, answer, pay, probed, verified, accepts_of, decode_challenge, challenge_headers,
}
use verdikt.Proxy.Paid.Trusted.{Absent, get-overlay-Absent, Marked, overlay-Marked}
use verdikt.Proxy.Paid.Replies.{
  IsRefusal, fault_reply, IsFiled, IsStatus, fault_reply-answer, IsKept, evidence_of-IsFiled,
  stored_by-IsKept, status_or-IsStatus, IsBuilt, respond-IsBuilt,
}

module _ (parse_json : JsString → Option Json) (from_base64 : JsString → JsString)
    (probe : JsString → JsString → Dict JsString → Option ProbeAnswer)
    (decode : JsString → List Json → Option DecodedPayment) (decode_text : List ℕ → JsString)
    (can_respond : (status : ℕ) (headers : Dict JsString) (body : JsString) → Bool) where
  -- What the workflow is asked: each field from the call, or from the payment that was decoded.
  abbrev pub Asked : PaidCall → JsString → DecodedPayment → VerifyRequest → Type 0
  Asked call request_id payment request =
      (request.service_id ≡ call.service_id)
      × (request.request_id ≡ request_id)
      × (request.provider_url ≡ call.upstream)
      × (request.method ≡ call.method)
      × (request.payment_header ≡ call.payment.value)
      × (request.payment_header_name ≡ call.payment.name)
      × (request.body_hex ≡ body_to_hex call.body)
      × (request.content_type ≡ get (js "content-type") call.headers)
      × (request.payer ≡ payment.payer)
      × (request.paid_amount_minor_units ≡ integer_text payment.amount)
      × (request.sla ≡ call.sla)

  -- What the store is called with.
  abbrev pub Filed : PaidCall → JsString → VerificationResult → StoreCall → Type 0
  Filed call request_id result filed =
      (filed.request_id ≡ request_id)
      × (filed.evidence_filing_window_ms ≡ call.evidence_filing_window_ms)
      × (filed.envelope.request_id ≡ request_id)
      × (filed.envelope.slug ≡ call.slug)
      × (filed.envelope.method ≡ call.method)
      × (filed.envelope.url ≡ call.upstream)
      × (filed.envelope.request_body ≡ decoded_body decode_text call.body)
      × (filed.envelope.status ≡ status_or 0 result.status)
      × (filed.envelope.content_type ≡ get (js "content-type") result.headers)
      × (filed.envelope.body ≡ result.body)
      × (filed.envelope.body_truncated ≡ result.body_truncated)
      × (filed.envelope.cached_at ≡ call.now)

  -- What the workflow's answer comes to.
  abbrev pub Answers : PaidCall → JsString → Paid → Result Fault VerificationResult → Type 0
  Answers call request_id p (throw fault) =
      (p.reply ≡ fault_reply request_id fault) × (p.attempted ≡ none) × (p.cached ≡ none)
  Answers call request_id p (ok result) =
      (status : ℕ) × (headers : Dict JsString) × IsStatus result.status status
      × (headers ≡ overlay result.headers (verdict_headers call request_id result))
      × Marked request_id result headers
      × ((name : JsString)
          → Absent name (verdict_headers call request_id result)
          → get name headers ≡ get name result.headers)
      × IsBuilt (can_respond status headers result.body) (delivered status headers result.body)
          p.reply
      × ((is_some p.attempted ≡ true) ↔ IsFiled call.evidence result.outcome)
      × ((filed : StoreCall) → p.attempted ≡ some filed → Filed call request_id result filed)
      × ((kept : StoreCall) → (p.cached ≡ some kept) ↔ IsKept call.evidence p.attempted kept)

  -- The whole of a paid call: the workflow was not asked, or it was asked once.
  abbrev pub Traced :
      Option (VerifyRequest → Result Fault VerificationResult)
      → PaidCall
      → JsString
      → Paid
      → Option VerifyRequest
      → Type 0
  Traced workflow call request_id p none =
      IsRefusal p.reply × (p.attempted ≡ none) × (p.cached ≡ none)
  Traced workflow call request_id p (some request) =
      (verify : VerifyRequest → Result Fault VerificationResult) × (payment : DecodedPayment)
      × (challenge : ProbeAnswer) × (workflow ≡ some verify)
      × (probe call.method call.upstream (challenge_headers call.headers) ≡ some challenge)
      × (decode call.payment.value (
            accepts_of
              (decode_challenge parse_json from_base64 challenge.payment_required challenge.body))
          ≡ some payment)
      × Asked call request_id payment request
      × Answers call request_id p (verify request)

  answer-Answers :
      (call : PaidCall) (request : VerifyRequest) (r : Result Fault VerificationResult)
      → Answers call request.request_id
          (answer parse_json from_base64 probe decode decode_text can_respond call request r)
          r
  answer-Answers call request (throw fault) =
      (fault_reply-answer request.request_id fault, refl, refl)
  answer-Answers call request (ok result) =
      let filed =
        store_call parse_json from_base64 probe decode decode_text can_respond call
          request.request_id result in
      let status = status_or 502 result.status in
      let headers = overlay result.headers (verdict_headers call request.request_id result) in
      let (iff, same) = evidence_of-IsFiled call.evidence result.outcome filed in
      (
        status,
        headers,
        status_or-IsStatus result.status,
        refl,
        overlay-Marked call request.request_id result,
        λ name apart.
            get-overlay-Absent name result.headers (verdict_headers call request.request_id result)
              apart,
        respond-IsBuilt (can_respond status headers result.body)
            (delivered status headers result.body),
        iff,
        λ given e.
            subst (Filed call request.request_id result) (same given e)
              (refl, refl, refl, refl, refl, refl, refl, refl, refl, refl, refl, refl),
        stored_by-IsKept call.evidence (evidence_of call.evidence (truthy result.outcome) filed),
      )

  answer-triggered :
      (call : PaidCall) (request : VerifyRequest) (r : Result Fault VerificationResult)
      → (answer parse_json from_base64 probe decode decode_text can_respond call request
          r).triggered
        ≡ some request
  answer-triggered call request (throw fault) = refl
  answer-triggered call request (ok result) = refl

  -- The workflow is asked only when there is one, the challenge could be fetched without the
  -- payment, and the payment was decoded against it; it is asked about that payer and that amount
  -- under the request id, and about the call's own service, URL, method, header, body and SLA.
  -- Otherwise the call is refused, and nothing is filed or cached. A fault of the workflow comes
  -- back with the request id: 504 for a timeout, else 502. A result comes back with the provider's
  -- status (502 where it has none) and body, and with headers that bear the verdict, the mode and
  -- the request id, and the provider's under every name that the proxy does not write, unless
  -- `new Response` throws on these. Evidence is filed exactly when there is a store and an outcome
  -- that is not empty, with the fields of this call and this result; and it is cached exactly when
  -- the store takes it. The reply is the same whether the store takes it or throws.
  pub verified-Traced :
      (workflow : Option (VerifyRequest → Result Fault VerificationResult)) (call : PaidCall)
      (request_id : JsString)
      → let p =
          verified parse_json from_base64 probe decode decode_text can_respond workflow call
            request_id in
        Traced workflow call request_id p p.triggered
  unfolding verified
  verified-Traced none call request_id = (tt, refl, refl)
  verified-Traced (some verify) call request_id =
      after (probe call.method call.upstream (challenge_headers call.headers)) refl
    where
      paid :
          (challenge : ProbeAnswer) (o : Option DecodedPayment)
          → probe call.method call.upstream (challenge_headers call.headers) ≡ some challenge
          → decode call.payment.value (
              accepts_of
                (decode_challenge parse_json from_base64 challenge.payment_required challenge.body))
            ≡ o
          → let p =
              pay parse_json from_base64 probe decode decode_text can_respond verify call request_id
                o in
            Traced (some verify) call request_id p p.triggered
      paid challenge none got e = (tt, refl, refl)
      paid challenge (some payment) got e =
          let request =
            verify_request parse_json from_base64 probe decode decode_text can_respond call
              request_id payment in
          subst
            (λ t.
              Traced (some verify) call request_id
                (answer parse_json from_base64 probe decode decode_text can_respond call request
                  (verify request))
                t)
            (sym (answer-triggered call request (verify request)))
            (
              verify,
              payment,
              challenge,
              refl,
              got,
              e,
              (refl, refl, refl, refl, refl, refl, refl, refl, refl, refl, refl),
              answer-Answers call request (verify request),
            )

      after :
          (o : Option ProbeAnswer)
          → probe call.method call.upstream (challenge_headers call.headers) ≡ o
          → let p =
              probed parse_json from_base64 probe decode decode_text can_respond verify call
                request_id o in
            Traced (some verify) call request_id p p.triggered
      after none got = (tt, refl, refl)
      after (some challenge) got = paid challenge _ got refl
