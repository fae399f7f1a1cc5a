-- ===== src/Proxy/Paid/Refund.antt =====
-- The paid leg with the decoder of packages/sdk/payment.js: who is named as the payer of a call.
use verdikt.Base.{
  some-injective, ℕ, Bool, ◌≡◌, refl, ap, List, Option, none, some, JsString, Result, ok, throw,
  subst,
}
use verdikt.Base.Dict.{Dict}
use verdikt.Json.{Json}
use verdikt.Json.Numbers.{ℤ}
use verdikt.Sdk.Payment.{
  DecodeFault, TypedDomain, TransferMessage, DecodedPayment, EthCall, decode_payment,
}
use verdikt.Sdk.Payment.Signed.{Vouched, decode_payment-Signed}
use verdikt.Proxy.Paid.{
  VerificationResult, VerifyRequest, Fault, PaidCall, ProbeAnswer, integer_text, verified,
  challenge_headers, accepts_of, decode_challenge,
}
use verdikt.Proxy.Paid.Trace.{Traced, verified-Traced}

-- The router answers each error of the decoder in the same way.
abbrev pub or_nothing : Result DecodeFault DecodedPayment → Option DecodedPayment
or_nothing (ok payment) = some payment
or_nothing (throw fault) = none

or_nothing-some :
    (r : Result DecodeFault DecodedPayment) (payment : DecodedPayment)
    → or_nothing r ≡ some payment
    → r ≡ ok payment
or_nothing-some (throw fault) payment h = cc
or_nothing-some (ok given) payment h = ap ok (some-injective h)

module _ (parse_json : JsString → Option Json) (from_base64 : JsString → JsString)
    (to_bigint : Json → Option ℤ) (get_address : Json → Option JsString)
    (hash_typed_data : TypedDomain → TransferMessage → Option JsString)
    (recover_address : (hash signature : JsString) → Option JsString)
    (encode_call : (hash signature : JsString) → Option JsString)
    (decode_answer : JsString → Option JsString)
    (probe : JsString → JsString → Dict JsString → Option ProbeAnswer) (eth_call : Option EthCall)
    (decode_text : List ℕ → JsString)
    (can_respond : (status : ℕ) (headers : Dict JsString) (body : JsString) → Bool) where
  -- `decodePayment(header, { accepts, ethCall })` as the router calls it.
  abbrev pub decode_for_router : JsString → List Json → Option DecodedPayment
  decode_for_router header accepts = or_nothing (
      decode_payment parse_json from_base64 to_bigint get_address hash_typed_data recover_address
        encode_call decode_answer header (some accepts) eth_call)

  -- Where the workflow is asked about a call, the payer and the amount that it is told are those of
  -- a payment that the header signs: bound by its signature to an option among the `accepts` of the
  -- challenge that the provider answered to a probe without payment headers.
  pub verified-Vouched :
      (workflow : Option (VerifyRequest → Result Fault VerificationResult)) (call : PaidCall)
      (request_id : JsString) (request : VerifyRequest)
      → (verified parse_json from_base64 probe decode_for_router decode_text can_respond workflow
          call request_id).triggered
        ≡ some request
      → (payment : DecodedPayment) × (challenge : ProbeAnswer) × (accepts : List Json) × (probe
            call.method call.upstream
            (challenge_headers call.headers)
          ≡ some challenge)
        × (accepts
            ≡ accepts_of
                (decode_challenge parse_json from_base64 challenge.payment_required challenge.body))
        × (request.payer ≡ payment.payer)
        × (request.paid_amount_minor_units ≡ integer_text payment.amount)
        × (request.payment_header ≡ call.payment.value)
        × Vouched parse_json from_base64 to_bigint get_address hash_typed_data recover_address
            encode_call decode_answer call.payment.value
            (some accepts)
            eth_call
            payment
  verified-Vouched workflow call request_id request asked =
      let traced =
        subst
          (Traced parse_json from_base64 probe decode_for_router decode_text can_respond workflow
            call request_id
            (verified parse_json from_base64 probe decode_for_router decode_text can_respond
              workflow call request_id))
          asked
          (verified-Traced parse_json from_base64 probe decode_for_router decode_text can_respond
            workflow call request_id) in
      let (verify, payment, challenge, set_up, fetched, decoded, told, answers) = traced in
      let (service, id, url, method, header, name, body, content, payer, amount, sla) = told in
      (
        payment,
        challenge,
        _,
        fetched,
        refl,
        payer,
        amount,
        header,
        decode_payment-Signed parse_json from_base64 to_bigint get_address hash_typed_data
            recover_address encode_call decode_answer call.payment.value (some _) eth_call payment
            (or_nothing-some _ payment decoded),
      )
