-- ===== src/Proxy/Paid.antt =====
-- The paid leg, `verified` of proxy/src/router.js, with `decodeChallenge` of challenge.js and
-- `buildEnvelope` of evidence.js. The network, the decoder of payments and the workflow are
-- parameters, and so are the base64 and JSON readers, the store of evidence, and whether
-- `new Response` takes a status, headers and a body. What the leg does besides answering is kept:
-- the request that the workflow got, the call of the store, and the evidence that was cached. The `detail` and the advice
-- of an error are left out.
pub mod Reply
pub mod Replies
pub mod Trace
pub mod Trusted
pub mod Sent
pub mod Refund
mod Examples
use verdikt.Base.{
  ℕ, suc, Bool, true, false, not, ◌&&◌, List, [], ◌∷◌, ◌++◌, Option, none, some, JsString, Result,
  ok, throw, js, same_text, decimal, is_some, if◌then◌else◌,
}
use verdikt.Base.Dict.{Dict, get, set, delete}
use verdikt.Json.{Json, arr, obj, items, members}
use verdikt.Json.Numbers.{ℤ, pos, negsuc}
use verdikt.Sdk.Payment.{DecodedPayment}
use verdikt.Cre.RequestBody.{body_to_hex}
use verdikt.Proxy.HeaderText.{ClauseReport, header_safe, failure_detail_headers}
use verdikt.Proxy.Upstream.{HeaderValue, one, forward_request_headers}
use verdikt.Proxy.Pending.{VerificationFailure, workflow_timeout, trigger_rejected, run_failed}
use verdikt.Proxy.Router.{PaymentHeader}
pub use Reply.{
  VerificationResult, integer_text, VerifyRequest, Fault, failure_of, EvidenceEnvelope, PaidCall,
  PaidReply, Paid, refuse, as_values, without_names, list_or_empty, accepts_of, timeout_status,
  truthy, text_or, status_or, decoded_body, build_envelope, judge_headers, tx_headers,
  reason_headers, truncated_headers, optional_headers, evidence_of, verification, other,
  verification_unavailable, challenge_unavailable, payment_undecodable, undelivered, delivered,
  uncaught, StoreCall, stored_by, respond,
}
unfoldable pub use Reply.{payment_header_names, challenge_headers, verdict_headers, overlay}

pub record ProbeAnswer : Type 0 where
  pub payment_required : Option JsString
  pub body : JsString

module _ (parse_json : JsString → Option Json) (from_base64 : JsString → JsString) where
  abbrev pub or_body : JsString → Option Json → Option Json
  or_body body (some challenge) = some challenge
  or_body body none = parse_json body

  unfoldable pub decode_challenge : Option JsString → JsString → Option Json
  decode_challenge none body = parse_json body
  decode_challenge (some []) body = parse_json body
  decode_challenge (some (c ∷ cs)) body = or_body body (parse_json (from_base64 (c ∷ cs)))

  module _ (probe : JsString → JsString → Dict JsString → Option ProbeAnswer)
      (decode : JsString → List Json → Option DecodedPayment) (decode_text : List ℕ → JsString)
      (can_respond : (status : ℕ) (headers : Dict JsString) (body : JsString) → Bool) where
    abbrev pub verify_request : PaidCall → JsString → DecodedPayment → VerifyRequest
    verify_request call request_id payment = record {
      service_id = call.service_id;
      request_id = request_id;
      provider_url = call.upstream;
      method = call.method;
      payment_header = call.payment.value;
      payment_header_name = call.payment.name;
      body_hex = body_to_hex call.body;
      content_type = get (js "content-type") call.headers;
      payer = payment.payer;
      paid_amount_minor_units = integer_text payment.amount;
      sla = call.sla;
    }

    abbrev pub store_call : PaidCall → JsString → VerificationResult → StoreCall
    store_call call request_id result = record {
      request_id = request_id;
      envelope = build_envelope decode_text call request_id result;
      evidence_filing_window_ms = call.evidence_filing_window_ms;
    }

    abbrev pub built : (status : ℕ) (headers : Dict JsString) (body : JsString) → PaidReply
    built status headers body =
        respond (can_respond status headers body) (delivered status headers body)

    -- From the result of the workflow on.
    abbrev pub answer : PaidCall → VerifyRequest → Result Fault VerificationResult → Paid
    answer call request (throw fault) = record {
      reply = undelivered (timeout_status (failure_of fault)) (failure_of fault) request.request_id;
      triggered = some request;
      attempted = none;
      cached = none;
    }
    answer call request (ok result) =
        let filed =
          evidence_of call.evidence (truthy result.outcome)
            (store_call call request.request_id result) in
        record {
          reply =
              built (status_or 502 result.status)
                (overlay result.headers (verdict_headers call request.request_id result))
                result.body;
          triggered = some request;
          attempted = filed;
          cached = stored_by call.evidence filed;
        }

    module _ (verify : VerifyRequest → Result Fault VerificationResult) where
      abbrev pub pay : PaidCall → JsString → Option DecodedPayment → Paid
      pay call request_id none = refuse payment_undecodable
      pay call request_id (some payment) =
          answer call (verify_request call request_id payment)
            (verify (verify_request call request_id payment))

      abbrev pub probed : PaidCall → JsString → Option ProbeAnswer → Paid
      probed call request_id none = refuse challenge_unavailable
      probed call request_id (some reply) = pay call request_id (
          decode call.payment.value
            (accepts_of (decode_challenge reply.payment_required reply.body)))

    -- The workflow may be missing. `request_id` is the one that `newRequestId` gives.
    unfoldable pub verified :
        Option (VerifyRequest → Result Fault VerificationResult) → PaidCall → JsString → Paid
    verified none call request_id = refuse verification_unavailable
    verified (some verify) call request_id =
        probed verify call request_id
          (probe call.method call.upstream (challenge_headers call.headers))
