-- ===== src/Proxy/Paid/Reply.antt =====
-- What the paid leg of proxy/src/router.js is given, asks and answers: the records, the headers of
-- the probe and those of the answer.
use verdikt.Base.{
  ℕ, suc, Bool, true, false, List, [], ◌∷◌, ◌++◌, Option, none, some, JsString, js, decimal,
  if◌then◌else◌,
}
use verdikt.Base.Dict.{Dict, get, set, delete}
use verdikt.Json.{Json, arr, obj, items, members}
use verdikt.Json.Numbers.{ℤ, pos, negsuc}
use verdikt.Proxy.HeaderText.{ClauseReport, header_safe, failure_detail_headers}
use verdikt.Proxy.Upstream.{HeaderValue, one, forward_request_headers}
use verdikt.Proxy.Pending.{VerificationFailure, workflow_timeout, trigger_rejected, run_failed}
use verdikt.Proxy.Router.{PaymentHeader}

pub record VerificationResult : Type 0 where
  pub outcome : Option JsString
  pub mode : JsString
  pub reason : Option JsString
  pub clauses : List ClauseReport
  pub tx : Option JsString
  pub status : Option ℕ
  pub headers : Dict JsString
  pub body : JsString
  pub body_truncated : Bool

-- `String(n)` of a BigInt.
abbrev pub integer_text : ℤ → JsString
integer_text (pos n) = decimal n
integer_text (negsuc n) = 45 ∷ decimal (suc n)

-- What the workflow is asked to verify.
pub record VerifyRequest : Type 0 where
  pub service_id : JsString
  pub request_id : JsString
  pub provider_url : JsString
  pub method : JsString
  pub payment_header : JsString
  pub payment_header_name : JsString
  pub body_hex : Option JsString
  pub content_type : Option JsString
  pub payer : JsString
  pub paid_amount_minor_units : JsString
  pub sla : Option JsString

-- A `VerificationError` with its failure, or any other error.
pub data Fault : Type 0 where
  verification : VerificationFailure → Fault
  other : Fault

abbrev pub failure_of : Fault → VerificationFailure
failure_of (verification failure) = failure
failure_of other = run_failed

pub record EvidenceEnvelope : Type 0 where
  pub request_id : JsString
  pub slug : JsString
  pub method : JsString
  pub url : JsString
  pub request_body : Option JsString
  pub status : ℕ
  pub content_type : Option JsString
  pub body : JsString
  pub body_truncated : Bool
  pub cached_at : ℕ

-- What `evidence.store` is called with.
pub record StoreCall : Type 0 where
  pub request_id : JsString
  pub envelope : EvidenceEnvelope
  pub evidence_filing_window_ms : ℕ

-- The paid request that the leg is given, and the parts of the configuration that it reads. A body
-- is a list of bytes. The store of evidence may be missing; it is true where `store` returns and
-- false where it throws.
pub record PaidCall : Type 0 where
  pub method : JsString
  pub headers : Dict JsString
  pub body : Option (List ℕ)
  pub service_id : JsString
  pub slug : JsString
  pub sla : Option JsString
  pub upstream : JsString
  pub payment : PaymentHeader
  pub judge : Option (JsString × JsString)
  pub evidence : Option (StoreCall → Bool)
  pub evidence_filing_window_ms : ℕ
  pub now : ℕ

-- The answer to the agent: `delivered` bears what `new Response` is given, and `uncaught` is where
-- it throws, which nothing here catches.
pub data PaidReply : Type 0 where
  verification_unavailable challenge_unavailable payment_undecodable : PaidReply
  undelivered : (status : ℕ) → VerificationFailure → (request_id : JsString) → PaidReply
  delivered : (status : ℕ) → (headers : Dict JsString) → (body : JsString) → PaidReply
  uncaught : PaidReply

pub record Paid : Type 0 where
  pub reply : PaidReply
  pub triggered : Option VerifyRequest
  pub attempted : Option StoreCall
  pub cached : Option StoreCall

abbrev pub refuse : PaidReply → Paid
refuse reply = record { reply = reply; triggered = none; attempted = none; cached = none }

abbrev pub as_values : Dict JsString → Dict HeaderValue
as_values [] = []
as_values ((name, text) ∷ headers) = (name, one text) ∷ as_values headers

abbrev pub without_names : List JsString → Dict JsString → Dict JsString
without_names [] headers = headers
without_names (name ∷ names) headers = without_names names (delete name headers)

unfoldable pub payment_header_names : List JsString
unfolding js
payment_header_names = js "payment-signature" ∷ js "x-payment" ∷ []

-- The headers of the probe: what is forwarded, less every payment header.
unfoldable pub challenge_headers : Dict JsString → Dict JsString
challenge_headers headers =
    without_names payment_header_names (forward_request_headers [] (as_values headers))

abbrev pub list_or_empty : Option Json → List Json
list_or_empty (some (arr accepts)) = items accepts
list_or_empty _ = []

-- `Array.isArray(challengeJson?.accepts) ? challengeJson.accepts : []`
abbrev pub accepts_of : Option Json → List Json
accepts_of (some (obj ms)) = list_or_empty (get (js "accepts") (members ms))
accepts_of _ = []

abbrev pub timeout_status : VerificationFailure → ℕ
timeout_status workflow_timeout = 504
timeout_status trigger_rejected = 502
timeout_status run_failed = 502

-- `x ? x : nothing` on a text.
abbrev pub truthy : Option JsString → Option JsString
truthy none = none
truthy (some []) = none
truthy (some (c ∷ cs)) = some (c ∷ cs)

abbrev pub text_or : JsString → Option JsString → JsString
text_or default none = default
text_or default (some text) = text

abbrev pub status_or : ℕ → Option ℕ → ℕ
status_or default none = default
status_or default (some status) = status

-- `buildEnvelope`; `decode_text` reads the bytes of the body.
abbrev pub decoded_body : (List ℕ → JsString) → Option (List ℕ) → Option JsString
decoded_body decode_text none = none
decoded_body decode_text (some bytes) = some (decode_text bytes)

abbrev pub build_envelope :
    (List ℕ → JsString) → PaidCall → JsString → VerificationResult → EvidenceEnvelope
build_envelope decode_text call request_id result = record {
  request_id = request_id;
  slug = call.slug;
  method = call.method;
  url = call.upstream;
  request_body = decoded_body decode_text call.body;
  status = status_or 0 result.status;
  content_type = get (js "content-type") result.headers;
  body = result.body;
  body_truncated = result.body_truncated;
  cached_at = call.now;
}

-- The entries of the last object literal, in its order.
abbrev pub judge_headers : Option (JsString × JsString) → Option JsString → Dict JsString
judge_headers (some (chain_id, address)) (some outcome) =
    (js "x-verdikt-judge-chain-id", chain_id) ∷ (js "x-verdikt-judge-address", address) ∷ []
judge_headers _ _ = []

abbrev pub tx_headers : Option JsString → Option JsString → Dict JsString
tx_headers (some tx) outcome = (js "x-verdikt-tx", tx) ∷ []
tx_headers none (some outcome) = (js "x-verdikt-verdict-unwritten", js "true") ∷ []
tx_headers none none = []

abbrev pub reason_headers : Option JsString → Dict JsString
reason_headers none = []
reason_headers (some reason) = (js "x-verdikt-fallback-reason", header_safe reason) ∷ []

abbrev pub truncated_headers : Bool → Dict JsString
truncated_headers true = (js "x-verdikt-body-truncated", js "true") ∷ []
truncated_headers false = []

abbrev pub optional_headers : PaidCall → VerificationResult → Dict JsString
optional_headers call result =
    judge_headers call.judge (truthy result.outcome)
    ++ (failure_detail_headers result.clauses
        ++ (tx_headers (truthy result.tx) (truthy result.outcome)
            ++ (reason_headers (truthy result.reason) ++ truncated_headers result.body_truncated)))

unfoldable pub verdict_headers : PaidCall → JsString → VerificationResult → Dict JsString
verdict_headers call request_id result =
    (js "x-verdikt-verdict", text_or (js "NONE") result.outcome)
    ∷ (js "x-verdikt-mode", result.mode)
    ∷ (js "x-verdikt-request-id", request_id)
    ∷ optional_headers call result

-- `{ ...base, ...entries }`: the object that `new Response` is given, whose names are as they are
-- spelled. Its `Headers` are left to the platform.
unfoldable pub overlay : Dict JsString → Dict JsString → Dict JsString
overlay base [] = base
overlay base ((name, text) ∷ entries) = overlay (set name text base) entries

-- `if (evidence && result.outcome)`: a call with no verdict stores nothing.
abbrev pub evidence_of : Option (StoreCall → Bool) → Option JsString → StoreCall → Option StoreCall
evidence_of (some store) (some outcome) filed = some filed
evidence_of (some store) none filed = none
evidence_of none outcome filed = none

-- The `try` around `evidence.store`: where it throws, nothing is kept and the leg goes on.
abbrev pub stored_by : Option (StoreCall → Bool) → Option StoreCall → Option StoreCall
stored_by (some store) (some filed) = if store filed then some filed else none
stored_by _ _ = none

-- `new Response(...)`, of which `accepted` says that it does not throw.
abbrev pub respond : (accepted : Bool) → PaidReply → PaidReply
respond true reply = reply
respond false reply = uncaught
