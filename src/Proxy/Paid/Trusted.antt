-- ===== src/Proxy/Paid/Trusted.antt =====
-- The headers that the paid leg sends.
use verdikt.Base.{
  ◌≡◌, refl, ◌∙◌, Bool, true, false, [], ◌∷◌, ◌++◌, Option, none, some, JsString, js, same_text,
  same_text_refl, All, find, not,
}
use verdikt.Base.Dict.{Dict, get, set, delete, get-set, get-delete}
use verdikt.Proxy.HeaderText.{ClauseReport, broken_headers, failure_detail_headers}
use verdikt.Proxy.Upstream.{forward_request_headers}
use verdikt.Proxy.Paid.{
  VerificationResult, PaidCall, truthy, text_or, judge_headers, tx_headers, reason_headers,
  truncated_headers, optional_headers, verdict_headers, overlay, challenge_headers,
  payment_header_names, as_values,
}

-- No entry has that name.
abbrev pub Absent : JsString → Dict JsString → Type 0
Absent k = All (λ (e : JsString × JsString). same_text e.0 k ≡ false)

Absent-append :
    (k : JsString) (xs ys : Dict JsString) → Absent k xs → Absent k ys → Absent k (xs ++ ys)
Absent-append k [] ys h r = r
Absent-append k (x ∷ xs) ys (e, h) r = (e, Absent-append k xs ys h r)

pub get-overlay-Absent :
    (k : JsString) (base entries : Dict JsString)
    → Absent k entries
    → get k (overlay base entries) ≡ get k base
unfolding overlay
get-overlay-Absent k base [] h = refl
get-overlay-Absent k base ((j, v) ∷ entries) (e, h) =
    get-overlay-Absent k (set j v base) entries h ∙ get-set j k v base ∙ rw e refl

get-overlay-first :
    (k v : JsString) (base entries : Dict JsString)
    → Absent k entries
    → get k (overlay base ((k, v) ∷ entries)) ≡ some v
unfolding overlay
get-overlay-first k v base entries h =
    get-overlay-Absent k (set k v base) entries h ∙ get-set k k v base ∙ rw (same_text_refl k) refl

abbrev optional_names : Dict JsString
optional_names =
    (js "x-verdikt-judge-chain-id", [])
    ∷ (js "x-verdikt-judge-address", [])
    ∷ (js "x-verdikt-failed-clause", [])
    ∷ (js "x-verdikt-failed-clause-type", [])
    ∷ (js "x-verdikt-expected", [])
    ∷ (js "x-verdikt-actual", [])
    ∷ (js "x-verdikt-tx", [])
    ∷ (js "x-verdikt-verdict-unwritten", [])
    ∷ (js "x-verdikt-fallback-reason", [])
    ∷ (js "x-verdikt-body-truncated", [])
    ∷ []

-- The names that are sent whatever the verdict is.
module _ (k : JsString) (apart : Absent k optional_names) where
  judge_headers-Absent :
      (j : Option (JsString × JsString)) (o : Option JsString) → Absent k (judge_headers j o)
  judge_headers-Absent (some (chain_id, address)) (some outcome) = (apart.0, (apart.1.0, tt))
  judge_headers-Absent (some j) none = tt
  judge_headers-Absent none o = tt

  broken_headers-Absent : (o : Option ClauseReport) → Absent k (broken_headers o)
  broken_headers-Absent none = tt
  broken_headers-Absent (some broke) =
      (apart.1.1.0, (apart.1.1.1.0, (apart.1.1.1.1.0, (apart.1.1.1.1.1.0, tt))))

  tx_headers-Absent : (t o : Option JsString) → Absent k (tx_headers t o)
  tx_headers-Absent (some tx) o = (apart.1.1.1.1.1.1.0, tt)
  tx_headers-Absent none (some outcome) = (apart.1.1.1.1.1.1.1.0, tt)
  tx_headers-Absent none none = tt

  reason_headers-Absent : (o : Option JsString) → Absent k (reason_headers o)
  reason_headers-Absent none = tt
  reason_headers-Absent (some reason) = (apart.1.1.1.1.1.1.1.1.0, tt)

  truncated_headers-Absent : (b : Bool) → Absent k (truncated_headers b)
  truncated_headers-Absent true = (apart.1.1.1.1.1.1.1.1.1.0, tt)
  truncated_headers-Absent false = tt

  optional_headers-Absent :
      (call : PaidCall) (result : VerificationResult) → Absent k (optional_headers call result)
  unfolding failure_detail_headers
  optional_headers-Absent call result =
      Absent-append k (judge_headers call.judge (truthy result.outcome)) _
        (judge_headers-Absent call.judge (truthy result.outcome))
        (Absent-append k (failure_detail_headers result.clauses) _
          (broken_headers-Absent (find (λ c. not c.pass) result.clauses))
          (Absent-append k (tx_headers (truthy result.tx) (truthy result.outcome)) _
            (tx_headers-Absent (truthy result.tx) (truthy result.outcome))
            (Absent-append k (reason_headers (truthy result.reason)) _
              (reason_headers-Absent (truthy result.reason))
              (truncated_headers-Absent result.body_truncated))))

apart_verdict : Absent (js "x-verdikt-verdict") optional_names
unfolding js same_text
apart_verdict = (refl, (refl, (refl, (refl, (refl, (refl, (refl, (refl, (refl, (refl, tt))))))))))

apart_mode : Absent (js "x-verdikt-mode") optional_names
unfolding js same_text
apart_mode = (refl, (refl, (refl, (refl, (refl, (refl, (refl, (refl, (refl, (refl, tt))))))))))

apart_id : Absent (js "x-verdikt-request-id") optional_names
unfolding js same_text
apart_id = (refl, (refl, (refl, (refl, (refl, (refl, (refl, (refl, (refl, (refl, tt))))))))))

-- Under these names an object has what the proxy says of the call.
abbrev pub Marked : JsString → VerificationResult → Dict JsString → Type 0
Marked request_id result sent =
    (get (js "x-verdikt-verdict") sent ≡ some (text_or (js "NONE") result.outcome))
    × (get (js "x-verdikt-mode") sent ≡ some result.mode)
    × (get (js "x-verdikt-request-id") sent ≡ some request_id)

pub overlay-Marked :
    (call : PaidCall) (request_id : JsString) (result : VerificationResult)
    → Marked request_id result (overlay result.headers (verdict_headers call request_id result))
unfolding verdict_headers overlay js same_text
overlay-Marked call request_id result =
    let base = result.headers in
    let mode : JsString × JsString = (js "x-verdikt-mode", result.mode) in
    let id : JsString × JsString = (js "x-verdikt-request-id", request_id) in
    let verdict = text_or (js "NONE") result.outcome in
    let rest = optional_headers call result in
    (
      get-overlay-first (js "x-verdikt-verdict") verdict base (mode ∷ id ∷ rest) (
        refl,
        (refl, optional_headers-Absent (js "x-verdikt-verdict") apart_verdict call result),
      ),
      get-overlay-first (js "x-verdikt-mode") result.mode
          (set (js "x-verdikt-verdict") verdict base) (id ∷ rest)
          (refl, optional_headers-Absent (js "x-verdikt-mode") apart_mode call result),
      get-overlay-first (js "x-verdikt-request-id") request_id
          (set (js "x-verdikt-mode") result.mode (set (js "x-verdikt-verdict") verdict base)) rest
          (optional_headers-Absent (js "x-verdikt-request-id") apart_id call result),
    )

pub challenge_headers-unpaid :
    (headers : Dict JsString)
    → (get (js "payment-signature") (challenge_headers headers) ≡ none)
      × (get (js "x-payment") (challenge_headers headers) ≡ none)
unfolding challenge_headers payment_header_names js same_text
challenge_headers-unpaid headers = (
  get-delete (js "x-payment") (js "payment-signature")
        (delete (js "payment-signature") (forward_request_headers [] (as_values headers)))
      ∙ get-delete (js "payment-signature") (js "payment-signature")
          (forward_request_headers [] (as_values headers)),
  get-delete (js "x-payment") (js "x-payment")
      (delete (js "payment-signature") (forward_request_headers [] (as_values headers))),
)
