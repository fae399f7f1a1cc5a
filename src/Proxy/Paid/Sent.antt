-- ===== src/Proxy/Paid/Sent.antt =====
-- What an agent reads of the headers that the paid leg of proxy/src/router.js sends. The object of
-- headers is handed to `new Response`, whose `Headers` fold the case of names and join the values
-- of names that agree; this reading is a parameter, with that behaviour as a hypothesis.
use verdikt.Base.{
  ◌≡◌, refl, sym, ap, ◌∙◌, Bool, true, false, List, [], ◌∷◌, ◌++◌, Option, none, some, JsString, js,
  same_text, same_text_iff, to_lower, All, find, not, Bool-cases, inl, inr, if◌then◌else◌,
  append-nil, arith,
}
use verdikt.Base.Dict.{Dict, get, set, get-set}
use verdikt.Proxy.HeaderText.{ClauseReport, broken_headers, failure_detail_headers}
use verdikt.Proxy.Paid.{
  VerificationResult, PaidCall, truthy, text_or, judge_headers, tx_headers, reason_headers,
  truncated_headers, verdict_headers, overlay, challenge_headers,
}
use verdikt.Proxy.Paid.Trusted.{overlay-Marked, challenge_headers-unpaid}

-- Every name is in lower case.
abbrev pub Lower : Dict JsString → Type 0
Lower = All (λ (e : JsString × JsString). to_lower e.0 ≡ e.0)

-- No name stands twice, as in an object.
abbrev pub Distinct : Dict JsString → Type 0
Distinct [] = Unit
Distinct ((name, text) ∷ headers) = (get name headers ≡ none) × Distinct headers

-- The values whose names agree with a name but for the case, in their order.
abbrev pub matching : JsString → Dict JsString → List JsString
matching name [] = []
matching name ((other, text) ∷ headers) =
    let rest = matching name headers in
    if same_text (to_lower other) name then text ∷ rest else rest

abbrev pub more_values : (JsString → JsString) → List JsString → JsString
more_values trim [] = []
more_values trim (text ∷ texts) = 44 ∷ 32 ∷ trim text ++ more_values trim texts

-- Values are trimmed and joined with a comma and a space.
abbrev pub joined : (JsString → JsString) → List JsString → Option JsString
joined trim [] = none
joined trim (text ∷ texts) = some (trim text ++ more_values trim texts)

abbrev listed : Option JsString → List JsString
listed none = []
listed (some text) = text ∷ []

matching-get :
    (name : JsString) (headers : Dict JsString)
    → Lower headers
    → Distinct headers
    → matching name headers ≡ listed (get name headers)
unfolding get
matching-get name [] low apart = refl
matching-get name ((other, text) ∷ headers) (lower, low) (once, apart) =
    let rest = matching-get name headers low apart in
    rw lower (elim (Bool-cases (same_text other name)) [
      | inl e ↦
          let absent : get name headers ≡ none =
            ap (λ n. get n headers) (sym ((same_text_iff other name).0 e)) ∙ once in
          rw e (ap (λ texts. text ∷ texts) (rest ∙ ap listed absent))
      | inr e ↦ rw e rest
    ])

set-Lower :
    (name text : JsString) (headers : Dict JsString)
    → to_lower name ≡ name
    → Lower headers
    → Lower (set name text headers)
unfolding set
set-Lower name text [] l low = (l, tt)
set-Lower name text ((other, t) ∷ headers) l (lower, low) =
    elim (Bool-cases (same_text other name)) [
      | inl e ↦ rw e (lower, low)
      | inr e ↦ rw e (lower, set-Lower name text headers l low)
    ]

set-Distinct :
    (name text : JsString) (headers : Dict JsString)
    → Distinct headers
    → Distinct (set name text headers)
unfolding set get
set-Distinct name text [] apart = (refl, tt)
set-Distinct name text ((other, t) ∷ headers) (once, apart) =
    elim (Bool-cases (same_text other name)) [
      | inl e ↦ rw e (once, apart)
      | inr e ↦
          let differs : same_text name other ≡ false =
            ground (arith, same_text_iff name other, same_text_iff other name) in
          rw e (
            get-set name other text headers ∙ rw differs once,
            set-Distinct name text headers apart,
          )
    ]

overlay-Lower :
    (base entries : Dict JsString) → Lower base → Lower entries → Lower (overlay base entries)
unfolding overlay
overlay-Lower base [] low l = low
overlay-Lower base ((name, text) ∷ entries) low (lower, l) =
    overlay-Lower (set name text base) entries (set-Lower name text base lower low) l

overlay-Distinct : (base entries : Dict JsString) → Distinct base → Distinct (overlay base entries)
unfolding overlay
overlay-Distinct base [] apart = apart
overlay-Distinct base ((name, text) ∷ entries) apart =
    overlay-Distinct (set name text base) entries (set-Distinct name text base apart)

Lower-append : (xs ys : Dict JsString) → Lower xs → Lower ys → Lower (xs ++ ys)
Lower-append [] ys low l = l
Lower-append (x ∷ xs) ys (lower, low) l = (lower, Lower-append xs ys low l)

judge_headers-Lower :
    (j : Option (JsString × JsString)) (o : Option JsString) → Lower (judge_headers j o)
unfolding to_lower js
judge_headers-Lower (some (chain_id, address)) (some outcome) = (refl, (refl, tt))
judge_headers-Lower (some j) none = tt
judge_headers-Lower none o = tt

broken_headers-Lower : (o : Option ClauseReport) → Lower (broken_headers o)
unfolding to_lower js
broken_headers-Lower none = tt
broken_headers-Lower (some broke) = (refl, (refl, (refl, (refl, tt))))

tx_headers-Lower : (t o : Option JsString) → Lower (tx_headers t o)
unfolding to_lower js
tx_headers-Lower (some tx) o = (refl, tt)
tx_headers-Lower none (some outcome) = (refl, tt)
tx_headers-Lower none none = tt

reason_headers-Lower : (o : Option JsString) → Lower (reason_headers o)
unfolding to_lower js
reason_headers-Lower none = tt
reason_headers-Lower (some reason) = (refl, tt)

truncated_headers-Lower : (b : Bool) → Lower (truncated_headers b)
unfolding to_lower js
truncated_headers-Lower true = (refl, tt)
truncated_headers-Lower false = tt

verdict_headers-Lower :
    (call : PaidCall) (request_id : JsString) (result : VerificationResult)
    → Lower (verdict_headers call request_id result)
unfolding verdict_headers to_lower js failure_detail_headers
verdict_headers-Lower call request_id result = (
  refl,
  (
    refl,
    (
      refl,
      Lower-append (judge_headers call.judge (truthy result.outcome)) _
          (judge_headers-Lower call.judge (truthy result.outcome))
          (Lower-append (failure_detail_headers result.clauses) _
            (broken_headers-Lower (find (λ c. not c.pass) result.clauses))
            (Lower-append (tx_headers (truthy result.tx) (truthy result.outcome)) _
              (tx_headers-Lower (truthy result.tx) (truthy result.outcome))
              (Lower-append (reason_headers (truthy result.reason)) _
                (reason_headers-Lower (truthy result.reason))
                (truncated_headers-Lower result.body_truncated)))),
    ),
  ),
)

module _ (trim : JsString → JsString)
    (read_header : Dict JsString → (name : JsString) → Option JsString)
    (reads : (headers : Dict JsString) (name : JsString)
      → to_lower name ≡ name
      → read_header headers name ≡ joined trim (matching name headers)) where
  read_header-get :
      (headers : Dict JsString) (name text : JsString)
      → to_lower name ≡ name
      → Lower headers
      → Distinct headers
      → get name headers ≡ some text
      → read_header headers name ≡ some (trim text)
  read_header-get headers name text l low apart got =
      reads headers name l
      ∙ ap (joined trim) (matching-get name headers low apart ∙ ap listed got)
      ∙ ap some (append-nil (trim text))

  -- Where the names of the result's headers are in lower case and stand once each, whatever they
  -- and their values are, the agent reads the verdict, the mode and the request id that the proxy
  -- has, trimmed and with nothing joined to them. And no payment header is among those of the probe.
  pub verdict_headers-trusted :
      (call : PaidCall) (request_id : JsString) (result : VerificationResult)
      → Lower result.headers
      → Distinct result.headers
      → let sent = overlay result.headers (verdict_headers call request_id result) in
        (read_header sent (js "x-verdikt-verdict")
          ≡ some (trim (text_or (js "NONE") result.outcome)))
        × (read_header sent (js "x-verdikt-mode") ≡ some (trim result.mode))
        × (read_header sent (js "x-verdikt-request-id") ≡ some (trim request_id))
        × (get (js "payment-signature") (challenge_headers call.headers) ≡ none)
        × (get (js "x-payment") (challenge_headers call.headers) ≡ none)
  unfolding to_lower js
  verdict_headers-trusted call request_id result low apart =
      let sent = overlay result.headers (verdict_headers call request_id result) in
      let (verdict, mode, id) = overlay-Marked call request_id result in
      let (unsigned, unpaid) = challenge_headers-unpaid call.headers in
      let lower : Lower sent =
        overlay-Lower result.headers (verdict_headers call request_id result) low
          (verdict_headers-Lower call request_id result) in
      let once : Distinct sent =
        overlay-Distinct result.headers (verdict_headers call request_id result) apart in
      (
        read_header-get sent (js "x-verdikt-verdict") _ refl lower once verdict,
        read_header-get sent (js "x-verdikt-mode") _ refl lower once mode,
        read_header-get sent (js "x-verdikt-request-id") _ refl lower once id,
        unsigned,
        unpaid,
      )
