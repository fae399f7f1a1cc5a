-- ===== src/Proxy/Paid/Replies.antt =====
-- What the paid leg answers, files and keeps, told apart from how the router computes it.
use verdikt.Base.{
  ℕ, ◌≡◌, refl, sym, Bool, true, false, [], ◌∷◌, Option, none, some, JsString, ◌↔◌, inl, inr,
  is_some, subst, Bool-cases, some-injective,
}
use verdikt.Proxy.Pending.{workflow_timeout, trigger_rejected, run_failed}
use verdikt.Proxy.Paid.{
  VerificationResult, VerifyRequest, Fault, verification, other, PaidCall, PaidReply, undelivered,
  delivered, uncaught, Paid, StoreCall, truthy, status_or, integer_text, decoded_body,
  verdict_headers, overlay, evidence_of, stored_by, respond, ProbeAnswer, verify_request,
  store_call, built, answer, pay, probed, verified, accepts_of, decode_challenge, challenge_headers,
}

-- The answer to an agent that got nothing, before the workflow was asked.
abbrev pub IsRefusal : PaidReply → Type 0
IsRefusal (delivered status headers body) = ⊥
IsRefusal (undelivered status failure request_id) = ⊥
IsRefusal uncaught = ⊥
IsRefusal _ = Unit

-- The reply to each fault of the workflow.
abbrev pub fault_reply : JsString → Fault → PaidReply
fault_reply request_id (verification workflow_timeout) = undelivered 504 workflow_timeout request_id
fault_reply request_id (verification trigger_rejected) = undelivered 502 trigger_rejected request_id
fault_reply request_id (verification run_failed) = undelivered 502 run_failed request_id
fault_reply request_id other = undelivered 502 run_failed request_id

-- There is a store, and an outcome that is not empty.
abbrev pub IsFiled : Option (StoreCall → Bool) → Option JsString → Type 0
IsFiled (some store) (some (c ∷ cs)) = Unit
IsFiled _ _ = ⊥

-- The status is the provider's, or 502 where it has none.
abbrev pub IsStatus : Option ℕ → ℕ → Type 0
IsStatus none status = status ≡ 502
IsStatus (some given) status = status ≡ given

pub fault_reply-answer :
    (request_id : JsString) (fault : Fault)
    → undelivered
        (verdikt.Proxy.Paid.timeout_status (verdikt.Proxy.Paid.failure_of fault))
        (verdikt.Proxy.Paid.failure_of fault)
        request_id
      ≡ fault_reply request_id fault
fault_reply-answer request_id (verification workflow_timeout) = refl
fault_reply-answer request_id (verification trigger_rejected) = refl
fault_reply-answer request_id (verification run_failed) = refl
fault_reply-answer request_id other = refl

-- What is kept is what was filed and the store took.
abbrev pub IsKept : Option (StoreCall → Bool) → Option StoreCall → StoreCall → Type 0
IsKept evidence filed kept =
    (filed ≡ some kept) × (store : StoreCall → Bool) × (evidence ≡ some store) × (store kept ≡ true)

pub evidence_of-IsFiled :
    (evidence : Option (StoreCall → Bool)) (outcome : Option JsString) (filed : StoreCall)
    → ((is_some (evidence_of evidence (truthy outcome) filed) ≡ true) ↔ IsFiled evidence outcome)
      × ((given : StoreCall)
          → evidence_of evidence (truthy outcome) filed ≡ some given
          → filed ≡ given)
evidence_of-IsFiled none none filed = ((λ h. cc, λ h. absurd h), λ given h. cc)
evidence_of-IsFiled none (some []) filed = ((λ h. cc, λ h. absurd h), λ given h. cc)
evidence_of-IsFiled none (some (c ∷ cs)) filed = ((λ h. cc, λ h. absurd h), λ given h. cc)
evidence_of-IsFiled (some store) none filed = ((λ h. cc, λ h. absurd h), λ given h. cc)
evidence_of-IsFiled (some store) (some []) filed = ((λ h. cc, λ h. absurd h), λ given h. cc)
evidence_of-IsFiled (some store) (some (c ∷ cs)) filed =
    ((λ h. tt, λ h. refl), λ given h. some-injective h)

pub stored_by-IsKept :
    (evidence : Option (StoreCall → Bool)) (filed : Option StoreCall) (kept : StoreCall)
    → (stored_by evidence filed ≡ some kept) ↔ IsKept evidence filed kept
stored_by-IsKept none filed kept = (λ h. cc, λ (f, store, e, t). cc)
stored_by-IsKept (some store) none kept = (λ h. cc, λ (f, s, e, t). cc)
stored_by-IsKept (some store) (some filed) kept = elim (Bool-cases (store filed)) [
  | inl e ↦ rw e (
    λ h. (h, store, refl, subst (λ k. store k ≡ true) (some-injective h) e),
    λ (f, s, same, t). f,
  )
  | inr e ↦ rw e (
    λ h. cc,
    λ (f, s, same, t).
        let took : store kept ≡ true = subst (λ k. k kept ≡ true) (sym (some-injective same)) t in
        let refused : store kept ≡ false = subst (λ k. store k ≡ false) (some-injective f) e in
        absurd (let clash : true ≡ false = cc in cc),
  )
]

pub status_or-IsStatus : (o : Option ℕ) → IsStatus o (status_or 502 o)
status_or-IsStatus none = refl
status_or-IsStatus (some given) = refl

-- The reply where `new Response` takes the status, the headers and the body, and where not.
abbrev pub IsBuilt : Bool → PaidReply → PaidReply → Type 0
IsBuilt true whole reply = reply ≡ whole
IsBuilt false whole reply = reply ≡ uncaught

pub respond-IsBuilt : (b : Bool) (whole : PaidReply) → IsBuilt b whole (respond b whole)
respond-IsBuilt true whole = refl
respond-IsBuilt false whole = refl
