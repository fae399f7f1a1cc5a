-- ===== src/Cre/RelayPayload.antt =====
-- cre/lib/relay-payload.js: trimming the relayed body until the payload fits. `JSON.stringify` of
-- the envelope and the count of UTF-8 bytes are parameters.
pub mod Prefix
mod Examples
use verdikt.Base.{
  ℕ, zero, suc, ◌+◌, ◌-◌, Bool, true, false, List, [], ◌∷◌, Option, none, some, JsString, length,
  take, leb, ◌==◌, max, if◌then◌else◌,
}

abbrev pub response_budget_bytes : ℕ
response_budget_bytes = 90000

abbrev pub fit_attempts : ℕ
fit_attempts = 8

abbrev pub text_or_empty : Option JsString → JsString
text_or_empty none = []
text_or_empty (some body) = body

module _ (serialize : JsString → Bool → JsString) (byte_length : JsString → ℕ) (budget : ℕ) where
  -- What is left of a body whose payload is over the budget.
  abbrev pub shrink : JsString → JsString → JsString
  shrink body payload = take (length body - max (byte_length payload - budget) 1) body

  -- The loop, by the attempts that are left.
  unfoldable pub fit_loop : ℕ → JsString → JsString → JsString
  fit_loop zero body payload = payload
  fit_loop (suc attempts) body payload =
      let rest = fit_loop attempts (shrink body payload) (serialize (shrink body payload) true) in
      if length body == 0
      then payload
      else if leb (byte_length payload) budget
      then payload
      else rest

  unfoldable pub fit_to_budget : Option JsString → JsString
  fit_to_budget body =
      if leb (byte_length (serialize (text_or_empty body) false)) budget
      then serialize (text_or_empty body) false
      else fit_loop fit_attempts (text_or_empty body) (serialize (text_or_empty body) false)
