-- ===== src/Proxy/Callback/Examples.antt =====
-- Callbacks and triggers, run, and the theorems at them.
use verdikt.Base.{
  ℕ, ◌≡◌, refl, Bool, true, false, List, [], ◌∷◌, ◌++◌, Option, none, some, JsString, Result, ok,
  throw, ◌⊎◌, inl, inr, js, All, any, if◌then◌else◌,
}
use verdikt.Base.Dict.{get}
use verdikt.Json.{Json, str, obj, object}
use verdikt.Proxy.Pending.{
  trigger_rejected, Event, waits, settles, cancels, fires, Answer, answered, delivered, refused,
  result, Registry, empty_registry, registry_run,
}
use verdikt.Proxy.Pending.Answered.{ends, answers_to, Idle, registry_run-answers}
use verdikt.Proxy.Callback.{WorkflowResult, Pending, handle_callback, unauthorized, result_of}
use verdikt.Proxy.Callback.Client.{
  GatewayAnswer, TriggerProblem, trigger, threw, waiting, through, verify,
}
use verdikt.Proxy.Callback.Settled.{Untouched, Settles, handle_callback-cases}
use verdikt.Proxy.Callback.Released.{verify-released}

abbrev callback_payload : Json
callback_payload =
    obj (object ((js "requestId", str (js "r1")) ∷ (js "outcome", str (js "PASS")) ∷ []))

abbrev reads_payload : JsString → Option Json
reads_payload body = some callback_payload

abbrev ascii : JsString → List ℕ
ascii text = text

abbrev one_waits : Pending
one_waits = record { pending = (js "r1", 4) ∷ []; running = 4 ∷ [] }

callback_accepted :
    (handle_callback reads_payload ascii
      (some (js "secret"))
      (some (js "Bearer secret"))
      []
      (some one_waits)).told
    ≡ answered 4 (result (result_of callback_payload)) ∷ delivered ∷ []
unfolding handle_callback get verdikt.Proxy.Pending.registry_step
callback_accepted = refl

callback_refused :
    (handle_callback reads_payload ascii
      (some (js "secret"))
      (some (js "Bearer secrex"))
      []
      (some one_waits)).reply
    ≡ unauthorized
unfolding handle_callback
callback_refused = refl

handle_callback-cases_example :
    let h =
      handle_callback reads_payload ascii
        (some (js "secret"))
        (some (js "Bearer secret"))
        []
        (some one_waits) in
    Untouched reads_payload ascii (some one_waits) h
    ⊎ Settles reads_payload ascii
        (some (js "secret"))
        (some (js "Bearer secret"))
        []
        (some one_waits)
        h
handle_callback-cases_example =
    handle_callback-cases reads_payload ascii (some (js "secret")) (some (js "Bearer secret")) []
      (some one_waits)

abbrev no_message : TriggerProblem → JsString
no_message problem = []

abbrev refusing_gateway : JsString → Option GatewayAnswer
refusing_gateway token = some (record { is_ok = false; answer = none })

-- The callback comes before the gateway refuses.
abbrev early : List (Event WorkflowResult)
early = settles (result_of callback_payload) ∷ []

early_told :
    (verify no_message
      (js "r1")
      4
      early
      (some (js "t"))
      refusing_gateway
      (empty_registry WorkflowResult)).told
    ≡ answered 4 (result (result_of callback_payload)) ∷ delivered ∷ refused ∷ []
unfolding verify get verdikt.Base.Dict.set verdikt.Base.same_text js verdikt.Base.Dict.delete
early_told = refl

verify-released_example :
    let v =
      verify no_message
        (js "r1")
        4
        early
        (some (js "t"))
        refusing_gateway
        (empty_registry WorkflowResult) in
    ((problem : TriggerProblem) × (trigger (some (js "t")) refusing_gateway ≡ throw problem)
      × (v.result ≡ threw trigger_rejected problem)
      × Idle WorkflowResult (js "r1") v.after)
    ⊎ ((trigger (some (js "t")) refusing_gateway ≡ ok tt)
        × (v.result ≡ waiting 4)
        × (v.told ≡ (through (js "r1") (waits 4 ∷ early) (empty_registry WorkflowResult)).0))
verify-released_example =
    verify-released no_message (js "r1") 4 early (some (js "t")) refusing_gateway
      (empty_registry WorkflowResult) ((λ h. h), tt) refl

abbrev crowded : List (Event ℕ)
crowded = fires 9 ∷ settles 1 ∷ fires 4 ∷ settles 2 ∷ []

registry_run-answers_example :
    answers_to ℕ 4 (registry_run ℕ (js "r1") (waits 4 ∷ crowded) (empty_registry ℕ))
    ≡ (if any (ends ℕ 4) crowded then 1 else 0)
registry_run-answers_example =
    registry_run-answers ℕ (js "r1") 4 crowded (empty_registry ℕ)
      ((λ h. h), ((λ h. h), ((λ h. h), ((λ h. h), tt)))) refl
