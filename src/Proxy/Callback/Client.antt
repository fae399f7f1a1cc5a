-- ===== src/Proxy/Callback/Client.antt =====
-- The workflow client of proxy/src/verification.js: a wait that is registered, then a trigger.
use verdikt.Base.{
  ℕ, zero, Bool, true, false, not, ◌&&◌, List, [], ◌∷◌, ◌++◌, Option, none, some, JsString, Result,
  ok, throw, ◌>>◌, throw_if, js, same_text,
}
use verdikt.Json.{Json, null, bool, num, str}
use verdikt.Json.Numbers.{Number, pos, finite, nan}
use verdikt.Sdk.Payment.{optional_member}
use verdikt.Proxy.Pending.{
  VerificationFailure, trigger_rejected, Event, waits, cancels, Answer, registry_step,
}
use verdikt.Proxy.Callback.{WorkflowResult}
use verdikt.Proxy.Callback.{Pending}

-- What the gateway answered: the status of the response is in the range that `ok` means, and the
-- JSON of its body, where it has one.
pub record GatewayAnswer : Type 0 where
  pub is_ok : Bool
  pub answer : Option Json

abbrev not_zero : Number → Bool
not_zero nan = false
not_zero (finite (pos zero) k) = false
not_zero _ = true

-- `a ? ... : ...` of a value.
abbrev pub is_truthy : Option Json → Bool
is_truthy none = false
is_truthy (some null) = false
is_truthy (some (bool b)) = b
is_truthy (some (str [])) = false
is_truthy (some (num n)) = not_zero n
is_truthy _ = true

abbrev pub is_accepted : Option Json → Bool
is_accepted (some (str s)) = same_text s (js "ACCEPTED")
is_accepted _ = false

-- Why a trigger failed: each is a `VerificationError` of the kind `TRIGGER_REJECTED`.
pub data TriggerProblem : Type 0 where
  no_token unreachable bad_status : TriggerProblem
  gateway_error gateway_status : Option Json → TriggerProblem

abbrev status_at : Option Json → Option Json
status_at answer = optional_member (js "status") (optional_member (js "result") answer)

abbrev pub check_answer : Option GatewayAnswer → Result TriggerProblem (Unit {0})
check_answer none = throw unreachable
check_answer (some response) = do
  throw_if (not response.is_ok) bad_status
  throw_if (is_truthy (optional_member (js "error") response.answer))
      (gateway_error (optional_member (js "error") response.answer))
  throw_if (is_truthy (status_at response.answer) && not (is_accepted (status_at response.answer)))
      (gateway_status (status_at response.answer))

-- The token of the trigger, then the trigger with it.
unfoldable pub trigger :
    Option JsString → (JsString → Option GatewayAnswer) → Result TriggerProblem (Unit {0})
trigger none send = throw no_token
trigger (some token) send = check_answer (send token)

pub data Verifying : Type 0 where
  threw : VerificationFailure → TriggerProblem → Verifying
  waiting : (waiter : ℕ) → Verifying

pub record Verification : Type 0 where
  pub result : Verifying
  pub told : List (Answer WorkflowResult)
  pub after : Pending

-- What is told, and the registry after the events.
unfoldable pub through :
    JsString → List (Event WorkflowResult) → Pending → List (Answer WorkflowResult) × Pending
unfolding registry_step
through request_id [] s = ([], s)
through request_id (e ∷ events) s =
    let rest = through request_id events (registry_step WorkflowResult request_id e s).1 in
    ((registry_step WorkflowResult request_id e s).0 ++ rest.0, rest.1)

module _ (message_of : TriggerProblem → JsString) where
  abbrev pub conclude :
      JsString
      → ℕ
      → Result TriggerProblem (Unit {0})
      → List (Answer WorkflowResult) × Pending
      → Verification
  conclude request_id waiter (ok done) (told, s) = record {
    result = waiting waiter;
    told = told;
    after = s;
  }
  conclude request_id waiter (throw problem) (told, s) =
      let released =
        registry_step WorkflowResult request_id (cancels trigger_rejected (message_of problem)) s in
      record {
        result = threw trigger_rejected problem;
        told = told ++ released.0;
        after = released.1;
      }

  -- `verify` of the workflow client. `meanwhile` is what happens to the registry between the
  -- request to wait and the answer of the gateway: a callback may be there first.
  unfoldable pub verify :
      JsString
      → ℕ
      → List (Event WorkflowResult)
      → Option JsString
      → (JsString → Option GatewayAnswer)
      → Pending
      → Verification
  unfolding trigger through
  verify request_id waiter meanwhile token send s =
      conclude request_id waiter (trigger token send)
        (through request_id (waits waiter ∷ meanwhile) s)
