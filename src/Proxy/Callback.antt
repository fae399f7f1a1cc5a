-- ===== src/Proxy/Callback.antt =====
-- `handleCallback` and `bearerMatches` of proxy/src/router.js, and `parseWorkflowResult` of
-- proxy/src/verification.js, over the registry of pending verifications that is in memory. The UTF-8 encoder and `JSON.parse` are parameters.
pub mod Client
pub mod Settled
pub mod Released
mod Examples
use verdikt.Base.{
  ℕ, zero, Bool, true, false, not, ◌&&◌, ◌||◌, List, [], ◌∷◌, ◌++◌, Option, none, some, JsString,
  Result, ok, throw, ◌>>=◌, ◌>>◌, throw_if, js, same_text, starts_with, drop, if◌then◌else◌,
}
use verdikt.Base.Dict.{get}
use verdikt.Json.{Json, null, bool, num, str, arr, obj, nil, end}
use verdikt.Json.Numbers.{Number, pos, finite, nan}
use verdikt.Sdk.Payment.{member_of, optional_member, nullish_or}
use verdikt.Proxy.Pending.{
  VerificationFailure, workflow_timeout, trigger_rejected, run_failed, Outcome, Event, waits,
  settles, cancels, fires, Answer, answered, delivered, refused, Registry, empty_registry,
  registry_step,
}

-- The members are what the callback sent; nothing checks their types but those read here.
pub record WorkflowResult : Type 0 where
  pub outcome : Json
  pub mode : Option Json
  pub reason : Json
  pub clauses : Json
  pub tx : Json
  pub status : Option Number
  pub headers : Json
  pub body : JsString
  pub body_truncated : Bool

abbrev pub Pending : Type 0
Pending = Registry WorkflowResult

pub data ResultFault : Type 0 where
  not_json : ResultFault
  verification : VerificationFailure → ResultFault

-- `a ?? b`
abbrev pub value_or : Option Json → Json → Json
value_or none other = other
value_or (some null) other = other
value_or (some v) other = v

abbrev pub number_or_null : Option Json → Option Number
number_or_null (some (num n)) = some n
number_or_null _ = none

abbrev pub text_or_empty : Option Json → JsString
text_or_empty (some (str s)) = s
text_or_empty _ = []

abbrev pub is_true : Option Json → Bool
is_true (some (bool b)) = b
is_true _ = false

abbrev pub result_of : Json → WorkflowResult
result_of result = record {
  outcome = value_or (member_of (js "outcome") result) null;
  mode = member_of (js "mode") result;
  reason = value_or (member_of (js "reason") result) null;
  clauses = value_or (member_of (js "clauses") result) (arr nil);
  tx = value_or (member_of (js "tx") result) null;
  status = number_or_null (member_of (js "status") result);
  headers = value_or (member_of (js "headers") result) (obj end);
  body = text_or_empty (member_of (js "body") result);
  body_truncated = is_true (member_of (js "bodyTruncated") result);
}

abbrev pub object_result : Json → Result ResultFault WorkflowResult
object_result (obj ms) = ok (result_of (obj ms))
object_result (arr vs) = ok (result_of (arr vs))
object_result _ = throw (verification run_failed)

abbrev pub parsed_result : Option Json → Result ResultFault WorkflowResult
parsed_result none = throw not_json
parsed_result (some v) = object_result v

pub data CallbackReply : Type 0 where
  unauthorized malformed_callback missing_request_id : CallbackReply
  no_such_pending_request : (request_id : JsString) → CallbackReply
  accepted : CallbackReply
  -- The handler throws what `parseWorkflowResult` throws.
  failed : ResultFault → CallbackReply

-- The answer, who is told what, and the registry after it, if there is a workflow.
pub record Handled : Type 0 where
  pub reply : CallbackReply
  pub told : List (Answer WorkflowResult)
  pub after : Option Pending

abbrev pub unchanged : CallbackReply → Option Pending → Handled
unchanged reply workflow = record { reply = reply; told = []; after = workflow }

-- What `settle` returns.
abbrev pub was_delivered : List (Answer WorkflowResult) → Bool
was_delivered [] = false
was_delivered (answered waiter outcome ∷ told) = was_delivered told
was_delivered (delivered ∷ told) = true
was_delivered (refused ∷ told) = false

abbrev pub settled : JsString → List (Answer WorkflowResult) × Pending → Handled
settled request_id (told, after) = record {
  reply = if was_delivered told then accepted else no_such_pending_request request_id;
  told = told;
  after = some after;
}

module _ (parse_json : JsString → Option Json) (utf8 : JsString → List ℕ) where
  unfoldable pub parse_workflow_result : Json → Result ResultFault WorkflowResult
  parse_workflow_result (str s) = parsed_result (parse_json s)
  parse_workflow_result (obj ms) = object_result (obj ms)
  parse_workflow_result (arr vs) = object_result (arr vs)
  parse_workflow_result null = object_result null
  parse_workflow_result (bool b) = object_result (bool b)
  parse_workflow_result (num n) = object_result (num n)

  -- Two lists of bytes are equal where their lengths are and `timingSafeEqual` says so.
  unfoldable pub bearer_matches : Option JsString → JsString → Bool
  unfolding starts_with js same_text
  bearer_matches none expected = false
  bearer_matches (some header) expected =
      if starts_with (js "Bearer ") header
      then same_text (utf8 (drop 7 header)) (utf8 expected)
      else false

  abbrev pub settle_with : JsString → Result ResultFault WorkflowResult → Pending → Handled
  settle_with request_id (throw fault) s = unchanged (failed fault) (some s)
  settle_with request_id (ok result) s =
      settled request_id (registry_step WorkflowResult request_id (settles result) s)

  -- `workflow?.pending?.settle(...)`: without a workflow the payload is not parsed.
  abbrev pub settle_for : JsString → Json → Option Pending → Handled
  settle_for request_id payload none = unchanged (no_such_pending_request request_id) none
  settle_for request_id payload (some s) = settle_with request_id (parse_workflow_result payload) s

  abbrev pub handle_id : Option Json → Json → Option Pending → Handled
  handle_id (some (str request_id)) payload workflow = settle_for request_id payload workflow
  handle_id _ payload workflow = unchanged missing_request_id workflow

  abbrev pub handle_payload : Option Json → Option Pending → Handled
  handle_payload none workflow = unchanged malformed_callback workflow
  handle_payload (some payload) workflow =
      handle_id (member_of (js "requestId") payload) payload workflow

  -- The token that is configured, the `authorization` header, and the body.
  unfoldable pub handle_callback :
      Option JsString → Option JsString → JsString → Option Pending → Handled
  unfolding bearer_matches parse_workflow_result
  handle_callback none header body workflow = unchanged unauthorized workflow
  handle_callback (some []) header body workflow = unchanged unauthorized workflow
  handle_callback (some (c ∷ cs)) header body workflow =
      if bearer_matches header (c ∷ cs)
      then handle_payload (parse_json body) workflow
      else unchanged unauthorized workflow
