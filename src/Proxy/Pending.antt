-- ===== src/Proxy/Pending.antt =====
-- proxy/src/verification.js, `createPendingRegistry`, and proxy/src/pending-do.js: who waits for
-- the callback of one request id. A waiter is a number; a result is of any type.
pub mod Once
pub mod Agree
pub mod Answered
use verdikt.Base.{
  ℕ, Bool, true, false, not, ◌||◌, List, [], ◌∷◌, ◌++◌, Option, none, some, JsString, ◌==◌, is_some,
  keep, any, if◌then◌else◌,
}
use verdikt.Base.Dict.{Dict, get, set, delete}

pub data VerificationFailure : Type 0 where
  workflow_timeout trigger_rejected run_failed : VerificationFailure

module _ (R : Type 0) where
  pub data Outcome : Type 0 where
    result : R → Outcome
    error : VerificationFailure → (message : JsString) → Outcome
    timeout : Outcome

  -- One requests to wait, a callback settles, the caller cancels, a timer fires.
  pub data Event : Type 0 where
    waits : (waiter : ℕ) → Event
    settles : R → Event
    cancels : VerificationFailure → (message : JsString) → Event
    fires : (timer : ℕ) → Event

  -- What is answered: to a waiter, or to who settles or cancels.
  pub data Answer : Type 0 where
    answered : (waiter : ℕ) → Outcome → Answer
    delivered refused : Answer

  -- The fields of a `PendingVerification`, and the timers that run. A timer bears the number of
  -- its waiter.
  pub record PendingVerification : Type 0 where
    pub registered : Bool
    pub outcome : Option Outcome
    pub notify : Option ℕ
    pub timer : Option ℕ
    pub running : List ℕ

  abbrev pub fresh : PendingVerification
  fresh = record { registered = false; outcome = none; notify = none; timer = none; running = [] }

  -- `clearTimeout`
  abbrev pub clear : Option ℕ → List ℕ → List ℕ
  clear none running = running
  clear (some t) running = keep (λ u. not (u == t)) running

  abbrev pub notified : Option ℕ → Outcome → List Answer
  notified none outcome = []
  notified (some waiter) outcome = answered waiter outcome ∷ []

  abbrev pub wait_for : Option Outcome → ℕ → PendingVerification → List Answer × PendingVerification
  wait_for (some outcome) waiter s = (
    answered waiter outcome ∷ [],
    record {
      registered = true;
      outcome = some outcome;
      notify = s.notify;
      timer = s.timer;
      running = s.running;
    },
  )
  wait_for none waiter s = (
    [],
    record {
      registered = true;
      outcome = none;
      notify = some waiter;
      timer = some waiter;
      running = waiter ∷ s.running;
    },
  )

  -- `#finish`: nobody waited, or it is done already, or the waiter is told.
  abbrev pub finish : Outcome → PendingVerification → List Answer × PendingVerification
  finish outcome s = if not s.registered || is_some s.outcome then (refused ∷ [], s) else (
    notified s.notify outcome ++ delivered ∷ [],
    record {
      registered = true;
      outcome = some outcome;
      notify = none;
      timer = s.timer;
      running = clear s.timer s.running;
    },
  )

  -- Nobody reads what `#finish` answers to a timer.
  abbrev pub only_waiters : List Answer → List Answer
  only_waiters [] = []
  only_waiters (answered waiter outcome ∷ told) = answered waiter outcome ∷ only_waiters told
  only_waiters (delivered ∷ told) = only_waiters told
  only_waiters (refused ∷ told) = only_waiters told

  abbrev pub quiet : List Answer × PendingVerification → List Answer × PendingVerification
  quiet (told, s) = (only_waiters told, s)

  abbrev pub without_timer : ℕ → PendingVerification → PendingVerification
  without_timer t s = record {
    registered = s.registered;
    outcome = s.outcome;
    notify = s.notify;
    timer = s.timer;
    running = clear (some t) s.running;
  }

  -- A timer fires only if it runs.
  unfoldable pub step : Event → PendingVerification → List Answer × PendingVerification
  step (waits waiter) s = wait_for s.outcome waiter s
  step (settles r) s = finish (result r) s
  step (cancels failure message) s = finish (error failure message) s
  step (fires t) s =
      if any (λ u. u == t) s.running then quiet (finish timeout (without_timer t s)) else ([], s)

  unfoldable pub run : List Event → PendingVerification → List Answer
  unfolding step
  run [] s = []
  run (e ∷ events) s = (step e s).0 ++ run events (step e s).1

  -- The `Map` of the in-memory registry, and the timers that run.
  pub record Registry : Type 0 where
    pub pending : Dict ℕ
    pub running : List ℕ

  abbrev pub empty_registry : Registry
  empty_registry = record { pending = []; running = [] }

  -- `waiter.resolve` or `waiter.reject`, then `true`; without a waiter `false`.
  abbrev pub hand_over : JsString → Outcome → Option ℕ → Registry → List Answer × Registry
  hand_over request_id outcome none s = (refused ∷ [], s)
  hand_over request_id outcome (some waiter) s = (
    answered waiter outcome ∷ delivered ∷ [],
    record { pending = delete request_id s.pending; running = clear (some waiter) s.running },
  )

  unfoldable pub registry_step : JsString → Event → Registry → List Answer × Registry
  registry_step request_id (waits waiter) s =
      ([], record { pending = set request_id waiter s.pending; running = waiter ∷ s.running })
  registry_step request_id (settles r) s =
      hand_over request_id (result r) (get request_id s.pending) s
  registry_step request_id (cancels failure message) s =
      hand_over request_id (error failure message) (get request_id s.pending) s
  registry_step request_id (fires t) s =
      if any (λ u. u == t) s.running
      then (
        answered t timeout ∷ [],
        record { pending = delete request_id s.pending; running = clear (some t) s.running },
      )
      else ([], s)

  unfoldable pub registry_run : JsString → List Event → Registry → List Answer
  unfolding registry_step
  registry_run request_id [] s = []
  registry_run request_id (e ∷ events) s =
      (registry_step request_id e s).0
      ++ registry_run request_id events (registry_step request_id e s).1
