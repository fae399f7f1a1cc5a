-- ===== src/Proxy/Callback/Released.antt =====
-- What the workflow client leaves behind when it fails.
use verdikt.Base.{
  ℕ, ◌≡◌, refl, ap, ◌∙◌, Bool, true, false, List, [], ◌∷◌, Option, JsString, Result, ok, throw, ◌⊎◌,
  inl, inr, All, if◌then◌else◌, same_text_refl,
}
use verdikt.Base.Dict.{set, get-set}
use verdikt.Proxy.Pending.{
  VerificationFailure, trigger_rejected, Event, waits, cancels, Registry, registry_step,
}
use verdikt.Proxy.Pending.Answered.{IsWait, ends, Waiting, Idle, step-Waiting, step-Idle}
use verdikt.Proxy.Callback.{WorkflowResult}
use verdikt.Proxy.Callback.Client.{
  GatewayAnswer, TriggerProblem, trigger, threw, waiting, through, conclude, verify,
}

-- The waiter is there, or it is not and no timer runs.
abbrev Left : JsString → ℕ → Registry WorkflowResult → Type 0
Left id waiter s = Waiting WorkflowResult id waiter s ⊎ Idle WorkflowResult id s

step-Left :
    (id : JsString) (waiter : ℕ) (e : Event WorkflowResult) (s : Registry WorkflowResult)
    → ¬ (IsWait WorkflowResult e)
    → Left id waiter s
    → Left id waiter (registry_step WorkflowResult id e s).1
step-Left id waiter e s n (inl w) =
    by_end _ _ (ends WorkflowResult waiter e) (step-Waiting WorkflowResult id waiter e s n w)
  where
    by_end :
        (Q S : Type 0) (b : Bool)
        → (if b
            then Idle WorkflowResult id (registry_step WorkflowResult id e s).1 × Q
            else Waiting WorkflowResult id waiter (registry_step WorkflowResult id e s).1 × S)
        → Left id waiter (registry_step WorkflowResult id e s).1
    by_end Q S true (p, q) = inr p
    by_end Q S false (r, s) = inl r
step-Left id waiter e s n (inr i) = inr (step-Idle WorkflowResult id e s n i).0

through-Left :
    (id : JsString) (waiter : ℕ) (events : List (Event WorkflowResult))
    (s : Registry WorkflowResult)
    → All (λ e. ¬ (IsWait WorkflowResult e)) events
    → Left id waiter s
    → Left id waiter (through id events s).1
unfolding through
through-Left id waiter [] s n l = l
through-Left id waiter (e ∷ events) s (n, ns) l =
    through-Left id waiter events (registry_step WorkflowResult id e s).1 ns
      (step-Left id waiter e s n l)

cancel-Idle :
    (id : JsString) (waiter : ℕ) (failure : VerificationFailure) (message : JsString)
    (s : Registry WorkflowResult)
    → Left id waiter s
    → Idle WorkflowResult id (registry_step WorkflowResult id (cancels failure message) s).1
cancel-Idle id waiter failure message s (inl w) =
    (step-Waiting WorkflowResult id waiter (cancels failure message) s (λ h. h) w).0
cancel-Idle id waiter failure message s (inr i) =
    (step-Idle WorkflowResult id (cancels failure message) s (λ h. h) i).0

-- The wait is registered before the trigger is sent, and a trigger that fails in any way is
-- reported as rejected and leaves nobody waiting and no timer running, whatever callbacks came
-- before it failed. A trigger that is accepted is the only way to go on waiting.
pub verify-released :
    (message_of : TriggerProblem → JsString) (id : JsString) (waiter : ℕ)
    (meanwhile : List (Event WorkflowResult)) (token : Option JsString)
    (send : JsString → Option GatewayAnswer) (s : Registry WorkflowResult)
    → All (λ e. ¬ (IsWait WorkflowResult e)) meanwhile
    → s.running ≡ []
    → let v = verify message_of id waiter meanwhile token send s in
      ((problem : TriggerProblem) × (trigger token send ≡ throw problem)
        × (v.result ≡ threw trigger_rejected problem)
        × Idle WorkflowResult id v.after)
      ⊎ ((trigger token send ≡ ok tt)
          × (v.result ≡ waiting waiter)
          × (v.told ≡ (through id (waits waiter ∷ meanwhile) s).0))
unfolding verify through registry_step
verify-released message_of id waiter meanwhile token send s n idle =
    by_trigger (trigger token send) refl
  where
    left : Left id waiter (through id (waits waiter ∷ meanwhile) s).1
    left =
        through-Left id waiter meanwhile
          (record { pending = set id waiter s.pending; running = waiter ∷ s.running }) n
          (inl (
            get-set id id waiter s.pending ∙ rw (same_text_refl id) refl,
            ap (λ r. waiter ∷ r) idle,
          ))

    by_trigger :
        (r : Result TriggerProblem (Unit {0}))
        → trigger token send ≡ r
        → let v = conclude message_of id waiter r (through id (waits waiter ∷ meanwhile) s) in
          ((problem : TriggerProblem) × (trigger token send ≡ throw problem)
            × (v.result ≡ threw trigger_rejected problem)
            × Idle WorkflowResult id v.after)
          ⊎ ((trigger token send ≡ ok tt)
              × (v.result ≡ waiting waiter)
              × (v.told ≡ (through id (waits waiter ∷ meanwhile) s).0))
    by_trigger (throw problem) e = inl (
      problem,
      e,
      refl,
      cancel-Idle id waiter trigger_rejected (message_of problem)
          (through id (waits waiter ∷ meanwhile) s).1 left,
    )
    by_trigger (ok done) e = inr (e, refl, refl)
