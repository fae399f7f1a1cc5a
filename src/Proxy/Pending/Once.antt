-- ===== src/Proxy/Pending/Once.antt =====
-- A pending verification is answered once.
use verdikt.Base.{
  ℕ, ◌≡◌, refl, sym, List, [], ◌∷◌, ◌++◌, Option, none, some, ◌==◌, any, All, Bool-cases, inl, inr,
  subst, some-injective, ap, ◌∙◌,
}
use verdikt.Proxy.Pending.{
  Outcome, result, error, timeout, Event, waits, settles, cancels, fires, Answer, answered, refused,
  PendingVerification, fresh, wait_for, finish, quiet, without_timer, step, run,
}

module _ (R : Type 0) where
  -- What an event comes to after the outcome: a waiter gets that outcome, a callback and a
  -- cancellation are refused, and a timer does nothing.
  abbrev pub expected : Outcome R → Event R → List (Answer R)
  expected o (waits waiter) = answered waiter o ∷ []
  expected o (settles r) = refused ∷ []
  expected o (cancels failure message) = refused ∷ []
  expected o (fires t) = []

  abbrev pub all_expected : Outcome R → List (Event R) → List (Answer R)
  all_expected o [] = []
  all_expected o (e ∷ events) = expected o e ++ all_expected o events

  finish-done :
      (o p : Outcome R) (s : PendingVerification R)
      → s.outcome ≡ some o
      → finish R p s ≡ (refused ∷ [], s)
  finish-done o p s h = elim (Bool-cases s.registered) [
    | inl e ↦ rw (e, h) refl
    | inr e ↦ rw e refl
  ]

  -- An answer that is the expected one, and a state that keeps the outcome.
  abbrev Kept : Outcome R → List (Answer R) → List (Answer R) × PendingVerification R → Type 0
  Kept o told r = (r.0 ≡ told) × (r.1.outcome ≡ some o)

  wait_for-Kept :
      (o : Outcome R) (q : Option (Outcome R)) (waiter : ℕ) (s : PendingVerification R)
      → q ≡ some o
      → Kept o (answered waiter o ∷ []) (wait_for R q waiter s)
  wait_for-Kept o none waiter s h = cc
  wait_for-Kept o (some o') waiter s h = (ap (λ p. answered waiter p ∷ []) (some-injective h), h)

  finish-Kept :
      (o p : Outcome R) (s : PendingVerification R)
      → s.outcome ≡ some o
      → Kept o (refused ∷ []) (finish R p s)
  finish-Kept o p s h = subst (Kept o (refused ∷ [])) (sym (finish-done o p s h)) (refl, h)

  fire-Kept :
      (o : Outcome R) (s : PendingVerification R)
      → s.outcome ≡ some o
      → Kept o [] (quiet R (finish R timeout s))
  fire-Kept o s h = subst (λ r. Kept o [] (quiet R r)) (sym (finish-done o timeout s h)) (refl, h)

  step-Kept :
      (e : Event R) (o : Outcome R) (s : PendingVerification R)
      → s.outcome ≡ some o
      → Kept o (expected o e) (step R e s)
  unfolding step
  step-Kept (waits waiter) o s h = wait_for-Kept o s.outcome waiter s h
  step-Kept (settles r) o s h = finish-Kept o (result r) s h
  step-Kept (cancels failure message) o s h = finish-Kept o (error failure message) s h
  step-Kept (fires t) o s h = elim (Bool-cases (any (λ u. u == t) s.running)) [
    | inl e ↦ rw e (fire-Kept o (without_timer R t s) h)
    | inr e ↦ rw e (refl, h)
  ]

  -- After a request id has its outcome, in any sequence of events every waiter is answered, at
  -- once, exactly once and with that outcome; every callback and every cancellation is refused; and
  -- a timer answers nobody. These are all the answers, in the order of the events.
  pub run-follows :
      (events : List (Event R)) (o : Outcome R) (s : PendingVerification R)
      → s.outcome ≡ some o
      → run R events s ≡ all_expected o events
  unfolding run
  run-follows [] o s h = refl
  run-follows (e ∷ events) o s h =
      let (now, kept) = step-Kept e o s h in
      ap (λ told. told ++ run R events (step R e s).1) now
      ∙ ap (λ told. expected o e ++ told) (run-follows events o (step R e s).1 kept)

  abbrev pub IsRefused : Answer R → Type 0
  IsRefused a = a ≡ refused

  abbrev pub NoWait : Event R → Type 0
  NoWait (waits waiter) = ⊥
  NoWait (settles r) = Unit
  NoWait (cancels failure message) = Unit
  NoWait (fires t) = Unit

  -- A request id that nobody waits for accepts nothing: each callback and each cancellation is
  -- refused.
  pub run-unregistered :
      (events : List (Event R)) → All NoWait events → All IsRefused (run R events (fresh R))
  unfolding run step
  run-unregistered [] h = tt
  run-unregistered (waits waiter ∷ events) (f, h) = absurd f
  run-unregistered (settles r ∷ events) (_, h) = (refl, run-unregistered events h)
  run-unregistered (cancels failure message ∷ events) (_, h) = (refl, run-unregistered events h)
  run-unregistered (fires t ∷ events) (_, h) = run-unregistered events h
