-- ===== src/Proxy/Pending/Agree.antt =====
-- The registry in memory and the Durable Object do the same for a request id that is waited for
-- once, as `verify` does.
use verdikt.Base.{
  ℕ, ◌≡◌, refl, ap, ◌∙◌, true, List, [], ◌∷◌, ◌++◌, none, some, JsString, ◌==◌, ==_iff, ==_refl,
  All, Bool-cases, inl, inr, same_text_refl,
}
use verdikt.Base.Dict.{Dict, get, set, delete, get-set, get-delete}
use verdikt.Proxy.Pending.{
  Outcome, result, error, timeout, Event, waits, settles, cancels, fires, answered, delivered,
  refused, PendingVerification, fresh, step, run, empty_registry, hand_over, registry_step,
  registry_run, finish, clear,
}
use verdikt.Proxy.Pending.Once.{NoWait}

module _ (R : Type 0) (id : JsString) (w : ℕ) where
  -- While `w` waits.
  abbrev waiting : PendingVerification R
  waiting = record {
    registered = true;
    outcome = none;
    notify = some w;
    timer = some w;
    running = w ∷ [];
  }

  abbrev settled : Outcome R → PendingVerification R
  settled o = record {
    registered = true;
    outcome = some o;
    notify = none;
    timer = some w;
    running = [];
  }

  cleared : clear R (some w) (w ∷ []) ≡ []
  cleared = rw (==_refl w) refl

  deleted : (m : Dict ℕ) → get id (delete id m) ≡ none
  deleted m = get-delete id id m ∙ rw (same_text_refl id) refl

  -- After the outcome both refuse.
  after :
      (events : List (Event R)) (o : Outcome R) (m : Dict ℕ)
      → All (NoWait R) events
      → get id m ≡ none
      → run R events (settled o) ≡ registry_run R id events (record { pending = m; running = [] })
  unfolding run registry_run step registry_step
  after [] o m h g = refl
  after (waits v ∷ events) o m (f, h) g = absurd f
  after (settles r ∷ events) o m (_, h) g = rw g (ap (λ l. refused ∷ l) (after events o m h g))
  after (cancels failure message ∷ events) o m (_, h) g =
      rw g (ap (λ l. refused ∷ l) (after events o m h g))
  after (fires t ∷ events) o m (_, h) g = after events o m h g

  -- One event while `w` waits.
  finished :
      (events : List (Event R)) (o : Outcome R) (m : Dict ℕ)
      → All (NoWait R) events
      → get id m ≡ some w
      → ((finish R o waiting).0 ++ run R events (finish R o waiting).1) ≡ (
          (hand_over R id o (get id m) (record { pending = m; running = w ∷ [] })).0
          ++ registry_run R id events
              (hand_over R id o (get id m) (record { pending = m; running = w ∷ [] })).1)
  finished events o m h g =
      rw (g, cleared)
        (ap (λ l. answered w o ∷ delivered ∷ l) (after events o (delete id m) h (deleted m)))

  during :
      (events : List (Event R)) (m : Dict ℕ)
      → All (NoWait R) events
      → get id m ≡ some w
      → run R events waiting ≡ registry_run R id events (record { pending = m; running = w ∷ [] })
  unfolding run registry_run step registry_step
  during [] m h g = refl
  during (waits v ∷ events) m (f, h) g = absurd f
  during (settles r ∷ events) m (_, h) g = finished events (result r) m h g
  during (cancels failure message ∷ events) m (_, h) g =
      finished events (error failure message) m h g
  during (fires t ∷ events) m (_, h) g = elim (Bool-cases (w == t)) [
    | inl e ↦
        let same = (==_iff w t).0 e in
        rw e (
          rw (← same)
            (ap (λ l. answered w timeout ∷ l) (after events timeout (delete id m) h (deleted m))))
    | inr e ↦ rw e (during events m h g)
  ]

  -- When one caller waits and then callbacks, cancellations and timers come in any order, the
  -- Durable Object gives the answers that the registry in memory gives.
  pub run-registry_run :
      (events : List (Event R))
      → All (NoWait R) events
      → run R (waits w ∷ events) (fresh R) ≡ registry_run R id (waits w ∷ events) (empty_registry R)
  unfolding run registry_run step registry_step
  run-registry_run events h =
      during events (set id w []) h (get-set id id w [] ∙ rw (same_text_refl id) refl)
