-- ===== src/Proxy/Pending/Answered.antt =====
-- A waiter of the registry is answered once.
use verdikt.Base.{
  ℕ, suc, ◌+◌, ◌≡◌, refl, ap, ◌∙◌, Bool, true, false, ◌||◌, List, [], ◌∷◌, ◌++◌, none, some,
  JsString, ◌==◌, ==_refl, any, All, Bool-cases, inl, inr, if◌then◌else◌, same_text_refl, arith,
}
use verdikt.Base.Dict.{get, set, get-set, get-delete}
use verdikt.Proxy.Pending.{
  Outcome, Event, waits, settles, cancels, fires, Answer, answered, delivered, refused, Registry,
  registry_step, registry_run, hand_over, clear,
}
use verdikt.Base.Dict.{delete}

module _ (R : Type 0) where
  abbrev pub IsWait : Event R → Type 0
  IsWait (waits waiter) = Unit
  IsWait _ = ⊥

  -- The events that end the wait: a callback, a failure, or the waiter's own timer.
  abbrev pub ends : ℕ → Event R → Bool
  ends waiter (waits other) = false
  ends waiter (settles r) = true
  ends waiter (cancels failure message) = true
  ends waiter (fires t) = waiter == t

  abbrev pub answers_to : ℕ → List (Answer R) → ℕ
  answers_to waiter [] = 0
  answers_to waiter (answered other outcome ∷ told) =
      if other == waiter then suc (answers_to waiter told) else answers_to waiter told
  answers_to waiter (delivered ∷ told) = answers_to waiter told
  answers_to waiter (refused ∷ told) = answers_to waiter told

  or-false : (b : Bool) → (b || false) ≡ b
  or-false true = refl
  or-false false = refl

  -- The waiter is there with its timer, or nobody is and no timer runs.
  abbrev pub Waiting : JsString → ℕ → Registry R → Type 0
  Waiting id waiter s = (get id s.pending ≡ some waiter) × (s.running ≡ waiter ∷ [])

  abbrev pub Idle : JsString → Registry R → Type 0
  Idle id s = (get id s.pending ≡ none) × (s.running ≡ [])

  clear-own : (waiter : ℕ) → clear R (some waiter) (waiter ∷ []) ≡ []
  clear-own waiter = rw (==_refl waiter) refl

  gone :
      (id : JsString) (waiter : ℕ) (s : Registry R)
      → Waiting id waiter s
      → get id (delete id s.pending) ≡ none
  gone id waiter s w = get-delete id id s.pending ∙ rw (same_text_refl id) refl

  answers_to-append :
      (waiter : ℕ) (xs ys : List (Answer R))
      → answers_to waiter (xs ++ ys) ≡ answers_to waiter xs + answers_to waiter ys
  answers_to-append waiter [] ys = omega arith
  answers_to-append waiter (answered other outcome ∷ xs) ys =
      ground (arith, answers_to-append waiter xs ys)
  answers_to-append waiter (delivered ∷ xs) ys = answers_to-append waiter xs ys
  answers_to-append waiter (refused ∷ xs) ys = answers_to-append waiter xs ys

  hand_over-Idle :
      (id : JsString) (waiter : ℕ) (outcome : Outcome R) (s : Registry R)
      → Waiting id waiter s
      → Idle id (hand_over R id outcome (get id s.pending) s).1
        × (answers_to waiter (hand_over R id outcome (get id s.pending) s).0 ≡ 1)
  hand_over-Idle id waiter outcome s (e, f) =
      rw e ((gone id waiter s (e, f), rw f (clear-own waiter)), rw (==_refl waiter) refl)

  pub step-Waiting :
      (id : JsString) (waiter : ℕ) (e : Event R) (s : Registry R)
      → ¬ (IsWait e)
      → Waiting id waiter s
      → if ends waiter e
        then Idle id (registry_step R id e s).1 × (answers_to waiter (registry_step R id e s).0 ≡ 1)
        else Waiting id waiter (registry_step R id e s).1 × ((registry_step R id e s).0 ≡ [])
  unfolding registry_step
  step-Waiting id waiter (waits other) s n w = elim (n tt) [ ]
  step-Waiting id waiter (settles r) s n w = hand_over-Idle id waiter _ s w
  step-Waiting id waiter (cancels failure message) s n w = hand_over-Idle id waiter _ s w
  step-Waiting id waiter (fires t) s n (e, f) = elim (Bool-cases (waiter == t)) [
    | inr other ↦ rw other (rw (any-running t other) ((e, f), refl))
    | inl same ↦
        rw same (rw (any-running t same) ((gone id waiter s (e, f), cleared t same), own t same))
  ]
    where
      any-running : (t : ℕ) {b : Bool} → (waiter == t) ≡ b → any (λ u. u == t) s.running ≡ b
      any-running t h = rw f (rw h (or-false _))

      cleared : (t : ℕ) → (waiter == t) ≡ true → clear R (some t) s.running ≡ []
      cleared t h = rw f (rw h refl)

      own : (t : ℕ) → (waiter == t) ≡ true → ◌≡◌ {A = ℕ} (if t == waiter then 1 else 0) 1
      own t h = ground arith

  pub step-Idle :
      (id : JsString) (e : Event R) (s : Registry R)
      → ¬ (IsWait e)
      → Idle id s
      → Idle id (registry_step R id e s).1
        × ((waiter : ℕ) → answers_to waiter (registry_step R id e s).0 ≡ 0)
  unfolding registry_step
  step-Idle id (waits other) s n i = elim (n tt) [ ]
  step-Idle id (settles r) s n (e, f) = rw e ((e, f), λ w. refl)
  step-Idle id (cancels failure message) s n (e, f) = rw e ((e, f), λ w. refl)
  step-Idle id (fires t) s n (e, f) =
      let quiet : any (λ u. u == t) s.running ≡ false = ap (any (λ u. u == t)) f in
      rw quiet ((e, f), λ w. refl)

  run-Idle :
      (id : JsString) (waiter : ℕ) (events : List (Event R)) (s : Registry R)
      → All (λ e. ¬ (IsWait e)) events
      → Idle id s
      → answers_to waiter (registry_run R id events s) ≡ 0
  unfolding registry_run
  run-Idle id waiter [] s n i = refl
  run-Idle id waiter (e ∷ events) s (n, ns) i =
      let (idle, silent) = step-Idle id e s n i in
      let told = silent waiter in
      let later = run-Idle id waiter events (registry_step R id e s).1 ns idle in
      answers_to-append waiter (registry_step R id e s).0 _ ∙ omega arith

  run-Waiting :
      (id : JsString) (waiter : ℕ) (events : List (Event R)) (s : Registry R)
      → All (λ e. ¬ (IsWait e)) events
      → Waiting id waiter s
      → answers_to waiter (registry_run R id events s) ≡ (if any (ends waiter) events then 1 else 0)
  unfolding registry_run
  run-Waiting id waiter [] s n w = refl
  run-Waiting id waiter (e ∷ events) s (n, ns) w =
      answers_to-append waiter (registry_step R id e s).0 _
      ∙ by_end (ends waiter e) (step-Waiting id waiter e s n w)
          (run-Waiting id waiter events (registry_step R id e s).1 ns)
          (run-Idle id waiter events (registry_step R id e s).1 ns)
    where
      after : List (Answer R)
      after = registry_run R id events (registry_step R id e s).1

      by_end :
          (b : Bool)
          → (if b
              then Idle id (registry_step R id e s).1
                × (answers_to waiter (registry_step R id e s).0 ≡ 1)
              else Waiting id waiter (registry_step R id e s).1 × ((registry_step R id e s).0 ≡ []))
          → (Waiting id waiter (registry_step R id e s).1
              → answers_to waiter after ≡ (if any (ends waiter) events then 1 else 0))
          → (Idle id (registry_step R id e s).1 → answers_to waiter after ≡ 0)
          → answers_to waiter (registry_step R id e s).0 + answers_to waiter after
            ≡ (if b || any (ends waiter) events then 1 else 0)
      by_end true (idle, once) more none_left = let rest = none_left idle in omega arith
      by_end false (still, silent) more none_left =
          let told = ap (answers_to waiter) silent in let rest = more still in omega arith

  -- Who waits for a request id that is fresh is answered exactly once if a callback, a failure or
  -- the timer comes, in whatever order and however often they come, and not at all otherwise.
  pub registry_run-answers :
      (id : JsString) (waiter : ℕ) (events : List (Event R)) (s : Registry R)
      → All (λ e. ¬ (IsWait e)) events
      → s.running ≡ []
      → answers_to waiter (registry_run R id (waits waiter ∷ events) s)
        ≡ (if any (ends waiter) events then 1 else 0)
  unfolding registry_run registry_step
  registry_run-answers id waiter events s n idle =
      run-Waiting id waiter events
        (record { pending = set id waiter s.pending; running = waiter ∷ s.running }) n
        (get-set id id waiter s.pending ∙ rw (same_text_refl id) refl, ap (λ r. waiter ∷ r) idle)
