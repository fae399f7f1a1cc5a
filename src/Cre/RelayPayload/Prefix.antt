-- ===== src/Cre/RelayPayload/Prefix.antt =====
-- What is relayed of a body that is too long.
use verdikt.Base.{
  ℕ, zero, suc, ◌-◌, ◌≤◌, ◌<◌, ◌≡◌, refl, sym, ap, subst, Bool, true, false, [], ◌∷◌, Option,
  JsString, length, take, length-take, leb, ◌==◌, max, arith, ◌↔◌, Bool-cases, inl, inr,
}
use verdikt.Cre.RelayPayload.{fit_loop, fit_to_budget, text_or_empty, fit_attempts}

take-take : (n m : ℕ) (s : JsString) → n ≤ m → take n (take m s) ≡ take n s
take-take zero m s h = refl
take-take (suc n) zero s h = absurd (omega arith)
take-take (suc n) (suc m) [] h = refl
take-take (suc n) (suc m) (c ∷ s) h = ap (λ l. c ∷ l) (take-take n m s (omega arith))

take-all : (s : JsString) → take (length s) s ≡ s
take-all [] = refl
take-all (c ∷ s) = ap (λ l. c ∷ l) (take-all s)

module _ (serialize : JsString → Bool → JsString) (byte_length : JsString → ℕ) (budget : ℕ)
    (full : JsString) where
  -- A payload of the first `kept` units, flagged as cut exactly when there are more.
  abbrev pub IsPrefix : JsString → Type 0
  IsPrefix payload =
      (kept : ℕ) × (truncated : Bool) × (payload ≡ serialize (take kept full) truncated)
      × (kept ≤ length full)
      × ((truncated ≡ true) ↔ (kept < length full))

  fit_loop-IsPrefix :
      (attempts kept : ℕ) (truncated : Bool)
      → kept ≤ length full
      → (truncated ≡ true) ↔ (kept < length full)
      → IsPrefix (
          fit_loop serialize byte_length budget attempts
            (take kept full)
            (serialize (take kept full) truncated))
  unfolding fit_loop
  fit_loop-IsPrefix zero kept truncated fits flag = (kept, truncated, refl, fits, flag)
  fit_loop-IsPrefix (suc attempts) kept truncated fits flag =
      elim (Bool-cases (length (take kept full) == 0)) [
        | inl e ↦ rw e (kept, truncated, refl, fits, flag)
        | inr e ↦
            elim (Bool-cases (leb (byte_length (serialize (take kept full) truncated)) budget)) [
              | inl f ↦ rw (e, f) (kept, truncated, refl, fits, flag)
              | inr f ↦
                  let over = max (byte_length (serialize (take kept full) truncated) - budget) 1 in
                  let size = length-take kept full in
                  let left = length (take kept full) - over in
                  let shorter : left < kept = ground arith in
                  let same = take-take left kept full (omega arith) in
                  rw (e, f)
                    (subst
                      (λ b.
                        IsPrefix
                          (fit_loop serialize byte_length budget attempts b (serialize b true)))
                      (sym same)
                      (fit_loop-IsPrefix attempts left true (omega arith)
                        (λ h. omega arith, λ h. refl)))
            ]
      ]

-- What is relayed is the payload of a prefix of the body, and it says that the body was truncated
-- exactly when the prefix is shorter than the body; a body whose payload is within the budget is
-- relayed whole.
pub fit_to_budget-IsPrefix :
    (serialize : JsString → Bool → JsString) (byte_length : JsString → ℕ) (budget : ℕ)
    (body : Option JsString)
    → IsPrefix serialize byte_length budget
        (text_or_empty body)
        (fit_to_budget serialize byte_length budget body)
      × (byte_length (serialize (text_or_empty body) false) ≤ budget
          → fit_to_budget serialize byte_length budget body ≡ serialize (text_or_empty body) false)
unfolding fit_to_budget
fit_to_budget-IsPrefix serialize byte_length budget body =
    elim (Bool-cases (leb (byte_length (serialize full false)) budget)) [
      | inl e ↦ rw e (
        (length full, false, ap (λ b. serialize b false) (sym (take-all full)), omega arith, whole),
        λ _. refl,
      )
      | inr e ↦ rw e (
        subst
            (λ b.
              IsPrefix serialize byte_length budget full
                (fit_loop serialize byte_length budget fit_attempts b (serialize b false)))
            (take-all full)
            (fit_loop-IsPrefix serialize byte_length budget full fit_attempts (length full) false
              (omega arith) whole),
        λ h. absurd (over (byte_length (serialize full false)) e h),
      )
    ]
  where
    full : JsString
    full = text_or_empty body

    whole : (false ≡ true) ↔ (length full < length full)
    whole = (λ h. cc, λ h. absurd (omega arith))

    over : (n : ℕ) → leb n budget ≡ false → n ≤ budget → ⊥
    over n e h = ground arith
