-- ===== src/Web/Drafts/Fresh.antt =====
-- The id that a clause gets is none of its siblings'.
use verdikt.Base.{
  ℕ, zero, suc, ◌+◌, ◌≤◌, ◌<◌, ◌≡◌, refl, sym, ap, ◌∙◌, subst, true, false, not, List, [], ◌∷◌,
  ◌++◌, JsString, same_text, same_text→eq, same_text_iff, length, map, keep, Bool-cases, inl, inr,
  ◌==◌, ==_iff, if◌then◌else◌, arith,
}
use verdikt.Json.Numbers.{Number}
use verdikt.Json.Reading.{has}
use verdikt.Sla.Document.{big_int}
use verdikt.Web.Decimals.{big_int-decimal}
use verdikt.Web.Drafts.{
  candidate, next_free, unique_id, ClauseDraft, latency, price_range, semantic, schema, ClauseKind,
  id_of, with_id, id_touched, blank, suggest_id, new_clause, refresh_id,
}

append-cancel : (xs : JsString) {ys zs : JsString} → xs ++ ys ≡ xs ++ zs → ys ≡ zs
append-cancel [] h = h
append-cancel (x ∷ xs) h = append-cancel xs (tail h)
  where
    tail : {ys zs : JsString} → ◌≡◌ {A = JsString} (x ∷ ys) (x ∷ zs) → ys ≡ zs
    tail h = cc

candidate-injective :
    (wanted : JsString) (m n : ℕ) → candidate wanted m ≡ candidate wanted n → m ≡ n
candidate-injective wanted m n h =
    sym (big_int-decimal m) ∙ ap (big_int 0) (digits (append-cancel wanted h)) ∙ big_int-decimal n
  where
    digits : {xs ys : JsString} → ◌≡◌ {A = JsString} (45 ∷ xs) (45 ∷ ys) → xs ≡ ys
    digits h = cc

-- The names without one.
abbrev without : JsString → List JsString → List JsString
without name = keep (λ t. not (same_text name t))

length-without :
    (name : JsString) (taken : List JsString) → length (without name taken) ≤ length taken
length-without name [] = omega arith
length-without name (t ∷ taken) = ground (arith, length-without name taken)

length-without-has :
    (name : JsString) (taken : List JsString)
    → has taken name ≡ true
    → length (without name taken) < length taken
length-without-has name [] h = cc
length-without-has name (t ∷ taken) h =
    ground (arith, length-without name taken, length-without-has name taken)

has-without :
    (name other : JsString) (taken : List JsString)
    → same_text name other ≡ false
    → has taken other ≡ has (without name taken) other
has-without name other [] h = refl
has-without name other (t ∷ taken) h = ground (
  arith,
  has-without name other taken,
  same_text_iff name t,
  same_text_iff name other,
  same_text_iff other t,
)

-- Of one more candidates than there are names, one is free.
free_candidate :
    (k : ℕ) (wanted : JsString) (n : ℕ) (taken : List JsString)
    → length taken ≤ k
    → (m : ℕ) × (n ≤ m) × (m ≤ n + k) × (has taken (candidate wanted m) ≡ false)
free_candidate zero wanted n [] h = (n, omega arith, omega arith, refl)
free_candidate zero wanted n (t ∷ taken) h = elim (full h) [ ]
  where
    full : suc (length taken) ≤ 0 → ⊥
    full h = omega arith
free_candidate (suc k) wanted n taken h = elim (Bool-cases (has taken (candidate wanted n))) [
  | inr free ↦ (n, omega arith, omega arith, free)
  | inl used ↦
      let fewer = length-without-has (candidate wanted n) taken used in
      let (m, l, u, free) =
        free_candidate k wanted (suc n) (without (candidate wanted n) taken) (omega arith) in
      (
        m,
        omega arith,
        omega arith,
        has-without (candidate wanted n) (candidate wanted m) taken (apart n m l) ∙ free,
      )
]
  where
    differ : (n m : ℕ) → suc n ≤ m → n ≡ m → ⊥
    differ n m l e = omega arith

    apart : (n m : ℕ) → suc n ≤ m → same_text (candidate wanted n) (candidate wanted m) ≡ false
    apart n m l = elim (Bool-cases (same_text (candidate wanted n) (candidate wanted m))) [
      | inr e ↦ e
      | inl e ↦ elim (differ n m l (candidate-injective wanted n m (same_text→eq _ _ e))) [ ]
    ]

next_free-free :
    (fuel : ℕ) (wanted : JsString) (n m : ℕ) (taken : List JsString)
    → n ≤ m
    → m ≤ n + fuel
    → has taken (candidate wanted m) ≡ false
    → has taken (next_free taken wanted fuel n) ≡ false
unfolding next_free
next_free-free zero wanted n m taken l u h =
    let same : m ≡ n = omega arith in subst (λ k. has taken (candidate wanted k) ≡ false) same h
next_free-free (suc fuel) wanted n m taken l u h =
    elim (Bool-cases (has taken (candidate wanted n))) [
      | inr free ↦ rw free free
      | inl used ↦
          rw used (next_free-free fuel wanted (suc n) m taken (later n m l used h) (omega arith) h)
    ]
  where
    later :
        (n m : ℕ)
        → n ≤ m
        → has taken (candidate wanted n) ≡ true
        → has taken (candidate wanted m) ≡ false
        → suc n ≤ m
    later n m l used free = elim (Bool-cases (n == m)) [
      | inl e ↦ let same = ap (λ k. has taken (candidate wanted k)) ((==_iff n m).0 e) in cc
      | inr e ↦ ground arith
    ]

unique_id-free :
    (wanted : JsString) (taken : List JsString) → has taken (unique_id wanted taken) ≡ false
unfolding unique_id
unique_id-free wanted taken = elim (Bool-cases (has taken wanted)) [
  | inr free ↦ rw free free
  | inl used ↦
      let (m, l, u, free) = free_candidate (length taken) wanted 2 taken (omega arith) in
      rw used (next_free-free (length taken) wanted 2 m taken l u free)
]

module _ (N : Type 0) (number_of : JsString → Number) (render : Number → JsString) where
  id_of-with_id : (id : JsString) (clause : ClauseDraft N) → id_of N (with_id N id clause) ≡ id
  id_of-with_id id (latency old touched max_ms) = refl
  id_of-with_id id (price_range old touched min max asset) = refl
  id_of-with_id id (semantic old touched criteria) = refl
  id_of-with_id id (schema old touched root) = refl

  -- The search for an id comes to an end within as many steps as there are siblings, and the id
  -- that a new clause gets, or that an untouched clause gets after an edit, is that of none of its
  -- siblings. An id that the provider touched stays.
  pub new_clause-free :
      (kind : ClauseKind) (clause : ClauseDraft N) (siblings : List (ClauseDraft N))
      → (has (map (id_of N) siblings) (id_of N (new_clause N number_of render kind siblings))
          ≡ false)
        × (id_touched N clause ≡ false
            → has (map (id_of N) siblings) (id_of N (refresh_id N number_of render clause siblings))
              ≡ false)
        × (id_touched N clause ≡ true → refresh_id N number_of render clause siblings ≡ clause)
  unfolding new_clause refresh_id
  new_clause-free kind clause siblings =
      let taken = map (id_of N) siblings in
      let new_id = unique_id (suggest_id N number_of render (blank N kind)) taken in
      let old_id = unique_id (suggest_id N number_of render clause) taken in
      (
        ap (has taken) (id_of-with_id new_id (blank N kind)) ∙ unique_id-free _ taken,
        λ h.
            ap (λ b. has taken (id_of N (if b then clause else with_id N old_id clause))) h
            ∙ ap (has taken) (id_of-with_id old_id clause)
            ∙ unique_id-free _ taken,
        λ h. rw h refl,
      )
