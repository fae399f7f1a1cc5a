-- ===== src/Sla/Aggregate/Ratios.antt =====
-- What the ratios say of the window, whatever the order of its verdicts.
use verdikt.Base.{
  ℕ, suc, ◌+◌, ◌*◌, ◌/◌, ◌≤◌, ◌≡◌, refl, ◌↔◌, inl, inr, Bool, true, false, ◌||◌, List, [], ◌∷◌,
  Option, none, some, JsString, ok, ◌==◌, same_text, same_text→eq, if◌then◌else◌, js, arith, All,
  length, Bool-cases, ok-injective, >>=-eq-ok,
}
use native.Mathlib.Nat.{div-le_of_le-mul, le-div_iff_mul-le}
use mathlib.Core.List.{Permᴰ}
use verdikt.Sla.Aggregate.{
  Entry, Counts, outcome_of, is, tally, ratio, scores_of, aggregate_window, no_verdicts,
  ReputationScores,
}
use verdikt.Base.{ap}
use verdikt.Base.{sym}
use verdikt.Base.{◌∙◌}

abbrev pub count : JsString → List Entry → ℕ
count outcome [] = 0
count outcome (e ∷ es) =
    if is (outcome_of e) outcome then suc (count outcome es) else count outcome es

is_apart :
    (o : Option JsString) (t u : JsString) → same_text t u ≡ false → is o t ≡ true → is o u ≡ false
is_apart none t u h e = cc
is_apart (some s) t u h e = rw (same_text→eq s t e) h

pass_fail : same_text (js "PASS") (js "FAIL") ≡ false
unfolding js same_text
pass_fail = refl

pass_down : same_text (js "PASS") (js "DOWN") ≡ false
unfolding js same_text
pass_down = refl

fail_down : same_text (js "FAIL") (js "DOWN") ≡ false
unfolding js same_text
fail_down = refl

abbrev known : Entry → Bool
known e =
    is (outcome_of e) (js "PASS") || is (outcome_of e) (js "FAIL") || is (outcome_of e) (js "DOWN")

abbrev pub Known : Entry → Type 0
Known e = known e ≡ true

abbrev added : Counts → List Entry → Counts
added c es = record {
  pass = c.pass + count (js "PASS") es;
  fail = c.fail + count (js "FAIL") es;
  down = c.down + count (js "DOWN") es;
}

Counts_eq : (a b : Counts) → a.pass ≡ b.pass → a.fail ≡ b.fail → a.down ≡ b.down → a ≡ b
Counts_eq a b p q r = λ i. record { pass = p i; fail = q i; down = r i }

tally-Known : (c : Counts) (es : List Entry) → All Known es → tally c es ≡ ok (added c es)
unfolding tally
tally-Known c [] h = ap ok (Counts_eq _ _ (omega arith) (omega arith) (omega arith))
tally-Known c (e ∷ es) (k, ks) = elim (Bool-cases (is (outcome_of e) (js "PASS"))) [
  | inl p ↦
      let not_f = is_apart (outcome_of e) (js "PASS") (js "FAIL") pass_fail p in
      let not_d = is_apart (outcome_of e) (js "PASS") (js "DOWN") pass_down p in
      rw p (
        tally-Known (record c { pass = c.pass + 1 }) es ks
        ∙ ap ok (Counts_eq _ _ (ground arith) (ground arith) (ground arith)))
  | inr p ↦ elim (Bool-cases (is (outcome_of e) (js "FAIL"))) [
    | inl f ↦
        let not_d = is_apart (outcome_of e) (js "FAIL") (js "DOWN") fail_down f in
        rw (p, f)
          (tally-Known (record c { fail = c.fail + 1 }) es ks
            ∙ ap ok (Counts_eq _ _ (ground arith) (ground arith) (ground arith)))
    | inr f ↦
        let d : is (outcome_of e) (js "DOWN") ≡ true = ground arith in
        rw (p, f, d)
          (tally-Known (record c { down = c.down + 1 }) es ks
            ∙ ap ok (Counts_eq _ _ (ground arith) (ground arith) (ground arith)))
  ]
]

Known-of_tally : (c : Counts) (es : List Entry) {d : Counts} → tally c es ≡ ok d → All Known es
unfolding tally
Known-of_tally c [] h = tt
Known-of_tally c (e ∷ es) {d} h = ground (
  arith,
  Known-of_tally (record c { pass = c.pass + 1 }) es {d = d},
  Known-of_tally (record c { fail = c.fail + 1 }) es {d = d},
  Known-of_tally (record c { down = c.down + 1 }) es {d = d},
)

ratio_bound : (part whole : ℕ) → part ≤ whole → ratio part whole ≤ 1000
unfolding ratio
ratio_bound part whole h = elim (Bool-cases (whole == 0)) [
  | inl e ↦ rw e (omega arith)
  | inr e ↦ rw e (div-le_of_le-mul whole (grind arith))
]

ratio_full : (part whole : ℕ) → part ≤ whole → (ratio part whole ≡ 1000) ↔ (part ≡ whole)
unfolding ratio
ratio_full part whole h = elim (Bool-cases (whole == 0)) [
  | inl e ↦ rw e (ground arith)
  | inr e ↦ rw e (
    λ full.
        let wide : 1000 * whole ≤ part * 1000 =
          (le-div_iff_mul-le (ground arith)).0 (omega (arith, full)) in
        omega arith,
    λ same.
        let wide : 1000 * whole ≤ part * 1000 = omega arith in
        let deep : 1000 ≤ part * 1000 / whole =
          (le-div_iff_mul-le {k = whole} {x = 1000} {y = part * 1000} (ground arith)).1 wide in
        let shallow : part * 1000 / whole ≤ 1000 = div-le_of_le-mul whole (omega arith) in
        omega arith,
  )
]

length-Known :
    (es : List Entry)
    → All Known es
    → count (js "PASS") es + count (js "FAIL") es + count (js "DOWN") es ≡ length es
length-Known [] h = refl
length-Known (e ∷ es) (k, ks) = ground (
  arith,
  length-Known es,
  is_apart (outcome_of e) (js "PASS") (js "FAIL") pass_fail,
  is_apart (outcome_of e) (js "PASS") (js "DOWN") pass_down,
  is_apart (outcome_of e) (js "FAIL") (js "DOWN") fail_down,
)

-- `aggregateWindow` returns exactly when every outcome is one of the three.
pub aggregate_window-ok_iff :
    (verdicts : List Entry)
    → ((s : ReputationScores) × (aggregate_window verdicts ≡ ok s)) ↔ All Known verdicts
unfolding aggregate_window
aggregate_window-ok_iff verdicts = (
  λ (s, e). Known-of_tally no_verdicts verdicts (>>=-eq-ok (tally no_verdicts verdicts) _ e).1,
  λ k. (scores_of (added no_verdicts verdicts), rw (tally-Known no_verdicts verdicts k)),
)

scores-added :
    (verdicts : List Entry) (s : ReputationScores)
    → aggregate_window verdicts ≡ ok s
    → (All Known verdicts) × (s ≡ scores_of (added no_verdicts verdicts))
unfolding aggregate_window
scores-added verdicts s e =
    let known =
      Known-of_tally no_verdicts verdicts (>>=-eq-ok (tally no_verdicts verdicts) _ e).1 in
    (known, sym (ok-injective (rw (tally-Known no_verdicts verdicts known) at e)))

-- The tallies count the verdicts of each outcome, and their sum is the number of verdicts.
pub aggregate_window-counts :
    (verdicts : List Entry) (s : ReputationScores)
    → aggregate_window verdicts ≡ ok s
    → (s.counts.pass ≡ count (js "PASS") verdicts)
      × (s.counts.fail ≡ count (js "FAIL") verdicts)
      × (s.counts.down ≡ count (js "DOWN") verdicts)
      × (s.total ≡ length verdicts)
unfolding scores_of
aggregate_window-counts verdicts s e =
    let (known, made) = scores-added verdicts s e in
    let sum = length-Known verdicts known in
    rw made (omega arith, omega arith, omega arith, omega arith)

-- Both scores are at most 1000. Conformance is 1000 exactly when no call that was answered failed,
-- and availability exactly when none was down: no score is rounded up.
pub aggregate_window-full :
    (verdicts : List Entry) (s : ReputationScores)
    → aggregate_window verdicts ≡ ok s
    → (s.conformance ≤ 1000)
      × (s.availability ≤ 1000)
      × ((s.conformance ≡ 1000) ↔ (count (js "FAIL") verdicts ≡ 0))
      × ((s.availability ≡ 1000) ↔ (count (js "DOWN") verdicts ≡ 0))
unfolding scores_of
aggregate_window-full verdicts s e =
    let (known, made) = scores-added verdicts s e in
    let p = count (js "PASS") verdicts in
    let f = count (js "FAIL") verdicts in
    let d = count (js "DOWN") verdicts in
    let conf = ratio_full (0 + p) (0 + p + (0 + f)) (omega arith) in
    let avail = ratio_full (0 + p + (0 + f)) (0 + p + (0 + f) + (0 + d)) (omega arith) in
    rw made (
      ratio_bound _ _ (omega arith),
      ratio_bound _ _ (omega arith),
      (λ h. let e : 0 + p ≡ 0 + p + (0 + f) = conf.0 h in omega arith, λ h. conf.1 (omega arith)),
      (
        λ h. let e : 0 + p + (0 + f) ≡ 0 + p + (0 + f) + (0 + d) = avail.0 h in omega arith,
        λ h. avail.1 (omega arith),
      ),
    )

count-perm : (t : JsString) {xs ys : List Entry} → Permᴰ xs ys → count t xs ≡ count t ys
count-perm t Permᴰ.nil = refl
count-perm t (Permᴰ.cons {a} {b} e h) = rw e (ground (arith, count-perm t h))
count-perm t (Permᴰ.swap {a} {b} {a'} {b'} e e') = rw (e, e') (ground arith)
count-perm t (Permᴰ.trans h k) = count-perm t h ∙ count-perm t k

Known-perm : {xs ys : List Entry} → Permᴰ xs ys → All Known xs → All Known ys
Known-perm Permᴰ.nil k = tt
Known-perm (Permᴰ.cons e h) (k, ks) = (rw (← e) k, Known-perm h ks)
Known-perm (Permᴰ.swap e e') (k, (k', ks)) = (rw (← e') k', (rw (← e) k, ks))
Known-perm (Permᴰ.trans h h') k = Known-perm h' (Known-perm h k)

-- The scores do not depend on the order in which the events of a window arrive.
pub aggregate_window-perm :
    (xs ys : List Entry) (s : ReputationScores)
    → Permᴰ xs ys
    → aggregate_window xs ≡ ok s
    → aggregate_window ys ≡ ok s
unfolding aggregate_window
aggregate_window-perm xs ys s h e =
    let (known, made) = scores-added xs s e in
    let same : added no_verdicts ys ≡ added no_verdicts xs =
      Counts_eq _ _ (ap (λ n. 0 + n) (sym (count-perm (js "PASS") h)))
        (ap (λ n. 0 + n) (sym (count-perm (js "FAIL") h)))
        (ap (λ n. 0 + n) (sym (count-perm (js "DOWN") h))) in
    rw (tally-Known no_verdicts ys (Known-perm h known))
      (ap (λ c. ok (scores_of c)) same ∙ ap ok (sym made))
