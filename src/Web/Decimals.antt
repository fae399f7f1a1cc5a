-- ===== src/Web/Decimals.antt =====
-- The decimal text of a number, read as a number.
use verdikt.Base.{
  ℕ, zero, suc, ◌+◌, ◌-◌, ◌*◌, ◌/◌, ◌%◌, ◌^◌, ◌≤◌, ◌<◌, ◌≡◌, sym, ap, ◌∙◌, [], ◌∷◌, JsString,
  decimal, decimal_from, ltb, length, Bool-cases, inl, inr, arith,
}
use verdikt.Sla.Document.{big_int}
use verdikt.Web.Amounts.RoundTrip.{big_int-shift, power}

last_digit : (n p b : ℕ) → n / 10 * (10 * p) + (n % 10 * p + b) ≡ n * p + b
last_digit n p b =
    let whole : n ≡ n / 10 * 10 + n % 10 = omega arith in
    expanded (n / 10) (n % 10) p b ∙ ap (λ m. m * p + b) (sym whole)
  where
    expanded : (q r p b : ℕ) → q * (10 * p) + (r * p + b) ≡ (q * 10 + r) * p + b
    expanded q r p b = grind arith

-- A digit in front of a text.
digit-value :
    (n : ℕ) (rest : JsString)
    → big_int (0 + (48 + n % 10 - 48)) rest ≡ n % 10 * 10 ^ length rest + big_int 0 rest
digit-value n rest =
    let digit : 0 + (48 + n % 10 - 48) ≡ n % 10 = omega arith in
    ap (λ m. big_int m rest) digit ∙ big_int-shift (n % 10) rest

one_digit :
    (n : ℕ) (rest : JsString)
    → n < 10
    → big_int (0 + (48 + n % 10 - 48)) rest ≡ n * 10 ^ length rest + big_int 0 rest
one_digit n rest h =
    let same : n % 10 ≡ n = omega arith in
    digit-value n rest ∙ ap (λ m. m * 10 ^ length rest + big_int 0 rest) same

tenth : (n fuel : ℕ) → n ≤ suc fuel → 10 ≤ n → n / 10 ≤ fuel
tenth n fuel h l = omega arith

decimal_from-value :
    (fuel n : ℕ) (rest : JsString)
    → n ≤ fuel
    → big_int 0 (decimal_from fuel n rest) ≡ n * 10 ^ length rest + big_int 0 rest
unfolding decimal_from big_int
decimal_from-value zero n rest h = one_digit n rest (omega arith)
decimal_from-value (suc fuel) n rest h = elim (Bool-cases (ltb n 10)) [
  | inl small ↦ rw small (one_digit n rest (ground arith))
  | inr large ↦ rw large (
      decimal_from-value fuel (n / 10) ((48 + n % 10) ∷ rest) (tenth n fuel h (ground arith))
      ∙ rw (power (length rest), digit-value n rest)
          (last_digit n (10 ^ length rest) (big_int 0 rest)))
]

pub big_int-decimal : (n : ℕ) → big_int 0 (decimal n) ≡ n
unfolding decimal big_int
big_int-decimal n = decimal_from-value n n [] (omega arith) ∙ omega arith
