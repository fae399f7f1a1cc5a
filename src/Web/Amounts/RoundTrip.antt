-- ===== src/Web/Amounts/RoundTrip.antt =====
-- An amount that is shown to a provider is read back as the same amount.
use verdikt.Base.{
  take-drop, length-drop, ℕ, zero, suc, ◌+◌, ◌-◌, ◌*◌, ◌^◌, ◌≤◌, ◌≡◌, refl, sym, ap, ◌∙◌, Bool,
  true, false, ◌&&◌, ◌||◌, [], ◌∷◌, ◌++◌, some, JsString, leb, ◌==◌, ==_iff, length, take, drop,
  replicate, every, is_digit, decimal, if◌then◌else◌, Bool-cases, inl, inr, and-eq-true,
  length-append, length-take, min, length-replicate, arith,
}
use verdikt.Sla.Document.{big_int, is_decimal_integer}
use verdikt.Web.Amounts.{
  is_space, trim_start, trim_end, trim, span_digits, fraction_of, usdc_parts, pad_end, pad_start,
  minor_units, usdc_to_minor_units, strip_zeros, with_fraction, paired, after_whole, unless_zero,
  split_padded, minor_units_to_usdc,
}

-- No unit of the text is a space.
pub every-append :
    (p : ℕ → Bool) (xs ys : JsString)
    → every p xs ≡ true
    → every p ys ≡ true
    → every p (xs ++ ys) ≡ true
every-append p [] ys h r = r
every-append p (x ∷ xs) ys h r =
    let (first, rest) = and-eq-true (p x) (every p xs) h in rw first (every-append p xs ys rest r)

pub every-take :
    (p : ℕ → Bool) (n : ℕ) (xs : JsString) → every p xs ≡ true → every p (take n xs) ≡ true
every-take p zero xs h = refl
every-take p (suc n) [] h = refl
every-take p (suc n) (x ∷ xs) h =
    let (first, rest) = and-eq-true (p x) (every p xs) h in rw first (every-take p n xs rest)

pub every-drop :
    (p : ℕ → Bool) (n : ℕ) (xs : JsString) → every p xs ≡ true → every p (drop n xs) ≡ true
every-drop p zero xs h = h
every-drop p (suc n) [] h = refl
every-drop p (suc n) (x ∷ xs) h = every-drop p n xs (and-eq-true (p x) (every p xs) h).1

pub every-replicate : (n : ℕ) → every is_digit (replicate n 48) ≡ true
every-replicate zero = refl
every-replicate (suc n) = every-replicate n

-- A digit or a point.
abbrev is_amount_unit : ℕ → Bool
is_amount_unit c = is_digit c || c == 46

amount_unit-space : (c : ℕ) → is_amount_unit c ≡ true → is_space c ≡ false
amount_unit-space c h = ground arith

trim_start-amount : (s : JsString) → every is_amount_unit s ≡ true → trim_start s ≡ s
trim_start-amount [] h = refl
trim_start-amount (c ∷ cs) h =
    rw (amount_unit-space c (and-eq-true (is_amount_unit c) (every is_amount_unit cs) h).0) refl

trim_end-amount : (s : JsString) → every is_amount_unit s ≡ true → trim_end s ≡ s
trim_end-amount [] h = refl
trim_end-amount (c ∷ []) h = rw (amount_unit-space c (and-eq-true (is_amount_unit c) true h).0) refl
trim_end-amount (c ∷ d ∷ ds) h =
    let (first, rest) = and-eq-true (is_amount_unit c) (every is_amount_unit (d ∷ ds)) h in
    rw (trim_end-amount (d ∷ ds) rest) refl

trim-amount : (s : JsString) → every is_amount_unit s ≡ true → trim s ≡ s
unfolding trim
trim-amount s h = rw (trim_start-amount s h) (trim_end-amount s h)

digit-amount : (s : JsString) → every is_digit s ≡ true → every is_amount_unit s ≡ true
digit-amount [] h = refl
digit-amount (c ∷ cs) h =
    let (first, rest) = and-eq-true (is_digit c) (every is_digit cs) h in
    rw first (digit-amount cs rest)

span_digits-all : (s : JsString) → every is_digit s ≡ true → span_digits s ≡ (s, [])
span_digits-all [] h = refl
span_digits-all (c ∷ cs) h =
    let (first, rest) = and-eq-true (is_digit c) (every is_digit cs) h in
    rw first (rw (span_digits-all cs rest) refl)

span_digits-point :
    (s t : JsString) → every is_digit s ≡ true → span_digits (s ++ 46 ∷ t) ≡ (s, 46 ∷ t)
span_digits-point [] t h = refl
span_digits-point (c ∷ cs) t h =
    let (first, rest) = and-eq-true (is_digit c) (every is_digit cs) h in
    rw first (rw (span_digits-point cs t rest) refl)

-- The trailing zeros that are taken away are those that the padding gives back.
pub strip_zeros-split : (s : JsString) → (k : ℕ) × (s ≡ strip_zeros s ++ replicate k 48)
strip_zeros-split [] = (0, refl)
strip_zeros-split (c ∷ cs) = let (k, e) = strip_zeros-split cs in by_rest (strip_zeros cs) k e
  where
    zero_first : c ≡ 48 → (k : ℕ) → cs ≡ replicate k 48 → c ∷ cs ≡ replicate (suc k) 48
    zero_first z k e = ap (λ d. d ∷ cs) z ∙ ap (λ ds. 48 ∷ ds) e

    by_rest :
        (t : JsString) (k : ℕ)
        → cs ≡ t ++ replicate k 48
        → (j : ℕ) × (c ∷ cs ≡ unless_zero c t ++ replicate j 48)
    by_rest [] k e = elim (Bool-cases (c == 48)) [
      | inl z ↦ rw z (suc k, zero_first ((==_iff c 48).0 z) k e)
      | inr z ↦ rw z (k, ap (λ ds. c ∷ ds) e)
    ]
    by_rest (d ∷ ds) k e = (k, ap (λ ds. c ∷ ds) e)

pub zeros-length : (k : ℕ) → length (replicate {A = ℕ} k 48) ≡ k
zeros-length k = length-replicate k 48

pub append-zeros-length : (t : JsString) (k : ℕ) → length (t ++ replicate k 48) ≡ length t + k
append-zeros-length t k = length-append t (replicate k 48) ∙ ap (λ n. length t + n) (zeros-length k)

pad_end-split : (s t : JsString) (k : ℕ) → s ≡ t ++ replicate k 48 → pad_end (length s) t ≡ s
pad_end-split s t k e =
    let added : length s ≡ length t + k = ap length e ∙ append-zeros-length t k in
    let count : length s - length t ≡ k = omega arith in rw count (sym e)

pad_end-strip_zeros : (s : JsString) → pad_end (length s) (strip_zeros s) ≡ s
pad_end-strip_zeros s = let (k, e) = strip_zeros-split s in pad_end-split s (strip_zeros s) k e

every-front : (p : ℕ → Bool) (xs ys : JsString) → every p (xs ++ ys) ≡ true → every p xs ≡ true
every-front p [] ys h = refl
every-front p (x ∷ xs) ys h =
    let (first, rest) = and-eq-true (p x) (every p (xs ++ ys)) h in
    rw first (every-front p xs ys rest)

strip_zeros-digits :
    (s : JsString) → every is_digit s ≡ true → every is_digit (strip_zeros s) ≡ true
strip_zeros-digits s h =
    let (k, e) = strip_zeros-split s in
    every-front is_digit (strip_zeros s) (replicate k 48) (ap (every is_digit) (sym e) ∙ h)

shifted : (n d p b : ℕ) → (n * 10 + d) * p + b ≡ n * (10 * p) + ((0 + d) * p + b)
shifted n d p b = grind arith

pub power : (n : ℕ) → 10 ^ suc n ≡ 10 * 10 ^ n
power n = grind arith

pub big_int-shift : (n : ℕ) (s : JsString) → big_int n s ≡ n * 10 ^ length s + big_int 0 s
unfolding big_int
big_int-shift n [] = omega arith
big_int-shift n (c ∷ cs) =
    big_int-shift (n * 10 + (c - 48)) cs
    ∙ rw (power (length cs), big_int-shift (0 + (c - 48)) cs)
        (shifted n (c - 48) (10 ^ length cs) (big_int 0 cs))

pub big_int-append : (n : ℕ) (s t : JsString) → big_int n (s ++ t) ≡ big_int (big_int n s) t
unfolding big_int
big_int-append n [] t = refl
big_int-append n (c ∷ cs) t = big_int-append (n * 10 + (c - 48)) cs t

pub big_int-zeros : (k : ℕ) (s : JsString) → big_int 0 (replicate k 48 ++ s) ≡ big_int 0 s
unfolding big_int
big_int-zeros zero s = refl
big_int-zeros (suc k) s = big_int-zeros k s

value-split :
    (n : ℕ) (s : JsString)
    → length (drop n s) ≡ 6
    → big_int 0 (take n s) * 1000000 + big_int 0 (drop n s) ≡ big_int 0 s
value-split n s h =
    let shift : big_int (big_int 0 (take n s)) (drop n s)
        ≡ big_int 0 (take n s) * 10 ^ length (drop n s) + big_int 0 (drop n s) =
      big_int-shift (big_int 0 (take n s)) (drop n s) in
    let scale : big_int 0 (take n s) * 10 ^ length (drop n s) ≡ big_int 0 (take n s) * 1000000 =
      ap (λ k. big_int 0 (take n s) * 10 ^ k) h in
    ap (λ m. m + big_int 0 (drop n s)) (sym scale)
    ∙ sym shift
    ∙ sym (big_int-append 0 (take n s) (drop n s))
    ∙ ap (big_int 0) (take-drop n s)

pad_start-value : (s : JsString) → big_int 0 (pad_start 7 s) ≡ big_int 0 s
pad_start-value s = big_int-zeros (7 - length s) s

pad_start-digits : (s : JsString) → every is_digit s ≡ true → every is_digit (pad_start 7 s) ≡ true
pad_start-digits s h =
    every-append is_digit (replicate (7 - length s) 48) s (every-replicate (7 - length s)) h

pad_start-length : (s : JsString) → 7 ≤ length (pad_start 7 s)
pad_start-length s =
    let added : length (pad_start 7 s) ≡ (7 - length s) + length s =
      length-append (replicate (7 - length s) 48) s
      ∙ ap (λ n. n + length s) (zeros-length (7 - length s)) in
    omega arith

decimal_integer-digits : (s : JsString) → is_decimal_integer s ≡ true → every is_digit s ≡ true
unfolding is_decimal_integer
decimal_integer-digits [] h = refl
decimal_integer-digits (c ∷ []) h = ground arith
decimal_integer-digits (c ∷ d ∷ cs) h =
    let (most, tail) = and-eq-true (leb 49 c && leb c 57 && is_digit d) (every is_digit cs) h in
    let (first, second) = and-eq-true (leb 49 c && leb c 57) (is_digit d) most in
    let first_digit : is_digit c ≡ true = ground arith in rw first_digit (rw second tail)

read_back :
    (w : ℕ) (ws f : JsString)
    → every is_digit (w ∷ ws) ≡ true
    → every is_digit f ≡ true
    → length f ≤ 6
    → usdc_parts (trim (with_fraction (w ∷ ws) f)) ≡ some (w ∷ ws, f)
unfolding usdc_parts
read_back w ws [] d h l =
    ap usdc_parts (trim-amount (w ∷ ws) (digit-amount (w ∷ ws) d))
    ∙ ap (λ (x : JsString × JsString). paired x.0 (after_whole x.1)) (span_digits-all (w ∷ ws) d)
read_back w ws (c ∷ cs) d h l =
    let short : leb (length (c ∷ cs)) 6 ≡ true = ground arith in
    let read : fraction_of (c ∷ cs) ≡ some (c ∷ cs) = rw h (rw short refl) in
    ap usdc_parts (
      trim-amount (w ∷ ws ++ 46 ∷ c ∷ cs) (
        every-append is_amount_unit (w ∷ ws) (46 ∷ c ∷ cs) (digit-amount (w ∷ ws) d)
          (digit-amount (c ∷ cs) h)))
    ∙ ap (λ (x : JsString × JsString). paired x.0 (after_whole x.1))
        (span_digits-point (w ∷ ws) (c ∷ cs) d)
    ∙ ap (paired (w ∷ ws)) read

read_whole :
    (w f : JsString)
    → 1 ≤ length w
    → every is_digit w ≡ true
    → every is_digit f ≡ true
    → length f ≤ 6
    → usdc_parts (trim (with_fraction w f)) ≡ some (w, f)
read_whole [] f one d h l = elim (absurd one) [ ]
  where
    absurd : 1 ≤ 0 → ⊥
    absurd h = omega arith
read_whole (w ∷ ws) f one d h l = read_back w ws f d h l

split_padded-read :
    (p : JsString)
    → every is_digit p ≡ true
    → 7 ≤ length p
    → usdc_to_minor_units (split_padded p) ≡ some (decimal (big_int 0 p))
unfolding usdc_to_minor_units
split_padded-read p d l =
    let n = length p - 6 in
    let front : length (take n p) ≡ min n (length p) = length-take n p in
    let back : length (drop n p) ≡ length p - n = length-drop n p in
    let one : 1 ≤ length (take n p) = omega arith in
    let six : length (drop n p) ≡ 6 = omega arith in
    let digits = every-drop is_digit n p d in
    let (k, e) = strip_zeros-split (drop n p) in
    let count : length (drop n p) ≡ length (strip_zeros (drop n p)) + k =
      ap length e ∙ append-zeros-length (strip_zeros (drop n p)) k in
    let short : length (strip_zeros (drop n p)) ≤ 6 = omega arith in
    let parts =
      read_whole (take n p) (strip_zeros (drop n p)) one (every-take is_digit n p d)
        (strip_zeros-digits (drop n p) digits) short in
    let padded : pad_end 6 (strip_zeros (drop n p)) ≡ drop n p =
      ap (λ m. pad_end m (strip_zeros (drop n p))) (sym six) ∙ pad_end-strip_zeros (drop n p) in
    ap minor_units parts
    ∙ ap (λ f. some (decimal (big_int 0 (take n p) * 1000000 + big_int 0 f))) padded
    ∙ ap (λ v. some (decimal v)) (value-split n p six)

-- The amount that the form shows for an integer of minor units is read back, when it is typed as
-- shown, as the same integer: no digit is lost and no scale is mistaken.
pub usdc_to_minor_units-minor_units_to_usdc :
    (s : JsString)
    → is_decimal_integer s ≡ true
    → usdc_to_minor_units (minor_units_to_usdc s) ≡ some (decimal (big_int 0 s))
unfolding minor_units_to_usdc
usdc_to_minor_units-minor_units_to_usdc s h =
    ap (λ b. usdc_to_minor_units (if b then split_padded (pad_start 7 s) else s)) h
    ∙ split_padded-read (pad_start 7 s) (pad_start-digits s (decimal_integer-digits s h))
        (pad_start-length s)
    ∙ ap (λ v. some (decimal v)) (pad_start-value s)
