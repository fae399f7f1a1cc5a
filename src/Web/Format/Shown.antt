-- ===== src/Web/Format/Shown.antt =====
-- What a formatted amount says of the amount.
use verdikt.Base.{
  take-drop, length-drop, ℕ, zero, suc, ◌+◌, ◌-◌, ◌*◌, ◌/◌, ◌%◌, ◌^◌, ◌≤◌, ◌<◌, ◌≡◌, refl, sym, ap,
  ◌∙◌, subst, true, [], ◌∷◌, ◌++◌, JsString, decimal, decimal_from, ltb, length, take, drop,
  replicate, min, length-append, length-take, Bool-cases, inl, inr, and-eq-true, append_assoc,
  every, is_digit, arith,
}
use native.Mathlib.Nat.{mul_comm, mod-lt, div-add-mod}
use verdikt.Json.Numbers.{ℤ, pos, negsuc}
use verdikt.Sla.Document.{big_int}
use verdikt.Web.Amounts.{pad_end, strip_zeros, with_fraction}
use verdikt.Web.Amounts.RoundTrip.{
  every-append, every-drop, every-replicate, big_int-shift, big_int-append, big_int-zeros, power,
  strip_zeros-split, zeros-length, append-zeros-length,
}
use verdikt.Web.Decimals.{big_int-decimal}
use verdikt.Web.Format.{pad_to, format_magnitude, format_units}

-- A number below 10 ^ k has at most k digits.
decimal_from-length :
    (fuel n k : ℕ) (rest : JsString)
    → n ≤ fuel
    → n < 10 ^ suc k
    → length (decimal_from fuel n rest) ≤ suc k + length rest
unfolding decimal_from
decimal_from-length zero n k rest h l = omega arith
decimal_from-length (suc fuel) n zero rest h l =
    let small : ltb n 10 ≡ true = ground arith in rw small (omega arith)
decimal_from-length (suc fuel) n (suc k) rest h l = elim (Bool-cases (ltb n 10)) [
  | inl small ↦ rw small (omega arith)
  | inr large ↦
      let more : length (decimal_from fuel (n / 10) ((48 + n % 10) ∷ rest))
          ≤ suc k + suc (length rest) =
        decimal_from-length fuel (n / 10) k ((48 + n % 10) ∷ rest) (tenth n fuel h (ground arith))
          (divided n (10 ^ suc k) (subst (λ p. n < p) (power (suc k)) l)) in
      rw large (omega arith)
]
  where
    tenth : (n fuel : ℕ) → n ≤ suc fuel → 10 ≤ n → n / 10 ≤ fuel
    tenth n fuel h l = omega arith

    divided : (n p : ℕ) → n < 10 * p → n / 10 < p
    divided n p h = omega arith

decimal-length : (n k : ℕ) → n < 10 ^ suc k → length (decimal n) ≤ suc k
unfolding decimal
decimal-length n k l =
    let short : length (decimal_from n n []) ≤ suc k + 0 =
      decimal_from-length n n k [] (omega arith) l in
    omega arith

decimal_from-digits :
    (fuel n : ℕ) (rest : JsString)
    → every is_digit rest ≡ true
    → every is_digit (decimal_from fuel n rest) ≡ true
unfolding decimal_from
decimal_from-digits zero n rest h =
    let digit : is_digit (48 + n % 10) ≡ true = ground arith in rw digit h
decimal_from-digits (suc fuel) n rest h =
    let digit : is_digit (48 + n % 10) ≡ true = ground arith in
    let shorter = decimal_from-digits fuel (n / 10) ((48 + n % 10) ∷ rest) (rw digit h) in
    elim (Bool-cases (ltb n 10)) [
      | inl small ↦ rw small (rw digit h)
      | inr large ↦ rw large shorter
    ]

decimal-digits : (n : ℕ) → every is_digit (decimal n) ≡ true
unfolding decimal
decimal-digits n = decimal_from-digits n n [] refl

big_int-bound : (s : JsString) → every is_digit s ≡ true → big_int 0 s < 10 ^ length s
unfolding big_int
big_int-bound [] h = omega arith
big_int-bound (c ∷ cs) h =
    let (first, rest) = and-eq-true (is_digit c) (every is_digit cs) h in
    let digit : 0 + (c - 48) ≤ 9 = ground arith in
    subst (λ v. v < 10 ^ suc (length cs)) (sym (big_int-shift (0 + (c - 48)) cs))
      (subst (λ p. (0 + (c - 48)) * 10 ^ length cs + big_int 0 cs < p) (sym (power (length cs)))
        (below (0 + (c - 48)) (10 ^ length cs) (big_int 0 cs) digit (big_int-bound cs rest)))
  where
    below : (d p b : ℕ) → d ≤ 9 → b < p → d * p + b < 10 * p
    below d p b h l = let scaled : d * p ≤ 9 * p = grind arith in omega arith

replicate-add : (m n : ℕ) → replicate {A = ℕ} (m + n) 48 ≡ replicate m 48 ++ replicate n 48
replicate-add zero n = let same : 0 + n ≡ n = omega arith in ap (λ k. replicate k 48) same
replicate-add (suc m) n =
    let same : suc m + n ≡ suc (m + n) = omega arith in
    ap (λ k. replicate k 48) same ∙ ap (λ z. 48 ∷ z) (replicate-add m n)

-- Of a fraction that is cut, the padding of what is left gives the cut text and zeros.
pad_end-cut :
    (t : JsString) (d p : ℕ)
    → length t ≡ p
    → p ≤ d
    → pad_end d (strip_zeros t) ≡ t ++ replicate (d - p) 48
pad_end-cut t d p h l =
    let (j, e) = strip_zeros-split t in
    let counted : length t ≡ length (strip_zeros t) + j =
      ap length e ∙ append-zeros-length (strip_zeros t) j in
    let room : d - length (strip_zeros t) ≡ j + (d - p) = omega arith in
    ap (λ m. strip_zeros t ++ replicate m 48) room
    ∙ ap (λ z. strip_zeros t ++ z) (replicate-add j (d - p))
    ∙ sym (append_assoc (strip_zeros t) (replicate j 48) (replicate (d - p) 48))
    ∙ ap (λ x. x ++ replicate (d - p) 48) (sym e)

zeros-zero : (k : ℕ) → big_int 0 (replicate k 48) ≡ 0
unfolding big_int
zeros-zero zero = refl
zeros-zero (suc k) = zeros-zero k

zeros-value : (v k : ℕ) → big_int v (replicate k 48) ≡ v * 10 ^ k
zeros-value v k =
    let none_left = zeros-zero k in
    big_int-shift v (replicate k 48)
    ∙ ap (λ n. v * 10 ^ n + big_int 0 (replicate k 48)) (zeros-length k)
    ∙ ap (λ b. v * 10 ^ k + b) none_left
    ∙ omega arith

cut_value :
    (whole n q r d e v rest : ℕ)
    → d * q + r ≡ n
    → whole ≡ q
    → r ≡ v * e + rest
    → rest < e
    → (whole * d + v * e ≤ n) × (n < whole * d + v * e + e)
cut_value whole n q r d e v rest h w f l =
    let same : whole * d ≡ d * q = ap (λ k. k * d) w ∙ mul_comm q d in (omega arith, omega arith)

power-positive : (k : ℕ) → 0 < 10 ^ k
power-positive zero = omega arith
power-positive (suc k) =
    let one = power-positive k in subst (λ p. 0 < p) (sym (power k)) (omega arith)

-- The value that a whole part and a fraction stand for.
abbrev pub amount_of : ℕ → JsString → JsString → ℕ
amount_of decimals whole fraction =
    big_int 0 whole * 10 ^ decimals + big_int 0 (pad_end decimals fraction)

format_magnitude-floor :
    (n k places : ℕ)
    → places ≤ suc k
    → (whole fraction : JsString) × (format_magnitude n (suc k) places
        ≡ with_fraction whole fraction)
      × (length fraction ≤ places)
      × (amount_of (suc k) whole fraction ≤ n)
      × (n < amount_of (suc k) whole fraction + 10 ^ (suc k - places))
format_magnitude-floor n k places l =
    let d = 10 ^ suc k in
    let r = n % d in
    let p = pad_to (suc k) (decimal r) in
    let t = take places p in
    let below : r < d = mod-lt n (power-positive (suc k)) in
    let short : length (decimal r) ≤ suc k = decimal-length r k below in
    let full : length p ≡ suc k =
      length-append (replicate (suc k - length (decimal r)) 48) (decimal r)
      ∙ ap (λ m. m + length (decimal r)) (zeros-length (suc k - length (decimal r)))
      ∙ padded k (length (decimal r)) short in
    let front : length t ≡ places =
      length-take places p ∙ ap (min places) full ∙ smaller k places l in
    let back : length (drop places p) ≡ suc k - places =
      length-drop places p ∙ ap (λ m. m - places) full in
    let value : big_int 0 p ≡ r =
      big_int-zeros (suc k - length (decimal r)) (decimal r) ∙ big_int-decimal r in
    let parts : r ≡ big_int 0 t * 10 ^ (suc k - places) + big_int 0 (drop places p) =
      sym value
      ∙ ap (big_int 0) (sym (take-drop places p))
      ∙ big_int-append 0 t (drop places p)
      ∙ big_int-shift (big_int 0 t) (drop places p)
      ∙ ap (λ m. big_int 0 t * 10 ^ m + big_int 0 (drop places p)) back in
    let digits : every is_digit p ≡ true =
      every-append is_digit (replicate (suc k - length (decimal r)) 48) (decimal r)
        (every-replicate (suc k - length (decimal r))) (decimal-digits r) in
    let rest : big_int 0 (drop places p) < 10 ^ (suc k - places) =
      subst (λ m. big_int 0 (drop places p) < 10 ^ m) back
        (big_int-bound (drop places p) (every-drop is_digit places p digits)) in
    let cut : big_int 0 (pad_end (suc k) (strip_zeros t)) ≡ big_int 0 t * 10 ^ (suc k - places) =
      ap (big_int 0) (pad_end-cut t (suc k) places front l)
      ∙ big_int-append 0 t (replicate (suc k - places) 48)
      ∙ zeros-value (big_int 0 t) (suc k - places) in
    let (floor, near) =
      cut_value (big_int 0 (decimal (n / d))) n (n / d) r d (10 ^ (suc k - places)) (big_int 0 t)
        (big_int 0 (drop places p)) (div-add-mod n d) (big_int-decimal (n / d)) parts rest in
    let shown = big_int 0 (decimal (n / d)) * d in
    (
      decimal (n / d),
      strip_zeros t,
      refl,
      stripped t places front,
      subst (λ m. shown + m ≤ n) (sym cut) floor,
      subst (λ m. n < shown + m + 10 ^ (suc k - places)) (sym cut) near,
    )
  where
    padded : (k m : ℕ) → m ≤ suc k → (suc k - m) + m ≡ suc k
    padded k m h = omega arith

    smaller : (k m : ℕ) → m ≤ suc k → min m (suc k) ≡ m
    smaller k m h = omega arith

    stripped : (t : JsString) (m : ℕ) → length t ≡ m → length (strip_zeros t) ≤ m
    stripped t m h =
        let (j, e) = strip_zeros-split t in
        let counted : length t ≡ length (strip_zeros t) + j =
          ap length e ∙ append-zeros-length (strip_zeros t) j in
        omega arith

abbrev pub magnitude : ℤ → ℕ
magnitude (pos n) = n
magnitude (negsuc n) = suc n

-- A minus sign before a negative amount.
abbrev pub signed : ℤ → JsString → JsString
signed (pos n) text = text
signed (negsuc n) text = 45 ∷ text

-- With at most as many places as decimals, of which there is at least one, a formatted amount is a
-- minus sign where the amount is negative, then a whole part and a fraction of at most the places
-- asked for. What these stand for is never more than the magnitude of the amount, and falls short
-- of it by less than one unit of the last place: the amount is cut towards zero.
pub format_units-floor :
    (value : ℤ) (k places : ℕ)
    → places ≤ suc k
    → (whole fraction : JsString) × (format_units value (suc k) places
        ≡ signed value (with_fraction whole fraction))
      × (length fraction ≤ places)
      × (amount_of (suc k) whole fraction ≤ magnitude value)
      × (magnitude value < amount_of (suc k) whole fraction + 10 ^ (suc k - places))
unfolding format_units
format_units-floor (pos n) k places l = format_magnitude-floor n k places l
format_units-floor (negsuc n) k places l =
    let (whole, fraction, shown, short, floor, near) = format_magnitude-floor (suc n) k places l in
    (whole, fraction, ap (λ t. 45 ∷ t) shown, short, floor, near)
