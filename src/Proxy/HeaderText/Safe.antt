-- ===== src/Proxy/HeaderText/Safe.antt =====
-- What `headerSafe` gives cannot split a header, and is bounded.
use verdikt.Base.{
  ℕ, zero, suc, ◌≤◌, ◌≡◌, refl, ap, true, false, [], ◌∷◌, ◌++◌, JsString, All, length,
  length-append, length-take, take, ltb, arith, Bool-cases, inl, inr,
}
use verdikt.Proxy.HeaderText.{is_break, join_lines, is_printable, printable, clip, header_safe}
use verdikt.Base.{suc}

-- Printable ASCII: no line break, no control and nothing above `~`.
abbrev pub IsPlain : ℕ → Type 0
IsPlain c = (32 ≤ c) × (c ≤ 126)

printable-IsPlain : (s : JsString) → All IsPlain (printable s)
printable-IsPlain [] = tt
printable-IsPlain (c ∷ cs) = (ground arith, printable-IsPlain cs)

All-take : (n : ℕ) (s : JsString) → All IsPlain s → All IsPlain (take n s)
All-take zero s h = tt
All-take (suc n) [] h = tt
All-take (suc n) (c ∷ s) (p, h) = (p, All-take n s h)

All-append : (s t : JsString) → All IsPlain s → All IsPlain t → All IsPlain (s ++ t)
All-append [] t h k = k
All-append (c ∷ s) t (p, h) k = (p, All-append s t h k)

clip-IsPlain : (s : JsString) → All IsPlain s → All IsPlain (clip s) × (length (clip s) ≤ 180)
clip-IsPlain s h = elim (Bool-cases (ltb 180 (length s))) [
  | inl e ↦
      let dots : JsString = 46 ∷ 46 ∷ 46 ∷ [] in
      rw e (
        All-append (take 177 s) dots (All-take 177 s h) (omega arith),
        omega (arith, length-append (take 177 s) dots, length-take 177 s),
      )
  | inr e ↦ rw e (h, ground arith)
]

plain-id : (s : JsString) → All IsPlain s → (join_lines false s ≡ s) × (printable s ≡ s)
unfolding join_lines
plain-id [] h = (refl, refl)
plain-id (c ∷ cs) ((low, high), h) =
    let (joined, shown) = plain-id cs h in
    let whole : is_break c ≡ false = ground arith in
    let kept : is_printable c ≡ true = ground arith in
    (rw whole (ap (λ l. c ∷ l) joined), rw kept (ap (λ l. c ∷ l) shown))

-- Every text that `headerSafe` gives is printable ASCII of at most 180 units, and a text that is
-- that already is unchanged by it.
pub header_safe-IsPlain :
    (value : JsString)
    → All IsPlain (header_safe value)
      × (length (header_safe value) ≤ 180)
      × (All IsPlain value → length value ≤ 180 → header_safe value ≡ value)
unfolding header_safe
header_safe-IsPlain value =
    let (plain, bounded) =
      clip-IsPlain (printable (join_lines false value))
        (printable-IsPlain (join_lines false value)) in
    (plain, bounded, same)
  where
    same :
        All IsPlain value → length value ≤ 180 → clip (printable (join_lines false value)) ≡ value
    same h short =
        let (joined, shown) = plain-id value h in
        let fits : ltb 180 (length value) ≡ false = ground arith in rw (joined, shown, fits) refl
