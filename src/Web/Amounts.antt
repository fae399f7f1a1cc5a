-- ===== src/Web/Amounts.antt =====
-- The amounts that a provider types and reads: `usdcToMinorUnits` and `minorUnitsToUsdc` of
-- web/src/forms/sla-draft.js.
pub mod RoundTrip
mod Examples
use verdikt.Base.{
  ℕ, ◌+◌, ◌-◌, ◌*◌, Bool, true, false, not, ◌&&◌, ◌||◌, List, [], ◌∷◌, ◌++◌, Option, none, some,
  JsString, leb, ◌==◌, length, take, drop, replicate, every, is_digit, decimal, if◌then◌else◌,
}
use verdikt.Sla.Document.{big_int, is_decimal_integer}

-- White space and line terminators, which `trim` takes away.
abbrev pub is_space : ℕ → Bool
is_space c =
    (leb 9 c && leb c 13)
    || c == 32
    || c == 160
    || c == 5760
    || (leb 8192 c && leb c 8202)
    || c == 8232
    || c == 8233
    || c == 8239
    || c == 8287
    || c == 12288
    || c == 65279

abbrev pub trim_start : JsString → JsString
trim_start [] = []
trim_start (c ∷ cs) = if is_space c then trim_start cs else c ∷ cs

abbrev cons_unless : ℕ → JsString → JsString
cons_unless c [] = if is_space c then [] else c ∷ []
cons_unless c (d ∷ ds) = c ∷ d ∷ ds

abbrev pub trim_end : JsString → JsString
trim_end [] = []
trim_end (c ∷ cs) = cons_unless c (trim_end cs)

unfoldable pub trim : JsString → JsString
trim s = trim_end (trim_start s)

-- The digits that a text begins with, and the rest.
abbrev pub span_digits : JsString → JsString × JsString
span_digits [] = ([], [])
span_digits (c ∷ cs) =
    let rest = span_digits cs in if is_digit c then (c ∷ rest.0, rest.1) else ([], c ∷ cs)

abbrev pub fraction_of : JsString → Option JsString
fraction_of [] = none
fraction_of (c ∷ cs) =
    if every is_digit (c ∷ cs) && leb (length (c ∷ cs)) 6 then some (c ∷ cs) else none

abbrev pub after_whole : JsString → Option JsString
after_whole [] = some []
after_whole (c ∷ cs) = if c == 46 then fraction_of cs else none

abbrev pub paired : JsString → Option JsString → Option (JsString × JsString)
paired [] fraction = none
paired (c ∷ cs) none = none
paired (c ∷ cs) (some fraction) = some (c ∷ cs, fraction)

-- `/^(\d+)(?:\.(\d{1,6}))?$/`, with no fraction for an absent one.
unfoldable pub usdc_parts : JsString → Option (JsString × JsString)
usdc_parts text = paired (span_digits text).0 (after_whole (span_digits text).1)

abbrev pub pad_end : ℕ → JsString → JsString
pad_end n s = s ++ replicate (n - length s) 48

abbrev pub pad_start : ℕ → JsString → JsString
pad_start n s = replicate (n - length s) 48 ++ s

abbrev pub minor_units : Option (JsString × JsString) → Option JsString
minor_units none = none
minor_units (some (whole, fraction)) =
    some (decimal (big_int 0 whole * 1000000 + big_int 0 (pad_end 6 fraction)))

unfoldable pub usdc_to_minor_units : JsString → Option JsString
unfolding big_int
usdc_to_minor_units text = minor_units (usdc_parts (trim text))

abbrev pub unless_zero : ℕ → JsString → JsString
unless_zero c [] = if c == 48 then [] else c ∷ []
unless_zero c (d ∷ ds) = c ∷ d ∷ ds

-- `replace(/0+$/, '')`
abbrev pub strip_zeros : JsString → JsString
strip_zeros [] = []
strip_zeros (c ∷ cs) = unless_zero c (strip_zeros cs)

abbrev pub with_fraction : JsString → JsString → JsString
with_fraction whole [] = whole
with_fraction whole (c ∷ cs) = whole ++ 46 ∷ c ∷ cs

-- `slice(0, -6)` and `slice(-6)` of a text of seven units or more.
abbrev pub split_padded : JsString → JsString
split_padded padded =
    with_fraction (take (length padded - 6) padded) (strip_zeros (drop (length padded - 6) padded))

unfoldable pub minor_units_to_usdc : JsString → JsString
unfolding is_decimal_integer
minor_units_to_usdc text = if is_decimal_integer text then split_padded (pad_start 7 text) else text
