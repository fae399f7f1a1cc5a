-- ===== src/Web/Format.antt =====
-- web/src/format.js: the amounts and scores of the marketplace, as texts.
pub mod Shown
mod Examples
use verdikt.Base.{
  ℕ, suc, ◌+◌, ◌-◌, ◌*◌, ◌/◌, ◌%◌, ◌^◌, Bool, true, false, not, ◌&&◌, List, [], ◌∷◌, ◌++◌, Option,
  none, some, JsString, js, length, take, drop, replicate, decimal, same_text, ltb, if◌then◌else◌,
}
use verdikt.Json.Numbers.{ℤ, pos, negsuc, Number, le, of_ℕ}
use verdikt.Web.Amounts.{strip_zeros, with_fraction}

abbrev pub native_decimals : ℕ
native_decimals = 18

abbrev pub minor_decimals : ℕ
minor_decimals = 6

-- `fraction.toString().padStart(decimals, '0')`
abbrev pub pad_to : ℕ → JsString → JsString
pad_to n s = replicate (n - length s) 48 ++ s

abbrev pub fraction_digits : ℕ → ℕ → ℕ → JsString
fraction_digits magnitude decimals places =
    strip_zeros (take places (pad_to decimals (decimal (magnitude % 10 ^ decimals))))

abbrev pub format_magnitude : ℕ → ℕ → ℕ → JsString
format_magnitude magnitude decimals places =
    with_fraction (decimal (magnitude / 10 ^ decimals)) (fraction_digits magnitude decimals places)

unfoldable pub format_units : ℤ → ℕ → ℕ → JsString
format_units (pos n) decimals places = format_magnitude n decimals places
format_units (negsuc n) decimals places = 45 ∷ format_magnitude (suc n) decimals places

abbrev pub format_native_usdc : ℤ → ℕ → JsString
format_native_usdc value places = format_units value native_decimals places ++ js " USDC"

abbrev pub is_positive : ℤ → Bool
is_positive (pos n) = ltb 0 n
is_positive (negsuc n) = false

unfoldable pub format_refund_usdc : ℤ → JsString
unfolding format_units js same_text
format_refund_usdc value =
    let shown = format_native_usdc value 6 in
    if is_positive value && same_text shown (js "0 USDC") then js "< 0.000001 USDC" else shown

abbrev pub format_minor_usdc : ℤ → ℕ → JsString
format_minor_usdc value places = format_units value minor_decimals places ++ js " USDC"

abbrev pub format_minor_range : ℤ → ℤ → ℕ → JsString
format_minor_range low high places =
    format_units low minor_decimals places ++ js " to " ++ format_minor_usdc high places

pub data Band : Type 0 where
  unknown good fair poor : Band

abbrev pub band_of : Number → Band
band_of score = if le (of_ℕ 990) score then good else if le (of_ℕ 950) score then fair else poor

unfoldable pub score_band : Option Number → Band
unfolding le
score_band none = unknown
score_band (some score) = band_of score

-- The first eight units, an ellipsis and the last six.
unfoldable pub short_hex : JsString → JsString
short_hex value =
    if ltb 14 (length value) then take 8 value ++ 8230 ∷ drop (length value - 6) value else value
