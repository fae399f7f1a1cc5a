-- ===== src/Web/Format/Examples.antt =====
-- Amounts as the marketplace shows them, and the theorem at one.
use verdikt.Base.{
  ℕ, suc, ◌+◌, ◌-◌, ◌^◌, ◌≤◌, ◌<◌, ◌≡◌, refl, JsString, js, length, some, Option, arith,
}
use verdikt.Json.Numbers.{pos, negsuc, of_ℕ}
use verdikt.Web.Amounts.{with_fraction}
use verdikt.Web.Format.{format_units, format_refund_usdc, score_band, fair}
use verdikt.Web.Format.Shown.{amount_of, signed, format_units-floor}

native_shown : format_units (pos 1234567000000000000) 18 4 ≡ js "1.2345"
unfolding format_units js verdikt.Base.decimal
native_shown = refl

cut_towards_zero : format_units (negsuc 1234566) 6 4 ≡ js "-1.2345"
unfolding format_units js verdikt.Base.decimal
cut_towards_zero = refl

refund_shown : format_refund_usdc (pos 999) ≡ js "< 0.000001 USDC"
unfolding format_refund_usdc verdikt.Base.decimal
refund_shown = refl

almost_good : score_band (some (of_ℕ 989)) ≡ fair
unfolding score_band
almost_good = refl

format_units-floor_example :
    (whole fraction : JsString) × (format_units (negsuc 1234566) (suc 5) 4
      ≡ signed (negsuc 1234566) (with_fraction whole fraction))
    × (length fraction ≤ 4)
    × (amount_of (suc 5) whole fraction ≤ 1234567)
    × (1234567 < amount_of (suc 5) whole fraction + 10 ^ (suc 5 - 4))
format_units-floor_example = format_units-floor (negsuc 1234566) 5 4 (omega arith)
