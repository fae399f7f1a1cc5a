-- ===== src/Web/Amounts/Examples.antt =====
-- Amounts, shown and read, and the theorem at one.
use verdikt.Base.{◌≡◌, refl, true, none, some, js, decimal}
use verdikt.Sla.Document.{big_int, is_decimal_integer}
use verdikt.Web.Amounts.{usdc_to_minor_units, minor_units_to_usdc}
use verdikt.Web.Amounts.RoundTrip.{usdc_to_minor_units-minor_units_to_usdc}

shown : minor_units_to_usdc (js "2500") ≡ js "0.0025"
unfolding minor_units_to_usdc js
shown = refl

typed : usdc_to_minor_units (js " 12.5 ") ≡ some (js "12500000")
unfolding usdc_to_minor_units verdikt.Web.Amounts.usdc_parts verdikt.Web.Amounts.trim js decimal
typed = refl

too_fine : usdc_to_minor_units (js "0.1234567") ≡ none
unfolding usdc_to_minor_units verdikt.Web.Amounts.usdc_parts verdikt.Web.Amounts.trim js
too_fine = refl

integral : is_decimal_integer (js "2500") ≡ true
unfolding is_decimal_integer js
integral = refl

usdc_to_minor_units-minor_units_to_usdc_example :
    usdc_to_minor_units (minor_units_to_usdc (js "2500")) ≡ some (decimal (big_int 0 (js "2500")))
usdc_to_minor_units-minor_units_to_usdc_example =
    usdc_to_minor_units-minor_units_to_usdc (js "2500") integral
