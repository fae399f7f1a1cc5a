-- ===== src/Proxy/Discovery/Examples.antt =====
-- The marketplace filtered, and the theorems at it.
use verdikt.Base.{
  ℕ, ◌≡◌, refl, List, [], ◌∷◌, Option, none, some, JsString, Result, ok, throw, js, length,
}
use verdikt.Json.Numbers.{ℤ, pos, Number, of_ℕ, nan}
use verdikt.Sla.Document.{RawClause, raw_price, big_int}
use verdikt.Proxy.Discovery.{Listing, Query, Found, to_listing, discover}
use verdikt.Proxy.Discovery.Selected.{Selected, discover-Selected}
use verdikt.Proxy.Discovery.Returns.{discover-returns}

abbrev digits : JsString → Number
digits text = of_ℕ (big_int 0 text)

abbrev integer : JsString → Option ℤ
integer text = some (pos (big_int 0 text))

abbrev upper : JsString → JsString
upper text = text

abbrev listing : JsString → Option Number → Option (List RawClause) → Listing
listing slug score sla = record {
  slug = slug;
  name = none;
  service_id = js "0x01";
  status = js "ACTIVE";
  provider = js "0x02";
  pay_to = none;
  conformance = score;
  availability = score;
  history = [];
  deposit = 7;
  sla = sla;
}

abbrev counted : {E : Type 0} → Result E Found → Option ℕ
counted (ok found) = some found.count
counted (throw fault) = none

abbrev market : List Listing
market =
    listing (js "a") (some (of_ℕ 990))
      (some (raw_price (js "p") (js "1") (js "20") (js "USDC") ∷ []))
    ∷ listing (js "b") none (some (raw_price (js "p") (js "1") (js "20") (js "USDC") ∷ []))
    ∷ listing (js "c") (some (of_ℕ 999))
        (some (raw_price (js "p") (js "1") (js "900") (js "USDC") ∷ []))
    ∷ []

abbrev cheap_and_good : Query
cheap_and_good = record {
  min_conformance = some (js "950");
  min_availability = none;
  max_latency_ms = none;
  max_price_minor_units = some (js "20");
  status = some (js "ACTIVE");
}

abbrev first_only : Found
first_only = record {
  count = 1;
  services =
      to_listing (js "verdikt.bond") (
        listing (js "a") (some (of_ℕ 990))
          (some (raw_price (js "p") (js "1") (js "20") (js "USDC") ∷ [])))
      ∷ [];
}

market_filtered :
    discover digits integer upper cheap_and_good (js "verdikt.bond") market ≡ ok first_only
unfolding discover verdikt.Json.Numbers.lt big_int
market_filtered = refl

-- A text that is no number makes a minimum that every published score meets.
abbrev not_numbers : JsString → Number
not_numbers text = nan

market_unfiltered :
    counted (
      discover not_numbers integer upper
        (record {
          min_conformance = some (js "abc");
          min_availability = none;
          max_latency_ms = none;
          max_price_minor_units = none;
          status = none;
        })
        (js "verdikt.bond")
        market)
    ≡ some 2
unfolding discover verdikt.Json.Numbers.lt
market_unfiltered = refl

discover-Selected_example :
    Selected digits integer upper cheap_and_good (js "verdikt.bond") market first_only.services
    × (first_only.count ≡ length first_only.services)
discover-Selected_example =
    discover-Selected digits integer upper cheap_and_good (js "verdikt.bond") market first_only
      market_filtered

discover-returns_example :
    (found : Found) × (discover digits integer upper cheap_and_good (js "verdikt.bond") market
      ≡ ok found)
discover-returns_example =
    discover-returns digits integer upper cheap_and_good (js "verdikt.bond") market
      (λ text e. (_, refl))
      ((λ text e. (_, refl)), ((λ text e. (_, refl)), ((λ text e. (_, refl)), tt)))
