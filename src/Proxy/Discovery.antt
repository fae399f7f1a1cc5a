-- ===== src/Proxy/Discovery.antt =====
-- proxy/src/discovery.js: the marketplace as JSON, filtered. The platform's `Number(text)`,
-- `BigInt(text)`, which may throw, and `toUpperCase` are parameters.
pub mod Selected
pub mod Returns
mod Examples
use verdikt.Base.{
  ℕ, Bool, true, false, not, List, [], ◌∷◌, ◌++◌, Option, none, some, JsString, Result, ok, throw,
  ◌>>=◌, js, same_text, decimal, length, map, find, is_some, if◌then◌else◌,
}
use verdikt.Json.Numbers.{ℤ, pos, negsuc, Number, lt, lt_ℤ}
use verdikt.Sla.Document.{RawClause, raw_schema, raw_latency, raw_price, raw_semantic, raw_id}

pub record Listing : Type 0 where
  pub slug : JsString
  pub name : Option JsString
  pub service_id : JsString
  pub status : JsString
  pub provider : JsString
  pub pay_to : Option JsString
  pub conformance : Option Number
  pub availability : Option Number
  pub history : List JsString
  pub deposit : ℕ
  pub sla : Option (List RawClause)

pub record Advertised : Type 0 where
  pub max_latency_ms : Option Number
  pub min_price_minor_units : Option JsString
  pub max_price_minor_units : Option JsString
  pub asset : Option JsString
  pub clauses : List (JsString × JsString)

pub record Entry : Type 0 where
  pub slug : JsString
  pub name : Option JsString
  pub service_id : JsString
  pub endpoint : JsString
  pub status : JsString
  pub provider : JsString
  pub pay_to : Option JsString
  pub conformance : Option Number
  pub availability : Option Number
  pub verdicts : ℕ
  pub published : Bool
  pub bond : JsString
  pub sla : Advertised

pub record Query : Type 0 where
  pub min_conformance : Option JsString
  pub min_availability : Option JsString
  pub max_latency_ms : Option JsString
  pub max_price_minor_units : Option JsString
  pub status : Option JsString

pub record Found : Type 0 where
  pub count : ℕ
  pub services : List Entry

-- A `SyntaxError` of BigInt.
pub data SyntaxError : Type 0 where
  not_an_integer : (text : JsString) → SyntaxError

abbrev type_of : RawClause → JsString
type_of (raw_schema id s) = js "schema"
type_of (raw_latency id max_ms) = js "latency"
type_of (raw_price id low high asset) = js "priceRange"
type_of (raw_semantic id criteria) = js "semantic"

abbrev clauses_or_empty : Option (List RawClause) → List RawClause
clauses_or_empty none = []
clauses_or_empty (some clauses) = clauses

abbrev latency_bound : Option RawClause → Option Number
latency_bound (some (raw_latency id max_ms)) = some max_ms
latency_bound _ = none

abbrev price_of : Option RawClause → Option (JsString × JsString × JsString)
price_of (some (raw_price id low high asset)) = some (low, high, asset)
price_of _ = none

abbrev part : {A B : Type 0} → (A → B) → Option A → Option B
part f none = none
part f (some a) = some (f a)

unfoldable pub advertised : Option (List RawClause) → Advertised
unfolding js same_text
advertised sla =
    let clauses = clauses_or_empty sla in
    let latency = find (λ clause. same_text (type_of clause) (js "latency")) clauses in
    let price = price_of (find (λ clause. same_text (type_of clause) (js "priceRange")) clauses) in
    record {
      max_latency_ms = latency_bound latency;
      min_price_minor_units = part (λ p. p.0) price;
      max_price_minor_units = part (λ p. p.1) price;
      asset = part (λ p. p.2) price;
      clauses = map (λ clause. (raw_id clause, type_of clause)) clauses;
    }

unfoldable pub to_listing : JsString → Listing → Entry
unfolding js advertised
to_listing public_host listing = record {
  slug = listing.slug;
  name = listing.name;
  service_id = listing.service_id;
  endpoint = js "https://" ++ listing.slug ++ js "." ++ public_host;
  status = listing.status;
  provider = listing.provider;
  pay_to = listing.pay_to;
  conformance = listing.conformance;
  availability = listing.availability;
  verdicts = length listing.history;
  published = is_some listing.conformance;
  bond = decimal listing.deposit;
  sla = advertised listing.sla;
}

module _ (number_of : JsString → Number) (bigint_of : JsString → Option ℤ)
    (to_upper : JsString → JsString) where
  abbrev pub read_integer : JsString → Result SyntaxError ℤ
  read_integer text = elim (bigint_of text) [ none ↦ throw (not_an_integer text) | some n ↦ ok n ]

  -- A score that is published and not below the text, if there is one.
  abbrev pub at_least : Option JsString → Option Number → Bool
  at_least none score = true
  at_least (some text) none = false
  at_least (some text) (some score) = not (lt score (number_of text))

  abbrev pub at_most : Option JsString → Option Number → Bool
  at_most none bound = true
  at_most (some text) none = false
  at_most (some text) (some bound) = not (lt (number_of text) bound)

  abbrev pub affordable : Option JsString → Option JsString → Result SyntaxError Bool
  affordable none price = ok true
  affordable (some text) none = ok false
  affordable (some text) (some price) = do
    asked ← read_integer price
    limit ← read_integer text
    ok (not (lt_ℤ limit asked))

  abbrev pub in_status : Option JsString → JsString → Bool
  in_status none status = true
  in_status (some text) status = same_text status (to_upper text)

  -- The guards in the order of the code: BigInt is not reached where an earlier one fails.
  unfoldable pub matches : Query → Entry → Result SyntaxError Bool
  matches query entry =
      if not (at_least query.min_conformance entry.conformance)
      then ok false
      else if not (at_least query.min_availability entry.availability)
      then ok false
      else if not (at_most query.max_latency_ms entry.sla.max_latency_ms)
      then ok false
      else do
        within ← affordable query.max_price_minor_units entry.sla.max_price_minor_units
        ok (if within then in_status query.status entry.status else false)

  unfoldable pub filter_entries : Query → List Entry → Result SyntaxError (List Entry)
  unfolding matches
  filter_entries query [] = ok []
  filter_entries query (entry ∷ entries) = do
    admitted ← matches query entry
    rest ← filter_entries query entries
    ok (if admitted then entry ∷ rest else rest)

  unfoldable pub discover : Query → JsString → List Listing → Result SyntaxError Found
  unfolding to_listing filter_entries
  discover query public_host listings = do
    entries ← filter_entries query (map (to_listing public_host) listings)
    ok (record { count = length entries; services = entries })
