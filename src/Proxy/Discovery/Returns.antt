-- ===== src/Proxy/Discovery/Returns.antt =====
-- That the marketplace answers a filter.
use verdikt.Base.{
  ◌≡◌, refl, Bool, true, false, not, List, [], ◌∷◌, Option, none, some, JsString, Result, ok, ◌>>=◌,
  length, map, All, if◌then◌else◌,
}
use verdikt.Json.Numbers.{ℤ, Number, lt_ℤ}
use verdikt.Proxy.Discovery.{
  Listing, Entry, Query, Found, SyntaxError, to_listing, at_least, at_most, affordable, in_status,
  read_integer, matches, filter_entries, discover,
}
use verdikt.Base.{All}

module _ (number_of : JsString → Number) (bigint_of : JsString → Option ℤ)
    (to_upper : JsString → JsString) where
  abbrev pub Readable : Option JsString → Type 0
  Readable o = (text : JsString) → o ≡ some text → (n : ℤ) × (bigint_of text ≡ some n)

  read_integer-returns :
      (text : JsString)
      → (n : ℤ) × (bigint_of text ≡ some n)
      → (n : ℤ) × (read_integer number_of bigint_of to_upper text ≡ ok n)
  read_integer-returns text (n, e) = (n, rw (e, read_integer) refl)

  affordable-returns :
      (q p : Option JsString)
      → Readable q
      → Readable p
      → (b : Bool) × (affordable number_of bigint_of to_upper q p ≡ ok b)
  affordable-returns none p r s = (true, refl)
  affordable-returns (some text) none r s = (false, refl)
  affordable-returns (some text) (some price) r s =
      let (limit, e) = read_integer-returns text (r text refl) in
      let (asked, f) = read_integer-returns price (s price refl) in
      (not (lt_ℤ limit asked), rw f (rw e refl))

  guarded-returns :
      (c a l s : Bool) (r : Result SyntaxError Bool)
      → (w : Bool) × (r ≡ ok w)
      → (b : Bool) × ((if c
            then ok false
            else if a
            then ok false
            else if l
            then ok false
            else (do w ← r; ok (if w then s else false)))
          ≡ ok b)
  guarded-returns true a l s r given = (false, refl)
  guarded-returns false true l s r given = (false, refl)
  guarded-returns false false true s r given = (false, refl)
  guarded-returns false false false s r (w, e) = (if w then s else false, rw e refl)

  filter_entries-returns :
      (query : Query) (entries : List Entry)
      → Readable query.max_price_minor_units
      → All (λ (e : Entry). Readable e.sla.max_price_minor_units) entries
      → (kept : List Entry) × (filter_entries number_of bigint_of to_upper query entries ≡ ok kept)
  unfolding filter_entries matches
  filter_entries-returns query [] r s = ([], refl)
  filter_entries-returns query (entry ∷ entries) r (s, ss) =
      let (b, e) =
        guarded-returns
          (not (at_least number_of bigint_of to_upper query.min_conformance entry.conformance))
          (not (at_least number_of bigint_of to_upper query.min_availability entry.availability))
          (not (at_most number_of bigint_of to_upper query.max_latency_ms entry.sla.max_latency_ms))
          (in_status number_of bigint_of to_upper query.status entry.status)
          (affordable number_of bigint_of to_upper query.max_price_minor_units
            entry.sla.max_price_minor_units)
          (affordable-returns query.max_price_minor_units entry.sla.max_price_minor_units r s) in
      let (kept, f) = filter_entries-returns query entries r ss in
      (if b then entry ∷ kept else kept, rw e (rw f refl))

  -- The discovery answers whatever the filters are, where BigInt reads the price of the query and
  -- the price bounds of the listings.
  pub discover-returns :
      (query : Query) (public_host : JsString) (listings : List Listing)
      → Readable query.max_price_minor_units
      → All
          (λ (e : Entry). Readable e.sla.max_price_minor_units)
          (map (to_listing public_host) listings)
      → (found : Found) × (discover number_of bigint_of to_upper query public_host listings
          ≡ ok found)
  unfolding discover
  discover-returns query public_host listings r s =
      let (kept, e) = filter_entries-returns query (map (to_listing public_host) listings) r s in
      (record { count = length kept; services = kept }, rw e refl)
