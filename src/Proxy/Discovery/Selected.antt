-- ===== src/Proxy/Discovery/Selected.antt =====
-- What a filter of the marketplace selects.
use verdikt.Base.{
  some-injective, ◌≡◌, refl, sym, ap, ◌∙◌, subst, Bool, true, false, not, List, [], ◌∷◌, Option,
  none, some, JsString, Result, ok, throw, ◌>>=◌, >>=-eq-ok, ok-injective, ◌↔◌, same_text_iff,
  same_text→eq, length, map, if◌then◌else◌,
}
use verdikt.Json.Numbers.{ℤ, Number, lt, lt_ℤ}
use verdikt.Proxy.Discovery.{
  Listing, Entry, Query, Found, SyntaxError, not_an_integer, to_listing, at_least, at_most,
  affordable, in_status, read_integer, matches, filter_entries, discover,
}

false≢true : ◌≡◌ {A = Bool} false true → ⊥
false≢true h = cc

module _ (number_of : JsString → Number) (bigint_of : JsString → Option ℤ)
    (to_upper : JsString → JsString) where
  -- Where the query names a minimum, the score is published and not below it.
  abbrev pub NotBelow : Option JsString → Option Number → Type 0
  NotBelow query score =
      (text : JsString)
      → query ≡ some text
      → (n : Number) × (score ≡ some n) × (lt n (number_of text) ≡ false)

  abbrev pub NotAbove : Option JsString → Option Number → Type 0
  NotAbove query bound =
      (text : JsString)
      → query ≡ some text
      → (n : Number) × (bound ≡ some n) × (lt (number_of text) n ≡ false)

  abbrev pub WithinPrice : Option JsString → Option JsString → Type 0
  WithinPrice query price =
      (text : JsString)
      → query ≡ some text
      → (asked : JsString) × (high limit : ℤ) × (price ≡ some asked)
        × (bigint_of asked ≡ some high)
        × (bigint_of text ≡ some limit)
        × (lt_ℤ limit high ≡ false)

  abbrev pub HasStatus : Option JsString → JsString → Type 0
  HasStatus query status = (text : JsString) → query ≡ some text → status ≡ to_upper text

  abbrev pub Meets : Query → Entry → Type 0
  Meets query entry =
      NotBelow query.min_conformance entry.conformance
      × NotBelow query.min_availability entry.availability
      × NotAbove query.max_latency_ms entry.sla.max_latency_ms
      × WithinPrice query.max_price_minor_units entry.sla.max_price_minor_units
      × HasStatus query.status entry.status

  -- The listings that meet the query, in their order.
  pub data Selected (query : Query) (public_host : JsString)
      : List Listing → List Entry → Type 0 where
    done : Selected query public_host [] []
    picked :
        {listing : Listing} {listings : List Listing} {entries : List Entry}
        → Meets query (to_listing public_host listing)
        → Selected query public_host listings entries
        → Selected query public_host (listing ∷ listings) (to_listing public_host listing ∷ entries)
    passed_over :
        {listing : Listing} {listings : List Listing} {entries : List Entry}
        → ¬ (Meets query (to_listing public_host listing))
        → Selected query public_host listings entries
        → Selected query public_host (listing ∷ listings) entries

  not-false : (b : Bool) → not b ≡ true → b ≡ false
  not-false true h = cc
  not-false false h = refl

  not-true : (b : Bool) → b ≡ false → not b ≡ true
  not-true b h = rw h refl

  at_least-NotBelow :
      (q : Option JsString) (s : Option Number)
      → (at_least number_of bigint_of to_upper q s ≡ true) ↔ NotBelow q s
  at_least-NotBelow none s = (λ e text h. cc, λ h. refl)
  at_least-NotBelow (some text) none = (λ e. cc, λ h. let (n, e, f) = h text refl in cc)
  at_least-NotBelow (some text) (some n) = (
    λ e other h.
        (n, refl, not-false _ (subst (λ t. not (lt n (number_of t)) ≡ true) (some-injective h) e)),
    λ h.
        let (m, e, f) = h text refl in
        not-true _ (subst (λ k. lt k (number_of text) ≡ false) (sym (some-injective e)) f),
  )

  at_most-NotAbove :
      (q : Option JsString) (s : Option Number)
      → (at_most number_of bigint_of to_upper q s ≡ true) ↔ NotAbove q s
  at_most-NotAbove none s = (λ e text h. cc, λ h. refl)
  at_most-NotAbove (some text) none = (λ e. cc, λ h. let (n, e, f) = h text refl in cc)
  at_most-NotAbove (some text) (some n) = (
    λ e other h.
        (n, refl, not-false _ (subst (λ t. not (lt (number_of t) n) ≡ true) (some-injective h) e)),
    λ h.
        let (m, e, f) = h text refl in
        not-true _ (subst (λ k. lt (number_of text) k ≡ false) (sym (some-injective e)) f),
  )

  in_status-HasStatus :
      (q : Option JsString) (status : JsString)
      → (in_status number_of bigint_of to_upper q status ≡ true) ↔ HasStatus q status
  in_status-HasStatus none status = (λ e text h. cc, λ h. refl)
  in_status-HasStatus (some text) status = (
    λ e other h. same_text→eq status (to_upper text) e ∙ ap to_upper (some-injective h),
    λ h. (same_text_iff status (to_upper text)).1 (h text refl),
  )

  read_integer-eq-ok :
      (text : JsString) (n : ℤ)
      → read_integer number_of bigint_of to_upper text ≡ ok n
      → bigint_of text ≡ some n
  read_integer-eq-ok text n h = by_value (bigint_of text) h
    where
      by_value :
          (o : Option ℤ)
          → (elim o [ none ↦ throw (not_an_integer text) | some m ↦ ok m ]) ≡ ok n
          → o ≡ some n
      by_value none h = cc
      by_value (some m) h = ap some (ok-injective h)

  affordable-WithinPrice :
      (q p : Option JsString) (b : Bool)
      → affordable number_of bigint_of to_upper q p ≡ ok b
      → (b ≡ true) ↔ WithinPrice q p
  affordable-WithinPrice none p b h = (λ e text g. cc, λ g. sym (ok-injective h))
  affordable-WithinPrice (some text) none b h = (
    λ e. elim (false≢true (ok-injective h ∙ e)) [ ],
    λ g. let (asked, high, limit, e, reads, read, f) = g text refl in cc,
  )
  affordable-WithinPrice (some text) (some price) b h =
      let (asked, read, h1) = >>=-eq-ok (read_integer number_of bigint_of to_upper price) _ h in
      let (limit, also, made) = >>=-eq-ok (read_integer number_of bigint_of to_upper text) _ h1 in
      priced asked limit (read_integer-eq-ok price asked read) (read_integer-eq-ok text limit also)
        (ok-injective made)
    where
      priced :
          (asked limit : ℤ)
          → bigint_of price ≡ some asked
          → bigint_of text ≡ some limit
          → not (lt_ℤ limit asked) ≡ b
          → (b ≡ true) ↔ WithinPrice (some text) (some price)
      priced asked limit read also made = (
        λ e other g. (
          price,
          asked,
          limit,
          refl,
          read,
          ap bigint_of (sym (some-injective g)) ∙ also,
          not-false _ (made ∙ e),
        ),
        λ g.
            let (other, high, low, same, read2, also2, f) = g text refl in
            sym made
            ∙ not-true _ (
                ap (λ k. lt_ℤ k asked) (some-injective (sym also ∙ also2))
                ∙ ap (λ k. lt_ℤ low k)
                    (some-injective (sym read ∙ ap bigint_of (some-injective same) ∙ read2))
                ∙ f),
      )

  guarded :
      (c a l s b : Bool) (r : Result SyntaxError Bool) {C A L R S : Type 0}
      → (c ≡ true) ↔ C
      → (a ≡ true) ↔ A
      → (l ≡ true) ↔ L
      → ((w : Bool) → r ≡ ok w → (w ≡ true) ↔ R)
      → (s ≡ true) ↔ S
      → (if not c
          then ok false
          else if not a
          then ok false
          else if not l
          then ok false
          else (do w ← r; ok (if w then s else false)))
        ≡ ok b
      → (b ≡ true) ↔ (C × A × L × R × S)
  guarded false a l s b r c-C a-A l-L r-R s-S h = (
    λ e. elim (false≢true (ok-injective h ∙ e)) [ ],
    λ (x, y, z, u, v). elim (false≢true (c-C.1 x)) [ ],
  )
  guarded true false l s b r c-C a-A l-L r-R s-S h = (
    λ e. elim (false≢true (ok-injective h ∙ e)) [ ],
    λ (x, y, z, u, v). elim (false≢true (a-A.1 y)) [ ],
  )
  guarded true true false s b r c-C a-A l-L r-R s-S h = (
    λ e. elim (false≢true (ok-injective h ∙ e)) [ ],
    λ (x, y, z, u, v). elim (false≢true (l-L.1 z)) [ ],
  )
  guarded true true true s b (throw fault) c-C a-A l-L r-R s-S h = cc
  guarded true true true s b (ok true) c-C a-A l-L r-R s-S h = (
    λ e. (c-C.0 refl, a-A.0 refl, l-L.0 refl, (r-R true refl).0 refl, s-S.0 (ok-injective h ∙ e)),
    λ (x, y, z, u, v). sym (ok-injective h) ∙ s-S.1 v,
  )
  guarded true true true s b (ok false) c-C a-A l-L r-R s-S h = (
    λ e. elim (false≢true (ok-injective h ∙ e)) [ ],
    λ (x, y, z, u, v). elim (false≢true ((r-R false refl).1 u)) [ ],
  )

  matches-Meets :
      (query : Query) (entry : Entry) (b : Bool)
      → matches number_of bigint_of to_upper query entry ≡ ok b
      → (b ≡ true) ↔ Meets query entry
  unfolding matches
  matches-Meets query entry b h =
      guarded _ _ _ _ b _ (at_least-NotBelow query.min_conformance entry.conformance)
        (at_least-NotBelow query.min_availability entry.availability)
        (at_most-NotAbove query.max_latency_ms entry.sla.max_latency_ms)
        (affordable-WithinPrice query.max_price_minor_units entry.sla.max_price_minor_units)
        (in_status-HasStatus query.status entry.status) h

  filter_entries-Selected :
      (query : Query) (public_host : JsString) (listings : List Listing) (entries : List Entry)
      → filter_entries number_of bigint_of to_upper query (map (to_listing public_host) listings)
        ≡ ok entries
      → Selected query public_host listings entries
  unfolding filter_entries
  filter_entries-Selected query public_host [] entries h =
      subst (Selected query public_host []) (ok-injective h) done
  filter_entries-Selected query public_host (listing ∷ listings) entries h =
      let (admitted, judged, h1) =
        >>=-eq-ok (matches number_of bigint_of to_upper query (to_listing public_host listing)) _
          h in
      let (rest, filtered, made) =
        >>=-eq-ok
          (filter_entries number_of bigint_of to_upper query
            (map (to_listing public_host) listings))
          _ h1 in
      subst (Selected query public_host (listing ∷ listings)) (ok-injective made) (
        chosen admitted rest (matches-Meets query (to_listing public_host listing) admitted judged)
          (filter_entries-Selected query public_host listings rest filtered))
    where
      chosen :
          (admitted : Bool) (rest : List Entry)
          → (admitted ≡ true) ↔ Meets query (to_listing public_host listing)
          → Selected query public_host listings rest
          → Selected query public_host
              (listing ∷ listings)
              (if admitted then to_listing public_host listing ∷ rest else rest)
      chosen true rest iff later = picked (iff.0 refl) later
      chosen false rest iff later = passed_over (λ met. false≢true (iff.1 met)) later

  -- The services that the discovery answers with are exactly the listings that meet every filter of
  -- the query, in their order, and the count is their number. A service that has not published a
  -- score, or declares no latency or price, meets no bound on it.
  pub discover-Selected :
      (query : Query) (public_host : JsString) (listings : List Listing) (found : Found)
      → discover number_of bigint_of to_upper query public_host listings ≡ ok found
      → Selected query public_host listings found.services × (found.count ≡ length found.services)
  unfolding discover
  discover-Selected query public_host listings found h =
      let (entries, filtered, made) =
        >>=-eq-ok
          (filter_entries number_of bigint_of to_upper query
            (map (to_listing public_host) listings))
          _ h in
      (
        subst (Selected query public_host listings) (ap (λ f. f.services) (ok-injective made))
            (filter_entries-Selected query public_host listings entries filtered),
        sym (ap (λ f. f.count) (ok-injective made))
            ∙ ap (λ f. length f.services) (ok-injective made),
      )
