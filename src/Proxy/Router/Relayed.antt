-- ===== src/Proxy/Router/Relayed.antt =====
-- What holds of a request that is relayed.
use verdikt.Base.{
  ◌≡◌, refl, sym, ap, subst, Bool, true, false, not, ◌&&◌, [], ◌∷◌, Option, none, some, JsString,
  Result, ok, throw, >>=-eq-ok, >>-eq-ok, throw_if-eq-ok, ok-injective, Bool-cases, inl, inr, ◌⊎◌,
  same_text, same_text_iff, starts_with, ◌++◌,
}
use verdikt.Proxy.Address.{is_private_host}
use verdikt.Proxy.Upstream.{
  not_a_url, not_http, private_host, escapes_base, Url, UrlError, assert_relayable_url,
  join_upstream, is_http, base_path, escapes, url_or,
}
use verdikt.Proxy.Route.{Routed, is_slug, route_of}
use verdikt.Proxy.Route.Slugs.{route_of-slug}
use verdikt.Proxy.Router.{
  ServiceStatus, active, missing, suspended, deregistered, ServiceRecord, ServiceState, ProxyConfig,
  PaymentHeader, Request, Reply, passthrough, verified, check_ownership, present, forward,
  to_upstream, upstream_of, serve_status, serve_record, serve_state, serve_resolved, serve_routed,
  serve, is_missing,
}
use verdikt.Base.{throw_if}

-- The outcomes that reach the provider, with the URL that is dialled.
abbrev pub dialled : Reply → Option Url
dialled (passthrough upstream) = some upstream
dialled (verified found upstream payment) = some upstream
dialled _ = none

not-false : (b : Bool) → not b ≡ false → b ≡ true
not-false true h = refl
not-false false h = cc

guard : (a p : Bool) → (not a && p) ≡ false → a ≡ false → p ≡ false
guard true p h f = cc
guard false p h f = h

inside_base :
    (b : Bool) (s t : JsString) → (not b && not (same_text s t)) ≡ false → (b ≡ true) ⊎ (s ≡ t)
inside_base true s t h = inl refl
inside_base false s t h = inr ((same_text_iff s t).0 (not-false (same_text s t) h))

module _ (parse_url : JsString → Option Url) (url_from : JsString → Url → Option Url)
    (with_search : Url → JsString → Url) where
  url_or-ok : (e : UrlError) (o : Option Url) (url : Url) → url_or e o ≡ ok url → o ≡ some url
  url_or-ok e none url h = cc
  url_or-ok e (some u) url h = ap some (ok-injective h)

  -- A base that is accepted is an http(s) URL, and of no private host unless those are allowed.
  pub assert_relayable_url-ok :
      (raw : JsString) (allow_private : Bool) (base : Url)
      → assert_relayable_url parse_url url_from with_search raw allow_private ≡ ok base
      → (parse_url raw ≡ some base)
        × (is_http base.protocol ≡ true)
        × (allow_private ≡ false → is_private_host base.hostname ≡ false)
  unfolding assert_relayable_url
  assert_relayable_url-ok raw allow_private base h =
      let (url, got, h1) = >>=-eq-ok (url_or (not_a_url raw) (parse_url raw)) _ h in
      let (http, h2) =
        >>-eq-ok (throw_if (not (is_http url.protocol)) (not_http url.protocol)) _ h1 in
      let private_test = not allow_private && is_private_host url.hostname in
      let (public, made) = >>-eq-ok (throw_if private_test (private_host url.hostname)) _ h2 in
      let web = throw_if-eq-ok (not (is_http url.protocol)) (not_http url.protocol) http in
      let outside = throw_if-eq-ok private_test (private_host url.hostname) public in
      subst
        (λ u.
          (parse_url raw ≡ some u)
          × (is_http u.protocol ≡ true)
          × (allow_private ≡ false → is_private_host u.hostname ≡ false))
        (ok-injective made)
        (
          url_or-ok (not_a_url raw) (parse_url raw) url got,
          not-false (is_http url.protocol) web,
          λ f. guard allow_private (is_private_host url.hostname) outside f,
        )

  -- What is dialled lies under the base path, or is the base itself.
  pub join_upstream-ok :
      (base : Url) (rest search : JsString) (upstream : Url)
      → join_upstream parse_url url_from with_search base rest search ≡ ok upstream
      → (target : Url) × (upstream ≡ with_search target search)
        × ((target ≡ base)
            ⊎ ((url_from (base_path base ++ rest) base ≡ some target)
                × ((starts_with (base_path base) target.pathname ≡ true)
                    ⊎ (target.pathname ≡ base.pathname))))
  unfolding join_upstream
  join_upstream-ok base [] search upstream h = (base, sym (ok-injective h), inl refl)
  join_upstream-ok base (c ∷ cs) search upstream h =
      let (target, got, h1) =
        >>=-eq-ok (url_or (not_a_url (c ∷ cs)) (url_from (base_path base ++ c ∷ cs) base)) _ h in
      let (inner, made) =
        >>-eq-ok (throw_if (escapes parse_url url_from with_search base target) escapes_base) _
          h1 in
      (
        target,
        sym (ok-injective made),
        inr (
          url_or-ok (not_a_url (c ∷ cs)) (url_from (base_path base ++ c ∷ cs) base) target got,
          inside_base (starts_with (base_path base) target.pathname) target.pathname base.pathname (
              throw_if-eq-ok (escapes parse_url url_from with_search base target) escapes_base
                inner),
        ),
      )

module _ (parse_url : JsString → Option Url) (url_from : JsString → Url → Option Url)
    (with_search : Url → JsString → Url) (resolve : JsString → Result JsString ServiceRecord)
    (get_service : JsString → Result JsString ServiceState) (config : ProxyConfig) where
  -- What a service must be for `upstream` to be dialled: active, owned on both sides by the same
  -- account or on one side by none, with a `url` that passes the checks.
  abbrev pub IsServed : ServiceRecord → JsString → Request → Url → Type 0
  IsServed found rest request upstream =
      (state : ServiceState) × (raw : JsString) × (get_service found.service_id ≡ ok state)
      × (state.status ≡ active)
      × (check_ownership found.owner state.provider ≡ true)
      × (present found.url ≡ some raw)
      × (base : Url) × (parse_url raw ≡ some base)
      × (is_http base.protocol ≡ true)
      × (config.allow_private_upstream ≡ false → is_private_host base.hostname ≡ false)
      × (join_upstream parse_url url_from with_search base rest request.search ≡ ok upstream)

  forward-dialled :
      (found : ServiceRecord) (url upstream : Url) (payment : Option PaymentHeader)
      → dialled (forward found url payment) ≡ some upstream
      → url ≡ upstream
  forward-dialled found url upstream none h = cc
  forward-dialled found url upstream (some p) h = cc

  to_upstream-dialled :
      (found : ServiceRecord) (payment : Option PaymentHeader) (r : Result UrlError Url)
      (upstream : Url)
      → dialled (to_upstream found payment r) ≡ some upstream
      → r ≡ ok upstream
  to_upstream-dialled found payment (throw e) upstream h = cc
  to_upstream-dialled found payment (ok url) upstream h =
      ap ok (forward-dialled found url upstream payment h)

  serve_status-dialled :
      (status : ServiceStatus) (found : ServiceRecord) (raw rest : JsString) (request : Request)
      (upstream : Url)
      → dialled (
          serve_status parse_url url_from with_search resolve get_service config status found raw
            rest request)
        ≡ some upstream
      → (status ≡ active)
        × (base : Url) × (parse_url raw ≡ some base)
        × (is_http base.protocol ≡ true)
        × (config.allow_private_upstream ≡ false → is_private_host base.hostname ≡ false)
        × (join_upstream parse_url url_from with_search base rest request.search ≡ ok upstream)
  serve_status-dialled missing found raw rest request upstream h = cc
  serve_status-dialled suspended found raw rest request upstream h = cc
  serve_status-dialled deregistered found raw rest request upstream h = cc
  serve_status-dialled active found raw rest request upstream h =
      let joined =
        to_upstream-dialled found request.payment
          (upstream_of parse_url url_from with_search resolve get_service config raw rest
            request.search)
          upstream h in
      let (base, got, made) =
        >>=-eq-ok
          (assert_relayable_url parse_url url_from with_search raw config.allow_private_upstream) _
          joined in
      let (parsed, web, outside) =
        assert_relayable_url-ok parse_url url_from with_search raw config.allow_private_upstream
          base got in
      (refl, base, parsed, web, outside, made)

  serve_record-dialled :
      (state : ServiceState) (o : Option JsString) (found : ServiceRecord) (rest : JsString)
      (request : Request) (upstream : Url)
      → get_service found.service_id ≡ ok state
      → present found.url ≡ o
      → dialled (
          serve_record parse_url url_from with_search resolve get_service config state o found rest
            request)
        ≡ some upstream
      → IsServed found rest request upstream
  serve_record-dialled state none found rest request upstream g p h = cc
  serve_record-dialled state (some raw) found rest request upstream g p h =
      elim (Bool-cases (check_ownership found.owner state.provider)) [
        | inr e ↦ let h' = rw e at h in cc
        | inl e ↦
            let (status, base, parsed, web, outside, made) =
              serve_status-dialled state.status found raw rest request upstream (rw e at h) in
            (state, raw, g, status, e, p, base, parsed, web, outside, made)
      ]

  serve_state-dialled :
      (r : Result JsString ServiceState) (found : ServiceRecord) (rest : JsString)
      (request : Request) (upstream : Url)
      → get_service found.service_id ≡ r
      → dialled (
          serve_state parse_url url_from with_search resolve get_service config r found rest
            request)
        ≡ some upstream
      → IsServed found rest request upstream
  serve_state-dialled (throw e) found rest request upstream g h = cc
  serve_state-dialled (ok state) found rest request upstream g h =
      elim (Bool-cases (is_missing state.status)) [
        | inl e ↦ let h' = rw e at h in cc
        | inr e ↦
            serve_record-dialled state (present found.url) found rest request upstream g refl
              (rw e at h)
      ]

  serve_resolved-dialled :
      (r : Result JsString ServiceRecord) (rest : JsString) (request : Request) (upstream : Url)
      → dialled
          (serve_resolved parse_url url_from with_search resolve get_service config r rest request)
        ≡ some upstream
      → (found : ServiceRecord) × (r ≡ ok found) × IsServed found rest request upstream
  serve_resolved-dialled (throw e) rest request upstream h = cc
  serve_resolved-dialled (ok found) rest request upstream h = (
    found,
    refl,
    serve_state-dialled (get_service found.service_id) found rest request upstream refl h,
  )

  serve_routed-dialled :
      (o : Option Routed) (request : Request) (upstream : Url)
      → dialled (serve_routed parse_url url_from with_search resolve get_service config o request)
        ≡ some upstream
      → (route : Routed) × (o ≡ some route)
        × (found : ServiceRecord) × (resolve route.slug ≡ ok found)
        × IsServed found route.rest request upstream
  serve_routed-dialled none request upstream h = cc
  serve_routed-dialled (some route) request upstream h =
      let (found, got, served) =
        serve_resolved-dialled (resolve route.slug) route.rest request upstream h in
      (route, refl, found, got, served)

  -- A request reaches a provider only if it is routed to a valid slug whose name record resolves,
  -- the registry holds that service as ACTIVE, the owners on both sides do not disagree, and the
  -- `url` of the record is an http(s) URL, of no private host unless the configuration allows
  -- those. What is then dialled is that base joined with the rest of the path.
  pub serve-dialled :
      (request : Request) (upstream : Url)
      → dialled (serve parse_url url_from with_search resolve get_service config request)
        ≡ some upstream
      → (route : Routed) × (route_of request.hostname request.pathname config.public_host
          ≡ some route)
        × (is_slug route.slug ≡ true)
        × (found : ServiceRecord) × (resolve route.slug ≡ ok found)
        × IsServed found route.rest request upstream
  unfolding serve
  serve-dialled request upstream h =
      let (route, e, found, got, served) =
        serve_routed-dialled (route_of request.hostname request.pathname config.public_host) request
          upstream h in
      let valid = (route_of-slug request.hostname request.pathname config.public_host route e).0 in
      (route, e, valid, found, got, served)
