-- ===== src/Proxy/Own/Reserved.antt =====
-- Which requests the proxy answers itself, and what an answer changes.
use verdikt.Base.{
  some-injective, any, ℕ, ◌≡◌, refl, sym, ap, ◌∙◌, Bool, true, false, ◌&&◌, List, [], ◌∷◌, ◌++◌,
  Option, none, some, JsString, Result, ◌⊎◌, inl, inr, js, same_text, ◌==◌, ==_iff, if◌then◌else◌,
}
use verdikt.Json.{Json}
use verdikt.Json.Numbers.{ℤ, Number}
use verdikt.Proxy.Route.{on_service_host}
use verdikt.Proxy.Router.{ServiceRecord}
use verdikt.Proxy.Disclosure.{StoredVerdict}
use verdikt.Proxy.Callback.{handle_callback}
use verdikt.Proxy.Own.{
  OwnRequest, OwnState, Own, OwnConfig, healthy, list_services, same_state, called_back,
  segment_after, get_segment, is_get, is_internal, is_callback, read_evidence, read_sla,
  internal_route, below_services, proxy_route, own_reply,
}

segment_after-append :
    (prefix path rest : JsString) → segment_after prefix path ≡ some rest → path ≡ prefix ++ rest
segment_after-append [] [] rest h = cc
segment_after-append [] (c ∷ cs) rest h = whole (any (λ d. d == 47) (c ∷ cs)) h
  where
    whole : (b : Bool) → (if b then none else some (c ∷ cs)) ≡ some rest → c ∷ cs ≡ rest
    whole true h = cc
    whole false h = some-injective h
segment_after-append (p ∷ prefix) [] rest h = cc
segment_after-append (p ∷ prefix) (c ∷ cs) rest h =
    next (p == c) refl h (segment_after-append prefix cs rest)
  where
    next :
        (b : Bool)
        → (p == c) ≡ b
        → (if b then segment_after prefix cs else none) ≡ some rest
        → (segment_after prefix cs ≡ some rest → cs ≡ prefix ++ rest)
        → c ∷ cs ≡ p ∷ (prefix ++ rest)
    next true same h more =
        ap (λ d. d ∷ cs) (sym ((==_iff p c).0 same)) ∙ ap (λ ds. p ∷ ds) (more h)
    next false same h more = cc

get_segment-some :
    (request : OwnRequest) (prefix rest : JsString)
    → get_segment request prefix ≡ some rest
    → (is_get request ≡ true) × (request.pathname ≡ prefix ++ rest)
get_segment-some request prefix rest h = by_method (is_get request) refl h
  where
    by_method :
        (b : Bool)
        → is_get request ≡ b
        → (if b then segment_after prefix request.pathname else none) ≡ some rest
        → (is_get request ≡ true) × (request.pathname ≡ prefix ++ rest)
    by_method true e h = (e, segment_after-append prefix request.pathname rest h)
    by_method false e h = cc

module _ (E : Type 0) (parse_json : JsString → Option Json) (utf8 : JsString → List ℕ)
    (number_of : JsString → Number) (bigint_of : JsString → Option ℤ)
    (to_upper : JsString → JsString) (resolve : JsString → Result JsString ServiceRecord)
    (get_verdict : JsString → Result JsString (Option StoredVerdict)) (config : OwnConfig E)
    (request : OwnRequest) (s : OwnState E) where
  abbrev on_host : Bool
  on_host = on_service_host request.hostname config.public_host

  -- Only a callback tells or touches who waits, and only a read of evidence touches the store.
  abbrev pub Touches : Own E → Type 0
  Touches own =
      ((is_callback E parse_json utf8 number_of bigint_of to_upper resolve get_verdict request
          ≡ true)
        × (own.after.evidence ≡ s.evidence))
      ⊎ ((own.told ≡ [])
          × (own.after.workflow ≡ s.workflow)
          × ((own.after.evidence ≡ s.evidence)
              ⊎ ((id : JsString) × (is_get request ≡ true)
                  × (request.pathname ≡ js "/internal/evidence/" ++ id))))

  abbrev pub Answers : Option (Own E) → Type 0
  Answers none = (is_internal request.pathname ≡ false)
  Answers (some own) = Touches own

  read_evidence-Touches :
      (o : Option JsString)
      → get_segment request (js "/internal/evidence/") ≡ o
      → Touches (
          read_evidence E parse_json utf8 number_of bigint_of to_upper resolve get_verdict config o
            s)
  read_evidence-Touches none h = inr (refl, refl, inl refl)
  read_evidence-Touches (some id) h =
      let (got, path) = get_segment-some request (js "/internal/evidence/") id h in
      inr (refl, refl, inr (id, got, path))

  read_sla-Touches :
      (o : Option JsString)
      → Touches (
          read_sla E parse_json utf8 number_of bigint_of to_upper resolve get_verdict config request
            o s)
  read_sla-Touches none = read_evidence-Touches _ refl
  read_sla-Touches (some slug) = inr (refl, refl, inl refl)

  internal_route-Touches : Touches (
      internal_route E parse_json utf8 number_of bigint_of to_upper resolve get_verdict config
        request s)
  internal_route-Touches =
      by_callback
        (is_callback E parse_json utf8 number_of bigint_of to_upper resolve get_verdict request)
        refl
    where
      by_callback :
          (b : Bool)
          → is_callback E parse_json utf8 number_of bigint_of to_upper resolve get_verdict request
            ≡ b
          → Touches (
              if b
              then called_back E s (
                  handle_callback parse_json utf8 config.callback_token request.authorization
                    request.body s.workflow)
              else read_sla E parse_json utf8 number_of bigint_of to_upper resolve get_verdict
                  config request
                  (get_segment request (js "/internal/sla/"))
                  s)
      by_callback true e = inl (e, refl)
      by_callback false e = read_sla-Touches _

  below_services-Answers :
      (o : Option JsString)
      → Answers (
          below_services E parse_json utf8 number_of bigint_of to_upper resolve get_verdict config
            request o s)
  below_services-Answers (some slug) = inr (refl, refl, inl refl)
  below_services-Answers none = by_prefix (is_internal request.pathname) refl
    where
      by_prefix :
          (b : Bool)
          → is_internal request.pathname ≡ b
          → Answers (
              if b
              then some (
                  internal_route E parse_json utf8 number_of bigint_of to_upper resolve get_verdict
                    config request s)
              else none)
      by_prefix true e = internal_route-Touches
      by_prefix false e = e

  if-Answers :
      (b : Bool) (own : Own E) (o : Option (Own E))
      → Touches own
      → Answers o
      → Answers (if b then some own else o)
  if-Answers true own o t a = t
  if-Answers false own o t a = a

  proxy_route-Answers : Answers (
      proxy_route E parse_json utf8 number_of bigint_of to_upper resolve get_verdict config request
        s)
  unfolding proxy_route
  proxy_route-Answers =
      let below =
        below_services E parse_json utf8 number_of bigint_of to_upper resolve get_verdict config
          request (get_segment request (js "/services/")) s in
      let listed = same_state E s (
        list_services E parse_json utf8 number_of bigint_of to_upper resolve get_verdict
          request.query config.public_host config.marketplace) in
      if-Answers (is_get request && same_text request.pathname (js "/healthz"))
        (same_state E s healthy)
        (if is_get request && same_text request.pathname (js "/services")
          then some listed
          else below)
        (inr (refl, refl, inl refl))
        (if-Answers (is_get request && same_text request.pathname (js "/services")) listed below
          (inr (refl, refl, inl refl))
          (below_services-Answers (get_segment request (js "/services/"))))

  -- On the host of a service the proxy answers nothing itself. Elsewhere it leaves no path under
  -- `/internal` to a service, and of what it answers only a POST of a callback tells or changes who
  -- waits, and only a GET of one evidence changes the store.
  pub own_reply-Answers :
      ((on_host ≡ true)
        × (own_reply E parse_json utf8 number_of bigint_of to_upper resolve get_verdict config
              request s
            ≡ none))
      ⊎ ((on_host ≡ false)
          × Answers (
              own_reply E parse_json utf8 number_of bigint_of to_upper resolve get_verdict config
                request s))
  unfolding own_reply
  own_reply-Answers = by_host on_host refl
    where
      by_host :
          (b : Bool)
          → on_host ≡ b
          → let o =
              if b
              then none
              else proxy_route E parse_json utf8 number_of bigint_of to_upper resolve get_verdict
                  config request s in
            ((on_host ≡ true) × (o ≡ none)) ⊎ ((on_host ≡ false) × Answers o)
      by_host true e = inl (e, refl)
      by_host false e = inr (e, proxy_route-Answers)
