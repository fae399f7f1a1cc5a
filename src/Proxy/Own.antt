-- ===== src/Proxy/Own.antt =====
-- The proxy's own routes in proxy/src/router.js: `proxyRoute`, `handleSlaRead`, `passthrough`, and
-- the part of `handleRequest` that comes before the routing to a service. Services, evidence and
-- pending verifications are those of the other modules; what is said in a `detail` is left out.
pub mod Reserved
mod Examples
use verdikt.Base.{
  ℕ, Bool, true, false, not, ◌&&◌, ◌||◌, List, [], ◌∷◌, Option, none, some, JsString, Result, ok,
  throw, js, same_text, starts_with, drop, any, find, ◌==◌, if◌then◌else◌,
}
use verdikt.Base.Dict.{Dict}
use verdikt.Json.{Json}
use verdikt.Json.Numbers.{ℤ, Number}
use verdikt.Proxy.Upstream.{Url, HeaderValue, forward_request_headers, forward_response_headers}
use verdikt.Proxy.Route.{is_slug, on_service_host}
use verdikt.Proxy.Router.{ServiceRecord, present}
use verdikt.Proxy.Evidence.{Entries}
use verdikt.Proxy.Disclosure.{StoredVerdict, EvidenceReply, handle_evidence_read}
use verdikt.Proxy.Pending.{Answer}
use verdikt.Proxy.Callback.{WorkflowResult, Pending, Handled, CallbackReply, handle_callback}
use verdikt.Proxy.Discovery.{Listing, Entry, Query, Found, SyntaxError, to_listing, discover}

pub data SlaReply : Type 0 where
  not_a_slug naming_layer_unavailable no_sla : SlaReply
  published : (slug sla : JsString) → (url : Option JsString) → SlaReply

abbrev sla_of : JsString → Result JsString ServiceRecord → SlaReply
sla_of slug (throw e) = naming_layer_unavailable
sla_of slug (ok found) = elim (present found.sla) [
  | none ↦ no_sla
  | some sla ↦ published slug sla found.url
]

unfoldable pub handle_sla_read : (JsString → Result JsString ServiceRecord) → JsString → SlaReply
handle_sla_read resolve slug = if is_slug slug then sla_of slug (resolve slug) else not_a_slug

-- The relay of an unpaid request: what the provider answers, or nothing.
pub record ProviderAnswer : Type 0 where
  pub status : ℕ
  pub headers : Dict JsString
  pub body : List ℕ

pub data Passed : Type 0 where
  upstream_unreachable : Passed
  relayed : (status : ℕ) → (headers : Dict JsString) → (body : List ℕ) → Passed

pub record OwnRequest : Type 0 where
  pub method : JsString
  pub hostname : JsString
  pub pathname : JsString
  pub query : Query
  pub authorization : Option JsString
  pub body : JsString

-- The path after the prefix, if it is one segment: `/^<prefix>([^/]+)$/`.
abbrev pub segment_after : JsString → JsString → Option JsString
segment_after [] [] = none
segment_after [] (c ∷ cs) = if any (λ d. d == 47) (c ∷ cs) then none else some (c ∷ cs)
segment_after (p ∷ prefix) [] = none
segment_after (p ∷ prefix) (c ∷ cs) = if p == c then segment_after prefix cs else none

abbrev pub is_get : OwnRequest → Bool
is_get request = same_text request.method (js "GET")

abbrev pub get_segment : OwnRequest → JsString → Option JsString
get_segment request prefix = if is_get request then segment_after prefix request.pathname else none

-- `pathname === '/internal' || pathname.startsWith('/internal/')`
abbrev pub is_internal : JsString → Bool
is_internal pathname = same_text pathname (js "/internal") || starts_with (js "/internal/") pathname

module _ (E : Type 0) where
  pub data OwnReply : Type 0 where
    healthy discovery_unavailable marketplace_unavailable unknown_internal_route : OwnReply
    services : Found → OwnReply
    unknown_service : (slug : JsString) → OwnReply
    service : Entry → OwnReply
    callback : CallbackReply → OwnReply
    sla : SlaReply → OwnReply
    evidence : EvidenceReply E → OwnReply
    -- What the marketplace throws is not caught on the route of one service.
    uncaught : (message : JsString) → OwnReply

  pub record OwnState : Type 0 where
    pub workflow : Option Pending
    pub evidence : Option (Entries E)

  pub record Own : Type 0 where
    pub reply : OwnReply
    pub told : List (Answer WorkflowResult)
    pub after : OwnState

  -- The marketplace, if there is one, gives its listings or throws.
  pub record OwnConfig : Type 0 where
    pub public_host : JsString
    pub callback_token : Option JsString
    pub adjudication_window_ms : ℕ
    pub now : ℕ
    pub marketplace : Option (Result JsString (List Listing))

  abbrev pub same_state : OwnState → OwnReply → Own
  same_state s reply = record { reply = reply; told = []; after = s }

  abbrev pub called_back : OwnState → Handled → Own
  called_back s h = record {
    reply = callback h.reply;
    told = h.told;
    after = record { workflow = h.after; evidence = s.evidence };
  }

  abbrev pub evidence_read : OwnState → EvidenceReply E × Option (Entries E) → Own
  evidence_read s (reply, after) = record {
    reply = evidence reply;
    told = [];
    after = record { workflow = s.workflow; evidence = after };
  }

  abbrev pub one_listing : JsString → JsString → Option Listing → OwnReply
  one_listing public_host slug none = unknown_service slug
  one_listing public_host slug (some listing) = service (to_listing public_host listing)

  abbrev pub one_service : JsString → JsString → Option (Result JsString (List Listing)) → OwnReply
  one_service public_host slug none = discovery_unavailable
  one_service public_host slug (some (throw message)) = uncaught message
  one_service public_host slug (some (ok listings)) =
      one_listing public_host slug (find (λ listing. same_text listing.slug slug) listings)

  abbrev pub services_found : Result SyntaxError Found → OwnReply
  services_found (throw e) = marketplace_unavailable
  services_found (ok found) = services found

  module _ (parse_json : JsString → Option Json) (utf8 : JsString → List ℕ)
      (number_of : JsString → Number) (bigint_of : JsString → Option ℤ)
      (to_upper : JsString → JsString) (resolve : JsString → Result JsString ServiceRecord)
      (get_verdict : JsString → Result JsString (Option StoredVerdict)) where
    abbrev pub list_services : Query → JsString → Option (Result JsString (List Listing)) → OwnReply
    list_services query public_host none = discovery_unavailable
    list_services query public_host (some (throw message)) = marketplace_unavailable
    list_services query public_host (some (ok listings)) =
        services_found (discover number_of bigint_of to_upper query public_host listings)

    -- A GET under `/internal/`, by the first route that matches.
    abbrev pub read_evidence : OwnConfig → Option JsString → OwnState → Own
    read_evidence config none s = same_state s unknown_internal_route
    read_evidence config (some id) s =
        evidence_read s (
          handle_evidence_read E get_verdict config.now config.adjudication_window_ms id s.evidence)

    abbrev pub read_sla : OwnConfig → OwnRequest → Option JsString → OwnState → Own
    read_sla config request none s =
        read_evidence config (get_segment request (js "/internal/evidence/")) s
    read_sla config request (some slug) s = same_state s (sla (handle_sla_read resolve slug))

    abbrev pub is_callback : OwnRequest → Bool
    is_callback request =
        same_text request.method (js "POST")
        && same_text request.pathname (js "/internal/verification-callback")

    abbrev pub internal_route : OwnConfig → OwnRequest → OwnState → Own
    internal_route config request s =
        if is_callback request
        then called_back s (
            handle_callback parse_json utf8 config.callback_token request.authorization request.body
              s.workflow)
        else read_sla config request (get_segment request (js "/internal/sla/")) s

    abbrev pub below_services : OwnConfig → OwnRequest → Option JsString → OwnState → Option Own
    below_services config request (some slug) s =
        some (same_state s (one_service config.public_host slug config.marketplace))
    below_services config request none s =
        if is_internal request.pathname then some (internal_route config request s) else none

    -- `null` is `none`: the request is none of the proxy's own.
    unfoldable pub proxy_route : OwnConfig → OwnRequest → OwnState → Option Own
    unfolding handle_sla_read js starts_with same_text
    proxy_route config request s =
        if is_get request && same_text request.pathname (js "/healthz")
        then some (same_state s healthy)
        else if is_get request && same_text request.pathname (js "/services")
        then some (same_state s (list_services request.query config.public_host config.marketplace))
        else below_services config request (get_segment request (js "/services/")) s

    -- On the host of a service every path is the service's.
    unfoldable pub own_reply : OwnConfig → OwnRequest → OwnState → Option Own
    unfolding proxy_route
    own_reply config request s =
        if on_service_host request.hostname config.public_host
        then none
        else proxy_route config request s

module _
    (send : Url
      → (method : JsString) → Dict JsString
      → Option (List ℕ)
      → Option ProviderAnswer) where
  abbrev pub pass_back : Option ProviderAnswer → Passed
  pass_back none = upstream_unreachable
  pass_back (some response) =
      relayed response.status (forward_response_headers [] response.headers) response.body

  -- `passthrough`: the response goes back as it is, less the headers of the connection.
  unfoldable pub relay_unpaid : Url → JsString → Dict HeaderValue → Option (List ℕ) → Passed
  relay_unpaid upstream method headers body =
      pass_back (send upstream method (forward_request_headers [] headers) body)
