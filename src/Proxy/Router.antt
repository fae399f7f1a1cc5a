-- ===== src/Proxy/Router.antt =====
-- `handleRequest` of proxy/src/router.js: what is done with a request that is not one of the
-- proxy's own. The name service, the registry and the URL parser are parameters; what is said in
-- a `detail` is left out.
pub mod Relayed
use verdikt.Base.{
  ℕ, Bool, true, false, not, ◌&&◌, List, [], ◌∷◌, Option, none, some, JsString, Result, ok, throw,
  ◌>>=◌, js, same_text, to_lower, if◌then◌else◌,
}
use verdikt.Proxy.Upstream.{Url, UrlError, assert_relayable_url, join_upstream}
use verdikt.Proxy.Route.{Routed, on_service_host, route_of}

-- `NONE` is `missing`.
pub data ServiceStatus : Type 0 where
  missing active suspended deregistered : ServiceStatus

pub record ServiceRecord : Type 0 where
  pub service_id : JsString
  pub name : JsString
  pub slug : JsString
  pub url : Option JsString
  pub sla : Option JsString
  pub owner : Option JsString

pub record ServiceState : Type 0 where
  pub status : ServiceStatus
  pub provider : JsString

pub record ProxyConfig : Type 0 where
  pub public_host : JsString
  pub allow_private_upstream : Bool

pub record PaymentHeader : Type 0 where
  pub name : JsString
  pub value : JsString

pub record Request : Type 0 where
  pub hostname : JsString
  pub pathname : JsString
  pub search : JsString
  pub payment : Option PaymentHeader

-- An answer in JSON, the relay of the request, or the verification of a paid one.
pub data Reply : Type 0 where
  unknown_service naming_layer_unavailable registry_unavailable no_endpoint owner_mismatch : Reply
  service_not_active : ServiceStatus → Reply
  bad_upstream : UrlError → Reply
  passthrough : Url → Reply
  verified : ServiceRecord → Url → PaymentHeader → Reply

-- `checkOwnership` of proxy/src/challenge.js: an empty owner is none.
unfoldable pub check_ownership : Option JsString → JsString → Bool
check_ownership none provider = true
check_ownership (some []) provider = true
check_ownership (some (c ∷ cs)) provider = same_text (to_lower (c ∷ cs)) (to_lower provider)

abbrev pub present : Option JsString → Option JsString
present none = none
present (some []) = none
present (some (c ∷ cs)) = some (c ∷ cs)

abbrev pub forward : ServiceRecord → Url → Option PaymentHeader → Reply
forward found upstream none = passthrough upstream
forward found upstream (some payment) = verified found upstream payment

abbrev pub to_upstream : ServiceRecord → Option PaymentHeader → Result UrlError Url → Reply
to_upstream found payment (throw e) = bad_upstream e
to_upstream found payment (ok upstream) = forward found upstream payment

abbrev pub is_missing : ServiceStatus → Bool
is_missing missing = true
is_missing active = false
is_missing suspended = false
is_missing deregistered = false

module _ (parse_url : JsString → Option Url) (url_from : JsString → Url → Option Url)
    (with_search : Url → JsString → Url) (resolve : JsString → Result JsString ServiceRecord)
    (get_service : JsString → Result JsString ServiceState) (config : ProxyConfig) where
  -- `joinUpstream(assertRelayableUrl(record.url, ...), rest, url.search)`
  abbrev pub upstream_of : JsString → JsString → JsString → Result UrlError Url
  upstream_of raw rest search =
      assert_relayable_url parse_url url_from with_search raw config.allow_private_upstream
      >>= λ base. join_upstream parse_url url_from with_search base rest search

  abbrev pub serve_status : ServiceStatus → ServiceRecord → JsString → JsString → Request → Reply
  serve_status missing found raw rest request = unknown_service
  serve_status suspended found raw rest request = service_not_active suspended
  serve_status deregistered found raw rest request = service_not_active deregistered
  serve_status active found raw rest request =
      to_upstream found request.payment (upstream_of raw rest request.search)

  -- The checks of the record, after that of the status `NONE`.
  abbrev pub serve_record :
      ServiceState → Option JsString → ServiceRecord → JsString → Request → Reply
  serve_record state none found rest request = no_endpoint
  serve_record state (some raw) found rest request =
      if check_ownership found.owner state.provider
      then serve_status state.status found raw rest request
      else owner_mismatch

  abbrev pub serve_state : Result JsString ServiceState → ServiceRecord → JsString → Request → Reply
  serve_state (throw e) found rest request = registry_unavailable
  serve_state (ok state) found rest request =
      if is_missing state.status
      then unknown_service
      else serve_record state (present found.url) found rest request

  abbrev pub serve_resolved : Result JsString ServiceRecord → JsString → Request → Reply
  serve_resolved (throw e) rest request = naming_layer_unavailable
  serve_resolved (ok found) rest request =
      serve_state (get_service found.service_id) found rest request

  abbrev pub serve_routed : Option Routed → Request → Reply
  serve_routed none request = unknown_service
  serve_routed (some route) request = serve_resolved (resolve route.slug) route.rest request

  unfoldable pub serve : Request → Reply
  unfolding check_ownership
  serve request =
      serve_routed (route_of request.hostname request.pathname config.public_host) request
