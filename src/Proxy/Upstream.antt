-- ===== src/Proxy/Upstream.antt =====
-- proxy/src/http.js: the headers that cross, and the URL that is dialled. The URL parser of the
-- platform is a parameter.
use verdikt.Base.{
  Bool, not, ◌&&◌, ◌||◌, List, [], ◌∷◌, ◌++◌, Option, none, some, JsString, Result, ok, throw,
  ◌>>=◌, ◌>>◌, throw_if, js, same_text, starts_with, ends_with, to_lower, map, if◌then◌else◌,
}
use verdikt.Base.Dict.{Dict, set}
use verdikt.Json.Reading.{has}
use verdikt.Proxy.Address.{is_private_host}

unfoldable pub drop_from_request : List JsString
unfolding js
drop_from_request = map js (
    "host" ∷ "connection" ∷ "keep-alive" ∷ "proxy-authenticate" ∷ "proxy-authorization" ∷ "te"
    ∷ "trailer" ∷ "transfer-encoding" ∷ "upgrade" ∷ "content-length" ∷ "accept-encoding" ∷ [])

unfoldable pub drop_from_response : List JsString
unfolding js
drop_from_response = map js (
    "connection" ∷ "keep-alive" ∷ "proxy-authenticate" ∷ "transfer-encoding" ∷ "upgrade"
    ∷ "content-encoding" ∷ "content-length" ∷ [])

-- A value: missing, one, or several.
pub data HeaderValue : Type 0 where
  missing : HeaderValue
  one : JsString → HeaderValue
  several : List JsString → HeaderValue

-- `value.join(', ')`
abbrev pub joined : List JsString → JsString
joined [] = []
joined (s ∷ []) = s
joined (s ∷ t ∷ ss) = s ++ (44 ∷ 32 ∷ joined (t ∷ ss))

abbrev pub header_text : HeaderValue → Option JsString
header_text missing = none
header_text (one s) = some s
header_text (several ss) = some (joined ss)

-- `out[name] = value`, unless there is no value or the header is dropped.
abbrev pub keep_header : List JsString → JsString → Option JsString → Dict JsString → Dict JsString
keep_header dropped name none out = out
keep_header dropped name (some text) out =
    if has dropped (to_lower name) then out else set name text out

unfoldable pub forward_request_headers : Dict JsString → Dict HeaderValue → Dict JsString
forward_request_headers out [] = out
forward_request_headers out ((name, v) ∷ headers) =
    forward_request_headers (keep_header drop_from_request name (header_text v) out) headers

unfoldable pub forward_response_headers : Dict JsString → Dict JsString → Dict JsString
forward_response_headers out [] = out
forward_response_headers out ((name, v) ∷ headers) =
    forward_response_headers (keep_header drop_from_response name (some v) out) headers

pub record Url : Type 0 where
  pub protocol : JsString
  pub hostname : JsString
  pub pathname : JsString
  pub search : JsString

pub data UrlError : Type 0 where
  not_a_url : JsString → UrlError
  not_http private_host : JsString → UrlError
  escapes_base : UrlError

abbrev pub url_or : UrlError → Option Url → Result UrlError Url
url_or e none = throw e
url_or e (some url) = ok url

abbrev pub is_http : JsString → Bool
is_http protocol = same_text protocol (js "https:") || same_text protocol (js "http:")

-- `basePath`, which ends in `/` (47).
abbrev pub base_path : Url → JsString
base_path base =
    if ends_with (47 ∷ []) base.pathname then base.pathname else base.pathname ++ 47 ∷ []

module _ (parse_url : JsString → Option Url) (url_from : JsString → Url → Option Url)
    (with_search : Url → JsString → Url) where
  unfoldable pub assert_relayable_url : JsString → Bool → Result UrlError Url
  assert_relayable_url raw allow_private = do
    url ← url_or (not_a_url raw) (parse_url raw)
    throw_if (not (is_http url.protocol)) (not_http url.protocol)
    throw_if (not allow_private && is_private_host url.hostname) (private_host url.hostname)
    ok url

  -- `!startsWith(basePath) && pathname !== base.pathname`
  abbrev pub escapes : Url → Url → Bool
  escapes base target =
      not (starts_with (base_path base) target.pathname)
      && not (same_text target.pathname base.pathname)

  unfoldable pub join_upstream : Url → JsString → JsString → Result UrlError Url
  join_upstream base [] search = ok (with_search base search)
  join_upstream base (c ∷ cs) search = do
    target ← url_or (not_a_url (c ∷ cs)) (url_from (base_path base ++ c ∷ cs) base)
    throw_if (escapes base target) escapes_base
    ok (with_search target search)
