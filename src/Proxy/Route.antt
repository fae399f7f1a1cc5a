-- ===== src/Proxy/Route.antt =====
-- `routeOf`, `onServiceHost` and `hostSlug` of proxy/src/router.js, and the slugs. A request is the
-- host name and the path of its URL.
pub mod Slugs
use verdikt.Base.{
  ℕ, ◌+◌, ◌-◌, Bool, true, false, not, ◌&&◌, ◌||◌, List, [], ◌∷◌, ◌++◌, Option, none, some,
  JsString, length, take, drop, leb, ◌==◌, is_digit, split, ends_with, to_lower, if◌then◌else◌,
}

-- `[a-z0-9]`
abbrev pub is_alnum : ℕ → Bool
is_alnum c = is_digit c || (leb 97 c && leb c 122)

-- `-` is 45.
abbrev pub is_inner : ℕ → Bool
is_inner c = is_alnum c || c == 45

-- `[a-z0-9-]*[a-z0-9]`
abbrev pub ends_alnum : JsString → Bool
ends_alnum [] = false
ends_alnum (c ∷ []) = is_alnum c
ends_alnum (c ∷ d ∷ cs) = is_inner c && ends_alnum (d ∷ cs)

abbrev pub is_tail : JsString → Bool
is_tail [] = true
is_tail (c ∷ cs) = leb (length (c ∷ cs)) 62 && ends_alnum (c ∷ cs)

-- `/^[a-z0-9](?:[a-z0-9-]{0,61}[a-z0-9])?$/`
unfoldable pub is_slug : JsString → Bool
is_slug [] = false
is_slug (c ∷ cs) = is_alnum c && is_tail cs

pub record Routed : Type 0 where
  pub slug : JsString
  pub rest : JsString

-- `.` is 46.
abbrev pub on_service_host : JsString → JsString → Bool
on_service_host hostname public_host = ends_with (46 ∷ to_lower public_host) (to_lower hostname)

abbrev pub slug_or_none : JsString → Option JsString
slug_or_none slug = if is_slug slug then some slug else none

-- `host.slice(0, -(config.publicHost.length + 1))`
abbrev pub host_label : JsString → JsString → JsString
host_label hostname public_host =
    take (length (to_lower hostname) - (length public_host + 1)) (to_lower hostname)

abbrev pub host_slug : JsString → JsString → Option JsString
host_slug hostname public_host =
    if on_service_host hostname public_host
    then slug_or_none (host_label hostname public_host)
    else none

-- `pathname.replace(/^\/+/, '')`
abbrev pub strip_slashes : JsString → JsString
strip_slashes [] = []
strip_slashes (c ∷ cs) = if c == 47 then strip_slashes cs else c ∷ cs

-- `rest.join('/')`
abbrev pub join_path : List JsString → JsString
join_path [] = []
join_path (s ∷ []) = s
join_path (s ∷ t ∷ ss) = s ++ 47 ∷ join_path (t ∷ ss)

abbrev pub routed : JsString → Option JsString → Option Routed
routed rest none = none
routed rest (some slug) = some (record { slug = slug; rest = rest })

abbrev pub path_route : List JsString → Option Routed
path_route (_ ∷ slug ∷ rest) = routed (join_path rest) (slug_or_none slug)
path_route _ = none

unfoldable pub route_of : JsString → JsString → JsString → Option Routed
unfolding is_slug split
route_of hostname pathname public_host =
    if on_service_host hostname public_host
    then routed (strip_slashes pathname) (host_slug hostname public_host)
    else path_route (split 47 pathname)
