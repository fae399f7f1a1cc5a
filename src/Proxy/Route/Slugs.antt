-- ===== src/Proxy/Route/Slugs.antt =====
-- Which slugs a request is routed to.
use verdikt.Base.{
  ◌≡◌, refl, sym, ap, true, false, List, [], ◌∷◌, Option, none, some, JsString, Bool-cases, inl,
  inr, split,
}
use verdikt.Proxy.Route.{
  is_slug, Routed, on_service_host, slug_or_none, host_label, strip_slashes, join_path, routed,
  path_route, route_of,
}

slug_or_none-some : (s t : JsString) → slug_or_none s ≡ some t → (s ≡ t) × (is_slug t ≡ true)
slug_or_none-some s t h = elim (Bool-cases (is_slug s)) [
  | inl e ↦ let same : s ≡ t = (let h' = rw e at h in cc) in (same, rw (← same) e)
  | inr e ↦ let h' = rw e at h in cc
]

routed-some :
    (rest : JsString) (o : Option JsString) (r : Routed)
    → routed rest o ≡ some r
    → (o ≡ some r.slug) × (r.rest ≡ rest)
routed-some rest none r h = cc
routed-some rest (some slug) r h =
    let same : (record { slug = slug; rest = rest }) ≡ r = cc in rw (← same) (refl, refl)

path_route-some :
    (parts : List JsString) (r : Routed)
    → path_route parts ≡ some r
    → (is_slug r.slug ≡ true)
      × ((first : JsString) × (rest : List JsString) × (parts ≡ first ∷ r.slug ∷ rest)
          × (r.rest ≡ join_path rest))
path_route-some (first ∷ slug ∷ rest) r h =
    let (got, same) = routed-some (join_path rest) (slug_or_none slug) r h in
    let (e, valid) = slug_or_none-some slug r.slug got in
    (valid, (first, rest, ap (λ s. first ∷ s ∷ rest) e, same))
path_route-some [] r h = cc
path_route-some (first ∷ []) r h = cc

-- A request is only ever routed to a valid slug. On the service host the slug is the label of the
-- host, whatever the path is, and the rest is the path without its leading slashes; elsewhere the
-- slug is the first segment of the path and the rest is what follows it.
pub route_of-slug :
    (hostname pathname public_host : JsString) (r : Routed)
    → route_of hostname pathname public_host ≡ some r
    → (is_slug r.slug ≡ true)
      × (on_service_host hostname public_host ≡ true
          → (r.slug ≡ host_label hostname public_host) × (r.rest ≡ strip_slashes pathname))
      × (on_service_host hostname public_host ≡ false
          → (first : JsString) × (rest : List JsString) × (split 47 pathname
              ≡ first ∷ r.slug ∷ rest)
            × (r.rest ≡ join_path rest))
unfolding route_of
route_of-slug hostname pathname public_host r h =
    elim (Bool-cases (on_service_host hostname public_host)) [
      | inl e ↦
          let (got, same) =
            routed-some (strip_slashes pathname) (slug_or_none (host_label hostname public_host)) r
              (rw e at h) in
          let (label, valid) = slug_or_none-some (host_label hostname public_host) r.slug got in
          (valid, λ _. (sym label, same), λ n. cc)
      | inr e ↦
          let (valid, shape) = path_route-some (split 47 pathname) r (rw e at h) in
          (valid, λ n. cc, λ _. shape)
    ]
