-- ===== src/Proxy/Examples.antt =====
-- Runs of the proxy, and the theorems at them.
use verdikt.Base.{
  ℕ, ◌≡◌, refl, Bool, true, false, List, [], ◌∷◌, ◌++◌, Option, none, some, JsString, Result, ok,
  throw, js, All, split, ◌≤◌, ◌<◌, ◌+◌, arith,
}
use verdikt.Base.Dict.{get}
use verdikt.Proxy.Upstream.{Url}
use verdikt.Proxy.Route.{
  Routed, is_slug, route_of, on_service_host, host_label, strip_slashes, join_path,
}
use verdikt.Proxy.Route.Slugs.{route_of-slug}
use verdikt.Proxy.Router.{active, ServiceRecord, ServiceState, ProxyConfig, Request, serve}
use verdikt.Proxy.Router.Relayed.{dialled, IsServed, serve-dialled}
use verdikt.Proxy.Evidence.{
  Entry, Entries, Step, stores, reads, waits, alarms, run_memory, run_object, read, empty_storage,
}
use verdikt.Proxy.Evidence.Refines.{run_object-refines}
use verdikt.Proxy.Evidence.Deadlines.{read-deadline}
use verdikt.Proxy.Pending
use verdikt.Proxy.Pending.{
  Outcome, Event, Answer, PendingVerification, fresh, run, registry_run, empty_registry,
}
use verdikt.Proxy.Pending.Once.{run-follows, all_expected}
use verdikt.Proxy.Pending.Agree.{run-registry_run}

abbrev base : Url
base = record {
  protocol = js "https:";
  hostname = js "api.example.com";
  pathname = js "/v1";
  search = [];
}

abbrev parse_url : JsString → Option Url
parse_url raw = some base

abbrev url_from : JsString → Url → Option Url
url_from path against = some (record against { pathname = path })

abbrev with_search : Url → JsString → Url
with_search url search = record url { search = search }

abbrev weather : ServiceRecord
weather = record {
  service_id = js "0x01";
  name = js "weather.verdikt.eth";
  slug = js "weather";
  url = some (js "https://api.example.com/v1");
  sla = none;
  owner = some (js "0xAB");
}

abbrev resolve : JsString → Result JsString ServiceRecord
resolve slug = ok weather

abbrev get_service : JsString → Result JsString ServiceState
get_service id = ok (record { status = active; provider = js "0xab" })

abbrev config : ProxyConfig
config = record { public_host = js "verdikt.bond"; allow_private_upstream = false }

abbrev request : Request
request = record {
  hostname = js "weather.verdikt.bond";
  pathname = js "/oslo";
  search = js "?d=1";
  payment = none;
}

abbrev upstream : Url
upstream = record {
  protocol = js "https:";
  hostname = js "api.example.com";
  pathname = js "/v1/oslo";
  search = js "?d=1";
}

abbrev route : Routed
route = record { slug = js "weather"; rest = js "oslo" }

routed_lem : route_of request.hostname request.pathname config.public_host ≡ some route
unfolding route_of verdikt.Base.ends_with verdikt.Base.to_lower js
routed_lem = refl

served :
    dialled (serve parse_url url_from with_search resolve get_service config request)
    ≡ some upstream
unfolding serve route_of verdikt.Base.ends_with verdikt.Base.to_lower js verdikt.Base.same_text
    verdikt.Proxy.Upstream.assert_relayable_url verdikt.Proxy.Address.is_private_host
    verdikt.Proxy.Upstream.join_upstream
served = refl

serve-dialled_example :
    (r : Routed) × (route_of request.hostname request.pathname config.public_host ≡ some r)
    × (is_slug r.slug ≡ true)
    × (found : ServiceRecord) × (resolve r.slug ≡ ok found)
    × IsServed parse_url url_from with_search resolve get_service config found r.rest request
        upstream
serve-dialled_example =
    serve-dialled parse_url url_from with_search resolve get_service config request upstream served

route_of-slug_example :
    (is_slug (js "weather") ≡ true)
    × (on_service_host request.hostname config.public_host ≡ true
        → (js "weather" ≡ host_label request.hostname config.public_host)
          × (js "oslo" ≡ strip_slashes request.pathname))
    × (on_service_host request.hostname config.public_host ≡ false
        → (first : JsString) × (rest : List JsString) × (split 47 request.pathname
            ≡ first ∷ js "weather" ∷ rest)
          × (js "oslo" ≡ join_path rest))
route_of-slug_example =
    route_of-slug request.hostname request.pathname config.public_host route routed_lem

abbrev history : List (Step ℕ)
history = stores 7 100 ∷ reads 500 ∷ waits 300 ∷ alarms ∷ reads 500 ∷ waits 300 ∷ reads 500 ∷ []

run_object-refines_example :
    run_object ℕ 0 (empty_storage ℕ) history ≡ run_memory ℕ (js "0x01") 0 [] history
run_object-refines_example = run_object-refines ℕ (js "0x01") 0 history

answers : run_memory ℕ (js "0x01") 0 [] history ≡ some 7 ∷ some 7 ∷ none ∷ []
unfolding run_memory get verdikt.Base.Dict.set verdikt.Base.same_text js
answers = refl

abbrev cached : Entry ℕ
cached = record { envelope = 7; expires_at = 100; disclosed = false }

abbrev cache : Entries ℕ
cache = (js "0x01", cached) ∷ []

cached_lem : get (js "0x01") cache ≡ some cached
unfolding get verdikt.Base.same_text js
cached_lem = refl

read-deadline_example :
    (40 < 100
      → (left : Entry ℕ) × ((read ℕ 40 (js "0x01") 500 cache).0 ≡ some 7)
        × (get (js "0x01") (read ℕ 40 (js "0x01") 500 cache).1 ≡ some left)
        × (left.disclosed ≡ true)
        × (100 ≤ left.expires_at)
        × (cached.disclosed ≡ false → 40 + 500 ≤ left.expires_at)
        × (cached.disclosed ≡ true → left ≡ cached))
    × (100 ≤ 40
        → ((read ℕ 40 (js "0x01") 500 cache).0 ≡ none)
          × (get (js "0x01") (read ℕ 40 (js "0x01") 500 cache).1 ≡ none))
read-deadline_example = read-deadline ℕ 40 500 (js "0x01") cache cached cached_lem

abbrev callbacks : List (Event ℕ)
callbacks = Pending.settles 7 ∷ Pending.settles 8 ∷ Pending.fires 1 ∷ []

abbrev done : PendingVerification ℕ
done = record {
  registered = true;
  outcome = some (Pending.result 5);
  notify = none;
  timer = some 1;
  running = [];
}

-- Two late waiters, a late callback and the timer of the second.
abbrev late_events : List (Event ℕ)
late_events = Pending.waits 7 ∷ Pending.settles 8 ∷ Pending.waits 9 ∷ Pending.fires 9 ∷ []

run-follows_example : run ℕ late_events done ≡ all_expected ℕ (Pending.result 5) late_events
run-follows_example = run-follows ℕ late_events (Pending.result 5) done refl

run-registry_run_example :
    run ℕ (Pending.waits 1 ∷ callbacks) (fresh ℕ)
    ≡ registry_run ℕ (js "0x01") (Pending.waits 1 ∷ callbacks) (empty_registry ℕ)
run-registry_run_example = run-registry_run ℕ (js "0x01") 1 callbacks (tt, (tt, (tt, tt)))
