-- ===== src/Proxy/Own/Examples.antt =====
-- The proxy's own routes, run, and the theorem at them.
use verdikt.Base.{
  ℕ, ◌≡◌, refl, Bool, true, false, List, [], ◌∷◌, Option, none, some, JsString, Result, ok, throw,
  ◌⊎◌, js,
}
use verdikt.Json.{Json}
use verdikt.Json.Numbers.{ℤ, Number, nan}
use verdikt.Proxy.Route.{on_service_host}
use verdikt.Proxy.Router.{ServiceRecord}
use verdikt.Proxy.Disclosure.{StoredVerdict}
use verdikt.Proxy.Own.{
  OwnRequest, OwnState, Own, OwnConfig, OwnReply, unknown_internal_route, sla, no_sla, own_reply,
}
use verdikt.Proxy.Own.Reserved.{Answers, own_reply-Answers}

abbrev no_json : JsString → Option Json
no_json text = none

abbrev ascii : JsString → List ℕ
ascii text = text

abbrev no_number : JsString → Number
no_number text = nan

abbrev no_integer : JsString → Option ℤ
no_integer text = none

abbrev unchanged_case : JsString → JsString
unchanged_case text = text

abbrev bare_record : ServiceRecord
bare_record = record {
  service_id = js "0x01";
  name = js "weather.verdikt.eth";
  slug = js "weather";
  url = none;
  sla = none;
  owner = none;
}

abbrev resolves : JsString → Result JsString ServiceRecord
resolves slug = ok bare_record

abbrev no_stored_verdict : JsString → Result JsString (Option StoredVerdict)
no_stored_verdict id = ok none

abbrev own_config : OwnConfig JsString
own_config = record {
  public_host = js "verdikt.bond";
  callback_token = some (js "secret");
  adjudication_window_ms = 10;
  now = 5;
  marketplace = none;
}

abbrev own_state : OwnState JsString
own_state = record { workflow = none; evidence = none }

abbrev own_request : JsString → JsString → OwnRequest
own_request method pathname = record {
  method = method;
  hostname = js "verdikt.bond";
  pathname = pathname;
  query = record {
    min_conformance = none;
    min_availability = none;
    max_latency_ms = none;
    max_price_minor_units = none;
    status = none;
  };
  authorization = none;
  body = [];
}

abbrev answered_with : Option (Own JsString) → Option (OwnReply JsString)
answered_with none = none
answered_with (some own) = some own.reply

-- A POST to a route that only a GET has is answered, and not relayed.
internal_posted :
    answered_with (
      own_reply JsString no_json ascii no_number no_integer unchanged_case resolves
        no_stored_verdict own_config
        (own_request (js "POST") (js "/internal/sla/weather"))
        own_state)
    ≡ some unknown_internal_route
unfolding own_reply verdikt.Base.ends_with verdikt.Base.to_lower
internal_posted = refl

sla_missing :
    answered_with (
      own_reply JsString no_json ascii no_number no_integer unchanged_case resolves
        no_stored_verdict own_config
        (own_request (js "GET") (js "/internal/sla/weather"))
        own_state)
    ≡ some (sla no_sla)
unfolding own_reply verdikt.Base.ends_with verdikt.Base.to_lower verdikt.Proxy.Route.is_slug
sla_missing = refl

weather_passed :
    answered_with (
      own_reply JsString no_json ascii no_number no_integer unchanged_case resolves
        no_stored_verdict own_config
        (own_request (js "GET") (js "/weather/today"))
        own_state)
    ≡ none
unfolding own_reply verdikt.Base.ends_with verdikt.Base.to_lower
weather_passed = refl

own_reply-Answers_example :
    ((on_service_host (js "verdikt.bond") (js "verdikt.bond") ≡ true)
      × (own_reply JsString no_json ascii no_number no_integer unchanged_case resolves
            no_stored_verdict own_config
            (own_request (js "POST") (js "/internal/verification-callback"))
            own_state
          ≡ none))
    ⊎ ((on_service_host (js "verdikt.bond") (js "verdikt.bond") ≡ false)
        × Answers JsString no_json ascii no_number no_integer unchanged_case resolves
            no_stored_verdict own_config
            (own_request (js "POST") (js "/internal/verification-callback"))
            own_state
            (own_reply JsString no_json ascii no_number no_integer unchanged_case resolves
              no_stored_verdict own_config
              (own_request (js "POST") (js "/internal/verification-callback"))
              own_state))
own_reply-Answers_example =
    own_reply-Answers JsString no_json ascii no_number no_integer unchanged_case resolves
      no_stored_verdict own_config (own_request (js "POST") (js "/internal/verification-callback"))
      own_state
