-- ===== src/Tests/Requests.antt =====
-- Whole requests, through the guards and the routers.
use bengali_tts_service.Base.{◌≡◌, refl, true, ◌&&◌, Option, none, some, [], if◌then◌else◌}
use bengali_tts_service.Text.{JsString, js, text_eq, starts_with}
use bengali_tts_service.Auth.{api_key_auth}
use bengali_tts_service.Errors.{Result, ok, thrown, syntax_error, error_handler}
use bengali_tts_service.Http.{one, failure}
use bengali_tts_service.Health.{Checks, unreachable, answer_checks}
use bengali_tts_service.App.{Labels, serve, label, respond}
use bengali_tts_service.App.Routes.{
  Services, Request, routers, method_routers, first_of, keys_router,
}
use bengali_tts_service.App.Cardinality.{is_among, route_labels, serve_labels}
use bengali_tts_service.Tests.Keys.{plain_crypto, key_gateway, key_world}

abbrev pub all_down : Checks
all_down = record { postgres = unreachable; redis = unreachable; storage = unreachable }

-- A body that is not there stands for one that cannot be parsed; a target matches the pattern that it
-- is spelled like.
abbrev pub parsed : Option JsString → Result JsString
parsed none = thrown (syntax_error (some 400))
parsed (some body) = ok body

abbrev memory_services : Services key_gateway
memory_services = record {
  Raw = Option JsString;
  Target = JsString;
  parse_body = parsed;
  matches = λ method pattern sent target.
      if text_eq method sent && text_eq pattern target then some none else none;
  under = λ prefix target. starts_with target prefix;
  registration = λ body. failure [];
  crypto = plain_crypto;
  metrics = λ w. (ok (js "tts_queue_depth 0"), w);
  ready = λ w. answer_checks all_down;
}

abbrev anonymous : Request memory_services
anonymous = record {
  method = js "GET";
  target = js "/v1/me";
  raw = some [];
  query = record { limit = 1; cursor = none };
  authorization = none;
  x_request_id = some (one (js "r1"));
  idempotency_key = none;
  uuid = js "u1";
  secret = js "s";
}

abbrev me_label : Labels
me_label = record { method = js "GET"; route = js "/v1/me"; status = 401 }

me_observed : (serve key_gateway memory_services anonymous key_world).observed ≡ some me_label
unfolding serve label js routers method_routers respond first_of text_eq keys_router starts_with
    api_key_auth error_handler
me_observed = refl

serve_labels_example :
    (is_among (js "/v1/me") route_labels ≡ true)
    × (js "GET" ≡ js "GET")
    × (401 ≡ (serve key_gateway memory_services anonymous key_world).response.status)
serve_labels_example =
    serve_labels key_gateway memory_services anonymous key_world me_label me_observed

-- A key that is in no row.
abbrev unknown_key : Request memory_services
unknown_key = record anonymous { authorization = some (js "Bearer sk_live_unknown") }
