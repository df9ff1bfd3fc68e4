-- ===== src/App.antt =====
-- gateway/src/app.ts: the application. The body is parsed, the request gets its id and its timer,
-- and the routers follow one another until a route matches; what is thrown ends in one answer.
pub mod Routes
pub mod Layers
pub mod Ids
pub mod Cardinality
pub mod Guard
pub mod Keyed
pub mod Accepted
use bengali_tts_service.Base.{ℕ, ◌≡◌, refl, Option, none, some, List, [], ◌∷◌}
use bengali_tts_service.Text.{JsString, js}
use bengali_tts_service.Errors.{Result, ok, thrown, error_handler, Answer, Thrown}
use bengali_tts_service.Http.{Loose, one, several}
use bengali_tts_service.Deps.Action.{AppDeps, World}
use bengali_tts_service.App.Routes.{Request, Services, Content, refusal, Routed, routers}

-- A response: the status, the headers that the gateway sets by name, and what is in it.
pub record Response : Type 0 where
  pub status : ℕ
  pub headers : List (JsString × JsString)
  pub content : Content

-- The labels of an observation of the latency.
pub record Labels : Type 0 where
  pub method : JsString
  pub route : JsString
  pub status : ℕ

-- `typeof incoming === 'string' && incoming !== '' ? incoming : randomUUID()`
unfoldable pub gen_req_id : Option Loose → JsString → JsString
gen_req_id (some (one (c ∷ s))) uuid = c ∷ s
gen_req_id incoming uuid = uuid

abbrev from_answer : Answer → Response
from_answer a = record {
  status = a.status;
  headers = a.headers;
  content = refusal a.code a.message a.details;
}

-- How a handler's code ends as a response: an answer of its own, or the error handler's.
unfoldable pub respond : Result (ℕ × Content) → Response
respond (ok (status, content)) = record { status = status; headers = []; content = content }
respond (thrown t) = from_answer (error_handler t)

abbrev pub with_id : JsString → Response → Response
with_id id r = record r { headers = (js "x-request-id", id) ∷ r.headers }

-- `req.route?.path ?? 'unmatched'`
abbrev pub route_label : Option JsString → JsString
route_label none = js "unmatched"
route_label (some pattern) = pattern

-- The response to a request, what the timer observes when it is finished, and the next state.
pub record Served (deps : AppDeps) : Type 0 where
  pub response : Response
  pub observed : Option Labels
  pub after : World deps

-- The observation of `httpMiddleware`.
unfoldable pub label : JsString → Option JsString → Response → Labels
label method pattern r = record { method = method; route = route_label pattern; status = r.status }

module _ {deps : AppDeps} where
  abbrev pub finish_request : JsString → JsString → Routed deps → Served deps
  finish_request method id r =
      let response = with_id id (respond r.result) in
      record {
        response = response;
        observed = some (label method r.pattern response);
        after = r.after;
      }

module _ (deps : AppDeps) (services : Services deps) where
  -- A body that cannot be parsed goes to the error handler at once, before there is an id and
  -- before the timer has started.
  unfoldable pub serve : Request services → World deps → Served deps
  serve req w = elim (services.parse_body req.raw) [
    | thrown t ↦ record { response = respond (thrown t); observed = none; after = w }
    | ok body ↦
        let id = gen_req_id req.x_request_id req.uuid in
        finish_request req.method id (routers deps services req body id w)
  ]

  -- The two ends of a request.
  pub serve_parsed :
      (req : Request services) (w : World deps) (body : deps.schemas.Body)
      → services.parse_body req.raw ≡ ok body
      → let id = gen_req_id req.x_request_id req.uuid in
        serve req w ≡ finish_request req.method id (routers deps services req body id w)
  unfolding serve
  serve_parsed req w body h = rw (serve, h) refl

  pub serve_refused :
      (req : Request services) (w : World deps) (t : Thrown)
      → services.parse_body req.raw ≡ thrown t
      → serve req w ≡ record { response = respond (thrown t); observed = none; after = w }
  unfolding serve
  serve_refused req w t h = rw (serve, h) refl
