-- ===== src/App/Routes.antt =====
-- gateway/src/app.ts and the routers of gateway/src/routes: which handler a request reaches, and
-- which guard stands before it.
mod Shapes
unfoldable pub use Shapes.*
use bengali_tts_service.Base.{
  ℕ, String, [], ◌∷◌, map, Bool, Option, none, some, List, if◌then◌else◌,
}
use bengali_tts_service.Text.{JsString, js, text_eq}
use bengali_tts_service.Errors.{Result, ok, thrown, Details, not_found_handler}
use bengali_tts_service.Http.{Loose, one, Parsed}
use bengali_tts_service.Deps.Crypto.{Crypto}
use bengali_tts_service.Deps.Action.{AppDeps, World, Act, pure, ◌>>=◌}
use bengali_tts_service.Jobs.Shared.{AuthedUser, Reply, Submission, JobView}
use bengali_tts_service.Jobs.Submit.{submit, SubmitRequest}
use bengali_tts_service.Jobs.History.{Page, list_jobs}
use bengali_tts_service.Jobs.Read.{Recording, get_job, get_audio}
use bengali_tts_service.Jobs.Stream.{Stream, watch_job}
use bengali_tts_service.Auth.{basic_auth, api_key_auth}
use bengali_tts_service.Accounts.{
  Registration, Registered, CreatedKey, KeyView, register, create_key_for, list_keys_for,
  revoke_key_for, me_for,
}
use bengali_tts_service.Health.{Readiness}

module _ {deps : AppDeps} where
  -- An answer with its status, or with the status 200 of `res.json`.
  abbrev pub reply_as : {B : Type 0} → (B → Content) → Act deps (Reply B) → Act deps (ℕ × Content)
  reply_as content m = m >>= λ reply. pure (reply.status, content reply.body)

  abbrev pub answer_200 : {B : Type 0} → (B → Content) → Act deps B → Act deps (ℕ × Content)
  answer_200 content m = m >>= λ b. pure (200, content b)

  abbrev pub handled : String → Result (ℕ × Content) × World deps → Routed deps
  handled pattern (r, w) = record { pattern = some (js pattern); result = r; after = w }

  -- What is thrown by a router's own guard has reached no route.
  abbrev pub admitted : (AuthedUser → Layer deps) → Result AuthedUser × World deps → Routed deps
  admitted k (ok caller, w) = k caller w
  admitted k (thrown t, w) = record { pattern = none; result = thrown t; after = w }

  -- The last layer: `notFoundHandler`.
  abbrev pub not_found_layer : Layer deps
  not_found_layer w = record {
    pattern = none;
    result = ok (
      not_found_handler.status,
      refusal not_found_handler.code not_found_handler.message not_found_handler.details,
    );
    after = w;
  }

module _ (deps : AppDeps) (services : Services deps) (req : Request services) where
  -- Whether a route matches the request, and its parameter.
  abbrev pub match_of : Endpoint deps → Option (Option Loose)
  match_of e = services.matches (js e.method) (js e.pattern) req.method req.target

  -- The routes of a router in order: the first that matches, or what comes after them.
  unfoldable pub first_of : List (Endpoint deps) → Layer deps → Layer deps
  first_of [] next w = next w
  first_of (e ∷ es) next w =
      let rest = first_of es next w in
      elim (match_of e) [ none ↦ rest | some param ↦ handled e.pattern (e.handler param w) ]

  -- `req.params.id` of a route that has one.
  abbrev pub param_text : Option Loose → JsString
  param_text (some (one s)) = s
  param_text _ = []

  -- The methods of the routes that have the request's target.
  unfoldable pub methods_of : List (Endpoint deps) → List String
  methods_of [] = []
  methods_of (e ∷ es) =
      let rest = methods_of es in
      elim (services.matches (js e.method) (js e.pattern) (js e.method) req.target) [
        | none ↦ rest
        | some param ↦ e.method ∷ rest
      ]

  -- A router's own answer to OPTIONS, where it has a route for the target: no route is reached.
  abbrev pub allow_or : List String → Layer deps → Layer deps
  allow_or [] next w = next w
  allow_or (m ∷ ms) next w = record {
    pattern = none;
    result = ok (200, allowed (m ∷ ms));
    after = w;
  }

  unfoldable pub options_of : List (Endpoint deps) → Layer deps → Layer deps
  options_of es = allow_or (methods_of es)

  abbrev pub metrics_endpoint : Endpoint deps
  metrics_endpoint = record {
    method = "GET";
    pattern = "/metrics";
    handler = λ _. answer_200 exposition services.metrics;
  }

  abbrev pub healthz_endpoint : Endpoint deps
  healthz_endpoint = record {
    method = "GET";
    pattern = "/healthz";
    handler = λ _. pure (200, alive);
  }

  abbrev pub readyz_endpoint : Endpoint deps
  readyz_endpoint = record {
    method = "GET";
    pattern = "/readyz";
    handler = λ _ w. (ok ((services.ready w).status, readiness (services.ready w).body), w);
  }

  -- The routes of `keysRouter`, for the caller that its guard has admitted.
  abbrev pub key_endpoints : AuthedUser → List (Endpoint deps)
  key_endpoints caller =
      record {
        method = "POST";
        pattern = "/v1/keys";
        handler = λ _. reply_as new_key (create_key_for deps services.crypto req.secret caller);
      }
      ∷ record {
        method = "GET";
        pattern = "/v1/keys";
        handler = λ _. reply_as key_list (list_keys_for deps services.crypto caller);
      }
      ∷ record {
        method = "DELETE";
        pattern = "/v1/keys/:id";
        handler = λ param.
            reply_as (λ _. no_content)
              (revoke_key_for deps services.crypto (param_text param) caller);
      }
      ∷ []

  -- The guard runs for every target under /v1/keys, whether or not a route matches.
  unfoldable pub keys_router : Layer deps → Layer deps
  keys_router next w =
      if services.under (js "/v1/keys") req.target
      then admitted (λ caller. first_of (key_endpoints caller) next)
          (basic_auth deps services.crypto req.authorization w)
      else next w

  -- The same guard before the answer to OPTIONS.
  unfoldable pub options_keys : Layer deps → Layer deps
  options_keys next w =
      if services.under (js "/v1/keys") req.target
      then admitted (λ caller. options_of (key_endpoints caller) next)
          (basic_auth deps services.crypto req.authorization w)
      else next w

  -- A route with a guard of its own, which asks for an API key.
  abbrev pub with_key : {B : Type 0} → (AuthedUser → Act deps B) → Act deps B
  with_key handler = api_key_auth deps services.crypto req.authorization >>= handler

  abbrev pub behind_key : KeyedRoute deps → Endpoint deps
  behind_key r = record {
    method = r.method;
    pattern = r.pattern;
    handler = λ param. with_key (r.run param);
  }

  abbrev pub me_route : KeyedRoute deps
  me_route = record {
    method = "GET";
    pattern = "/v1/me";
    run = λ _ caller. reply_as own_user (me_for deps services.crypto caller);
  }

  module _ (body : deps.schemas.Body) (id : JsString) where
    abbrev pub register_endpoint : Endpoint deps
    register_endpoint = record {
      method = "POST";
      pattern = "/v1/auth/register";
      handler = λ _. reply_as account (register deps services.crypto services.registration body);
    }

    -- The request that `submit` is given: the id of the request becomes the job's correlation id.
    abbrev pub submit_request : SubmitRequest deps
    submit_request = record { id = one id; idempotency_key = req.idempotency_key; body = body }

    abbrev pub submit_route : KeyedRoute deps
    submit_route = record {
      method = "POST";
      pattern = "/v1/tts";
      run = λ _ caller. reply_as accepted_job (submit deps caller submit_request);
    }

    abbrev pub read_routes : List (KeyedRoute deps)
    read_routes =
        record {
          method = "GET";
          pattern = "/v1/jobs";
          run = λ _ caller. reply_as history (list_jobs deps caller req.query);
        }
        ∷ record {
          method = "GET";
          pattern = "/v1/jobs/:id";
          run = λ param caller. reply_as job_status (get_job deps caller param);
        }
        ∷ record {
          method = "GET";
          pattern = "/v1/jobs/:id/events";
          run = λ param caller. answer_200 event_stream (watch_job deps caller param);
        }
        ∷ record {
          method = "GET";
          pattern = "/v1/jobs/:id/audio";
          run = λ param caller. reply_as audio (get_audio deps caller param);
        }
        ∷ []

    abbrev pub job_routes : List (KeyedRoute deps)
    job_routes = submit_route ∷ read_routes

    abbrev pub open_endpoints : List (Endpoint deps)
    open_endpoints = metrics_endpoint ∷ healthz_endpoint ∷ readyz_endpoint ∷ register_endpoint ∷ []

    abbrev pub keyed_endpoints : List (Endpoint deps)
    keyed_endpoints = map behind_key (me_route ∷ job_routes)

    -- The routers in the order in which they are mounted, for a request of any method but OPTIONS.
    unfoldable pub method_routers : Layer deps
    method_routers =
        first_of open_endpoints (keys_router (first_of keyed_endpoints not_found_layer))

    -- No route is for the method OPTIONS. A router that has routes for the target, of whatever
    -- methods, answers it with these. The route of the metrics stands in the application itself,
    -- whose last layer answers before this.
    unfoldable pub options_routers : Layer deps
    options_routers = options_of (healthz_endpoint ∷ readyz_endpoint ∷ []) (
        options_of (register_endpoint ∷ []) (
          options_keys (
            options_of (behind_key me_route ∷ [])
              (options_of (map behind_key job_routes) not_found_layer))))

    unfoldable pub routers : Layer deps
    routers w = if text_eq req.method (js "OPTIONS") then options_routers w else method_routers w
