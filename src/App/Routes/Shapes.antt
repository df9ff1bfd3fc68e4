-- ===== src/App/Routes/Shapes.antt =====
-- gateway/src/app.ts: what a request and a response are made of, and what a route is.
use bengali_tts_service.Base.{ℕ, String, Bool, Option, List}
use bengali_tts_service.Text.{JsString}
use bengali_tts_service.Errors.{Result, Details}
use bengali_tts_service.Http.{Loose, Parsed}
use bengali_tts_service.Deps.Crypto.{Crypto}
use bengali_tts_service.Deps.Action.{AppDeps, World, Act}
use bengali_tts_service.Jobs.Shared.{AuthedUser, Reply, Submission, JobView}
use bengali_tts_service.Jobs.History.{Page}
use bengali_tts_service.Jobs.Read.{Recording}
use bengali_tts_service.Jobs.Stream.{Stream}
use bengali_tts_service.Accounts.{Registration, Registered, CreatedKey, KeyView}
use bengali_tts_service.Health.{Readiness}

-- What a response can have in it.
pub data Content : Type 0 where
  exposition : JsString → Content
  alive no_content : Content
  readiness : Readiness → Content
  account : Registered → Content
  new_key : CreatedKey → Content
  key_list : List KeyView → Content
  own_user : AuthedUser → Content
  accepted_job : Submission → Content
  history : Page → Content
  job_status : JobView → Content
  event_stream : Stream → Content
  audio : Recording → Content
  refusal : JsString → JsString → Option Details → Content
  allowed : List String → Content

-- What the application takes from elsewhere: the body parser; the router's matching of a method and
-- a target with a pattern, which gives the parameter `id`, and of a target with a prefix; the schema
-- of a registration; the functions of the cryptography libraries; the exposition of the registry;
-- and how the checks of readiness end.
pub record Services (deps : AppDeps) : Type 1 where
  pub Raw : Type 0
  pub Target : Type 0
  pub parse_body : Raw → Result deps.schemas.Body
  pub matches : JsString → JsString → JsString → Target → Option (Option Loose)
  pub under : JsString → Target → Bool
  pub registration : deps.schemas.Body → Parsed Registration
  pub crypto : Crypto
  pub metrics : Act deps JsString
  pub ready : World deps → Reply Readiness

pub record Request {deps : AppDeps} (services : Services deps) : Type 0 where
  pub method : JsString
  pub target : services.Target
  pub raw : services.Raw
  pub query : deps.schemas.Query
  pub authorization : Option JsString
  pub x_request_id : Option Loose
  pub idempotency_key : Option Loose
  -- What `randomUUID()` and `randomBytes(32)` give.
  pub uuid : JsString
  pub secret : JsString

-- Where a request has ended: the pattern of the route that it reached, if it reached one, the answer
-- or the throw, and the state.
pub record Routed (deps : AppDeps) : Type 0 where
  pub pattern : Option JsString
  pub result : Result (ℕ × Content)
  pub after : World deps

abbrev pub Layer : AppDeps → Type 0
Layer deps = World deps → Routed deps

-- A route: its method, its pattern, and its handler, which is given the parameter `id`.
pub record Endpoint (deps : AppDeps) : Type 0 where
  pub method : String
  pub pattern : String
  pub handler : Option Loose → Act deps (ℕ × Content)

-- A route whose handler is given the user of the key as well.
pub record KeyedRoute (deps : AppDeps) : Type 0 where
  pub method : String
  pub pattern : String
  pub run : Option Loose → AuthedUser → Act deps (ℕ × Content)
