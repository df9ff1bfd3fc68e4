-- ===== src/App/Ids.antt =====
-- gateway/src/app.ts, genReqId: the id of a request and its echo.
use bengali_tts_service.Base.{
  ℕ, ◌⊎◌, inl, inr, ◌≡◌, refl, ◌≢◌, Option, none, some, List, [], ◌∷◌, if◌then◌else◌,
}
use bengali_tts_service.Text.{JsString, js, text_eq}
use bengali_tts_service.Errors.{ok}
use bengali_tts_service.Http.{Loose, one, several}
use bengali_tts_service.Deps.Action.{AppDeps, World}
use bengali_tts_service.App.Routes.{Request, Services}
use bengali_tts_service.App.{Response, serve, serve_parsed, gen_req_id}

-- The value of a header, by its name.
abbrev pub header_of : JsString → List (JsString × JsString) → Option JsString
header_of name [] = none
header_of name ((n, value) ∷ rest) = if text_eq n name then some value else header_of name rest

abbrev pub echoed_id : Response → Option JsString
echoed_id r = header_of (js "x-request-id") r.headers

-- No id that is not empty was sent in one header.
abbrev pub SentNone : Option Loose → Type 0
SentNone incoming = (c : ℕ) (s : JsString) → ¬ (incoming ≡ some (one (c ∷ s)))

gen_req_id_lem :
    (incoming : Option Loose) (uuid : JsString)
    → uuid ≢ []
    → (gen_req_id incoming uuid ≢ [])
      × ((incoming ≡ some (one (gen_req_id incoming uuid)))
          ⊎ ((gen_req_id incoming uuid ≡ uuid) × SentNone incoming))
unfolding gen_req_id
gen_req_id_lem none uuid h = (h, inr (refl, λ c s e. cc))
gen_req_id_lem (some (several l)) uuid h = (h, inr (refl, λ c s e. cc))
gen_req_id_lem (some (one [])) uuid h = (h, inr (refl, λ c s e. cc))
gen_req_id_lem (some (one (c ∷ s))) uuid h = (λ e. cc, inl refl)

module _ (deps : AppDeps) (services : Services deps) (req : Request services) (w : World deps) where
  -- A request whose body can be parsed gets an id that is not empty, and its response echoes that id
  -- whatever the routers answer or throw. The id is the one that the client sent, if it sent one that
  -- is not empty in one header, and else the generated one.
  serve_echoes_id :
      (body : deps.schemas.Body)
      → req.uuid ≢ []
      → services.parse_body req.raw ≡ ok body
      → (id : JsString) × (echoed_id (serve deps services req w).response ≡ some id)
        × (id ≢ [])
        × ((req.x_request_id ≡ some (one id)) ⊎ ((id ≡ req.uuid) × SentNone req.x_request_id))
  unfolding text_eq js
  serve_echoes_id body fresh h =
      let (not_empty, origin) = gen_req_id_lem req.x_request_id req.uuid fresh in
      (
        gen_req_id req.x_request_id req.uuid,
        rw (serve_parsed deps services req w body h) refl,
        not_empty,
        origin,
      )
