-- ===== src/App/Guard.antt =====
-- gateway/src/app.ts: what a request without credentials can reach.
use bengali_tts_service.Base.{◌≡◌, ◌⊎◌, none, ℕ, List, String}
use bengali_tts_service.Text.{js}
use bengali_tts_service.Errors.{Result, ok, thrown, domain, missing_credentials, missing_api_key}
use bengali_tts_service.Deps.Action.{AppDeps, World}
use bengali_tts_service.App.Routes.{Request, Services, Routed, Content, not_found_layer, allowed}
use bengali_tts_service.App.{Response}

module _ (deps : AppDeps) (services : Services deps) (req : Request services)
    (anonymous : req.authorization ≡ none) where
  -- A router's own answer to OPTIONS: the methods of its routes for the target.
  abbrev Allows : Result (ℕ × Content) → Type 0
  Allows result = (req.method ≡ js "OPTIONS") × ((m : List String) × (result ≡ ok (200, allowed m)))

  -- The end of a request that was refused, the state being what it was.
  abbrev Refused : World deps → Routed deps → Type 0
  Refused w r =
      (r.after ≡ w)
      × ((r.result ≡ thrown (domain missing_credentials))
          ⊎ ((r.result ≡ thrown (domain missing_api_key))
              ⊎ ((r.result ≡ (not_found_layer w).result) ⊎ Allows r.result)))

  -- How an anonymous request is answered.
  abbrev pub IsTurnedAway : Response → Type 0
  IsTurnedAway r =
      (r.status ≡ 401)
      ⊎ ((r.status ≡ 404)
          ⊎ ((req.method ≡ js "OPTIONS")
              × (r.status ≡ 200)
              × ((m : List String) × (r.content ≡ allowed m))))
