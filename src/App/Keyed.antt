-- ===== src/App/Keyed.antt =====
-- gateway/src/app.ts: what a request whose API key is refused can reach.
use bengali_tts_service.Base.{◌≡◌, List, String, ◌⊎◌}
use bengali_tts_service.Text.{js}
use bengali_tts_service.Errors.{ok, thrown, Thrown}
use bengali_tts_service.Auth.{api_key_auth}
use bengali_tts_service.Deps.Action.{AppDeps, World}
use bengali_tts_service.App.Routes.{Request, Services, Routed, not_found_layer, allowed}
use bengali_tts_service.App.{Response}

module _ (deps : AppDeps) (services : Services deps) (req : Request services) (w w' : World deps)
    (t : Thrown)
    (refused : api_key_auth deps services.crypto req.authorization w ≡ (thrown t, w')) where
  -- The end of a request that the guard of a route has refused, or that no route matches.
  abbrev Turned : Routed deps → Type 0
  Turned r =
      ((r.after ≡ w') × (r.result ≡ thrown t))
      ⊎ ((r.after ≡ w)
          × ((r.result ≡ (not_found_layer w).result)
              ⊎ ((req.method ≡ js "OPTIONS")
                  × ((m : List String) × (r.result ≡ ok (200, allowed m))))))

  -- The answer to a request that no guard has seen: 404, or the methods of the routes for OPTIONS.
  abbrev pub IsUnrouted : Response → Type 0
  IsUnrouted r =
      (r.status ≡ 404)
      ⊎ ((req.method ≡ js "OPTIONS")
          × (r.status ≡ 200)
          × ((m : List String) × (r.content ≡ allowed m)))
