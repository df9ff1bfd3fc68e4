-- ===== src/App/Cardinality.antt =====
-- gateway/src/lib/metrics.ts, httpMiddleware, on the routes of gateway/src/app.ts: the labels that
-- an observation of the latency can have.
use bengali_tts_service.Base.{
  String, ◌≡◌, refl, inl, inr, Bool, true, false, ◌||◌, none, some, Option, All, List, [], ◌∷◌,
}
use mathlib.Core.Path.{subst}
use bengali_tts_service.Text.{JsString, js, text_eq}
use bengali_tts_service.Errors.{Result-cases}
use bengali_tts_service.Http.{Loose}
use bengali_tts_service.Deps.Action.{AppDeps, World}
use bengali_tts_service.App.Routes.{
  Request, Services, Routed, Layer, Endpoint, match_of, first_of, handled, not_found_layer,
  key_endpoints, keys_router, open_endpoints, keyed_endpoints, routers, method_routers,
}
use bengali_tts_service.App.Layers.{of_options_routers, of_routers, of_endpoints, of_keys_router}
use bengali_tts_service.App.{
  Labels, Response, serve, label, respond, with_id, gen_req_id, serve_parsed, serve_refused,
  route_label,
}

-- The patterns of the routes, and the word for a request that reached none.
abbrev pub route_labels : List String
route_labels =
    "/metrics" ∷ "/healthz" ∷ "/readyz" ∷ "/v1/auth/register" ∷ "/v1/keys" ∷ "/v1/keys/:id"
    ∷ "/v1/me" ∷ "/v1/tts" ∷ "/v1/jobs" ∷ "/v1/jobs/:id" ∷ "/v1/jobs/:id/events"
    ∷ "/v1/jobs/:id/audio" ∷ "unmatched" ∷ []

abbrev pub is_among : JsString → List String → Bool
is_among label [] = false
is_among label (l ∷ ls) = text_eq label (js l) || is_among label ls

module _ (deps : AppDeps) (services : Services deps) (req : Request services) where
  abbrev Known : Routed deps → Type 0
  Known r = is_among (route_label r.pattern) route_labels ≡ true

  -- The end of a route with a known pattern has a known label, whatever its handler does.
  of_patterns :
      (es : List (Endpoint deps)) (next : Layer deps) (w : World deps)
      → All (λ e. is_among (js e.pattern) route_labels ≡ true) es
      → Known (next w)
      → Known (first_of deps services req es next w)
  of_patterns es next w h q = of_endpoints Known services req es next w (each es h) q
    where
      each :
          (l : List (Endpoint deps))
          → All (λ e. is_among (js e.pattern) route_labels ≡ true) l
          → All
              (λ e.
                (param : Option Loose)
                → match_of deps services req e ≡ some param
                → Known (handled e.pattern (e.handler param w)))
              l
      each [] h = tt
      each (e ∷ l) (p, h) = (λ _ _. p, each l h)

  routers-Known :
      (body : deps.schemas.Body) (id : JsString) (w : World deps)
      → Known (routers deps services req body id w)
  unfolding method_routers js text_eq
  routers-Known body id w =
      of_routers Known services req body id w
        (λ _.
          of_options_routers Known services req body id w (λ m. refl, refl)
            (λ _ caller e. (λ m. refl, refl)) (λ _ t e. refl))
        (let last =
            first_of deps services req (keyed_endpoints deps services req body id)
              not_found_layer in
          let known_last : (v : World deps) → Known (last v) = λ v.
            of_patterns (keyed_endpoints deps services req body id) not_found_layer v
              (refl, (refl, (refl, (refl, (refl, (refl, tt)))))) refl in
          of_patterns (open_endpoints deps services req body id)
            (keys_router deps services req last) w (refl, (refl, (refl, (refl, tt))))
            (of_keys_router Known services req last w
              (λ caller _.
                of_patterns (key_endpoints deps services req caller) last _
                  (refl, (refl, (refl, tt))) (known_last _))
              (λ t e. refl) (known_last w)))

  abbrev respond_with : Routed deps → Response
  respond_with r = with_id (gen_req_id req.x_request_id req.uuid) (respond r.result)

  none_observed : (l : Labels) → ¬ (none ≡ some l)
  none_observed l h = cc

  labels_of :
      (response : Response) (l : Labels) (r : Routed deps)
      → Known r
      → some (label req.method r.pattern response) ≡ some l
      → (is_among l.route route_labels ≡ true)
        × (l.method ≡ req.method)
        × (l.status ≡ response.status)
  unfolding label
  labels_of response l r known h =
      let e : label req.method r.pattern response ≡ l = cc in
      subst
        (λ x.
          (is_among x.route route_labels ≡ true)
          × (x.method ≡ req.method)
          × (x.status ≡ response.status))
        e (known, refl, refl)

  -- An observation of the latency has the request's method and the response's status, and as its
  -- route the pattern of one of the routes or the word for none of them: never the target of the
  -- request, so the number of routes observed is bounded.
  pub serve_labels :
      (w : World deps) (l : Labels)
      → let s = serve deps services req w in
        s.observed ≡ some l
        → (is_among l.route route_labels ≡ true)
          × (l.method ≡ req.method)
          × (l.status ≡ s.response.status)
  serve_labels w l h = elim (Result-cases (services.parse_body req.raw)) [
    | inl (body, e) ↦
        (let r = routers deps services req body (gen_req_id req.x_request_id req.uuid) w in
          let known = routers-Known body (gen_req_id req.x_request_id req.uuid) w in
          rw (serve_parsed deps services req w body e) (
            labels_of (respond_with r) l r known
              (rw (serve_parsed deps services req w body e) at h)))
    | inr (t, e) ↦ absurd (none_observed l (rw (serve_refused deps services req w t e) at h))
  ]
