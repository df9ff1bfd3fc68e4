-- ===== src/App/Layers.antt =====
-- gateway/src/app.ts: what holds of every end of a request, one layer after another.
use bengali_tts_service.Base.{
  String, ◌≡◌, sym, map, Bool, true, false, Option, none, some, List, [], ◌∷◌, if◌then◌else◌, refl,
  ◌∙◌, All,
}
use mathlib.Core.Path.{subst}
use bengali_tts_service.Text.{JsString, js, text_eq}
use bengali_tts_service.Text.Laws.{text_eq_sound}
use bengali_tts_service.Http.{Loose}
use bengali_tts_service.Errors.{Result, ok, thrown, Thrown}
use bengali_tts_service.Jobs.Shared.{AuthedUser}
use bengali_tts_service.Auth.{basic_auth, api_key_auth}
use bengali_tts_service.Deps.Action.{AppDeps, World, bind-thrown}
use bengali_tts_service.App.Routes.{
  Endpoint, Routed, Layer, Services, Request, match_of, first_of, handled, KeyedRoute, behind_key,
  admitted, keys_router, key_endpoints, allowed, allow_or, methods_of, options_of, options_keys,
  options_routers, method_routers, routers, not_found_layer, me_route, job_routes,
}

module _ {deps : AppDeps} (P : Routed deps → Type 0) where
  of_match :
      {A : Type 0} (m : Option A) (next : Routed deps) (f : A → Routed deps)
      → ((a : A) → m ≡ some a → P (f a))
      → (m ≡ none → P next)
      → P (elim m [ none ↦ next | some a ↦ f a ])
  of_match none next f p q = q refl
  of_match (some a) next f p q = p a refl

  of_admitted :
      (r : Result AuthedUser) (w : World deps) (k : AuthedUser → Layer deps)
      → ((caller : AuthedUser) → r ≡ ok caller → P (k caller w))
      → ((t : Thrown) → r ≡ thrown t → P (record { pattern = none; result = thrown t; after = w }))
      → P (admitted k (r, w))
  of_admitted (ok caller) w k p q = p caller refl
  of_admitted (thrown t) w k p q = q t refl

  of_test :
      (b : Bool) (r next : Routed deps) → (b ≡ true → P r) → P next → P (if b then r else next)
  of_test true r next p q = p refl
  of_test false r next p q = q

  module _ (services : Services deps) (req : Request services) where
    -- A property that each handler's end has where its route matches, and the end of what comes after.
    pub of_endpoints :
        (es : List (Endpoint deps)) (next : Layer deps) (w : World deps)
        → All
            (λ e.
              (param : Option Loose)
              → match_of deps services req e ≡ some param
              → P (handled e.pattern (e.handler param w)))
            es
        → P (next w)
        → P (first_of deps services req es next w)
    unfolding first_of
    of_endpoints [] next w h q = q
    of_endpoints (e ∷ es) next w (p, h) q =
        of_match (match_of deps services req e) (first_of deps services req es next w)
          (λ param. handled e.pattern (e.handler param w)) p (λ _. of_endpoints es next w h q)

    -- A property of the ends behind the guard of the keys, of its throws, and of what comes after.
    pub of_keys_router :
        (next : Layer deps) (w : World deps)
        → let (r, w') = basic_auth deps services.crypto req.authorization w in
          ((caller : AuthedUser)
            → r ≡ ok caller
            → P (first_of deps services req (key_endpoints deps services req caller) next w'))
          → ((t : Thrown)
              → r ≡ thrown t
              → P (record { pattern = none; result = thrown t; after = w' }))
          → P (next w)
          → P (keys_router deps services req next w)
    unfolding keys_router
    of_keys_router next w p q n =
        let (r, w') = basic_auth deps services.crypto req.authorization w in
        of_test (services.under (js "/v1/keys") req.target)
          (admitted
            (λ caller. first_of deps services req (key_endpoints deps services req caller) next)
            (r, w'))
          (next w) (λ _. of_admitted r w' _ p q) n

    of_allow_or :
        (ms : List String) (next : Layer deps) (w : World deps)
        → ((m : List String)
            → P (record { pattern = none; result = ok (200, allowed m); after = w }))
        → P (next w)
        → P (allow_or deps services req ms next w)
    of_allow_or [] next w p q = q
    of_allow_or (m ∷ ms) next w p q = p (m ∷ ms)

    of_options :
        (es : List (Endpoint deps)) (next : Layer deps) (w : World deps)
        → ((m : List String)
            → P (record { pattern = none; result = ok (200, allowed m); after = w }))
        → P (next w)
        → P (options_of deps services req es next w)
    unfolding options_of
    of_options es next w p q = of_allow_or (methods_of deps services req es) next w p q

    of_options_keys :
        (next : Layer deps) (w : World deps)
        → P (next w)
        → let (r, w') = basic_auth deps services.crypto req.authorization w in
          (services.under (js "/v1/keys") req.target ≡ true
            → (caller : AuthedUser) → r ≡ ok caller
            → P (options_of deps services req (key_endpoints deps services req caller) next w'))
          → (services.under (js "/v1/keys") req.target ≡ true
              → (t : Thrown) → r ≡ thrown t
              → P (record { pattern = none; result = thrown t; after = w' }))
          → P (options_keys deps services req next w)
    unfolding options_keys
    of_options_keys next w n p q =
        let (r, w') = basic_auth deps services.crypto req.authorization w in
        of_test (services.under (js "/v1/keys") req.target)
          (admitted
            (λ caller. options_of deps services req (key_endpoints deps services req caller) next)
            (r, w'))
          (next w) (λ u. of_admitted r w' _ (p u) (q u)) n

    abbrev Answered : World deps → Type 0
    Answered v =
        ((m : List String) → P (record { pattern = none; result = ok (200, allowed m); after = v }))
        × P (not_found_layer v)

    -- A property of the ends of OPTIONS: of the answers of the routers and of the last layer, behind
    -- the guard of the keys too, and of what that guard throws.
    pub of_options_routers :
        (body : deps.schemas.Body) (id : JsString) (w : World deps)
        → Answered w
        → let (r, w') = basic_auth deps services.crypto req.authorization w in
          (services.under (js "/v1/keys") req.target ≡ true
            → (caller : AuthedUser) → r ≡ ok caller
            → Answered w')
          → (services.under (js "/v1/keys") req.target ≡ true
              → (t : Thrown) → r ≡ thrown t
              → P (record { pattern = none; result = thrown t; after = w' }))
          → P (options_routers deps services req body id w)
    unfolding options_routers
    of_options_routers body id w here guarded t =
        let me = behind_key deps services req (me_route deps services req) ∷ [] in
        let jobs = map (behind_key deps services req) (job_routes deps services req body id) in
        let after_me : Layer deps = options_of deps services req jobs not_found_layer in
        let ends : (v : World deps) → Answered v → P (options_of deps services req me after_me v) =
          λ v a. of_options me after_me v a.0 (of_options jobs not_found_layer v a.0 a.1) in
        of_options _ _ w here.0 (
          of_options _ _ w here.0 (
            of_options_keys (options_of deps services req me after_me) w (ends w here)
              (λ u caller e.
                let (r, w') = basic_auth deps services.crypto req.authorization w in
                of_options (key_endpoints deps services req caller)
                  (options_of deps services req me after_me) w' (guarded u caller e).0
                  (ends w' (guarded u caller e)))
              t))

    -- A property of the ends of a request, by whether its method is OPTIONS.
    pub of_routers :
        (body : deps.schemas.Body) (id : JsString) (w : World deps)
        → (req.method ≡ js "OPTIONS" → P (options_routers deps services req body id w))
        → P (method_routers deps services req body id w)
        → P (routers deps services req body id w)
    unfolding routers
    of_routers body id w p q =
        of_test (text_eq req.method (js "OPTIONS")) _ _
          (λ e. p (text_eq_sound req.method (js "OPTIONS") e)) q

-- A router passes over a route that does not match, and stops at one that does.
pub first_of-over :
    (deps : AppDeps) (services : Services deps) (req : Request services) (e : Endpoint deps)
    (es : List (Endpoint deps)) (next : Layer deps) (w : World deps)
    → match_of deps services req e ≡ none
    → first_of deps services req (e ∷ es) next w ≡ first_of deps services req es next w
unfolding first_of
first_of-over deps services req e es next w h = rw (first_of, h) refl

pub first_of-here :
    (deps : AppDeps) (services : Services deps) (req : Request services) (e : Endpoint deps)
    (es : List (Endpoint deps)) (next : Layer deps) (w : World deps) (param : Option Loose)
    → match_of deps services req e ≡ some param
    → first_of deps services req (e ∷ es) next w ≡ handled e.pattern (e.handler param w)
unfolding first_of
first_of-here deps services req e es next w param h = rw (first_of, h) refl

-- Where no route of a router matches, what comes after it answers.
pub first_of-none :
    (deps : AppDeps) (services : Services deps) (req : Request services) (es : List (Endpoint deps))
    (next : Layer deps) (w : World deps)
    → All (λ e. match_of deps services req e ≡ none) es
    → first_of deps services req es next w ≡ next w
unfolding first_of
first_of-none deps services req [] next w h = refl
first_of-none deps services req (e ∷ es) next w (p, h) =
    first_of-over deps services req e es next w p ∙ first_of-none deps services req es next w h

-- The end of every route behind the guard of the keys, when the guard throws.
pub of_refused_key :
    (deps : AppDeps) (services : Services deps) (req : Request services) (w w' : World deps)
    (t : Thrown) (P : Routed deps → Type 0)
    → api_key_auth deps services.crypto req.authorization w ≡ (thrown t, w')
    → ((pattern : String) → P (handled pattern (thrown t, w')))
    → (rs : List (KeyedRoute deps)) (next : Layer deps) → P (next w)
    → P (first_of deps services req (map (behind_key deps services req) rs) next w)
of_refused_key deps services req w w' t P refused h rs next q =
    of_endpoints P services req (map (behind_key deps services req) rs) next w (each rs) q
  where
    each :
        (l : List (KeyedRoute deps))
        → All
            (λ e.
              (param : Option Loose)
              → match_of deps services req e ≡ some param
              → P (handled e.pattern (e.handler param w)))
            (map (behind_key deps services req) l)
    each [] = tt
    each (r ∷ l) = (
      λ param _.
          subst (λ x. P (handled r.pattern x))
            (sym (
              bind-thrown deps (api_key_auth deps services.crypto req.authorization) (r.run param) w
                w' refused))
            (h r.pattern),
      each l,
    )

-- A target that is not under /v1/keys passes the router of the keys.
pub past_keys :
    (deps : AppDeps) (services : Services deps) (req : Request services) (next : Layer deps)
    (w : World deps)
    → services.under (js "/v1/keys") req.target ≡ false
    → keys_router deps services req next w ≡ next w
unfolding keys_router
past_keys deps services req next w u = rw (keys_router, u) refl
