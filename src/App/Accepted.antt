-- ===== src/App/Accepted.antt =====
-- gateway/src/app.ts, middleware/auth.ts and routes/jobs.ts of the gateway together: what stands behind
-- the answer 202.
use bengali_tts_service.Base.{
  ℕ, ◌≡◌, refl, sym, ap, ◌∙◌, ◌≢◌, Option, none, some, true, false, map, arith, All,
}
use mathlib.Core.Path.{subst}
use bengali_tts_service.Text.{JsString, js}
use bengali_tts_service.Http.{Loose}
use bengali_tts_service.Errors.{
  Result, ok, thrown, Thrown, error_handler, to_rendering, not_found_handler,
}
use bengali_tts_service.Deps.Prisma.{JobTable}
use bengali_tts_service.Deps.Crypto.{KeyTable}
use bengali_tts_service.Deps.Action.{AppDeps, World, Act, pure, bind-eq-ok}
use bengali_tts_service.Jobs.Shared.{AuthedUser, Reply, Submission}
use bengali_tts_service.Jobs.Submit.{submit}
use bengali_tts_service.Jobs.Submit.Admission.{IsAccepted, submit_accepts}
use bengali_tts_service.Auth.{api_key_auth}
use bengali_tts_service.Auth.Bearer.{IsBearer, api_key_auth_sound}
use bengali_tts_service.App.Routes.{
  Request, Services, Content, accepted_job, match_of, first_of, handled, reply_as, not_found_layer,
  keys_router, with_key, behind_key, me_route, job_routes, submit_route, read_routes,
  submit_request, open_endpoints, keyed_endpoints, options_routers, method_routers, Routed,
}
use bengali_tts_service.App.Layers.{
  of_options_routers, of_routers, first_of-none, first_of-over, first_of-here, past_keys,
}
use bengali_tts_service.App.{Served, serve, serve_parsed, respond, gen_req_id}

true-ne-false : ¬ (true ≡ false)
true-ne-false e = cc

-- No throw is answered by 202.
thrown_not_202 : (t : Thrown) → (respond (thrown t)).status ≢ 202
unfolding respond error_handler to_rendering
thrown_not_202 t h = ground (arith, h)

-- A response with the status 202 is an answer of a handler.
answered_202 :
    (r : Result (ℕ × Content))
    → (respond r).status ≡ 202
    → (c : Content) × (r ≡ ok (202, c)) × ((respond r).content ≡ c)
unfolding respond
answered_202 (ok (status, c)) h = (c, ap (λ n. ok (n, c)) h, refl)
answered_202 (thrown t) h = absurd (thrown_not_202 t h)

module _ (deps : AppDeps) (kt : KeyTable deps.prisma) (jt : JobTable deps.prisma)
    (services : Services deps) (req : Request services) (w : World deps)
    (body : deps.schemas.Body) where
  -- Who was let in, and what was accepted from them.
  pub record IsSubmitted (id : JsString) (after : World deps) (c : Content) : Type 0 where
    pub caller : AuthedUser
    pub entered : World deps
    pub bearer : IsBearer deps services.crypto kt req.authorization w entered caller
    pub reply : Reply Submission
    pub accepted :
        IsAccepted deps jt caller (submit_request deps services req body id) entered after reply
    pub shown : c ≡ accepted_job reply.body

  abbrev submitting : JsString → AuthedUser → Act deps (ℕ × Content)
  submitting id caller =
      reply_as accepted_job (submit deps caller (submit_request deps services req body id))

  replied :
      (reply : Reply Submission) (v v' : World deps) (c : Content)
      → pure {deps = deps} {A = ℕ × Content} (reply.status, accepted_job reply.body) v
        ≡ (ok (202, c), v')
      → (reply.status ≡ 202) × (c ≡ accepted_job reply.body) × (v ≡ v')
  replied reply v v' c h = (cc, cc, cc)

  submitted_by :
      (id : JsString) (c : Content) (w' : World deps)
      → with_key deps services req (submitting id) w ≡ (ok (202, c), w')
      → IsSubmitted id w' c
  submitted_by id c w' h =
      let (caller, entered, rest) =
        bind-eq-ok deps (api_key_auth deps services.crypto req.authorization) (submitting id) w w'
          h in
      let v = (api_key_auth deps services.crypto req.authorization w).1 in
      let (reply, done, last) =
        bind-eq-ok deps (submit deps caller (submit_request deps services req body id))
          (λ r. pure (r.status, accepted_job r.body)) v w' rest in
      let end = (submit deps caller (submit_request deps services req body id) v).1 in
      let (is_202, shown, same) = replied reply end w' c last in
      record {
        caller = caller;
        entered = v;
        bearer =
            api_key_auth_sound deps services.crypto kt req.authorization w v caller
              (ap (λ r. (r, v)) entered);
        reply = reply;
        accepted =
            submit_accepts deps jt caller (submit_request deps services req body id) v w' reply
              (ap (λ r. (r, end)) done ∙ ap (λ u. (ok reply, u)) same) is_202;
        shown = shown;
      }

  -- A request that reaches the route of the submissions.
  reaches :
      (id : JsString) (param : Option Loose)
      → All (λ e. match_of deps services req e ≡ none) (open_endpoints deps services req body id)
      → services.under (js "/v1/keys") req.target ≡ false
      → services.matches (js "GET") (js "/v1/me") req.method req.target ≡ none
      → services.matches (js "POST") (js "/v1/tts") req.method req.target ≡ some param
      → method_routers deps services req body id w
        ≡ handled "/v1/tts" (with_key deps services req (submitting id) w)
  unfolding method_routers first_of
  reaches id param closed u n m =
      let last =
        first_of deps services req (keyed_endpoints deps services req body id) not_found_layer in
      let jobs = map (behind_key deps services req) (job_routes deps services req body id) in
      first_of-none deps services req (open_endpoints deps services req body id)
        (keys_router deps services req last) w closed
      ∙ (past_keys deps services req last w u
          ∙ (first_of-over deps services req
                (behind_key deps services req (me_route deps services req)) jobs not_found_layer w n
              ∙ first_of-here deps services req
                  (behind_key deps services req (submit_route deps services req body id))
                  (map (behind_key deps services req) (read_routes deps services req body id))
                  not_found_layer w param m))

  ended :
      (id : JsString)
      → let (r, w') = with_key deps services req (submitting id) w in
        (respond r).status ≡ 202 → IsSubmitted id w' (respond r).content
  ended id h =
      let (r, w') = with_key deps services req (submitting id) w in
      let (c, e, same) = answered_202 r h in
      subst (λ inside. IsSubmitted id w' inside) (sym same)
        (submitted_by id c w' (ap (λ y. (y, w')) e))

  -- What a 202 at the end of a request means.
  abbrev Means : JsString → Routed deps → Type 0
  Means id r = (respond r.result).status ≡ 202 → IsSubmitted id r.after (respond r.result).content

  -- No router answers OPTIONS by 202, nor does the last layer.
  options-Means :
      (id : JsString)
      → services.under (js "/v1/keys") req.target ≡ false
      → Means id (options_routers deps services req body id w)
  unfolding respond not_found_handler
  options-Means id u =
      of_options_routers (Means id) services req body id w
        (λ m h. absurd (omega (arith, h)), λ h. absurd (omega (arith, h)))
        (λ v. absurd (true-ne-false (sym v ∙ u))) (λ v. absurd (true-ne-false (sym v ∙ u)))

  -- With databases of keys and jobs that keep their documented laws: when a request that reaches the
  -- route of the submissions is answered by 202, its Authorization header has let in the owner of an
  -- API key that is not revoked, and it is this user for whom the submission was accepted: the new row
  -- is theirs, and the job was queued under the id of the request.
  pub serve_accepts :
      (param : Option Loose)
      → services.parse_body req.raw ≡ ok body
      → All
          (λ e. match_of deps services req e ≡ none)
          (open_endpoints deps services req body (gen_req_id req.x_request_id req.uuid))
      → services.under (js "/v1/keys") req.target ≡ false
      → services.matches (js "GET") (js "/v1/me") req.method req.target ≡ none
      → services.matches (js "POST") (js "/v1/tts") req.method req.target ≡ some param
      → (serve deps services req w).response.status ≡ 202
      → let s = serve deps services req w in
        IsSubmitted (gen_req_id req.x_request_id req.uuid) s.after s.response.content
  serve_accepts param h closed u n m accepted =
      let id = gen_req_id req.x_request_id req.uuid in
      subst
        (λ (s : Served deps). s.response.status ≡ 202 → IsSubmitted id s.after s.response.content)
        (sym (serve_parsed deps services req w body h))
        (of_routers (Means id) services req body id w (λ _. options-Means id u)
          (subst (Means id) (sym (reaches id param closed u n m)) (ended id)))
        accepted
