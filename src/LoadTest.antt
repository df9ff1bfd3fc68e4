-- ===== src/LoadTest.antt =====
-- load/tts-load.js: the load test of the gateway. It seeds users, submits from all of them at once
-- and counts the outcomes, and watches the queue drain.
mod Reading
unfoldable pub use Reading.*
pub mod Client
pub mod Seeding
pub mod Outcomes
pub mod Depth
pub mod Drain
use bengali_tts_service.Base.{
  ℕ, zero, suc, String, ◌+◌, ◌-◌, ◌*◌, ◌/◌, ◌%◌, Bool, true, false, ◌&&◌, ◌||◌, not, Option, none,
  some, List, [], ◌∷◌, ◌++◌, length, drop, leb, ltb, ◌==◌, if◌then◌else◌,
}
use bengali_tts_service.Base.Int.{ℤ, sub_ℕ}
use bengali_tts_service.Text.{JsString, js, text_eq, starts_with}
use bengali_tts_service.Text.Decimal.{decimal, read_from}
use bengali_tts_service.Errors.{Result, ok, thrown, Thrown, other}
use bengali_tts_service.LoadTest.Client.{
  K6, Response, Payload, fields, nothing, Script, give, throw, request, ◌>>=◌, ◌>>◌,
}

abbrev password : JsString
password = js "load-test-password-1234"

-- The text of every submission, by its code units.
abbrev pub bengali : JsString
bengali =
    0x986 ∷ 0x99c ∷ 0x995 ∷ 0x9c7 ∷ 0x9b0 ∷ 32 ∷ 0x986 ∷ 0x9ac ∷ 0x9b9 ∷ 0x9be ∷ 0x993 ∷ 0x9af
    ∷ 0x9bc ∷ 0x9be ∷ 32 ∷ 0x996 ∷ 0x9c1 ∷ 0x9ac ∷ 32 ∷ 0x9b8 ∷ 0x9c1 ∷ 0x9a8 ∷ 0x9cd ∷ 0x9a6
    ∷ 0x9b0 ∷ 32 ∷ 0x98f ∷ 0x9ac ∷ 0x982 ∷ 32 ∷ 0x986 ∷ 0x995 ∷ 0x9be ∷ 0x9b6 ∷ 32 ∷ 0x9aa ∷ 0x9b0
    ∷ 0x9bf ∷ 0x9b7 ∷ 0x9cd ∷ 0x995 ∷ 0x9be ∷ 0x9b0 ∷ 0x964 ∷ []

-- `__ENV.BASE_URL || 'http://localhost:3000'`
unfoldable pub base_url : Option JsString → JsString
base_url none = js "http://localhost:3000"
base_url (some []) = js "http://localhost:3000"
base_url (some (c ∷ s)) = c ∷ s

-- The counters of the burst.
pub record Tally : Type 0 where
  pub accepted : ℕ
  pub rate_limited : ℕ
  pub pending_capped : ℕ
  pub queue_full : ℕ
  pub other_responses : ℕ

-- The line of the log at the beginning of the drain and the one at its end.
pub record Drained : Type 0 where
  pub depth_at_start : Option ℕ
  pub depth : Option ℕ
  pub elapsed_ms : ℤ

-- The time that the drain has, in milliseconds.
abbrev pub drain_time : ℕ
drain_time = 10 * 60 * 1000

-- A header's name and value.
abbrev header : String → JsString → JsString × JsString
header name value = (js name, value)

abbrev json_type : JsString × JsString
json_type = header "Content-Type" (js "application/json")

module _ (k6 : K6) (url : JsString) where
  abbrev pub email_of : ℕ → JsString
  email_of i = js "k6-user-" ++ (decimal i ++ js "@example.com")

  abbrev pub register_user : JsString → k6.State → Response × k6.State
  register_user email =
      k6.post (url ++ js "/v1/auth/register")
        (fields ((js "email", email) ∷ (js "password", password) ∷ [])) (json_type ∷ [])

  abbrev pub make_key : JsString → k6.State → Response × k6.State
  make_key email =
      k6.post (url ++ js "/v1/keys") nothing
        (header "Authorization" (js "Basic " ++ k6.b64encode (email ++ (js ":" ++ password))) ∷ [])

  abbrev pub unless : Bool → Thrown → Script k6.State (Unit {0})
  unless true t = give tt
  unless false t = throw t

  abbrev pub failed : String → JsString → ℕ → Thrown
  failed what email status =
      other (js what ++ (js " failed for " ++ (email ++ (js ": " ++ decimal status))))

  -- One turn of the loop of `setup`: a user, who may be there already, and a fresh key.
  unfoldable pub seed_user : ℕ → Script k6.State (Option JsString)
  seed_user i = do
    let email = email_of i
    registered ← request (register_user email)
    unless (registered.status == 201 || registered.status == 409)
        (failed "registration" email registered.status)
    created ← request (make_key email)
    unless (created.status == 201) (failed "key creation" email created.status)
    (λ s. (created.json (js "key"), s))

  -- The loop, with `n` turns left of which `i` is the next.
  unfoldable pub seed_from : ℕ → ℕ → Script k6.State (List (Option JsString))
  seed_from i zero = give []
  seed_from i (suc n) = do key ← seed_user i; keys ← seed_from (suc i) n; give (key ∷ keys)

  unfoldable pub setup : ℕ → Script k6.State (List (Option JsString))
  setup users = seed_from 0 users

  unfoldable pub load_queue_depth : k6.State → Option ℕ × k6.State
  load_queue_depth s = let (res, s') = k6.get (url ++ js "/metrics") s in (depth_of res.body, s')

  -- `while (depth > 0 && Date.now() < deadline)`, on fuel.
  unfoldable pub drain : ℕ → ℕ → Option ℕ → k6.State → Option (Option ℕ × k6.State)
  drain zero deadline depth s = none
  drain (suc fuel) deadline depth s =
      let (next, s') = load_queue_depth (k6.sleep 2000 s) in
      let rest = drain fuel deadline next s' in
      if is_positive depth && ltb (k6.now s) deadline then rest else some (depth, s)

  unfoldable pub teardown : ℕ → k6.State → Option (Drained × k6.State)
  teardown fuel s =
      let started = k6.now s in
      let (depth, s') = load_queue_depth s in
      elim (drain fuel (started + drain_time) depth s') [
        | none ↦ none
        | some (final, s'') ↦ some (
          record { depth_at_start = depth; depth = final; elapsed_ms = sub_ℕ (k6.now s'') started },
          s'',
        )
      ]

-- `code === '...'`, where the code may be undefined.
abbrev pub is_code : Option JsString → String → Bool
is_code none name = false
is_code (some code) name = text_eq code (js name)

abbrev count_refused : Option JsString → Tally → Tally
count_refused code t =
    if is_code code "RATE_LIMITED"
    then record t { rate_limited = t.rate_limited + 1 }
    else if is_code code "PENDING_CAP_EXCEEDED"
    then record t { pending_capped = t.pending_capped + 1 }
    else if is_code code "QUEUE_FULL"
    then record t { queue_full = t.queue_full + 1 }
    else record t { other_responses = t.other_responses + 1 }

-- The chain of tests that adds one to a counter.
unfoldable pub count_response : ℕ → Option JsString → Tally → Tally
count_response status code t =
    if status == 202 then record t { accepted = t.accepted + 1 } else count_refused code t

-- The check of a response: 'is a known outcome'.
unfoldable pub is_known_outcome : ℕ → Option JsString → Bool
is_known_outcome status code =
    status == 202
    || (status == 429 && (is_code code "RATE_LIMITED" || is_code code "PENDING_CAP_EXCEEDED"))
    || (status == 503 && is_code code "QUEUE_FULL")

-- `res.status === 202 ? 'accepted' : res.json('error.code')`
unfoldable pub response_code : Response → Result (Option JsString)
response_code res =
    if res.status == 202 then ok (some (js "accepted")) else res.json (js "error.code")

-- `data.keys[(__VU - 1) % data.keys.length]`, in a template that prints a key that is not there as
-- 'undefined'. The numbers of the users begin at 1.
unfoldable pub key_of : ℕ → List (Option JsString) → JsString
key_of vu keys = elim (drop ((vu - 1) % length keys) keys) [
  | [] ↦ js "undefined"
  | key ∷ rest ↦ elim key [ none ↦ js "undefined" | some k ↦ k ]
]

module _ (k6 : K6) (url : JsString) where
  abbrev pub send_text : JsString → k6.State → Response × k6.State
  send_text key =
      k6.post (url ++ js "/v1/tts") (fields ((js "text", bengali) ∷ []))
        (json_type ∷ header "Authorization" (js "Bearer " ++ key) ∷ [])

  -- What follows the response: it is counted, checked, and followed by the pause.
  abbrev pub note_outcome :
      ℕ → ℕ → Result (Option JsString) → Tally → k6.State → Result Bool × Tally × k6.State
  note_outcome pause status (thrown t) tally s = (thrown t, tally, s)
  note_outcome pause status (ok code) tally s =
      (ok (is_known_outcome status code), count_response status code tally, k6.sleep pause s)

  -- One iteration of a virtual user; `random` is `Math.random()`, in thousandths. A response that
  -- has no JSON ends it with a throw.
  unfoldable pub burst_submit :
      ℕ → ℕ → List (Option JsString) → Tally → k6.State → Result Bool × Tally × k6.State
  burst_submit random vu keys tally s =
      let (res, s') = send_text (key_of vu keys) s in
      note_outcome (200 + random * 300 / 1000) res.status (response_code res) tally s'
