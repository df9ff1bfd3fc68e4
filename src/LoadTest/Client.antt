-- ===== src/LoadTest/Client.antt =====
-- The load generator that runs load/tts-load.js, which is not part of the repository: its calls are
-- a parameter, over a state of its own, with what they are documented to do.
use bengali_tts_service.Base.{ℕ, ◌+◌, ◌≤◌, ◌≡◌, ap, Option, List}
use bengali_tts_service.Text.{JsString}
use bengali_tts_service.Errors.{Result, ok, thrown, Thrown}

-- A response. Selecting from its JSON gives the string at that place if one is there, and throws
-- where the body is not JSON.
pub record Response : Type 0 where
  pub status : ℕ
  pub body : JsString
  pub json : JsString → Result (Option JsString)

-- The object that `JSON.stringify` prints into a request's body, by its fields, or no body.
pub data Payload : Type 0 where
  fields : List (JsString × JsString) → Payload
  nothing : Payload

pub record K6 : Type 1 where
  pub State : Type 0
  pub post : JsString → Payload → List (JsString × JsString) → State → Response × State
  pub get : JsString → State → Response × State
  pub now : State → ℕ
  -- A pause, in milliseconds.
  pub sleep : ℕ → State → State
  pub b64encode : JsString → JsString

-- A pause lasts as long as it is asked to at least, and a request does not set the clock back.
pub record ClockLaw (k6 : K6) : Type 0 where
  pub sleep_lem : (ms : ℕ) (s : k6.State) → k6.now s + ms ≤ k6.now (k6.sleep ms s)
  pub get_lem : (url : JsString) (s : k6.State) → k6.now s ≤ k6.now (k6.get url s).1

-- A script's code: it changes the generator's state, and returns or throws.
abbrev pub Script : Type 0 → Type 0 → Type 0
Script S A = S → Result A × S

module _ {S A : Type 0} where
  abbrev pub give : A → Script S A
  give a s = (ok a, s)

  abbrev pub throw : Thrown → Script S A
  throw t s = (thrown t, s)

abbrev pub request : {S : Type 0} → (S → Response × S) → Script S Response
request f s = let (res, s') = f s in (ok res, s')

module _ {S A B : Type 0} where
  infixl 5 ◌>>=◌ ◌>>◌
  abbrev pub ◌>>=◌ : Script S A → (A → Script S B) → Script S B
  ◌>>=◌ m f s = let (r, s') = m s in elim r [ ok a ↦ f a s' | thrown t ↦ (thrown t, s') ]

  abbrev pub ◌>>◌ : Script S A → Script S B → Script S B
  m >> k = m >>= λ _. k

-- What follows code that has returned.
pub bind-ok :
    {S A B : Type 0} (m : Script S A) (f : A → Script S B) (s s' : S) {a : A}
    → m s ≡ (ok a, s')
    → (m >>= f) s ≡ f a s'
bind-ok m f s s' h = ap (λ (r, s''). elim r [ ok a ↦ f a s'' | thrown t ↦ (thrown t, s'') ]) h
