-- ===== src/LoadTest/Seeding.antt =====
-- load/tts-load.js, setup: the users and their keys.
use bengali_tts_service.Base.{
  ℕ, zero, suc, ◌≡◌, refl, ◌∙◌, ◌⊎◌, true, Option, none, some, List, [], ◌∷◌, arith, length, ◌||◌,
  ◌==◌, eq→==,
}
use bengali_tts_service.Text.{JsString, js}
use bengali_tts_service.Errors.{ok}
use bengali_tts_service.LoadTest.{register_user, email_of, make_key, seed_user, seed_from, setup}
use bengali_tts_service.LoadTest.Client.{K6, bind-ok, give, ◌>>=◌}

-- A server that registers a user or has it already, and issues a key for it.
pub record Seeds (k6 : K6) (url : JsString) : Type 0 where
  pub registers :
      (email : JsString) (s : k6.State)
      → let r = (register_user k6 url email s).0 in (r.status ≡ 201) ⊎ (r.status ≡ 409)
  pub issues :
      (email : JsString) (s : k6.State)
      → let r = (make_key k6 url email s).0 in
        (r.status ≡ 201) × ((key : JsString) × (r.json (js "key") ≡ ok (some key)))

-- Keys, all of which are there.
abbrev pub AllKeys : List (Option JsString) → Type 0
AllKeys [] = Unit
AllKeys (none ∷ keys) = ⊥
AllKeys (some k ∷ keys) = AllKeys keys

module _ (k6 : K6) (url : JsString) (server : Seeds k6 url) where
  tolerated : (n : ℕ) → (n ≡ 201) ⊎ (n ≡ 409) → (n == 201 || n == 409) ≡ true
  tolerated n h = ground arith

  seed_one :
      (i : ℕ) (s : k6.State)
      → (key : JsString) × (s' : k6.State) × (seed_user k6 url i s ≡ (ok (some key), s'))
  unfolding seed_user
  seed_one i s =
      let email = email_of k6 url i in
      let (registered, s') = register_user k6 url email s in
      let (created, (key, e)) = server.issues email s' in
      (
        key,
        (make_key k6 url email s').1,
        rw (tolerated _ (server.registers email s), eq→== _ 201 created, e) refl,
      )

  seed_step :
      (n i : ℕ) (s s' s'' : k6.State) (key : Option JsString) (keys : List (Option JsString))
      → seed_user k6 url i s ≡ (ok key, s')
      → seed_from k6 url (suc i) n s' ≡ (ok keys, s'')
      → seed_from k6 url i (suc n) s ≡ (ok (key ∷ keys), s'')
  unfolding seed_from
  seed_step n i s s' s'' key keys e f =
      bind-ok (seed_user k6 url i) (λ k. seed_from k6 url (suc i) n >>= λ rest. give (k ∷ rest)) s
        s' e
      ∙ bind-ok (seed_from k6 url (suc i) n) (λ rest. give (key ∷ rest)) s' s'' f

  seed_all :
      (n i : ℕ) (s : k6.State)
      → (keys : List (Option JsString)) × (s' : k6.State) × (seed_from k6 url i n s ≡ (ok keys, s'))
        × (length keys ≡ n)
        × AllKeys keys
  unfolding seed_from
  seed_all zero i s = ([], s, refl, refl, tt)
  seed_all (suc n) i s =
      let (key, s', e) = seed_one i s in
      let (keys, s'', f, len, all) = seed_all n (suc i) s' in
      (some key ∷ keys, s'', seed_step n i s s' s'' (some key) keys e f, omega (arith, len), all)

  -- The setup gives a key for each of the users, none missing, when the server registers a user or
  -- answers that it is there already, and issues a key for it: so it can be run again.
  setup_returns :
      (users : ℕ) (s : k6.State)
      → (keys : List (Option JsString)) × (s' : k6.State) × (setup k6 url users s ≡ (ok keys, s'))
        × (length keys ≡ users)
        × AllKeys keys
  unfolding setup
  setup_returns users s = seed_all users 0 s
