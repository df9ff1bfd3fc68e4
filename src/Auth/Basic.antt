-- ===== src/Auth/Basic.antt =====
-- Email and password.
use bengali_tts_service.Base.{
  ℕ, suc, ◌≡◌, ◌≢◌, refl, ap, ◌∙◌, Bool, true, false, Option, none, some, ◌∷◌, ◌++◌, [], length,
  take, drop, All, arith,
}
use native.Mathlib.Numerals.{add-one}
use bengali_tts_service.Text.{JsString, js}
use bengali_tts_service.Text.Laws.{index_of-append}
use bengali_tts_service.Errors.{ok, thrown, domain, invalid_credentials}
use bengali_tts_service.Schema.{User}
use bengali_tts_service.Deps.Crypto.{Crypto}
use bengali_tts_service.Deps.Action.{AppDeps, World, Act, query, lift, bind-eq-ok, ◌>>=◌}
use bengali_tts_service.Jobs.Shared.{AuthedUser}
use bengali_tts_service.Auth.{
  authed, colon, split_credentials, hash_or_decoy, admit_if, check_credentials,
}

take-append : (s t : JsString) → take (length s) (s ++ t) ≡ s
take-append [] t = refl
take-append (c ∷ s) t = ap (λ r. c ∷ r) (take-append s t)

drop-append : (s : JsString) (c : ℕ) (t : JsString) → drop (suc (length s)) (s ++ c ∷ t) ≡ t
drop-append [] c t = refl
drop-append (d ∷ s) c t = drop-append s c t

-- Credentials are read as they were written: the email up to the first colon, which no email here
-- has, and all the rest as the password, its colons included.
split_credentials_lem :
    (email password : JsString)
    → All (λ c. c ≢ colon) email
    → split_credentials (email ++ colon ∷ password) ≡ (email, password)
unfolding split_credentials
split_credentials_lem email password h =
    rw (index_of-append colon email password h, split_credentials)
      (rw (take-append email (colon ∷ password), add-one, drop-append email colon password) refl)

module _ (deps : AppDeps) (crypto : Crypto) where
  -- Provided that the libraries answer, credentials with an email that is not found and
  -- credentials with a password that does not pass end in the same refusal, with no change.
  wrong_credentials :
      (unknown_email email password decoy : JsString) (b : Bool) (user : User) (w v : World deps)
      → deps.prisma.user_find_unique unknown_email w.db ≡ ok none
      → crypto.bcrypt_hash (js "decoy-password") 4 ≡ ok decoy
      → crypto.bcrypt_compare password decoy ≡ ok b
      → deps.prisma.user_find_unique email v.db ≡ ok (some user)
      → crypto.bcrypt_compare password user.password_hash ≡ ok false
      → (check_credentials deps crypto unknown_email password w
          ≡ (thrown (domain invalid_credentials), w))
        × (check_credentials deps crypto email password v
            ≡ (thrown (domain invalid_credentials), v))
  unfolding check_credentials
  wrong_credentials unknown_email email password decoy b user w v unknown hashed compared known
        wrong =
      (ground arith, ground arith)

  admit_if-eq-ok :
      (o : Option User) (valid : Bool) (w w' : World deps) (user : AuthedUser)
      → admit_if deps crypto o valid w ≡ (ok user, w')
      → (u : User) × (o ≡ some u) × (valid ≡ true) × (authed u ≡ user) × (w' ≡ w)
  admit_if-eq-ok none valid w w' user h = cc
  admit_if-eq-ok (some u) true w w' user h = (u, refl, refl, cc, cc)
  admit_if-eq-ok (some u) false w w' user h = cc

  compared_with :
      (o : Option User) (u : User) (hash : JsString) (valid : Bool) (password : JsString)
      → o ≡ some u
      → hash_or_decoy deps crypto o ≡ ok hash
      → crypto.bcrypt_compare password hash ≡ ok valid
      → valid ≡ true
      → crypto.bcrypt_compare password u.password_hash ≡ ok true
  compared_with none u hash valid password is_u hashed compared is_valid = cc
  compared_with (some v) u hash valid password is_u hashed compared is_valid =
      ground (arith, is_u, hashed, compared, is_valid)

  -- Credentials let in only the user who is found under the email, and only where the password
  -- passes the comparison with this user's hash; nothing changes.
  pub check_credentials_sound :
      (email password : JsString) (w w' : World deps) (user : AuthedUser)
      → check_credentials deps crypto email password w ≡ (ok user, w')
      → (u : User) × (deps.prisma.user_find_unique email w.db ≡ ok (some u))
        × (crypto.bcrypt_compare password u.password_hash ≡ ok true)
        × (authed u ≡ user)
        × (w' ≡ w)
  unfolding check_credentials
  check_credentials_sound email password w w' user h =
      let find : Act deps (Option User) = query (deps.prisma.user_find_unique email) in
      let hash_of : Option User → Act deps JsString = λ o. lift (hash_or_decoy deps crypto o) in
      let compare : JsString → Act deps Bool = λ hash. lift (crypto.bcrypt_compare password hash) in
      let (o, found, h1) =
        bind-eq-ok deps find (λ o. hash_of o >>= λ hash. compare hash >>= admit_if deps crypto o) w
          w' h in
      let (hash, hashed, h2) =
        bind-eq-ok deps (hash_of o) (λ hash. compare hash >>= admit_if deps crypto o) w w' h1 in
      let (valid, compared, h3) = bind-eq-ok deps (compare hash) (admit_if deps crypto o) w w' h2 in
      let (u, is_u, is_valid, same, here) = admit_if-eq-ok o valid w w' user h3 in
      (
        u,
        found ∙ ap ok is_u,
        compared_with o u hash valid password is_u hashed compared is_valid,
        same,
        here,
      )
