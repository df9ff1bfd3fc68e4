-- ===== src/Auth/Bearer.antt =====
-- Which API keys let a request in.
use bengali_tts_service.Base.{
  ◌≡◌, refl, ap, ◌∙◌, true, Bool-cases, inl, inr, Option, none, some, ◌++◌, length, drop, arith,
}
use mathlib.Core.List.{Memᴰ}
use bengali_tts_service.Text.{JsString, js, starts_with, trim, is_space}
use bengali_tts_service.Text.Laws.{starts_with-append, IsSolid, trim_of_IsSolid, text_eq_refl}
use bengali_tts_service.Errors.{ok}
use bengali_tts_service.Schema.{ApiKey, User}
use bengali_tts_service.ApiKeys.{
  key_prefix, hash_api_key, hashes_match, looks_like_api_key, generate_api_key,
}
use bengali_tts_service.Deps.Crypto.{Crypto, KeyTable}
use bengali_tts_service.Deps.Action.{AppDeps, World, query, bind-eq-ok}
use bengali_tts_service.Jobs.Shared.{AuthedUser}
use bengali_tts_service.Auth.{authed, key_user, api_key_auth}

-- What has let a request in by its bearer key.
pub record IsBearer (deps : AppDeps) (crypto : Crypto) (kt : KeyTable deps.prisma)
    (header : Option JsString) (w w' : World deps) (user : AuthedUser) : Type 0 where
  pub text : JsString
  pub given : header ≡ some text
  pub scheme : starts_with text (js "Bearer ") ≡ true
  pub key : JsString
  pub is_key : key ≡ trim (drop (length (js "Bearer ")) text)
  pub prefixed : starts_with key key_prefix ≡ true
  pub row : ApiKey
  pub listed : Memᴰ row (kt.keys w.db)
  pub hashed : row.key_hash ≡ crypto.sha256_hex key
  pub valid : row.revoked_at ≡ none
  pub owner : row.user_id ≡ user.id
  pub touched : w' ≡ record w { db = deps.prisma.api_key_touch row.id w.db }

module _ (deps : AppDeps) (crypto : Crypto) where
  -- The end of a successful check.
  key_user-eq-ok :
      (hash : JsString) (o : Option (ApiKey × User)) (w w' : World deps) (user : AuthedUser)
      → key_user deps crypto hash o w ≡ (ok user, w')
      → (k : ApiKey) × (u : User) × (o ≡ some (k, u))
        × (k.revoked_at ≡ none)
        × (authed u ≡ user)
        × (w' ≡ record w { db = deps.prisma.api_key_touch k.id w.db })
  key_user-eq-ok hash none w w' user h = cc
  key_user-eq-ok hash (some (k, u)) w w' user h =
      (k, u, refl, ground arith, ground arith, ground arith)

  -- With a key table as documented, a request is let in only by a header of the Bearer scheme whose
  -- trimmed rest has the prefix of the keys and is the key of a row, by its hash, that is not
  -- revoked; the user is the row's owner, and only the time of the row's last use is written.
  pub api_key_auth_sound :
      (kt : KeyTable deps.prisma) (header : Option JsString) (w w' : World deps) (user : AuthedUser)
      → api_key_auth deps crypto header w ≡ (ok user, w')
      → IsBearer deps crypto kt header w w' user
  unfolding api_key_auth looks_like_api_key hash_api_key
  api_key_auth_sound kt none w w' user h = cc
  api_key_auth_sound kt (some text) w w' user h =
      elim (Bool-cases (starts_with text (js "Bearer "))) [
        | inr other ↦ cc (rw other at h)
        | inl scheme ↦
            let key = trim (drop (length (js "Bearer ")) text) in
            elim (Bool-cases (starts_with key key_prefix)) [
              | inr other ↦ cc (rw (scheme, other) at h)
              | inl prefixed ↦
                  let hash = crypto.sha256_hex key in
                  let (o, found, h1) =
                    bind-eq-ok deps (query (deps.prisma.api_key_find_unique hash))
                      (key_user deps crypto hash) w w' (rw (scheme, prefixed) at h) in
                  let (k, u, is_row, valid, same, touched) = key_user-eq-ok hash o w w' user h1 in
                  let (listed, hashed, owner) =
                    kt.find_unique_lem hash w.db k u (found ∙ ap ok is_row) in
                  record {
                    text = text;
                    given = refl;
                    scheme = scheme;
                    key = key;
                    is_key = refl;
                    prefixed = prefixed;
                    row = k;
                    listed = listed;
                    hashed = hashed;
                    valid = valid;
                    owner = owner ∙ ap (λ (x : AuthedUser). x.id) same;
                    touched = touched;
                  }
            ]
      ]

IsSolid-key : (secret : JsString) → IsSolid secret → IsSolid (key_prefix ++ secret)
unfolding is_space js
IsSolid-key secret h = (refl, (refl, (refl, (refl, (refl, (refl, (refl, (refl, h))))))))

after_scheme :
    (secret : JsString)
    → drop (length (js "Bearer ")) (js "Bearer " ++ (key_prefix ++ secret)) ≡ key_prefix ++ secret
unfolding js
after_scheme secret = refl

-- For a secret without white space, the key that was made of it lets its owner in as a bearer key,
-- as long as a row with the key's hash is found and is not revoked; and only the time of the row's
-- last use is written.
pub generated_key_authenticates :
    (deps : AppDeps) (crypto : Crypto) (secret : JsString) (w : World deps) (k : ApiKey) (u : User)
    → IsSolid secret
    → deps.prisma.api_key_find_unique (generate_api_key crypto secret).key_hash w.db
      ≡ ok (some (k, u))
    → k.key_hash ≡ (generate_api_key crypto secret).key_hash
    → k.revoked_at ≡ none
    → api_key_auth deps crypto (some (js "Bearer " ++ (generate_api_key crypto secret).key)) w
      ≡ (ok (authed u), record w { db = deps.prisma.api_key_touch k.id w.db })
unfolding api_key_auth generate_api_key looks_like_api_key hashes_match
generated_key_authenticates deps crypto secret w k u solid found hash valid =
    rw
      (
        starts_with-append (js "Bearer ") (key_prefix ++ secret),
        after_scheme secret,
        trim_of_IsSolid (key_prefix ++ secret) (IsSolid-key secret solid),
        starts_with-append key_prefix secret,
      )
      (rw
        (
          found,
          hash,
          text_eq_refl (crypto.hex_bytes (hash_api_key crypto (key_prefix ++ secret))),
          valid,
        )
        refl)
