-- ===== src/Auth.antt =====
-- gateway/src/middleware/auth.ts: who makes a request.
pub mod Bearer
pub mod Basic
use bengali_tts_service.Base.{
  ℕ, ◌+◌, Bool, ◌&&◌, Option, none, some, length, take, drop, if◌then◌else◌, ◌-◌,
}
use bengali_tts_service.Text.{JsString, js, starts_with, trim, index_of}
use bengali_tts_service.Errors.{
  Result, ok, thrown, domain, unauthenticated, missing_credentials, invalid_credentials,
  missing_api_key, invalid_api_key, revoked_api_key,
}
use bengali_tts_service.Schema.{ApiKey, User}
use bengali_tts_service.ApiKeys.{hash_api_key, hashes_match, looks_like_api_key}
use bengali_tts_service.Deps.Crypto.{Crypto}
use bengali_tts_service.Deps.Action.{AppDeps, Act, pure, raise, lift, query, update, ◌>>=◌, ◌>>◌}
use bengali_tts_service.Jobs.Shared.{AuthedUser}

-- `req.user`, once a guard has run.
unfoldable pub require_user : Option AuthedUser → Result AuthedUser
require_user none = thrown (domain unauthenticated)
require_user (some user) = ok user

abbrev pub authed : User → AuthedUser
authed user = record { id = user.id; email = user.email }

-- The code of ':'.
abbrev pub colon : ℕ
colon = 58

-- `decoded.slice(0, separator)` and `decoded.slice(separator + 1)`. Without a separator its index is
-- -1: the first slice stops before the last unit, and the second is the whole string.
unfoldable pub split_credentials : JsString → JsString × JsString
split_credentials decoded = elim (index_of colon decoded) [
  | none ↦ (take (length decoded - 1) decoded, decoded)
  | some separator ↦ (take separator decoded, drop (separator + 1) decoded)
]

module _ (deps : AppDeps) (crypto : Crypto) where
  -- `user?.passwordHash ?? (await bcrypt.hash('decoy-password', 4))`
  abbrev pub hash_or_decoy : Option User → Result JsString
  hash_or_decoy none = crypto.bcrypt_hash (js "decoy-password") 4
  hash_or_decoy (some user) = ok user.password_hash

  -- `!user || !valid`
  abbrev pub admit_if : Option User → Bool → Act deps AuthedUser
  admit_if none valid = raise (domain invalid_credentials)
  admit_if (some user) valid =
      if valid then pure (authed user) else raise (domain invalid_credentials)

  unfoldable pub check_credentials : JsString → JsString → Act deps AuthedUser
  check_credentials email password = do
    user ← query (deps.prisma.user_find_unique email)
    hash ← lift (hash_or_decoy user)
    valid ← lift (crypto.bcrypt_compare password hash)
    admit_if user valid

  abbrev pub basic_header : JsString → Act deps AuthedUser
  basic_header header =
      if starts_with header (js "Basic ")
      then (let (email, password) =
            split_credentials (crypto.base64_text (drop (length (js "Basic ")) header)) in
          check_credentials email password)
      else raise (domain missing_credentials)

  unfoldable pub basic_auth : Option JsString → Act deps AuthedUser
  basic_auth none = raise (domain missing_credentials)
  basic_auth (some header) = basic_header header

  -- The row that the lookup has found: it is used if its hash is the key's and it is not revoked.
  -- The time of last use is written on the way.
  abbrev pub key_user : JsString → Option (ApiKey × User) → Act deps AuthedUser
  key_user key_hash none = raise (domain invalid_api_key)
  key_user key_hash (some (k, user)) =
      if hashes_match crypto k.key_hash key_hash
      then elim k.revoked_at [
        | some t ↦ raise (domain revoked_api_key)
        | none ↦ update (λ d. (ok tt, deps.prisma.api_key_touch k.id d)) >> pure (authed user)
      ]
      else raise (domain invalid_api_key)

  abbrev pub bearer_key : JsString → Act deps AuthedUser
  bearer_key key =
      if looks_like_api_key key
      then query (deps.prisma.api_key_find_unique (hash_api_key crypto key))
        >>= key_user (hash_api_key crypto key)
      else raise (domain invalid_api_key)

  unfoldable pub api_key_auth : Option JsString → Act deps AuthedUser
  api_key_auth none = raise (domain missing_api_key)
  api_key_auth (some header) =
      if starts_with header (js "Bearer ")
      then bearer_key (trim (drop (length (js "Bearer ")) header))
      else raise (domain missing_api_key)
