-- ===== src/Accounts.antt =====
-- gateway/src/routes/auth.ts, keys.ts and me.ts: registration, the keys of an account, the probe of
-- a key.
pub mod Revocation
use bengali_tts_service.Base.{ℕ, Option, none, some, List, map, ◌==◌, if◌then◌else◌}
use bengali_tts_service.Text.{JsString}
use bengali_tts_service.Errors.{domain, email_taken, not_found}
use bengali_tts_service.Http.{Parsed, validate}
use bengali_tts_service.Schema.{ApiKey, User}
use bengali_tts_service.ApiKeys.{generate_api_key, GeneratedApiKey}
use bengali_tts_service.Deps.Crypto.{Crypto}
use bengali_tts_service.Deps.Action.{AppDeps, Act, pure, raise, lift, query, update, ◌>>=◌, ◌>>◌}
use bengali_tts_service.Jobs.Shared.{AuthedUser, Reply}
use bengali_tts_service.Auth.{basic_auth, api_key_auth}

abbrev bcrypt_rounds : ℕ
bcrypt_rounds = 12

-- What a registration's body is parsed to.
pub record Registration : Type 0 where
  pub email : JsString
  pub password : JsString

pub record Registered : Type 0 where
  pub id : JsString
  pub email : JsString
  pub created_at : ℕ

-- The only answer that shows a key.
pub record CreatedKey : Type 0 where
  pub id : JsString
  pub key : JsString
  pub key_prefix : JsString
  pub created_at : ℕ

pub record KeyView : Type 0 where
  pub id : JsString
  pub key_prefix : JsString
  pub created_at : ℕ
  pub last_used_at : Option ℕ
  pub revoked_at : Option ℕ

abbrev pub view_key : ApiKey → KeyView
view_key k = record {
  id = k.id;
  key_prefix = k.key_prefix;
  created_at = k.created_at;
  last_used_at = k.last_used_at;
  revoked_at = k.revoked_at;
}

abbrev pub created_key : GeneratedApiKey → ApiKey → Reply CreatedKey
created_key g k = record {
  status = 201;
  body = record { id = k.id; key = g.key; key_prefix = g.key_prefix; created_at = k.created_at };
}

module _ (deps : AppDeps) (crypto : Crypto) where
  abbrev create_account : Registration → Option User → Act deps (Reply Registered)
  create_account r (some existing) = raise (domain email_taken)
  create_account r none = do
    hash ← lift (crypto.bcrypt_hash r.password bcrypt_rounds)
    user ← update (deps.prisma.user_create r.email hash)
    pure (record {
      status = 201;
      body = record { id = user.id; email = user.email; created_at = user.created_at };
    })

  unfoldable pub register :
      {Body : Type 0} → (Body → Parsed Registration) → Body → Act deps (Reply Registered)
  register schema body = do
    r ← lift (validate schema body)
    existing ← query (deps.prisma.user_find_unique r.email)
    create_account r existing

  -- The handlers of the keys, for the user that the guard has put on the request.
  abbrev pub create_key_for : JsString → AuthedUser → Act deps (Reply CreatedKey)
  create_key_for secret user = do
    let g = generate_api_key crypto secret
    k ← update (deps.prisma.api_key_create user.id g.key_hash g.key_prefix)
    pure (created_key g k)

  abbrev pub list_keys_for : AuthedUser → Act deps (Reply (List KeyView))
  list_keys_for user = do
    records ← query (deps.prisma.api_key_find_many user.id)
    pure (record { status = 200; body = map view_key records })

  unfoldable pub create_key : JsString → Option JsString → Act deps (Reply CreatedKey)
  create_key secret header = do user ← basic_auth deps crypto header; create_key_for secret user

  unfoldable pub list_keys : Option JsString → Act deps (Reply (List KeyView))
  list_keys header = do user ← basic_auth deps crypto header; list_keys_for user

  abbrev pub revoked_or_missing : ℕ → Act deps (Reply (Unit {0}))
  revoked_or_missing count =
      if count == 0 then raise (domain not_found) else pure (record { status = 204; body = tt })

  abbrev pub revoke_key_for : JsString → AuthedUser → Act deps (Reply (Unit {0}))
  revoke_key_for id user = do
    count ← update (deps.prisma.api_key_revoke_many id user.id)
    revoked_or_missing count

  unfoldable pub revoke_key : JsString → Option JsString → Act deps (Reply (Unit {0}))
  revoke_key id header = do user ← basic_auth deps crypto header; revoke_key_for id user

  abbrev pub me_for : AuthedUser → Act deps (Reply AuthedUser)
  me_for user = pure (record { status = 200; body = user })

  unfoldable pub me : Option JsString → Act deps (Reply AuthedUser)
  me header = do user ← api_key_auth deps crypto header; me_for user
