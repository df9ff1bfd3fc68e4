-- ===== src/Tests/Accounts.antt =====
-- Keys and credentials.
use bengali_tts_service.Base.{◌≡◌, refl, true, Option, some, ◌++◌}
use bengali_tts_service.Text.{JsString, js, text_eq, trim, starts_with, index_of, is_space}
use bengali_tts_service.Text.Laws.{IsSolid}
use bengali_tts_service.Errors.{ok}
use bengali_tts_service.Schema.{User}
use bengali_tts_service.ApiKeys.{generate_api_key, looks_like_api_key, hashes_match, hash_api_key}
use bengali_tts_service.Deps.Action.{World}
use bengali_tts_service.Jobs.Shared.{Reply}
use bengali_tts_service.Auth.{
  authed, split_credentials, check_credentials, basic_auth, api_key_auth,
}
use bengali_tts_service.Auth.Basic.{check_credentials_sound}
use bengali_tts_service.Auth.Bearer.{IsBearer, api_key_auth_sound, generated_key_authenticates}
use bengali_tts_service.Accounts.{revoke_key}
use bengali_tts_service.Accounts.Revocation.{revoked_never_authenticates}
use bengali_tts_service.Tests.Setting.{rahim}
use bengali_tts_service.Tests.Keys.{
  plain_crypto, key_gateway, key_world, memory_keys, first_key, user_of, find_key,
}

abbrev bearer : JsString → Option JsString
bearer key = some (js "Bearer " ++ key)

lets_in :
    api_key_auth key_gateway plain_crypto (bearer (js "sk_live_abcdefghij")) key_world
    ≡ (ok rahim, key_world)
unfolding api_key_auth starts_with js looks_like_api_key trim find_key text_eq hash_api_key
    hashes_match
lets_in = refl

api_key_auth_sound_example :
    IsBearer key_gateway plain_crypto memory_keys
      (bearer (js "sk_live_abcdefghij"))
      key_world
      key_world
      rahim
api_key_auth_sound_example =
    api_key_auth_sound key_gateway plain_crypto memory_keys (bearer (js "sk_live_abcdefghij"))
      key_world key_world rahim lets_in

solid : IsSolid (js "abcdefghij")
unfolding js is_space
solid = (refl, (refl, (refl, (refl, (refl, (refl, (refl, (refl, (refl, (refl, tt))))))))))

generated_key_authenticates_example :
    api_key_auth key_gateway plain_crypto
      (some (js "Bearer " ++ (generate_api_key plain_crypto (js "abcdefghij")).key))
      key_world
    ≡ (ok rahim, key_world)
unfolding find_key text_eq js generate_api_key hash_api_key
generated_key_authenticates_example =
    generated_key_authenticates key_gateway plain_crypto (js "abcdefghij") key_world first_key
      (user_of (js "rahim")) solid refl refl refl

abbrev credentials : Option JsString
credentials = some (js "Basic rahim@example.com:a:b")

who : basic_auth key_gateway plain_crypto credentials key_world ≡ (ok rahim, key_world)
unfolding basic_auth starts_with js check_credentials text_eq split_credentials index_of
who = refl

abbrev revoked_world : World key_gateway
revoked_world = (revoke_key key_gateway plain_crypto (js "key-0") credentials key_world).1

abbrev no_content : Reply (Unit {0})
no_content = record { status = 204; body = tt }

revokes :
    revoke_key key_gateway plain_crypto (js "key-0") credentials key_world
    ≡ (ok no_content, revoked_world)
unfolding revoke_key basic_auth starts_with js check_credentials text_eq split_credentials index_of
revokes = refl

still_in :
    api_key_auth key_gateway plain_crypto (bearer (js "sk_live_klmnopqrst")) revoked_world
    ≡ (ok rahim, revoked_world)
unfolding api_key_auth starts_with js looks_like_api_key trim find_key revoke_key basic_auth
    check_credentials text_eq split_credentials index_of hash_api_key hashes_match
still_in = refl

revoked_never_authenticates_example :
    (used : IsBearer key_gateway plain_crypto memory_keys
      (bearer (js "sk_live_klmnopqrst"))
      revoked_world
      revoked_world
      rahim)
    × ¬ ((used.row.id ≡ js "key-0") × (used.row.user_id ≡ rahim.id))
revoked_never_authenticates_example =
    revoked_never_authenticates key_gateway plain_crypto memory_keys (js "key-0") credentials
      (bearer (js "sk_live_klmnopqrst")) rahim rahim key_world revoked_world revoked_world
      no_content who revokes still_in

passes :
    check_credentials key_gateway plain_crypto (js "rahim@example.com") (js "a:b") key_world
    ≡ (ok rahim, key_world)
unfolding check_credentials text_eq js
passes = refl

check_credentials_sound_example :
    (u : User) × (key_gateway.prisma.user_find_unique (js "rahim@example.com") key_world.db
      ≡ ok (some u))
    × (plain_crypto.bcrypt_compare (js "a:b") u.password_hash ≡ ok true)
    × (authed u ≡ rahim)
    × (key_world ≡ key_world)
check_credentials_sound_example =
    check_credentials_sound key_gateway plain_crypto (js "rahim@example.com") (js "a:b") key_world
      key_world rahim passes
