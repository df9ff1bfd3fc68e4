-- ===== src/ApiKeys.antt =====
-- gateway/src/lib/api-keys.ts: the form of an API key, and the comparison of hashes.
use bengali_tts_service.Base.{ℕ, ◌+◌, Bool, ◌++◌, length, take}
use bengali_tts_service.Text.{JsString, js, text_eq, starts_with}
use bengali_tts_service.Deps.Crypto.{Crypto}

abbrev pub key_prefix : JsString
key_prefix = js "sk_live_"

abbrev pub display_prefix_length : ℕ
display_prefix_length = length key_prefix + 8

pub record GeneratedApiKey : Type 0 where
  pub key : JsString
  pub key_hash : JsString
  pub key_prefix : JsString

module _ (crypto : Crypto) where
  unfoldable pub hash_api_key : JsString → JsString
  hash_api_key key = crypto.sha256_hex key

  -- The secret is what `randomBytes(32).toString('base64url')` gives.
  unfoldable pub generate_api_key : JsString → GeneratedApiKey
  generate_api_key secret =
      let key = key_prefix ++ secret in
      record { key = key; key_hash = hash_api_key key; key_prefix = take display_prefix_length key }

  -- `timingSafeEqual` compares the bytes; it is asked only where the lengths agree.
  unfoldable pub hashes_match : JsString → JsString → Bool
  hashes_match a b = text_eq (crypto.hex_bytes a) (crypto.hex_bytes b)

unfoldable pub looks_like_api_key : JsString → Bool
looks_like_api_key candidate = starts_with candidate key_prefix
