-- ===== src/Deps/Crypto.antt =====
-- The functions of the cryptography libraries that the gateway calls, and the table of keys.
use bengali_tts_service.Base.{
  ℕ, ◌≡◌, Bool, false, ◌&&◌, none, some, List, map, if◌then◌else◌, count_if,
}
use mathlib.Core.List.{Memᴰ}
use bengali_tts_service.Text.{JsString, text_eq}
use bengali_tts_service.Errors.{Result, ok}
use bengali_tts_service.Schema.{ApiKey, User}
use bengali_tts_service.Deps.Prisma.{Prisma}

-- `createHash('sha256').update(key).digest('hex')`, `Buffer.from(s, 'hex')`, `Buffer.from(s,
-- 'base64').toString('utf8')`, `bcrypt.hash` and `bcrypt.compare`.
pub record Crypto : Type 0 where
  pub sha256_hex : JsString → JsString
  pub hex_bytes : JsString → List ℕ
  pub base64_text : JsString → JsString
  pub bcrypt_hash : JsString → ℕ → Result JsString
  pub bcrypt_compare : JsString → JsString → Result Bool

-- Whether a key is one of those that a revocation asks for.
abbrev pub to_revoke : JsString → JsString → ApiKey → Bool
to_revoke id user_id k = elim k.revoked_at [
  | none ↦ text_eq id k.id && text_eq user_id k.user_id
  | some t ↦ false
]

abbrev pub revoke_at : ℕ → JsString → JsString → ApiKey → ApiKey
revoke_at now id user_id k =
    if to_revoke id user_id k then record k { revoked_at = some now } else k

-- The documented behaviour of the calls on API keys, over the rows of their table.
pub record KeyTable (p : Prisma) : Type 0 where
  pub keys : p.Db → List ApiKey
  pub find_unique_lem :
      (hash : JsString) (d : p.Db) (k : ApiKey) (u : User)
      → p.api_key_find_unique hash d ≡ ok (some (k, u))
      → Memᴰ k (keys d) × (k.key_hash ≡ hash) × (k.user_id ≡ u.id)
  pub revoke_lem :
      (id user_id : JsString) (d d' : p.Db) (n : ℕ)
      → p.api_key_revoke_many id user_id d ≡ (ok n, d')
      → (now : ℕ) × (keys d' ≡ map (revoke_at now id user_id) (keys d))
        × (n ≡ count_if (to_revoke id user_id) (keys d))
