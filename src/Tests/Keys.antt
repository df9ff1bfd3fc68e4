-- ===== src/Tests/Keys.antt =====
-- A table of API keys in memory, with functions that stand for the cryptography.
use bengali_tts_service.Base.{
  ℕ, ◌≡◌, sym, ap, ◌∙◌, Bool-cases, inl, inr, Option, none, some, List, [], ◌∷◌, ◌++◌, map,
  count_if, if◌then◌else◌,
}
use mathlib.Core.List.{Memᴰ}
use bengali_tts_service.Text.{JsString, js, text_eq}
use bengali_tts_service.Text.Laws.{text_eq_sound}
use bengali_tts_service.Errors.{Result, ok, thrown, other}
use bengali_tts_service.Schema.{ApiKey, User}
use bengali_tts_service.Deps.Prisma.{Prisma}
use bengali_tts_service.Deps.Crypto.{Crypto, KeyTable, to_revoke, revoke_at}
use bengali_tts_service.Deps.Action.{AppDeps, World}
use bengali_tts_service.Tests.Memory.{ok_inj}
use bengali_tts_service.Tests.Setting.{gateway}

abbrev pub plain_crypto : Crypto
plain_crypto = record {
  sha256_hex = λ s. s;
  hex_bytes = λ s. s;
  base64_text = λ s. s;
  bcrypt_hash = λ s rounds. ok s;
  bcrypt_compare = λ s hash. ok (text_eq s hash);
}

unfoldable pub find_key : JsString → List ApiKey → Option ApiKey
find_key hash [] = none
find_key hash (k ∷ l) = if text_eq k.key_hash hash then some k else find_key hash l

abbrev pub user_of : JsString → User
user_of id = record {
  id = id;
  email = id ++ js "@example.com";
  password_hash = js "a:b";
  created_at = 0;
}

abbrev pub with_user : Option ApiKey → Option (ApiKey × User)
with_user none = none
with_user (some k) = some (k, user_of k.user_id)

abbrev pub key_prisma : Prisma
key_prisma = record {
  Db = List ApiKey;
  job_find_first = λ w l. ok none;
  job_find_unique = λ id l. ok none;
  job_find_many = λ q l. ok [];
  job_count = λ w l. ok 0;
  job_create = λ c l. (thrown (other (js "no jobs")), l);
  job_delete = λ id l. (ok tt, l);
  advisory_lock = λ u l. (ok tt, l);
  commit = λ l. (ok tt, l);
  rollback = λ before now. before;
  user_find_unique =
      λ e l. ok (if text_eq e (js "rahim@example.com") then some (user_of (js "rahim")) else none);
  user_create = λ e h l. (thrown (other (js "no users")), l);
  api_key_find_unique = λ h l. ok (with_user (find_key h l));
  api_key_create = λ u h p l. (thrown (other (js "no more keys")), l);
  api_key_find_many = λ u l. ok l;
  api_key_revoke_many = λ id u l. (ok (count_if (to_revoke id u) l), map (revoke_at 7 id u) l);
  api_key_touch = λ id l. l;
}

abbrev pub key_gateway : AppDeps
key_gateway = record gateway { prisma = key_prisma }

abbrev both : ApiKey → User → Option (ApiKey × User)
both k u = some (k, u)

same_both : (x k : ApiKey) (v u : User) → both x v ≡ both k u → (x ≡ k) × (v ≡ u)
same_both x k v u h = (cc, cc)

pub found_key :
    (hash : JsString) (l : List ApiKey) (k : ApiKey) (u : User)
    → with_user (find_key hash l) ≡ some (k, u)
    → Memᴰ k l × (k.key_hash ≡ hash) × (k.user_id ≡ u.id)
unfolding find_key
found_key hash [] k u h = cc
found_key hash (x ∷ l) k u h = elim (Bool-cases (text_eq x.key_hash hash)) [
  | inl hit ↦
      let (same, owner) = same_both x k (user_of x.user_id) u (rw hit at h) in
      (
        Memᴰ.head (sym same),
        ap (λ (y : ApiKey). y.key_hash) (sym same) ∙ text_eq_sound x.key_hash hash hit,
        ap (λ (y : ApiKey). y.user_id) (sym same) ∙ ap (λ (y : User). y.id) owner,
      )
  | inr miss ↦ let (m, q, o) = found_key hash l k u (rw miss at h) in (Memᴰ.tail m, q, o)
]

abbrev pub memory_keys : KeyTable key_prisma
memory_keys = record {
  keys = λ l. l;
  find_unique_lem = λ hash l k u h. found_key hash l k u (ok_inj h);
  revoke_lem = λ id u l l' n h. (
    7,
    sym (ap (λ (r : Result ℕ × List ApiKey). r.1) h),
    sym (ok_inj (ap (λ (r : Result ℕ × List ApiKey). r.0) h)),
  );
}

abbrev pub first_key : ApiKey
first_key = record {
  id = js "key-0";
  user_id = js "rahim";
  key_hash = js "sk_live_abcdefghij";
  key_prefix = js "sk_live_abcdefgh";
  created_at = 0;
  last_used_at = none;
  revoked_at = none;
}

abbrev pub second_key : ApiKey
second_key = record first_key { id = js "key-1"; key_hash = js "sk_live_klmnopqrst" }

abbrev pub key_world : World key_gateway
key_world = record {
  db = first_key ∷ second_key ∷ [];
  redis = λ key. none;
  queue = [];
  s3 = [];
  rejections = record { rate_limit = 0; pending_cap = 0; queue_full = 0 };
}
