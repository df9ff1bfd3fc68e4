-- ===== src/Accounts/Revocation.antt =====
-- A revoked key is dead.
use bengali_tts_service.Base.{
  ℕ, ◌≡◌, ap, ◌∙◌, false, Bool-cases, inl, inr, Option, none, List, [], ◌∷◌, map, arith,
}
use mathlib.Core.List.{Memᴰ}
use mathlib.Core.Path.{subst}
use bengali_tts_service.Text.{JsString}
use bengali_tts_service.Text.Laws.{text_eq_refl}
use bengali_tts_service.Errors.{Result, ok}
use bengali_tts_service.Schema.{ApiKey}
use bengali_tts_service.Deps.Crypto.{Crypto, KeyTable, to_revoke, revoke_at}
use bengali_tts_service.Deps.Action.{AppDeps, World, Act, update, bind-eq-ok, ◌>>=◌, continue}
use bengali_tts_service.Jobs.Shared.{AuthedUser, Reply}
use bengali_tts_service.Auth.{basic_auth, api_key_auth}
use bengali_tts_service.Auth.Bearer.{IsBearer, api_key_auth_sound}
use bengali_tts_service.Accounts.{revoke_key, revoked_or_missing}

-- A row of the revoked table that is not revoked is not one of those that were asked for.
Mem-revoked :
    (now : ℕ) (id user_id : JsString) (l : List ApiKey) (k : ApiKey)
    → Memᴰ k (map (revoke_at now id user_id) l)
    → k.revoked_at ≡ none
    → to_revoke id user_id k ≡ false
Mem-revoked now id user_id [] k m valid = elim m [ ]
Mem-revoked now id user_id (x ∷ l) k (Memᴰ.tail m) valid = Mem-revoked now id user_id l k m valid
Mem-revoked now id user_id (x ∷ l) k (Memᴰ.head e) valid =
    elim (Bool-cases (to_revoke id user_id x)) [
      | inl hit ↦ cc (ap (λ (y : ApiKey). y.revoked_at) (rw hit at e), valid)
      | inr other ↦ ap (to_revoke id user_id) (rw other at e) ∙ other
    ]

own_key :
    (id user_id : JsString) (k : ApiKey)
    → k.revoked_at ≡ none
    → to_revoke id user_id k ≡ false
    → ¬ ((k.id ≡ id) × (k.user_id ≡ user_id))
own_key id user_id k valid other (e, f) =
    ground (arith, text_eq_refl k.id, text_eq_refl k.user_id, e, f, valid, other)

from_state :
    {deps : AppDeps} {A B : Type 0} (f : A → Act deps B) (a : A) (p : Result A × World deps)
    (w : World deps) {r : Result B × World deps}
    → p ≡ (ok a, w)
    → continue f p ≡ r
    → f a w ≡ r
from_state {deps} f a p w {r} e h = subst (λ (q : Result _ × World deps). continue f q ≡ r) e h

revoked_or_missing-keeps :
    (deps : AppDeps) (crypto : Crypto) (n : ℕ) (v w' : World deps) (reply : Reply (Unit {0}))
    → revoked_or_missing deps crypto n v ≡ (ok reply, w')
    → v ≡ w'
revoked_or_missing-keeps deps crypto n v w' reply h = ground arith

-- With a key table as documented, after a revocation of an id that was answered to its owner,
-- whoever is let in by a key in the state that it left has another row than the one of that id and
-- owner.
pub revoked_never_authenticates :
    (deps : AppDeps) (crypto : Crypto) (kt : KeyTable deps.prisma) (id : JsString)
    (credentials header : Option JsString) (owner user : AuthedUser) (w w' w'' : World deps)
    (reply : Reply (Unit {0}))
    → basic_auth deps crypto credentials w ≡ (ok owner, w)
    → revoke_key deps crypto id credentials w ≡ (ok reply, w')
    → api_key_auth deps crypto header w' ≡ (ok user, w'')
    → (used : IsBearer deps crypto kt header w' w'' user) × ¬ (
        (used.row.id ≡ id) × (used.row.user_id ≡ owner.id))
unfolding revoke_key
revoked_never_authenticates deps crypto kt id credentials header owner user w w' w'' reply who h
      let_in =
    let used = api_key_auth_sound deps crypto kt header w' w'' user let_in in
    let revoke : Act deps ℕ = update (deps.prisma.api_key_revoke_many id owner.id) in
    let act : AuthedUser → Act deps (Reply (Unit {0})) = λ user.
      update (deps.prisma.api_key_revoke_many id user.id) >>= revoked_or_missing deps crypto in
    let h1 = from_state act owner (basic_auth deps crypto credentials w) w who h in
    let (n, counted, h2) = bind-eq-ok deps revoke (revoked_or_missing deps crypto) w w' h1 in
    let same : (revoke w).1 ≡ w' =
      revoked_or_missing-keeps deps crypto n (revoke w).1 w' reply h2 in
    let (now, keys, _) = kt.revoke_lem id owner.id w.db w'.db n (
      ap (λ (r : Result ℕ). (r, (revoke w).1.db)) counted
      ∙ ap (λ (v : World deps). (ok n, v.db)) same) in
    let listed : Memᴰ used.row (map (revoke_at now id owner.id) (kt.keys w.db)) =
      subst (λ (l : List ApiKey). Memᴰ used.row l) keys used.listed in
    (
      used,
      own_key id owner.id used.row used.valid
          (Mem-revoked now id owner.id (kt.keys w.db) used.row listed used.valid),
    )
