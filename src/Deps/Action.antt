-- ===== src/Deps/Action.antt =====
-- The bundle of clients, the state that they and the gateway's counters are in, and a handler's
-- asynchronous code: it changes the state, and returns or throws. What was done before a throw
-- stays done.
use bengali_tts_service.Base.{ℕ, ◌≡◌, refl, ap, ◌⊎◌, inl, inr}
use bengali_tts_service.Errors.{Result, ok, thrown, Thrown, Exit, run_effect}
use bengali_tts_service.Config.{Config}
use bengali_tts_service.Deps.Prisma.{Prisma}
use bengali_tts_service.Deps.Clients.{RedisClient, QueueClient, S3Client, EffectRuntime, Schemas}

pub record AppDeps : Type 1 where
  pub config : Config
  pub prisma : Prisma
  pub redis : RedisClient
  pub queue : QueueClient
  pub s3 : S3Client
  pub effects : EffectRuntime
  pub schemas : Schemas

-- The counter `tts_gate_rejections_total`, per label.
pub record Rejections : Type 0 where
  pub rate_limit : ℕ
  pub pending_cap : ℕ
  pub queue_full : ℕ

pub record World (deps : AppDeps) : Type 0 where
  pub db : deps.prisma.Db
  pub redis : deps.redis.Redis
  pub queue : deps.queue.Queue
  pub s3 : deps.s3.S3
  pub rejections : Rejections

abbrev pub Act : AppDeps → Type 0 → Type 0
Act deps A = World deps → Result A × World deps

module _ {deps : AppDeps} {A : Type 0} where
  abbrev pub pure : A → Act deps A
  pure a w = (ok a, w)

  abbrev pub raise : Thrown → Act deps A
  raise t w = (thrown t, w)

  abbrev pub lift : Result A → Act deps A
  lift r w = (r, w)

  -- A read of the database, and a write to it.
  abbrev pub query : (deps.prisma.Db → Result A) → Act deps A
  query f w = (f w.db, w)

  abbrev pub update : (deps.prisma.Db → Result A × deps.prisma.Db) → Act deps A
  update f w = let (r, d) = f w.db in (r, record w { db = d })

  -- An Effect that asks for the queue.
  abbrev pub with_queue : (deps.queue.Queue → Exit A × deps.queue.Queue) → Act deps A
  with_queue f w = let (x, q) = f w.queue in (run_effect x, record w { queue = q })

  -- An Effect that asks for object storage.
  abbrev pub with_storage : (deps.s3.S3 → Exit A × deps.s3.S3) → Act deps A
  with_storage f w = let (x, s) = f w.s3 in (run_effect x, record w { s3 = s })

  -- `try { m } catch (err) { h }`
  abbrev pub catching : Act deps A → (Thrown → Act deps A) → Act deps A
  catching m h w = let (r, w') = m w in elim r [ ok a ↦ (ok a, w') | thrown t ↦ h t w' ]

abbrev pub count_rejection : {deps : AppDeps} → (Rejections → Rejections) → Act deps (Unit {0})
count_rejection f w = (ok tt, record w { rejections = f w.rejections })

module _ {deps : AppDeps} {A B : Type 0} where
  infixl 5 ◌>>=◌ ◌>>◌
  abbrev pub ◌>>=◌ : Act deps A → (A → Act deps B) → Act deps B
  ◌>>=◌ m f w = let (r, w') = m w in elim r [ ok a ↦ f a w' | thrown t ↦ (thrown t, w') ]

  abbrev pub ◌>>◌ : Act deps A → Act deps B → Act deps B
  m >> k = m >>= λ _. k

-- What follows a first part that has ended.
abbrev pub continue :
    {deps : AppDeps} {A B : Type 0}
    → (A → Act deps B)
    → Result A × World deps
    → Result B × World deps
continue f (r, v) = elim r [ ok a ↦ f a v | thrown t ↦ (thrown t, v) ]

continue-eq-ok :
    {deps : AppDeps} {A B : Type 0} (f : A → Act deps B) (r : Result A) (v w' : World deps) {b : B}
    → continue f (r, v) ≡ (ok b, w')
    → (a : A) × (r ≡ ok a) × (f a v ≡ (ok b, w'))
continue-eq-ok f (ok a) v w' h = (a, refl, h)
continue-eq-ok f (thrown t) v w' h = cc

-- A sequence that returns has a first part that returns.
pub bind-eq-ok :
    (deps : AppDeps) {A B : Type 0} (m : Act deps A) (f : A → Act deps B) (w w' : World deps)
    {b : B}
    → (m >>= f) w ≡ (ok b, w')
    → (a : A) × ((m w).0 ≡ ok a) × (f a (m w).1 ≡ (ok b, w'))
bind-eq-ok deps m f w w' h = continue-eq-ok f (m w).0 (m w).1 w' h

-- What follows a first part that has returned.
pub bind-ok :
    (deps : AppDeps) {A B : Type 0} (m : Act deps A) (f : A → Act deps B) (w w' : World deps)
    {a : A}
    → m w ≡ (ok a, w')
    → (m >>= f) w ≡ f a w'
bind-ok deps m f w w' h = ap (λ p. continue f p) h

-- A sequence whose first part throws.
pub bind-thrown :
    (deps : AppDeps) {A B : Type 0} (m : Act deps A) (f : A → Act deps B) (w w' : World deps)
    {t : Thrown}
    → m w ≡ (thrown t, w')
    → (m >>= f) w ≡ (thrown t, w')
bind-thrown deps m f w w' h = ap (λ p. continue f p) h

-- A throw does not return.
pub raise-ne-ok :
    (deps : AppDeps) {A : Type 0} (t : Thrown) (w w' : World deps) {a : A}
    → ¬ (raise {deps = deps} t w ≡ (ok a, w'))
raise-ne-ok deps t w w' h = cc

-- What follows a `try` that has ended.
abbrev pub caught :
    {deps : AppDeps} {A : Type 0}
    → (Thrown → Act deps A)
    → Result A × World deps
    → Result A × World deps
caught h (r, v) = elim r [ ok a ↦ (ok a, v) | thrown t ↦ h t v ]

caught-eq-ok :
    {deps : AppDeps} {A : Type 0} (h : Thrown → Act deps A) (r : Result A) (v w' : World deps)
    {a : A}
    → caught h (r, v) ≡ (ok a, w')
    → (lift r v ≡ (ok a, w')) ⊎ ((t : Thrown) × (r ≡ thrown t) × (h t v ≡ (ok a, w')))
caught-eq-ok h (ok b) v w' e = inl e
caught-eq-ok h (thrown t) v w' e = inr (t, refl, e)

-- A `try` whose `catch` throws has returned itself if it returns.
pub catching-returns :
    (deps : AppDeps) {A : Type 0} (m : Act deps A) (h : Thrown → Act deps A)
    → ((t : Thrown) (u u' : World deps) (a : A) → ¬ (h t u ≡ (ok a, u')))
    → (w w' : World deps) {a : A} → catching m h w ≡ (ok a, w')
    → m w ≡ (ok a, w')
catching-returns deps m h throws w w' e = elim (caught-eq-ok h (m w).0 (m w).1 w' e) [
  | inl done ↦ done
  | inr (t, _, k) ↦ absurd (throws t (m w).1 w' _ k)
]

-- A `try` that returns has returned itself, or its `catch` has.
pub catching-eq-ok :
    (deps : AppDeps) {A : Type 0} (m : Act deps A) (h : Thrown → Act deps A) (w w' : World deps)
    {a : A}
    → catching m h w ≡ (ok a, w')
    → (m w ≡ (ok a, w')) ⊎ ((t : Thrown) × ((m w).0 ≡ thrown t) × (h t (m w).1 ≡ (ok a, w')))
catching-eq-ok deps m h w w' e = caught-eq-ok h (m w).0 (m w).1 w' e
