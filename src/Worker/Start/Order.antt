-- ===== src/Worker/Start/Order.antt =====
-- worker/src/worker/main.py: nothing is consumed before everything that a job needs is there.
use mathlib.Core.List.{Memᴰ}
use bengali_tts_service.Base.{
  Bool, true, false, ◌≡◌, ◌≢◌, refl, List, sym, ap, ◌∙◌, ◌⊎◌, inl, inr, [], ◌∷◌,
}
use bengali_tts_service.Errors.{Result, ok, thrown, Thrown}
use bengali_tts_service.Config.{Env}
use bengali_tts_service.Worker.Settings.{Settings, load_settings}
use bengali_tts_service.Worker.Start.{
  Machine, Engine, Consumer, Deed, pinged, connected, consuming, stopped_consuming, disconnected,
  Doing, acting, quietly, ◌>>=◌, shut_down, create_engine, consumer, await_shutdown, run_worker,
}

module _ {Seconds A B : Type 0} (x : Deed Seconds) (f : A → Doing Seconds B) where
  -- What is done after a part that does nothing, and after a part that does something else.
  after_quiet : (r : Result A) → Memᴰ x (quietly r >>= f).1 → (a : A) × (r ≡ ok a) × Memᴰ x (f a).1
  after_quiet (ok a) m = (a, refl, m)
  after_quiet (thrown t) m = elim m [ ]

  after_deed :
      (d : Deed Seconds) (r : Result A)
      → x ≢ d
      → Memᴰ x (acting d r >>= f).1
      → (a : A) × (r ≡ ok a) × Memᴰ x (f a).1
  after_deed d (ok a) n (Memᴰ.head e) = absurd (n e)
  after_deed d (ok a) n (Memᴰ.tail m) = (a, refl, m)
  after_deed d (thrown t) n m = elim m [ ]

consuming_inj : {Seconds : Type 0} {a b : Consumer Seconds} → consuming a ≡ consuming b → a ≡ b
consuming_inj e = cc

-- What is done after the consumption has begun: nothing without a signal, and after one the end of the
-- consumption and then the end of the connection; or nothing, where the first of these raises.
abbrev pub IsEnd : {Seconds : Type 0} → Bool → Result (Unit {0}) → List (Deed Seconds) → Type 0
IsEnd false closed last = last ≡ []
IsEnd true closed last =
    ((closed ≡ ok tt) × (last ≡ stopped_consuming ∷ disconnected ∷ []))
    ⊎ ((t : Thrown) × (closed ≡ thrown t) × (last ≡ []))

-- What a consumer is made from: it takes one job at a time from the queue of the settings.
pub record IsMadeFrom {Seconds : Type 0} (settings : Settings Seconds) (engine : Engine Seconds)
    (o : Consumer Seconds) : Type 0 where
  pub takes_from : (o.queue_name ≡ settings.queue_name) × (o.connection ≡ settings.redis_url)
  pub one_at_a_time : o.concurrency ≡ 1
  pub writes_to :
      (o.processor.conn ≡ settings.database_url) × (o.processor.bucket ≡ settings.s3_bucket)
  pub limits : o.processor.timeout_seconds ≡ settings.job_timeout_seconds
  pub speaks : o.processor.engine ≡ engine

module _ (machine : Machine) where
  -- How a process has gone that consumes.
  pub record Consumes (env : Env) (signalled : Bool) (o : Consumer machine.Seconds) : Type 0 where
    pub settings : Settings machine.Seconds
    pub engine : Engine machine.Seconds
    pub loaded : load_settings machine.float env ≡ ok settings
    pub answers : machine.ping settings.redis_url ≡ ok tt
    pub connects : machine.connect settings.database_url ≡ ok tt
    pub made : create_engine machine settings ≡ ok engine
    pub is_consumer : o ≡ consumer machine settings engine
    pub made_from : IsMadeFrom settings engine o
    pub last : List (Deed machine.Seconds)
    pub ends : IsEnd signalled machine.close_worker last
    pub deeds :
        (run_worker machine env signalled).1
        ≡ pinged settings.redis_url ∷ connected settings.database_url ∷ consuming o ∷ last

  only_one :
      (o : Consumer machine.Seconds) (signalled : Bool)
      → ¬ (Memᴰ (consuming o) (await_shutdown machine signalled).1)
  only_one o false m = elim m [ ]
  only_one o true m =
      let (_, _, m') =
        after_deed (consuming o) (λ _. acting disconnected (ok shut_down)) stopped_consuming
          machine.close_worker (λ e. cc) m in
      last m'
    where
      last : ¬ (Memᴰ (consuming o) (disconnected ∷ []))
      last (Memᴰ.head e) = cc
      last (Memᴰ.tail m) = elim m [ ]

  is_this :
      (o c : Consumer machine.Seconds) (signalled : Bool)
      → Memᴰ (consuming o) (consuming c ∷ (await_shutdown machine signalled).1)
      → o ≡ c
  is_this o c signalled (Memᴰ.head e) = consuming_inj e
  is_this o c signalled (Memᴰ.tail m) = absurd (only_one o signalled m)

  pub deeds_of :
      (env : Env) (signalled : Bool) (settings : Settings machine.Seconds)
      (engine : Engine machine.Seconds)
      → load_settings machine.float env ≡ ok settings
      → machine.ping settings.redis_url ≡ ok tt
      → machine.connect settings.database_url ≡ ok tt
      → create_engine machine settings ≡ ok engine
      → (run_worker machine env signalled).1
        ≡ pinged settings.redis_url
          ∷ connected settings.database_url
          ∷ consuming (consumer machine settings engine)
          ∷ (await_shutdown machine signalled).1
  unfolding run_worker
  deeds_of env signalled settings engine loaded answers connects made =
      rw (loaded, answers, connects, made) refl

  consumer-IsMadeFrom :
      (settings : Settings machine.Seconds) (engine : Engine machine.Seconds)
      (o : Consumer machine.Seconds)
      → o ≡ consumer machine settings engine
      → IsMadeFrom settings engine o
  consumer-IsMadeFrom settings engine o e = record {
    takes_from = rw e (refl, refl);
    one_at_a_time = rw e refl;
    writes_to = rw e (refl, refl);
    limits = rw e refl;
    speaks = rw e refl;
  }

  await_shutdown-IsEnd :
      (signalled : Bool) (r : Result (Unit {0}))
      → machine.close_worker ≡ r
      → IsEnd signalled machine.close_worker (await_shutdown machine signalled).1
  await_shutdown-IsEnd false r e = refl
  await_shutdown-IsEnd true (ok _) e = rw e (inl (refl, refl))
  await_shutdown-IsEnd true (thrown t) e = rw e (inr (t, refl, refl))

  -- What a worker that consumes jobs has done is, in this order: the ping that Redis has answered, its
  -- connection to the database, the start of one consumer, made from its settings and its engine and
  -- taking one job at a time, and then nothing more, or after a signal the end of the consumption,
  -- unless that raises, and only then the end of the connection.
  pub run-Consumes :
      (env : Env) (signalled : Bool) (o : Consumer machine.Seconds)
      → Memᴰ (consuming o) (run_worker machine env signalled).1
      → Consumes env signalled o
  unfolding run_worker
  run-Consumes env signalled o m =
      let (settings, loaded, m1) =
        after_quiet (consuming o) _ (load_settings machine.float env) m in
      let (_, answers, m2) =
        after_deed (consuming o) _ (pinged settings.redis_url) (machine.ping settings.redis_url)
          (λ e. cc) m1 in
      let (_, connects, m3) =
        after_deed (consuming o) _ (connected settings.database_url)
          (machine.connect settings.database_url) (λ e. cc) m2 in
      let (engine, made, m4) = after_quiet (consuming o) _ (create_engine machine settings) m3 in
      let e = is_this o (consumer machine settings engine) signalled m4 in
      record {
        settings = settings;
        engine = engine;
        loaded = loaded;
        answers = answers;
        connects = connects;
        made = made;
        is_consumer = e;
        made_from = consumer-IsMadeFrom settings engine o e;
        last = (await_shutdown machine signalled).1;
        ends = await_shutdown-IsEnd signalled machine.close_worker refl;
        deeds =
            deeds_of env signalled settings engine loaded answers connects made
            ∙ ap
                (λ c.
                  pinged settings.redis_url
                  ∷ connected settings.database_url
                  ∷ consuming c
                  ∷ (await_shutdown machine signalled).1)
                (sym e);
      }
