-- ===== src/Worker/Start.antt =====
-- worker/src/worker/main.py, with worker/src/worker/storage.py and the choice of the engine in
-- worker/src/worker/engines: the life of the worker's process.
pub mod Order
pub mod Agreement
pub mod Ready
use bengali_tts_service.Base.{ℕ, Bool, true, false, List, [], ◌∷◌, ◌++◌, if◌then◌else◌}
use bengali_tts_service.Text.{JsString, js, text_eq}
use bengali_tts_service.Errors.{Result, ok, thrown, Thrown, other}
use bengali_tts_service.Config.{Env}
use bengali_tts_service.Worker.Settings.{Settings, load_settings}

-- How the move of the model to a device ends: the three exceptions that the constructor catches make
-- it `unmoved`.
pub data Move : Type 0 where
  moved unmoved : Move
  move_raises : Thrown → Move

-- What the process meets: `float` and `repr` of the language, the servers that it connects to, the
-- libraries for speech, and the end of the worker's consumption.
pub record Machine : Type 1 where
  pub Seconds : Type 0
  pub float : JsString → Result Seconds
  pub repr : JsString → JsString
  pub ping : JsString → Result (Unit {0})
  pub connect : JsString → Result (Unit {0})
  pub hf_hub_download : Result (Unit {0})
  pub from_pretrained : Result (Unit {0})
  pub move_to : JsString → Move
  pub has_cuda : Bool
  pub has_mps : Bool
  pub close_worker : Result (Unit {0})

-- The engines: the stand-in with its delay, and the model on its device.
pub data Engine (Seconds : Type 0) : Type 0 where
  fake_engine : Seconds → Engine Seconds
  indic_f5_engine : JsString → Engine Seconds

unfoldable pub resolve_device : Bool → Bool → JsString → JsString
resolve_device has_cuda has_mps requested =
    if text_eq requested (js "auto")
    then (if has_cuda then js "cuda" else if has_mps then js "mps" else js "cpu")
    else requested

pub record S3Settings : Type 0 where
  pub endpoint_url : JsString
  pub aws_access_key_id : JsString
  pub aws_secret_access_key : JsString
  pub region_name : JsString

abbrev pub create_worker_s3 : {Seconds : Type 0} → Settings Seconds → S3Settings
create_worker_s3 settings = record {
  endpoint_url = settings.s3_endpoint;
  aws_access_key_id = settings.s3_access_key;
  aws_secret_access_key = settings.s3_secret_key;
  region_name = js "us-east-1";
}

-- A processor holds its connection, named by its address, its clients and its settings.
pub record Processing (Seconds : Type 0) : Type 0 where
  pub conn : JsString
  pub s3 : S3Settings
  pub engine : Engine Seconds
  pub bucket : JsString
  pub timeout_seconds : Seconds

-- What the queue's worker is made from.
pub record Consumer (Seconds : Type 0) : Type 0 where
  pub queue_name : JsString
  pub connection : JsString
  pub concurrency : ℕ
  pub processor : Processing Seconds

-- What the process has done to the outside.
pub data Deed (Seconds : Type 0) : Type 0 where
  pinged : JsString → Deed Seconds
  connected : JsString → Deed Seconds
  consuming : Consumer Seconds → Deed Seconds
  stopped_consuming : Deed Seconds
  disconnected : Deed Seconds

-- A part of the process: how it ends, and what it has done.
abbrev pub Doing : Type 0 → Type 0 → Type 0
Doing Seconds A = Result A × List (Deed Seconds)

module _ {Seconds A : Type 0} where
  abbrev pub acting : Deed Seconds → Result A → Doing Seconds A
  acting act (ok a) = (ok a, act ∷ [])
  acting act (thrown t) = (thrown t, [])

  abbrev pub quietly : Result A → Doing Seconds A
  quietly r = (r, [])

module _ {Seconds A B : Type 0} where
  infixl 5 ◌>>=◌ ◌>>◌
  abbrev pub ◌>>=◌ : Doing Seconds A → (A → Doing Seconds B) → Doing Seconds B
  ◌>>=◌ m f =
      let (r, acts) = m in
      elim r [ ok a ↦ (let (r', more) = f a in (r', acts ++ more)) | thrown t ↦ (thrown t, acts) ]

  abbrev pub ◌>>◌ : Doing Seconds A → Doing Seconds B → Doing Seconds B
  m >> k = m >>= λ _. k

-- How a process that has not raised stands.
pub data Standing : Type 0 where
  ready shut_down : Standing

module _ (machine : Machine) where
  -- `IndicF5Engine(device)`: the download, the model, and the device.
  abbrev after_move : JsString → Move → Result (Engine machine.Seconds)
  after_move device moved = ok (indic_f5_engine device)
  after_move device unmoved = ok (indic_f5_engine device)
  after_move device (move_raises t) = thrown t

  abbrev load_model :
      JsString → Result (Unit {0}) → Result (Unit {0}) → Result (Engine machine.Seconds)
  load_model requested (thrown t) _ = thrown t
  load_model requested (ok _) (thrown t) = thrown t
  load_model requested (ok _) (ok _) =
      let device = resolve_device machine.has_cuda machine.has_mps requested in
      after_move device (machine.move_to device)

  unfoldable pub create_engine : Settings machine.Seconds → Result (Engine machine.Seconds)
  create_engine settings =
      if text_eq settings.tts_engine (js "fake")
      then ok (fake_engine settings.fake_delay_seconds)
      else if text_eq settings.tts_engine (js "indicf5")
      then load_model settings.tts_device machine.hf_hub_download machine.from_pretrained
      else thrown (other (js "Unknown TTS_ENGINE: " ++ machine.repr settings.tts_engine))

  abbrev pub consumer : Settings machine.Seconds → Engine machine.Seconds → Consumer machine.Seconds
  consumer settings engine = record {
    queue_name = settings.queue_name;
    connection = settings.redis_url;
    concurrency = 1;
    processor = record {
      conn = settings.database_url;
      s3 = create_worker_s3 settings;
      engine = engine;
      bucket = settings.s3_bucket;
      timeout_seconds = settings.job_timeout_seconds;
    };
  }

  -- After the wait for a signal, if one comes.
  abbrev pub await_shutdown : Bool → Doing machine.Seconds Standing
  await_shutdown false = quietly (ok ready)
  await_shutdown true = do
    acting stopped_consuming machine.close_worker
    acting disconnected (ok shut_down)

  -- `run()`; `signalled` says whether a signal comes.
  unfoldable pub run_worker : Env → Bool → Doing machine.Seconds Standing
  run_worker env signalled = do
    settings ← quietly (load_settings machine.float env)
    acting (pinged settings.redis_url) (machine.ping settings.redis_url)
    acting (connected settings.database_url) (machine.connect settings.database_url)
    engine ← quietly (create_engine settings)
    acting (consuming (consumer settings engine)) (ok tt)
    await_shutdown signalled
