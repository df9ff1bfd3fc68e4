-- ===== src/Tests/Reads.antt =====
-- Reads of the gateway in memory.
use bengali_tts_service.Base.{
  ℕ, zero, suc, ◌++◌, ◌≡◌, ◌≢◌, refl, sym, ap, ◌∙◌, true, false, Option, none, some, List, [], ◌∷◌,
  arith,
}
use bengali_tts_service.Schema.{active, Job}
use bengali_tts_service.Jobs.Shared.{JobView, Reply, find_owned_job}
use bengali_tts_service.Jobs.History.Cursor.{IsKeyed}
use bengali_tts_service.Jobs.History.Moving.{ids, shown_ids, walk_over_changes}
use bengali_tts_service.Jobs.History.Walk.{IsHistory, walk}
use bengali_tts_service.Jobs.Stream.{watch_job}
use bengali_tts_service.Jobs.Read.OwnRows.{HasKey, SameOwn, reads_own_rows}
use mathlib.Core.List.{Memᴰ}
use mathlib.Core.Path.{subst}
use bengali_tts_service.Text.Laws.{text_eq_refl}
use bengali_tts_service.Text.Decimal.{decimal}
use bengali_tts_service.Storage.{get_audio_object, get_once}
use bengali_tts_service.Text.{JsString, js, text_eq}
use bengali_tts_service.Errors.{ok, run_effect}
use bengali_tts_service.Http.{Loose, one, require_param}
use bengali_tts_service.Deps.Action.{World}
use bengali_tts_service.Jobs.Read.{get_job, get_audio, Recording, recording_key}
use bengali_tts_service.Jobs.Read.Audio.{IsServed, get_audio_serves}
use bengali_tts_service.Tests.Memory.{memory_table, find_row, rows_of}
use bengali_tts_service.Tests.Setting.{gateway, rahim, done_job, waiting_job, start}

abbrev param_of : JsString → Option Loose
param_of id = some (one id)

abbrev history : List Job
history = waiting_job ∷ done_job ∷ []

pub apart : (s t : JsString) → text_eq s t ≡ false → s ≢ t
apart s t f e = cc (subst (λ (u : JsString). text_eq s u ≡ true) e (text_eq_refl s), f)

distinct : js "job-1" ≢ js "job-0"
unfolding js text_eq
distinct = apart (js "job-1") (js "job-0") refl

abbrev wav : Reply Recording
wav = record {
  status = 200;
  body = record {
    content_type = js "audio/wav";
    content_length = some (js "4");
    bytes = 82 ∷ 73 ∷ 70 ∷ 70 ∷ [];
  };
}

serves : get_audio gateway rahim (param_of (js "job-0")) start ≡ (ok wav, start)
unfolding get_audio find_owned_job require_param js find_row text_eq recording_key get_audio_object
    get_once run_effect decimal
serves = refl

get_audio_serves_example : IsServed gateway rahim (param_of (js "job-0")) start wav
get_audio_serves_example =
    get_audio_serves gateway rahim (param_of (js "job-0")) start start wav serves

-- Rahim's job alone, and beside one of Karim's.
abbrev foreign_job : Job
foreign_job = record done_job { id = js "job-9"; user_id = js "karim" }

abbrev alone : World gateway
alone = record start { db = done_job ∷ [] }

abbrev beside : World gateway
beside = record start { db = foreign_job ∷ done_job ∷ [] }

ids_differ : foreign_job.id ≢ done_job.id
unfolding js text_eq
ids_differ = apart (js "job-9") (js "job-0") refl

owners_differ : foreign_job.user_id ≢ rahim.id
unfolding js text_eq
owners_differ = apart (js "karim") (js "rahim") refl

beside-HasKey : HasKey gateway memory_table rahim beside.db
beside-HasKey j k (Memᴰ.head d) (Memᴰ.head e) same = d ∙ sym e
beside-HasKey j k (Memᴰ.head d) (Memᴰ.tail (Memᴰ.head e)) same =
    absurd (ids_differ (ap (λ (x : Job). x.id) (sym d) ∙ (same ∙ ap (λ (x : Job). x.id) e)))
beside-HasKey j k (Memᴰ.head d) (Memᴰ.tail (Memᴰ.tail m)) same = elim m [ ]
beside-HasKey j k (Memᴰ.tail (Memᴰ.head d)) (Memᴰ.head e) same =
    absurd (ids_differ (ap (λ (x : Job). x.id) (sym e) ∙ (sym same ∙ ap (λ (x : Job). x.id) d)))
beside-HasKey j k (Memᴰ.tail (Memᴰ.head d)) (Memᴰ.tail (Memᴰ.head e)) same = d ∙ sym e
beside-HasKey j k (Memᴰ.tail (Memᴰ.head d)) (Memᴰ.tail (Memᴰ.tail m)) same = elim m [ ]
beside-HasKey j k (Memᴰ.tail (Memᴰ.tail m)) n same = elim m [ ]

mine_only : (j : Job) → j.user_id ≡ rahim.id → Memᴰ j beside.db → Memᴰ j alone.db
mine_only j mine (Memᴰ.head e) = absurd (owners_differ (ap (λ (x : Job). x.user_id) (sym e) ∙ mine))
mine_only j mine (Memᴰ.tail m) = m

same_own : SameOwn gateway memory_table rahim alone.db beside.db
same_own j mine = (λ m. Memᴰ.tail m, λ m. mine_only j mine m)

reads_own_rows_example :
    ((get_job gateway rahim (param_of (js "job-0")) alone).0
      ≡ (get_job gateway rahim (param_of (js "job-0")) beside).0)
    × ((get_audio gateway rahim (param_of (js "job-0")) alone).0
        ≡ (get_audio gateway rahim (param_of (js "job-0")) beside).0)
    × ((watch_job gateway rahim (param_of (js "job-0")) alone).0
        ≡ (watch_job gateway rahim (param_of (js "job-0")) beside).0)
unfolding require_param js find_row text_eq
reads_own_rows_example =
    reads_own_rows gateway memory_table rahim (param_of (js "job-0")) (js "job-0") alone beside
      (some done_job) (some done_job) refl same_own beside-HasKey refl refl refl

-- The history changes after the first page: a job comes in front, and a worker begins with one.
abbrev newer_at : ℕ → List Job
newer_at zero = record waiting_job { id = js "job-2" } ∷ []
newer_at (suc zero) = record waiting_job { id = js "job-2" } ∷ []
newer_at (suc (suc n)) = []

abbrev history_at : ℕ → List Job
history_at zero = record waiting_job { status = active } ∷ done_job ∷ []
history_at (suc zero) = record waiting_job { status = active } ∷ done_job ∷ []
history_at (suc (suc n)) = history

abbrev state_at : ℕ → World gateway
state_at n = record start { db = newer_at n ++ history_at n }

answers_at : (n : ℕ) → IsHistory gateway (state_at n).db (js "rahim") (newer_at n ++ history_at n)
unfolding rows_of text_eq js
answers_at zero count cursor = refl
answers_at (suc zero) count cursor = refl
answers_at (suc (suc n)) count cursor = refl

new_id : (js "job-2" ≢ js "job-1") × (js "job-2" ≢ js "job-0")
unfolding js text_eq
new_id = (apart (js "job-2") (js "job-1") refl, apart (js "job-2") (js "job-0") refl)

state_at-IsKeyed : (n : ℕ) → IsKeyed (newer_at n ++ history_at n)
state_at-IsKeyed zero = ((new_id.0, (new_id.1, tt)), ((distinct, tt), (tt, tt)))
state_at-IsKeyed (suc zero) = ((new_id.0, (new_id.1, tt)), ((distinct, tt), (tt, tt)))
state_at-IsKeyed (suc (suc n)) = ((distinct, tt), (tt, tt))

same_at : (n : ℕ) → ids (history_at n) ≡ ids history
same_at zero = refl
same_at (suc zero) = refl
same_at (suc (suc n)) = refl

walk_over_changes_example :
    (views : List JobView) × (walk gateway rahim 1 state_at 3 none ≡ some views)
    × (shown_ids views ≡ ids history)
walk_over_changes_example =
    walk_over_changes gateway rahim 1 state_at newer_at history_at (ids history) answers_at
      state_at-IsKeyed same_at (omega arith) refl
