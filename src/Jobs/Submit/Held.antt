-- ===== src/Jobs/Submit/Held.antt =====
-- The rows that the lookup by a user's Idempotency-Key can find.
use mathlib.Core.List.{Memᴰ, append-nil}
use bengali_tts_service.Base.{
  ◌≡◌, refl, sym, ◌∙◌, true, false, some, List, [], ◌∷◌, ◌++◌, All, map, arith, Mem-image,
}
use bengali_tts_service.Text.{JsString}
use bengali_tts_service.Text.Laws.{text_eq_refl}
use bengali_tts_service.Schema.{Job}
use bengali_tts_service.Deps.Prisma.{meets}
use bengali_tts_service.Jobs.Submit.{keyed}
use bengali_tts_service.Worker.{
  where_open, Writer, mark_active, mark_queued, mark_completed, mark_failed, set, write, write_all,
}

pub true-ne-false : ¬ (true ≡ false)
true-ne-false e = cc

-- A row that is read by the key is the one with this id and this text.
abbrev pub IsThe : JsString → JsString → JsString → JsString → Job → Type 0
IsThe user_id key id text j =
    meets (keyed user_id key) j ≡ true → (j.id ≡ id) × (j.input_text ≡ text)

-- The key is held by one row of the table, with this id and this text.
pub record IsHeld (user_id key id text : JsString) (l : List Job) : Type 0 where
  pub only : All (IsThe user_id key id text) l
  pub row : Job
  pub listed : Memᴰ row l
  pub holds : meets (keyed user_id key) row ≡ true

module _ (user_id key id text : JsString) where
  -- A worker's write keeps what a row is known by.
  write-keeps :
      (target : JsString) (writer : Writer) (j : Job)
      → let j' = where_open target (set writer) j in
        (meets (keyed user_id key) j' ≡ meets (keyed user_id key) j)
        × (j'.id ≡ j.id)
        × (j'.input_text ≡ j.input_text)
  unfolding set
  write-keeps target (mark_active now) j = ground arith
  write-keeps target mark_queued j = ground arith
  write-keeps target (mark_completed k now) j = ground arith
  write-keeps target (mark_failed code message now) j = ground arith

  IsThe-write :
      (target : JsString) (writer : Writer) (j : Job)
      → IsThe user_id key id text j
      → IsThe user_id key id text (where_open target (set writer) j)
  IsThe-write target writer j h m =
      let (same, same_id, same_text) = write-keeps target writer j in
      let (e, f) = h (sym same ∙ m) in (same_id ∙ e, same_text ∙ f)

  only-write :
      (target : JsString) (writer : Writer) (l : List Job)
      → All (IsThe user_id key id text) l
      → All (IsThe user_id key id text) (map (where_open target (set writer)) l)
  only-write target writer [] h = tt
  only-write target writer (j ∷ l) h =
      (IsThe-write target writer j h.0, only-write target writer l h.1)

  pub IsHeld-write_all :
      (writes : List (JsString × Writer)) (l : List Job)
      → IsHeld user_id key id text l
      → IsHeld user_id key id text (write_all writes l)
  unfolding write_all write
  IsHeld-write_all [] l h = h
  IsHeld-write_all ((target, writer) ∷ rest) l h =
      IsHeld-write_all rest (write target writer l) (record {
        only = only-write target writer l h.only;
        row = where_open target (set writer) h.row;
        listed = Mem-image (where_open target (set writer)) h.row l h.listed;
        holds = (write-keeps target writer h.row).0 ∙ h.holds;
      })

  pub only-append :
      (newer l : List Job)
      → All (λ j. meets (keyed user_id key) j ≡ false) newer
      → All (IsThe user_id key id text) l
      → All (IsThe user_id key id text) (newer ++ l)
  only-append [] l none_of h = h
  only-append (j ∷ newer) l none_of h =
      (λ m. absurd (true-ne-false (sym m ∙ none_of.0)), only-append newer l none_of.1 h)

  nothing_else :
      (l : List Job)
      → All (λ j. meets (keyed user_id key) j ≡ false) l
      → All (IsThe user_id key id text) l
  nothing_else l none_of = rw (← append-nil l) (only-append l [] none_of tt)

  -- One new row of the key, in front of rows that do not have it.
  pub IsHeld-new :
      (job : Job) (l : List Job)
      → job.user_id ≡ user_id
      → job.idempotency_key ≡ some key
      → job.id ≡ id
      → job.input_text ≡ text
      → All (λ j. meets (keyed user_id key) j ≡ false) l
      → IsHeld user_id key id text (job ∷ l)
  IsHeld-new job l owner keyed_by is_id is_text others = record {
    only = (λ _. (is_id, is_text), nothing_else l others);
    row = job;
    listed = Memᴰ.head refl;
    holds = rw (owner, keyed_by) (ground (arith, text_eq_refl user_id, text_eq_refl key));
  }
