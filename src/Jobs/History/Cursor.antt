-- ===== src/Jobs/History/Cursor.antt =====
-- Where a cursor stands in a list of jobs.
use bengali_tts_service.Base.{
  ℕ, zero, suc, ◌+◌, ◌≤◌, ◌<◌, ◌≡◌, refl, ap, ◌≢◌, Option, none, some, List, [], ◌∷◌, ◌++◌, map,
  arith, if◌then◌else◌, length, take, drop, All, lt→ltb, le→ltb,
}
use native.Mathlib.Numerals.{add-one}
use bengali_tts_service.Jobs.Shared.{serialize_job}
use bengali_tts_service.Text.{JsString, text_eq}
use bengali_tts_service.Text.Laws.{text_eq_refl, text_eq_ne}
use bengali_tts_service.Schema.{Job}
use bengali_tts_service.Jobs.History.{last_id, page_of}

-- What follows the row with the cursor's id; nothing where no row has it.
unfoldable pub after : Option JsString → List Job → List Job
after none l = l
after (some c) [] = []
after (some c) (job ∷ l) = if text_eq job.id c then l else after (some c) l

-- No two rows have one id.
abbrev pub IsKeyed : List Job → Type 0
IsKeyed [] = Unit
IsKeyed (job ∷ l) = All (λ other. job.id ≢ other.id) l × IsKeyed l

All-at :
    (id : JsString) (pre : List Job) (job : Job) (post : List Job)
    → All (λ other. id ≢ other.id) (pre ++ job ∷ post)
    → id ≢ job.id
All-at id [] job post h = h.0
All-at id (p ∷ pre) job post h = All-at id pre job post h.1

-- The cursor of a row positions right behind it.
pub after-append :
    (pre : List Job) (job : Job) (post : List Job)
    → IsKeyed (pre ++ job ∷ post)
    → after (some job.id) (pre ++ job ∷ post) ≡ post
unfolding after
after-append [] job post h = rw (text_eq_refl job.id)
after-append (p ∷ pre) job post h =
    rw (text_eq_ne p.id job.id (All-at p.id pre job post h.0)) (after-append pre job post h.1)

-- A page that is not the last one ends in the row whose id is its cursor.
pub record EndsAt (limit : ℕ) (l : List Job) : Type 0 where
  pub before : List Job
  pub end : Job
  pub cursor : last_id (take limit l) ≡ some end.id
  pub split : l ≡ before ++ end ∷ drop limit l

pub page_end : (limit : ℕ) (l : List Job) → 0 < limit → limit ≤ length l → EndsAt limit l
unfolding last_id
page_end limit [] h k = absurd (omega arith)
page_end zero (x ∷ l) h k = absurd (omega arith)
page_end (suc zero) (x ∷ l) h k = record { before = []; end = x; cursor = refl; split = refl }
page_end (suc (suc n)) (x ∷ []) h k = absurd (omega arith)
page_end (suc (suc n)) (x ∷ y ∷ l) h k =
    let e = page_end (suc n) (y ∷ l) (omega arith) (omega arith) in
    record {
      before = x ∷ e.before;
      end = e.end;
      cursor = e.cursor;
      split = ap (λ r. x ∷ r) e.split;
    }

take-take : (n : ℕ) (l : List Job) → take n (take (suc n) l) ≡ take n l
take-take zero l = refl
take-take (suc n) [] = refl
take-take (suc n) (x ∷ l) = ap (λ r. x ∷ r) (take-take n l)

take_all : (n : ℕ) (l : List Job) → length l ≤ n → take n l ≡ l
take_all zero [] h = refl
take_all zero (x ∷ l) h = absurd (omega arith)
take_all (suc n) [] h = refl
take_all (suc n) (x ∷ l) h = ap (λ r. x ∷ r) (take_all n l (omega arith))

length-take_more : (n : ℕ) (l : List Job) → n < length l → n < length (take (suc n) l)
length-take_more n [] h = absurd (omega arith)
length-take_more zero (x ∷ l) h = omega arith
length-take_more (suc n) (x ∷ l) h = omega (arith, length-take_more n l (omega arith))

pub length-drop-lt : (n : ℕ) (l : List Job) → 0 < n → n ≤ length l → length (drop n l) < length l
length-drop-lt zero l h k = absurd (omega arith)
length-drop-lt (suc n) [] h k = absurd (omega arith)
length-drop-lt (suc zero) (x ∷ l) h k = omega arith
length-drop-lt (suc (suc n)) (x ∷ l) h k =
    omega (arith, length-drop-lt (suc n) l (omega arith) (omega arith))

pub take-append-drop : (n : ℕ) (l : List Job) → take n l ++ drop n l ≡ l
take-append-drop zero l = refl
take-append-drop (suc n) [] = refl
take-append-drop (suc n) (x ∷ l) = ap (λ r. x ∷ r) (take-append-drop n l)

-- One row more than the page holds tells whether there is a next page.
pub page_of_last :
    (limit : ℕ) (l : List Job)
    → length l ≤ limit
    → page_of limit (take (limit + 1) l) ≡ record { jobs = map serialize_job l; next_cursor = none }
unfolding page_of
page_of_last limit l h =
    rw (take_all (limit + 1) l (omega arith)) (rw (take_all limit l h, le→ltb limit (length l) h))

pub page_of_more :
    (limit : ℕ) (l : List Job) (e : EndsAt limit l)
    → limit < length l
    → page_of limit (take (limit + 1) l)
      ≡ record { jobs = map serialize_job (take limit l); next_cursor = some e.end.id }
unfolding page_of
page_of_more limit l e h = rw add-one (
    rw (take-take limit l, lt→ltb limit (length (take (suc limit) l)) (length-take_more limit l h))
      (rw e.cursor))
