-- ===== src/Jobs/History/Moving.antt =====
-- A client that follows the cursors of a history that changes from page to page: newer jobs come in
-- front, and workers go on with the ones that are there.
use bengali_tts_service.Base.{
  ℕ, zero, suc, ◌+◌, ◌<◌, ◌≡◌, refl, sym, ap, ◌∙◌, Option, none, some, List, [], ◌∷◌, ◌++◌, map,
  arith, length, take, drop,
}
use mathlib.Core.Path.{subst}
use mathlib.Core.List.{append_assoc, map-append}
use native.Mathlib.Decide.{dec_lt}
use bengali_tts_service.Text.{JsString}
use bengali_tts_service.Schema.{Job}
use bengali_tts_service.Deps.Action.{AppDeps, World}
use bengali_tts_service.Jobs.Shared.{AuthedUser, JobView, serialize_job}
use bengali_tts_service.Jobs.History.Cursor.{
  after, IsKeyed, EndsAt, page_end, after-append, page_of_last, page_of_more, length-drop-lt,
  take-append-drop,
}
use bengali_tts_service.Jobs.History.Walk.{IsHistory, walk, page_read}

abbrev pub ids : List Job → List JsString
ids l = map (λ (j : Job). j.id) l

abbrev pub shown_ids : List JobView → List JsString
shown_ids l = map (λ (v : JobView). v.id) l

-- Where a list's ids split, the list does.
record SplitsAt (c : JsString) (post : List JsString) (l : List Job) : Type 0 where
  before : List Job
  row : Job
  rest : List Job
  split : l ≡ before ++ row ∷ rest
  is_cursor : row.id ≡ c
  follow : ids rest ≡ post

head_is : {a b : JsString} {k l : List JsString} → a ∷ k ≡ b ∷ l → (a ≡ b) × (k ≡ l)
head_is h = (cc, cc)

nil-ne-cons : (a : JsString) (l : List JsString) → ¬ ([] ≡ a ∷ l)
nil-ne-cons a l h = cc

split_ids :
    (pre : List JsString) (c : JsString) (post : List JsString) (l : List Job)
    → ids l ≡ pre ++ c ∷ post
    → SplitsAt c post l
split_ids [] c post [] h = absurd (nil-ne-cons c post h)
split_ids (p ∷ pre) c post [] h = absurd (nil-ne-cons p (pre ++ c ∷ post) h)
split_ids [] c post (j ∷ l) h =
    let (e, f) = head_is h in
    record { before = []; row = j; rest = l; split = refl; is_cursor = e; follow = f }
split_ids (p ∷ pre) c post (j ∷ l) h =
    let s = split_ids pre c post l (head_is h).1 in
    record {
      before = j ∷ s.before;
      row = s.row;
      rest = s.rest;
      split = ap (λ r. j ∷ r) s.split;
      is_cursor = s.is_cursor;
      follow = s.follow;
    }

-- Behind a cursor stand the ids that stand behind it in the history, whatever came in front.
ids-after :
    (newer l : List Job) (pre : List JsString) (c : JsString) (post : List JsString)
    → IsKeyed (newer ++ l)
    → ids l ≡ pre ++ c ∷ post
    → ids (after (some c) (newer ++ l)) ≡ post
ids-after newer l pre c post keyed h =
    let s = split_ids pre c post l h in
    let e : newer ++ l ≡ (newer ++ s.before) ++ s.row ∷ s.rest =
      ap (λ r. newer ++ r) s.split ∙ sym (append_assoc newer s.before _) in
    let stands : after (some s.row.id) (newer ++ l) ≡ s.rest =
      subst (λ (r : List Job). IsKeyed r → after (some s.row.id) r ≡ s.rest) (sym e)
        (after-append (newer ++ s.before) s.row s.rest) keyed in
    ap (λ (d : JsString). ids (after (some d) (newer ++ l))) (sym s.is_cursor)
    ∙ (ap (λ r. ids r) stands ∙ s.follow)

shown_ids-serialize : (l : List Job) → shown_ids (map serialize_job l) ≡ ids l
unfolding serialize_job
shown_ids-serialize [] = refl
shown_ids-serialize (j ∷ l) = ap (λ r. j.id ∷ r) (shown_ids-serialize l)

length-ids : (l : List Job) → length (ids l) ≡ length l
length-ids [] = refl
length-ids (j ∷ l) = omega (arith, length-ids l)

-- What a page of the rows `r` contributes in front of what the later pages have shown.
joined :
    (limit : ℕ) (r : List Job) (views : List JobView)
    → shown_ids views ≡ ids (drop limit r)
    → shown_ids (map serialize_job (take limit r) ++ views) ≡ ids r
joined limit r views h =
    map-append (λ (v : JobView). v.id) (map serialize_job (take limit r)) views
    ∙ (ap (λ l. shown_ids (map serialize_job (take limit r)) ++ l) h
        ∙ (ap (λ l. l ++ ids (drop limit r)) (shown_ids-serialize (take limit r))
            ∙ (sym (map-append (λ (j : Job). j.id) (take limit r) (drop limit r))
                ∙ ap (λ l. ids l) (take-append-drop limit r))))

regroup :
    (pre : List JsString) (before : List Job) (row : Job) (rest : List Job)
    → pre ++ ids (before ++ row ∷ rest) ≡ (pre ++ ids before) ++ row.id ∷ ids rest
regroup pre before row rest =
    ap (λ l. pre ++ l) (map-append (λ (j : Job). j.id) before (row ∷ rest))
    ∙ sym (append_assoc pre (ids before) (row.id ∷ ids rest))

module _ (deps : AppDeps) (user : AuthedUser) (limit : ℕ) (at : ℕ → World deps)
    (newer lists : ℕ → List Job) (history : List JsString)
    (answers : (i : ℕ) → IsHistory deps (at i).db user.id (newer i ++ lists i))
    (keyed : (i : ℕ) → IsKeyed (newer i ++ lists i)) (same : (i : ℕ) → ids (lists i) ≡ history)
    (some_per_page : 0 < limit) where
  -- The rest of a walk, which has these ids to show.
  abbrev Shows : ℕ → Option JsString → List JsString → Type 0
  Shows fuel cursor rest =
      (views : List JobView) × (walk deps user limit at fuel cursor ≡ some views)
      × (shown_ids views ≡ rest)

  -- The last page, and a page with a cursor.
  Shows-page_last :
      (fuel : ℕ) (cursor : Option JsString) (r : List Job)
      → after cursor (newer fuel ++ lists fuel) ≡ r
      → length r < limit + 1
      → Shows (suc fuel) cursor (ids r)
  unfolding walk
  Shows-page_last fuel cursor r a h = (
    map serialize_job r,
    rw
        (
          page_read deps user limit (at fuel) (newer fuel ++ lists fuel) cursor (answers fuel),
          a,
          page_of_last limit r (omega arith),
        )
        refl,
    shown_ids-serialize r,
  )

  Shows-page_more :
      (fuel : ℕ) (cursor : Option JsString) (r : List Job) (p : EndsAt limit r)
      → after cursor (newer fuel ++ lists fuel) ≡ r
      → limit < length r
      → Shows fuel (some p.end.id) (ids (drop limit r))
      → Shows (suc fuel) cursor (ids r)
  unfolding walk
  Shows-page_more fuel cursor r p a h (views, later, shown) = (
    map serialize_job (take limit r) ++ views,
    rw
        (
          page_read deps user limit (at fuel) (newer fuel ++ lists fuel) cursor (answers fuel),
          a,
          page_of_more limit r p h,
        )
        (rw later refl),
    joined limit r views shown,
  )

  walk_from :
      (fuel : ℕ) (cursor : Option JsString) (r : List Job) (pre : List JsString)
      → history ≡ pre ++ ids r
      → after cursor (newer fuel ++ lists fuel) ≡ r
      → length r < suc fuel
      → Shows (suc fuel) cursor (ids r)
  walk_from zero cursor r pre e a h = Shows-page_last zero cursor r a (omega (arith, some_per_page))
  walk_from (suc fuel) cursor r pre e a h = elim (dec_lt limit (length r)) [
    | no last ↦ Shows-page_last (suc fuel) cursor r a (omega arith)
    | yes more ↦
        let p = page_end limit r some_per_page (omega arith) in
        let rest = ids (drop limit r) in
        let e' : history ≡ (pre ++ ids p.before) ++ p.end.id ∷ rest =
          e ∙ (ap (λ l. pre ++ ids l) p.split ∙ regroup pre p.before p.end (drop limit r)) in
        let next = after (some p.end.id) (newer fuel ++ lists fuel) in
        let stands : ids next ≡ rest =
          ids-after (newer fuel) (lists fuel) (pre ++ ids p.before) p.end.id rest (keyed fuel)
            (same fuel ∙ e') in
        let shorter : length next ≡ length (drop limit r) =
          sym (length-ids next) ∙ (ap (λ l. length l) stands ∙ length-ids (drop limit r)) in
        let ih =
          walk_from fuel (some p.end.id) next ((pre ++ ids p.before) ++ p.end.id ∷ [])
            (e'
              ∙ (ap (λ l. (pre ++ ids p.before) ++ p.end.id ∷ l) (sym stands)
                  ∙ sym (append_assoc (pre ++ ids p.before) (p.end.id ∷ []) (ids next))))
            refl (omega (arith, shorter, length-drop-lt limit r some_per_page (omega arith))) in
        Shows-page_more (suc fuel) cursor r p a more
          (subst (λ (l : List JsString). Shows (suc fuel) (some p.end.id) l) stands ih)
  ]

  -- Where the history that a client began to walk over changes from page to page, newer jobs coming in
  -- front and rows being written to, while each page is answered from the list as it is then, with
  -- distinct ids: the client is shown every job of the beginning exactly once, in order, and none of
  -- those that came later, for any positive page size, and is done after as many pages as there are
  -- jobs, and one, at most.
  pub walk_over_changes : newer (length history) ≡ [] → Shows (suc (length history)) none history
  unfolding after
  walk_over_changes none_yet =
      let n = length history in
      let rows : newer n ++ lists n ≡ lists n = ap (λ l. l ++ lists n) none_yet in
      let all : ids (newer n ++ lists n) ≡ history = ap (λ l. ids l) rows ∙ same n in
      let long : length (newer n ++ lists n) ≡ n =
        sym (length-ids (newer n ++ lists n)) ∙ ap (λ (l : List JsString). length l) all in
      subst (λ (l : List JsString). Shows (suc n) none l) all
        (walk_from n none (newer n ++ lists n) [] (sym all) refl (omega (arith, long)))
