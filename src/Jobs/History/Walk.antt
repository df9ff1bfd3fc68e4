-- ===== src/Jobs/History/Walk.antt =====
-- A client that follows the cursors.
use bengali_tts_service.Base.{
  ℕ, zero, suc, ◌+◌, ◌<◌, ◌≡◌, refl, sym, ap, ◌∙◌, Option, none, some, List, [], ◌∷◌, ◌++◌, map,
  arith, length, take, drop, All, ◌≢◌,
}
use mathlib.Core.Path.{subst}
use mathlib.Core.Option
use mathlib.Core.List.{append_assoc, map-append}
use native.Mathlib.Decide.{dec_lt}
use bengali_tts_service.Text.{JsString}
use bengali_tts_service.Text.Laws.{text_eq_ne}
use bengali_tts_service.Errors.{Result, ok, thrown}
use bengali_tts_service.Schema.{Job}
use bengali_tts_service.Deps.Clients.{HistoryQuery}
use bengali_tts_service.Deps.Action.{AppDeps, World}
use bengali_tts_service.Jobs.Shared.{AuthedUser, Reply, JobView, serialize_job}
use bengali_tts_service.Jobs.History.{Page, history_page, page_of}
use bengali_tts_service.Jobs.History.Cursor.{
  after, IsKeyed, page_end, after-append, page_of_last, page_of_more, length-drop-lt,
  take-append-drop,
}

-- The database answers each query for a page of the user's jobs from one list of them.
abbrev pub IsHistory : (deps : AppDeps) → deps.prisma.Db → JsString → List Job → Type 0
IsHistory deps d user_id history =
    (count : ℕ) (cursor : Option JsString)
    → deps.prisma.job_find_many (record { user_id = user_id; count = count; cursor = cursor }) d
      ≡ ok (take count (after cursor history))

abbrev pub body_of : Result (Reply Page) → Option Page
body_of (ok reply) = some reply.body
body_of (thrown t) = none

-- What a client does with a page: it stops, or it goes on with the page's cursor.
abbrev pub follow : (JsString → Option (List JobView)) → Page → Option (List JobView)
follow rest page = elim page.next_cursor [
  | none ↦ some page.jobs
  | some c ↦ Option.map (λ l. page.jobs ++ l) (rest c)
]

abbrev pub then_follow : (JsString → Option (List JobView)) → Option Page → Option (List JobView)
then_follow rest none = none
then_follow rest (some page) = follow rest page

-- Page after page, as long as there is a cursor and the fuel lasts; `at` is the state in which the page
-- is read after which so much fuel is left.
module _ (deps : AppDeps) (user : AuthedUser) (limit : ℕ) (at : ℕ → World deps) where
  unfoldable pub walk : ℕ → Option JsString → Option (List JobView)
  walk zero cursor = none
  walk (suc fuel) cursor =
      then_follow (λ c. walk fuel (some c))
        (body_of (history_page deps user (record { limit = limit; cursor = cursor }) (at fuel)).0)

module _ (deps : AppDeps) (user : AuthedUser) (limit : ℕ) (w : World deps) where
  pub page_read :
      (history : List Job) (cursor : Option JsString)
      → IsHistory deps w.db user.id history
      → body_of (history_page deps user (record { limit = limit; cursor = cursor }) w).0
        ≡ some (page_of limit (take (limit + 1) (after cursor history)))
  unfolding history_page
  page_read history cursor answers = rw (answers (limit + 1) cursor)

  module _ (history : List Job) (answers : IsHistory deps w.db user.id history)
      (keyed : IsKeyed history) (some_per_page : 0 < limit) where
    walk_from :
        (fuel : ℕ) (cursor : Option JsString) (pre rest : List Job)
        → history ≡ pre ++ rest
        → after cursor history ≡ rest
        → length rest < fuel
        → walk deps user limit (λ _. w) fuel cursor ≡ some (map serialize_job rest)
    unfolding walk
    walk_from zero cursor pre rest e a h = absurd (omega arith)
    walk_from (suc fuel) cursor pre rest e a h = elim (dec_lt limit (length rest)) [
      | yes more ↦
          let p = page_end limit rest some_per_page (omega arith) in
          let e' : history ≡ (pre ++ p.before) ++ p.end ∷ drop limit rest =
            e ∙ (ap (λ r. pre ++ r) p.split ∙ sym (append_assoc pre p.before _)) in
          let a' : after (some p.end.id) history ≡ drop limit rest =
            subst (λ (l : List Job). IsKeyed l → after (some p.end.id) l ≡ drop limit rest) (sym e')
              (after-append (pre ++ p.before) p.end (drop limit rest)) keyed in
          let ih =
            walk_from fuel (some p.end.id) (pre ++ take limit rest) (drop limit rest)
              (e
                ∙ (ap (λ r. pre ++ r) (sym (take-append-drop limit rest))
                    ∙ sym (append_assoc pre _ _)))
              a' (omega (arith, length-drop-lt limit rest some_per_page (omega arith))) in
          rw (page_read history cursor answers, a, page_of_more limit rest p more)
            (rw ih (
              ap some (
                sym (map-append serialize_job (take limit rest) (drop limit rest))
                ∙ ap (λ l. map serialize_job l) (take-append-drop limit rest))))
      | no last ↦ rw (page_read history cursor answers, a, page_of_last limit rest (omega arith))
    ]

-- Where the database answers each page of the user from one list of jobs with distinct ids, a
-- client that follows the cursors sees every job of the list exactly once, in order, for any
-- positive page size, and is done after as many pages as there are jobs, and one, at most.
pub walk_complete :
    (deps : AppDeps) (user : AuthedUser) (limit : ℕ) (w : World deps) (history : List Job)
    → IsHistory deps w.db user.id history
    → IsKeyed history
    → 0 < limit
    → walk deps user limit (λ _. w) (length history + 1) none ≡ some (map serialize_job history)
unfolding after
walk_complete deps user limit w history answers keyed pos =
    walk_from deps user limit w history answers keyed pos (length history + 1) none [] history refl
      refl (omega arith)

after-newer :
    (c : JsString) (newer history : List Job)
    → All (λ job. job.id ≢ c) newer
    → after (some c) (newer ++ history) ≡ after (some c) history
unfolding after
after-newer c [] history h = refl
after-newer c (job ∷ newer) history h =
    rw (text_eq_ne job.id c h.0) (after-newer c newer history h.1)

-- Where the database answers the user's pages from one list before, and from that list with newer
-- jobs in front of it afterwards, a page behind a cursor that is the id of no newer job is the
-- same before and after.
history_page_stable :
    (deps : AppDeps) (user : AuthedUser) (limit : ℕ) (c : JsString) (w v : World deps)
    (newer history : List Job)
    → IsHistory deps w.db user.id history
    → IsHistory deps v.db user.id (newer ++ history)
    → All (λ job. job.id ≢ c) newer
    → let q : HistoryQuery = record { limit = limit; cursor = some c } in
      (history_page deps user q v).0 ≡ (history_page deps user q w).0
unfolding history_page
history_page_stable deps user limit c w v newer history before now fresh =
    rw (before (limit + 1) (some c), now (limit + 1) (some c), after-newer c newer history fresh)
