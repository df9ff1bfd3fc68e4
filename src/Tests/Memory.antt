-- ===== src/Tests/Memory.antt =====
-- Clients that keep their state in memory: they show that what is asked of the real ones can hold.
use bengali_tts_service.Base.{
  ◌≡◌, refl, sym, ap, ◌∙◌, true, false, Option, none, some, List, [], ◌∷◌, ◌++◌, if◌then◌else◌,
  length, take, count_if, Bool-cases, inl, inr, All, ◌≢◌,
}
use mathlib.Core.Path.{subst}
use mathlib.Core.List.{Memᴰ}
use bengali_tts_service.Text.{JsString, js, text_eq}
use bengali_tts_service.Text.Laws.{text_eq_refl}
use bengali_tts_service.Text.Decimal.{decimal}
use bengali_tts_service.Errors.{Result, ok, thrown, Thrown, prisma_known_request, other}
use bengali_tts_service.Schema.{Job, queued}
use bengali_tts_service.Deps.Prisma.{
  Prisma, JobTable, JobWhere, JobCreate, anywhere, meets, without,
}
use bengali_tts_service.Jobs.History.Cursor.{after}

-- The first row that meets a `where`.
unfoldable pub find_row : JobWhere → List Job → Option Job
find_row w [] = none
find_row w (j ∷ l) = if meets w j then some j else find_row w l

unfoldable pub rows_of : JobWhere → List Job → List Job
rows_of w [] = []
rows_of w (j ∷ l) = if meets w j then j ∷ rows_of w l else rows_of w l

abbrev new_row : JobCreate → List Job → Job
new_row c l = record {
  id = js "job-" ++ decimal (length l);
  user_id = c.user_id;
  status = queued;
  input_text = c.input_text;
  idempotency_key = c.idempotency_key;
  audio_key = none;
  error_code = none;
  error_message = none;
  created_at = length l;
  started_at = none;
  completed_at = none;
}

-- The table, newest row first. The key that a row with a key would repeat is not taken again.
abbrev taken : JobCreate → List Job → Option Job
taken c l = elim c.idempotency_key [
  | none ↦ none
  | some key ↦ find_row (record anywhere { user_id = some c.user_id; idempotency_key = some key }) l
]

-- Nor is the id of another row.
abbrev same_id : JobCreate → List Job → Option Job
same_id c l = find_row (record anywhere { id = some (new_row c l).id }) l

abbrev create_unless : JobCreate → List Job → Option Job → Option Job → Result Job × List Job
create_unless c l none none = (ok (new_row c l), new_row c l ∷ l)
create_unless c l none (some j) = (thrown (prisma_known_request (js "P2002")), l)
create_unless c l (some j) o = (thrown (prisma_known_request (js "P2002")), l)

abbrev create : JobCreate → List Job → Result Job × List Job
create c l = create_unless c l (same_id c l) (taken c l)

abbrev pub memory_prisma : Prisma
memory_prisma = record {
  Db = List Job;
  job_find_first = λ w l. ok (find_row w l);
  job_find_unique = λ id l. ok (find_row (record anywhere { id = some id }) l);
  job_find_many = λ q l.
      ok (take q.count (after q.cursor (rows_of (record anywhere { user_id = some q.user_id }) l)));
  job_count = λ w l. ok (count_if (meets w) l);
  job_create = create;
  job_delete = λ id l. (ok tt, without id l);
  advisory_lock = λ u l. (ok tt, l);
  commit = λ l. (ok tt, l);
  rollback = λ before now. before;
  user_find_unique = λ e l. ok none;
  user_create = λ e h l. (thrown (other (js "unused")), l);
  api_key_find_unique = λ h l. ok none;
  api_key_create = λ u h p l. (thrown (other (js "unused")), l);
  api_key_find_many = λ u l. ok [];
  api_key_revoke_many = λ i u l. (ok 0, l);
  api_key_touch = λ i l. l;
}

some_inj : {x j : Job} → some x ≡ some j → x ≡ j
some_inj h = cc

pub find_row-meets :
    (w : JobWhere) (l : List Job) (j : Job) → find_row w l ≡ some j → Memᴰ j l × (meets w j ≡ true)
unfolding find_row
find_row-meets w [] j h = cc
find_row-meets w (x ∷ l) j h = elim (Bool-cases (meets w x)) [
  | inl p ↦
      let e : x ≡ j = some_inj (rw p at h) in
      (Memᴰ.head (sym e), subst (λ (y : Job). meets w y ≡ true) e p)
  | inr p ↦ let (m, q) = find_row-meets w l j (rw p at h) in (Memᴰ.tail m, q)
]

pub find_row-none :
    (w : JobWhere) (l : List Job) (j : Job) → find_row w l ≡ none → Memᴰ j l → meets w j ≡ false
unfolding find_row
find_row-none w [] j h m = elim m [ ]
find_row-none w (x ∷ l) j h (Memᴰ.head e) = elim (Bool-cases (meets w x)) [
  | inl p ↦ cc (rw p at h)
  | inr p ↦ rw (e, p)
]
find_row-none w (x ∷ l) j h (Memᴰ.tail m) = elim (Bool-cases (meets w x)) [
  | inl p ↦ cc (rw p at h)
  | inr p ↦ find_row-none w l j (rw p at h) m
]

pub ok_inj : {A : Type 0} {a b : A} → ok a ≡ ok b → a ≡ b
ok_inj h = cc

new_id :
    (id : JsString) (l : List Job)
    → find_row (record anywhere { id = some id }) l ≡ none
    → All (λ other. id ≢ other.id) l
unfolding find_row
new_id id [] h = tt
new_id id (x ∷ l) h = elim (Bool-cases (text_eq id x.id)) [
  | inl p ↦ cc (rw p at h)
  | inr p ↦ (
    λ e. cc (subst (λ (u : JsString). text_eq id u ≡ true) e (text_eq_refl id), p),
    new_id id l (rw p at h),
  )
]

create_is :
    (c : JobCreate) (l l' : List Job) (j : Job) (same o : Option Job)
    → create_unless c l same o ≡ (ok j, l')
    → (l' ≡ new_row c l ∷ l) × (new_row c l ≡ j) × (same ≡ none)
create_is c l l' j none none h = (
  sym (ap (λ (r : Result Job × List Job). r.1) h),
  ok_inj (ap (λ (r : Result Job × List Job). r.0) h),
  refl,
)
create_is c l l' j none (some k) h = cc
create_is c l l' j (some k) o h = cc

pub create_fails :
    (c : JobCreate) (l l' : List Job) (t : Thrown) (same o : Option Job)
    → create_unless c l same o ≡ (thrown t, l')
    → l' ≡ l
create_fails c l l' t none none h = cc
create_fails c l l' t none (some j) h = sym (ap (λ (r : Result Job × List Job). r.1) h)
create_fails c l l' t (some j) o h = sym (ap (λ (r : Result Job × List Job). r.1) h)

pub created :
    (c : JobCreate) (l l' : List Job) (j : Job)
    → create c l ≡ (ok j, l')
    → (l' ≡ j ∷ l)
      × (j.user_id ≡ c.user_id)
      × (j.input_text ≡ c.input_text)
      × (j.idempotency_key ≡ c.idempotency_key)
      × (j.status ≡ queued)
      × All (λ other. j.id ≢ other.id) l
created c l l' j h =
    let (e, f, g) = create_is c l l' j (same_id c l) (taken c l) h in
    (
      e ∙ ap (λ (x : Job). x ∷ l) f,
      sym (ap (λ (x : Job). x.user_id) f),
      sym (ap (λ (x : Job). x.input_text) f),
      sym (ap (λ (x : Job). x.idempotency_key) f),
      sym (ap (λ (x : Job). x.status) f),
      subst (λ (x : Job). All (λ other. x.id ≢ other.id) l) f (new_id (new_row c l).id l g),
    )

pub delete_ok :
    (id : JsString) (l l' : List Job) (t : Thrown)
    → ¬ (memory_prisma.job_delete id l ≡ (thrown t, l'))
delete_ok id l l' t h = cc

abbrev pub memory_table : JobTable memory_prisma
memory_table = record {
  rows = λ l. l;
  find_first_meets = λ w l j h. find_row-meets w l j (ok_inj h);
  find_first_none = λ w l j h m. find_row-none w l j (ok_inj h) m;
  count_lem = λ w l n h. sym (ok_inj h);
  create_lem = created;
  create_thrown = λ c l l' t h. create_fails c l l' t (same_id c l) (taken c l) h;
  delete_thrown = λ id l l' t h. absurd (delete_ok id l l' t h);
  delete_lem = λ id l l' h. sym (ap (λ (r : Result (Unit {0}) × List Job). r.1) h);
  lock_rows = λ u l. refl;
  commit_rows = λ l h. refl;
  rollback_rows = λ b a. refl;
}
