-- ===== src/Jobs/Submit/Cap/Places.antt =====
-- Where the transactions of submissions can be, and what each statement of them leaves.
use bengali_tts_service.Base.{
  ℕ, ◌≤◌, ◌<◌, ◌≡◌, ◌≢◌, ◌⊎◌, ◌==◌, ==→eq, eq→==, Bool, true, false, refl, sym, ap, ◌∙◌, Bool-cases,
  inl, inr, Option, List, [], ◌∷◌, arith,
}
use mathlib.Core.Path.{subst}
use bengali_tts_service.Text.{JsString, text_eq}
use bengali_tts_service.Text.Laws.{text_eq_sound}
use bengali_tts_service.Errors.{ok}
use bengali_tts_service.Schema.{Job}
use bengali_tts_service.Deps.Prisma.{JobTable, without}
use bengali_tts_service.Deps.Action.{AppDeps, World}
use bengali_tts_service.Jobs.Shared.{AuthedUser}
use bengali_tts_service.Jobs.Submit.{
  pending_of, Gate, takes_lock, counts_pending, reads_depth, gates, run_gate,
}
use bengali_tts_service.Jobs.Submit.Gates.{db-queue_gate, db-pending_gate, pending_gate_open}
use bengali_tts_service.Jobs.Submit.Cap.{
  pending, Session, running, over, Holds, put, HasRoom, IsPlaced, IsAlone, IsSafe,
}

pub pending-without :
    (id user_id : JsString) (l : List Job) → pending user_id (without id l) ≤ pending user_id l
unfolding without
pending-without id user_id [] = omega arith
pending-without id user_id (job ∷ l) = ground (arith, pending-without id user_id l)

-- One more job of a user who had room leaves every user within the cap.
pub one_more :
    (cap : ℕ) (owner user_id : JsString) (job : Job) (l : List Job)
    → job.user_id ≡ owner
    → pending owner l < cap
    → pending user_id l ≤ cap
    → pending user_id (job ∷ l) ≤ cap
one_more cap owner user_id job l is_owner room within =
    elim (Bool-cases (text_eq user_id job.user_id)) [
      | inl same ↦
          let e : user_id ≡ owner = text_eq_sound user_id job.user_id same ∙ is_owner in
          let fits : pending user_id l < cap =
            subst (λ (u : JsString). pending u l < cap) (sym e) room in
          ground arith
      | inr other ↦ ground (arith, other, within)
    ]

-- A job of another user does not count.
pub other_job :
    (user_id : JsString) (job : Job) (l : List Job)
    → user_id ≢ job.user_id
    → pending user_id (job ∷ l) ≤ pending user_id l
other_job user_id job l n = elim (Bool-cases (text_eq user_id job.user_id)) [
  | inl same ↦ absurd (n (text_eq_sound user_id job.user_id same))
  | inr other ↦ ground (arith, other)
]

-- A property of the transactions after one of them has moved.
pub of_put :
    (P : Session → Type 0) (n m : ℕ) (s : Session) (sessions : ℕ → Session)
    → (m ≡ n → P s)
    → (m ≢ n → P (sessions m))
    → P (put n s sessions m)
of_put P n m s sessions here there = elim (Bool-cases (m == n)) [
  | inl e ↦ rw e (here (==→eq m n e))
  | inr e ↦ rw e (there (λ h. differs (m == n) e (eq→== m n h)))
]
  where
    differs : (b : Bool) → b ≡ false → ¬ (b ≡ true)
    differs b e f = cc

held-put :
    (n m : ℕ) (s : Session) (sessions : ℕ → Session)
    → Holds (put n s sessions m)
    → ((m ≡ n) × Holds s) ⊎ Holds (sessions m)
held-put n m s sessions =
    of_put (λ t. Holds t → ((m ≡ n) × Holds s) ⊎ Holds (sessions m)) n m s sessions
      (λ e h. inl (e, h)) (λ _ h. inr h)

module _ (deps : AppDeps) (jt : JobTable deps.prisma) (users : ℕ → AuthedUser)
    (texts : ℕ → JsString) (keys : ℕ → Option JsString) where
  -- The lock stays with one transaction of a user, if who gets it is the only one.
  pub put-IsAlone :
      (n : ℕ) (s : Session) (sessions : ℕ → Session)
      → IsAlone deps jt users texts keys sessions
      → (Holds s → (m : ℕ) → Holds (sessions m) → (users m).id ≡ (users n).id → m ≡ n)
      → IsAlone deps jt users texts keys (put n s sessions)
  put-IsAlone n s sessions alone only m k hm hk same = elim (held-put n m s sessions hm) [
    | inl (em, hs) ↦ elim (held-put n k s sessions hk) [
      | inl (ek, _) ↦ em ∙ sym ek
      | inr there ↦ em ∙ sym (only hs k there (sym same ∙ ap (λ (i : ℕ). (users i).id) em))
    ]
    | inr here ↦ elim (held-put n k s sessions hk) [
      | inl (ek, hs) ↦ only hs m here (same ∙ ap (λ (i : ℕ). (users i).id) ek) ∙ sym ek
      | inr there ↦ alone m k here there same
    ]
  ]

  -- A place is kept where the user of a transaction with the lock has no more unfinished jobs.
  pub IsPlaced-kept :
      (n : ℕ) (d d' : deps.prisma.Db) (s : Session)
      → (Holds s → pending (users n).id (jt.rows d') ≤ pending (users n).id (jt.rows d))
      → IsPlaced deps jt users texts keys n d s
      → IsPlaced deps jt users texts keys n d' s
  IsPlaced-kept n d d' over fewer p = tt
  IsPlaced-kept n d d' (running false left) fewer p = p
  IsPlaced-kept n d d' (running true left) fewer (inl e) = inl e
  IsPlaced-kept n d d' (running true left) fewer (inr (e, room)) =
      inr (e, omega (arith, fewer tt, room))

  abbrev pub Safe : deps.prisma.Db → (ℕ → Session) → Type 0
  Safe = IsSafe deps jt users texts keys

  -- Fewer unfinished jobs are safe.
  pub fewer-IsSafe :
      (d d' : deps.prisma.Db) (sessions : ℕ → Session)
      → ((user_id : JsString) → pending user_id (jt.rows d') ≤ pending user_id (jt.rows d))
      → Safe d sessions
      → Safe d' sessions
  fewer-IsSafe d d' sessions fewer safe = record {
    capped = λ user_id. omega (arith, fewer user_id, safe.capped user_id);
    placed = λ n. IsPlaced-kept n d d' (sessions n) (λ _. fewer (users n).id) (safe.placed n);
    alone = safe.alone;
  }

  pub same-IsSafe :
      (d d' : deps.prisma.Db) (sessions : ℕ → Session)
      → jt.rows d' ≡ jt.rows d
      → Safe d sessions
      → Safe d' sessions
  same-IsSafe d d' sessions e = fewer-IsSafe d d' sessions (λ user_id. rw e (omega arith))

  pub moved-IsSafe :
      (n : ℕ) (s : Session) (d : deps.prisma.Db) (sessions : ℕ → Session)
      → Safe d sessions
      → IsPlaced deps jt users texts keys n d s
      → (Holds s → (m : ℕ) → Holds (sessions m) → (users m).id ≡ (users n).id → m ≡ n)
      → Safe d (put n s sessions)
  moved-IsSafe n s d sessions safe place only = record {
    capped = safe.capped;
    placed = λ m.
        of_put (λ t. IsPlaced deps jt users texts keys m d t) n m s sessions
          (λ e. subst (λ i. IsPlaced deps jt users texts keys i d s) (sym e) place)
          (λ _. safe.placed m);
    alone = put-IsAlone n s sessions safe.alone only;
  }

  pub place_of :
      (n : ℕ) (s : Session) (d : deps.prisma.Db) (sessions : ℕ → Session)
      → sessions n ≡ s
      → Safe d sessions
      → IsPlaced deps jt users texts keys n d s
  place_of n s d sessions here safe =
      subst (λ t. IsPlaced deps jt users texts keys n d t) here (safe.placed n)

  -- The lock is taken before anything else.
  pub after_lock :
      (n : ℕ) (holds : Bool) (left : List Gate) (d : deps.prisma.Db)
      → IsPlaced deps jt users texts keys n d (running holds (takes_lock ∷ left))
      → IsPlaced deps jt users texts keys n d (running true left)
  after_lock n false left d e = inl (tail_inj e)
    where
      tail_inj : takes_lock ∷ left ≡ gates → left ≡ counts_pending ∷ reads_depth ∷ []
      tail_inj h = cc
  after_lock n true left d (inl e) = cc
  after_lock n true left d (inr (inl e, room)) = cc
  after_lock n true left d (inr (inr e, room)) = cc

  -- A gate that lets a transaction on is one that holds the lock, and the count leaves room.
  pub after_gate :
      (n : ℕ) (holds : Bool) (g : Gate) (left : List Gate) (w : World deps)
      → g ≢ takes_lock
      → (run_gate deps (users n) g w).0 ≡ ok tt
      → IsPlaced deps jt users texts keys n w.db (running holds (g ∷ left))
      → IsPlaced deps jt users texts keys n w.db (running holds left)
  after_gate n false g left w other let_on e = absurd (other (first e))
    where
      first : g ∷ left ≡ gates → g ≡ takes_lock
      first h = cc
  after_gate n true takes_lock left w other let_on p = absurd (other refl)
  after_gate n true counts_pending left w other let_on (inl e) =
      let (k, counted, room) = pending_gate_open deps (users n) w let_on in
      let is_count = jt.count_lem (pending_of (users n).id) w.db k counted in
      inr (inl (second e), omega (arith, is_count, room))
    where
      second : counts_pending ∷ left ≡ counts_pending ∷ reads_depth ∷ [] → left ≡ reads_depth ∷ []
      second h = cc
  after_gate n true reads_depth left w other let_on (inl e) = cc
  after_gate n true counts_pending left w other let_on (inr (inl e, room)) = cc
  after_gate n true reads_depth left w other let_on (inr (inl e, room)) = inr (inr (last e), room)
    where
      last : reads_depth ∷ left ≡ reads_depth ∷ [] → left ≡ []
      last h = cc
  after_gate n true g left w other let_on (inr (inr e, room)) = cc

  pub run_gate-rows :
      (user : AuthedUser) (g : Gate) (w : World deps)
      → jt.rows (run_gate deps user g w).1.db ≡ jt.rows w.db
  run_gate-rows user takes_lock w = jt.lock_rows user.id w.db
  run_gate-rows user counts_pending w =
      ap (λ (d : deps.prisma.Db). jt.rows d) (db-pending_gate deps user w)
  run_gate-rows user reads_depth w = ap (λ (d : deps.prisma.Db). jt.rows d) (db-queue_gate deps w)

  -- An insert is made with the lock and with room.
  pub at_insert :
      (n : ℕ) (holds : Bool) (d : deps.prisma.Db)
      → IsPlaced deps jt users texts keys n d (running holds [])
      → (holds ≡ true) × HasRoom deps jt users texts keys n d
  at_insert n false d e = cc
  at_insert n true d (inl e) = cc
  at_insert n true d (inr (_, room)) = (refl, room)
