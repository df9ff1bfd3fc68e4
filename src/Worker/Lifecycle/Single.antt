-- ===== src/Worker/Lifecycle/Single.antt =====
-- worker/src/worker/db.py and worker/src/worker/processor.py: deliveries only write to rows, so the row
-- of an id stays the only one, and its owner's.
use mathlib.Core.List.{Memᴰ}
use bengali_tts_service.Base.{
  ℕ, ◌+◌, ◌≡◌, sym, ap, ◌∙◌, Bool, true, false, some, List, [], ◌∷◌, arith, leb, Bool-cases, inl,
  inr, Option-cases, All, ◌≢◌, Mem-All, Mem-preimage,
}
use bengali_tts_service.Text.{JsString, text_eq}
use bengali_tts_service.Text.Laws.{text_eq_sound}
use bengali_tts_service.Schema.{Job}
use bengali_tts_service.Worker.{
  is_open, where_open, Writer, mark_active, mark_queued, mark_completed, mark_failed, set, write,
}
use bengali_tts_service.Worker.Processor.{
  Surroundings, Shared, Delivery, Tried, gives, raises, timeout_error, exception, produced,
  unrecoverable, raised_again, skipped, fetch_job, process, conclude, attempt_audio,
}
use bengali_tts_service.Worker.Processor.Settling.{deliver, redelivered}

-- There is one row of an id at most, and it is the user's.
pub record IsSingle (id user_id : JsString) (l : List Job) : Type 0 where
  pub same : (j k : Job) → Memᴰ j l → Memᴰ k l → j.id ≡ id → k.id ≡ id → j ≡ k
  pub owner : (j : Job) → Memᴰ j l → j.id ≡ id → j.user_id ≡ user_id

-- A new row of an id that the table does not have.
pub IsSingle-new :
    (id user_id : JsString) (job : Job) (l : List Job)
    → job.id ≡ id
    → job.user_id ≡ user_id
    → All (λ other. job.id ≢ other.id) l
    → IsSingle id user_id (job ∷ l)
IsSingle-new id user_id job l is_id is_owner others = record { same = same; owner = owner }
  where
    other : (k : Job) → Memᴰ k l → ¬ (k.id ≡ id)
    other k m e = Mem-All (λ x. job.id ≢ x.id) k l others m (is_id ∙ sym e)

    same : (j k : Job) → Memᴰ j (job ∷ l) → Memᴰ k (job ∷ l) → j.id ≡ id → k.id ≡ id → j ≡ k
    same j k (Memᴰ.head d) (Memᴰ.head e) ej ek = d ∙ sym e
    same j k (Memᴰ.head d) (Memᴰ.tail m) ej ek = absurd (other k m ek)
    same j k (Memᴰ.tail m) n ej ek = absurd (other j m ej)

    owner : (j : Job) → Memᴰ j (job ∷ l) → j.id ≡ id → j.user_id ≡ user_id
    owner j (Memᴰ.head e) ej = ap (λ (r : Job). r.user_id) e ∙ is_owner
    owner j (Memᴰ.tail m) ej = absurd (other j m ej)

-- A row of another id in front.
pub IsSingle-cons :
    (id user_id : JsString) (job : Job) (l : List Job)
    → job.id ≢ id
    → IsSingle id user_id l
    → IsSingle id user_id (job ∷ l)
IsSingle-cons id user_id job l other s = record { same = same; owner = owner }
  where
    not_this : (k : Job) → k ≡ job → ¬ (k.id ≡ id)
    not_this k e h = other (ap (λ (r : Job). r.id) (sym e) ∙ h)

    same : (j k : Job) → Memᴰ j (job ∷ l) → Memᴰ k (job ∷ l) → j.id ≡ id → k.id ≡ id → j ≡ k
    same j k (Memᴰ.head d) m ej ek = absurd (not_this j d ej)
    same j k (Memᴰ.tail m) (Memᴰ.head e) ej ek = absurd (not_this k e ek)
    same j k (Memᴰ.tail m) (Memᴰ.tail n) ej ek = s.same j k m n ej ek

    owner : (j : Job) → Memᴰ j (job ∷ l) → j.id ≡ id → j.user_id ≡ user_id
    owner j (Memᴰ.head e) ej = absurd (not_this j e ej)
    owner j (Memᴰ.tail m) ej = s.owner j m ej

write-names :
    (target : JsString) (writer : Writer) (j : Job)
    → let j' = where_open target (set writer) j in (j'.id ≡ j.id) × (j'.user_id ≡ j.user_id)
unfolding set
write-names target (mark_active now) j = ground arith
write-names target mark_queued j = ground arith
write-names target (mark_completed k now) j = ground arith
write-names target (mark_failed code message now) j = ground arith

IsSingle-write :
    (id user_id target : JsString) (writer : Writer) (l : List Job)
    → IsSingle id user_id l
    → IsSingle id user_id (write target writer l)
unfolding write
IsSingle-write id user_id target writer l s = record {
  same = λ j k mj mk ej ek.
      let g = where_open target (set writer) in
      let (x, lx, jx) = Mem-preimage g j l mj in
      let (y, ly, ky) = Mem-preimage g k l mk in
      jx
      ∙ (ap g (
            s.same x y lx ly
              (sym (write-names target writer x).0 ∙ (ap (λ (r : Job). r.id) (sym jx) ∙ ej))
              (sym (write-names target writer y).0 ∙ (ap (λ (r : Job). r.id) (sym ky) ∙ ek)))
          ∙ sym ky);
  owner = λ j mj ej.
      let g = where_open target (set writer) in
      let (x, lx, jx) = Mem-preimage g j l mj in
      ap (λ (r : Job). r.user_id) jx
      ∙ ((write-names target writer x).1
          ∙ s.owner x lx
              (sym (write-names target writer x).0 ∙ (ap (λ (r : Job). r.id) (sym jx) ∙ ej)));
}

-- What every write keeps, a delivery keeps.
module _ (P : List Job → Type 0)
    (keeps : (target : JsString) (writer : Writer) (l : List Job)
      → P l
      → P (write target writer l)) where
  conclude-keeps :
      (env : Surroundings) (id : JsString) (final : Bool) (r : Tried (JsString × List ℕ))
      (s : Shared)
      → P s.jobs
      → P (conclude env id final r s).1.jobs
  unfolding conclude
  conclude-keeps env id final (gives (key, wav)) s h = keeps id _ s.jobs h
  conclude-keeps env id final (raises timeout_error) s h = keeps id _ s.jobs h
  conclude-keeps env id true (raises exception) s h = keeps id _ s.jobs h
  conclude-keeps env id false (raises exception) s h = keeps id _ s.jobs h

  process-keeps :
      (env : Surroundings) (id : JsString) (made attempts : ℕ) (s : Shared)
      → P s.jobs
      → P (process env id made attempts s).1.jobs
  unfolding process
  process-keeps env id made attempts s h = elim (Option-cases (fetch_job id s.jobs)) [
    | inl missing ↦ rw (process, missing) h
    | inr (row, found) ↦ elim (Bool-cases (is_open row.status)) [
      | inl live ↦
          rw (process, found, live)
            (conclude-keeps env id (leb attempts (made + 1))
              (attempt_audio env id row.user_id row.input_text) _
              (keeps id (mark_active env.active_at) s.jobs h))
      | inr closed ↦ rw (process, found, closed) h
    ]
  ]

  module _ (others : ℕ → Shared → Shared)
      (others_keep : (n : ℕ) (s : Shared) → P s.jobs → P (others n s).jobs) where
    pub deliver-keeps :
        (id : JsString) (made attempts : ℕ) (envs : List Surroundings) (s : Shared)
        → P s.jobs
        → P (deliver others id made attempts envs s).jobs
    deliver-keeps id made attempts [] s h = h
    deliver-keeps id made attempts (env ∷ envs) s h =
        let (d, s') = process env id made attempts (others made s) in
        let p = process-keeps env id made attempts (others made s) (others_keep made s h) in
        ended d s' p (deliver-keeps id (made + 1) attempts envs s' p)
      where
        ended :
            (d : Delivery) (s' : Shared)
            → P s'.jobs
            → P (deliver others id (made + 1) attempts envs s').jobs
            → P
                (redelivered d made attempts s'
                  (deliver others id (made + 1) attempts envs s')).jobs
        ended raised_again s' p q = elim (Bool-cases (leb attempts (made + 1))) [
          | inl last ↦ rw last p
          | inr more ↦ rw more q
        ]
        ended (skipped why) s' p q = p
        ended (produced key) s' p q = p
        ended unrecoverable s' p q = p

-- What else happens adds no other row of the id.
abbrev pub KeepsSingle : JsString → JsString → (ℕ → Shared → Shared) → Type 0
KeepsSingle id user_id others =
    (n : ℕ) (s : Shared) → IsSingle id user_id s.jobs → IsSingle id user_id (others n s).jobs

pub deliver-IsSingle :
    (others : ℕ → Shared → Shared) (id user_id : JsString) (made attempts : ℕ)
    (envs : List Surroundings) (s : Shared)
    → KeepsSingle id user_id others
    → IsSingle id user_id s.jobs
    → IsSingle id user_id (deliver others id made attempts envs s).jobs
deliver-IsSingle others id user_id made attempts envs s keeps h =
    deliver-keeps (IsSingle id user_id)
      (λ target writer l k. IsSingle-write id user_id target writer l k) others keeps id made
      attempts envs s h

some_inj : {A : Type 0} {a b : A} → some a ≡ some b → a ≡ b
some_inj h = cc

-- The row that the worker reads is in the table, under the id.
pub fetch_job_sound :
    (id : JsString) (l : List Job) (row : Job)
    → fetch_job id l ≡ some row
    → Memᴰ row l × (row.id ≡ id)
unfolding fetch_job
fetch_job_sound id [] row h = cc
fetch_job_sound id (job ∷ rest) row h = elim (Bool-cases (text_eq id job.id)) [
  | inl same ↦
      (let e : job ≡ row = some_inj (rw same at h) in
        (Memᴰ.head (sym e), ap (λ (j : Job). j.id) (sym e) ∙ sym (text_eq_sound id job.id same)))
  | inr differ ↦
      (let (listed, e) = fetch_job_sound id rest row (rw differ at h) in (Memᴰ.tail listed, e))
]
