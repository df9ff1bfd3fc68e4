-- ===== src/Metrics/Scrapes.antt =====
-- A job is observed once.
use bengali_tts_service.Base.{
  ℕ, suc, ◌+◌, ◌≤◌, ◌≡◌, refl, sym, true, false, Bool-cases, inl, inr, List, [], ◌∷◌, arith, All,
  count_if, length,
}
use mathlib.Core.Path.{subst}
use bengali_tts_service.Schema.{Job}
use bengali_tts_service.Metrics.{Durations, is_new, later, observe, observe_new, collect}

later-le : (up_to t : ℕ) → up_to ≤ later up_to t
later-le up_to t = ground arith

-- The mark only grows.
observe-le : (d : Durations) (row : Job) → d.observed_up_to ≤ (observe d row).observed_up_to
unfolding observe
observe-le d row = ground arith

observe_new-le :
    (began : ℕ) (rows : List Job) (d : Durations)
    → d.observed_up_to ≤ (observe_new began d rows).observed_up_to
unfolding observe_new
observe_new-le began [] d = omega arith
observe_new-le began (row ∷ rows) d = ground (
  arith,
  observe-le d row,
  observe_new-le began rows d,
  observe_new-le began rows (observe d row),
)

observe-length :
    (began : ℕ) (d : Durations) (row : Job)
    → is_new began row ≡ true
    → length (observe d row).observed ≡ suc (length d.observed)
unfolding observe
observe-length began d row new = ground arith

-- A scrape observes each new row of the table, and no other.
observe_new-length :
    (began : ℕ) (rows : List Job) (d : Durations)
    → length (observe_new began d rows).observed ≡ count_if (is_new began) rows + length d.observed
unfolding observe_new
observe_new-length began [] d = omega arith
observe_new-length began (row ∷ rows) d = elim (Bool-cases (is_new began row)) [
  | inl new ↦
      rw (new, observe_new)
        (omega
          (arith, observe_new-length began rows (observe d row), observe-length began d row new))
  | inr old ↦ rw (old, observe_new) (observe_new-length began rows d)
]

is_new_mono : (a b : ℕ) (row : Job) → is_new a row ≡ false → a ≤ b → is_new b row ≡ false
is_new_mono a b row h le = ground arith

observe-old : (d : Durations) (row : Job) → is_new (observe d row).observed_up_to row ≡ false
unfolding observe
observe-old d row = ground arith

-- Afterwards no row of the table is new.
observe_new-old :
    (began : ℕ) (rows : List Job) (d : Durations)
    → began ≤ d.observed_up_to
    → All (λ row. is_new (observe_new began d rows).observed_up_to row ≡ false) rows
unfolding observe_new
observe_new-old began [] d h = tt
observe_new-old began (row ∷ rows) d h = elim (Bool-cases (is_new began row)) [
  | inl new ↦
      let rest = observe_new began (observe d row) rows in
      let same : observe_new began d (row ∷ rows) ≡ rest = rw (new, observe_new) refl in
      subst (λ (e : Durations). All (λ row. is_new e.observed_up_to row ≡ false) (row ∷ rows))
        (sym same)
        (
          is_new_mono (observe d row).observed_up_to rest.observed_up_to row (observe-old d row)
              (observe_new-le began rows (observe d row)),
          observe_new-old began rows (observe d row) (omega (arith, observe-le d row)),
        )
  | inr old ↦
      let rest = observe_new began d rows in
      let same : observe_new began d (row ∷ rows) ≡ rest = rw (old, observe_new) refl in
      subst (λ (e : Durations). All (λ row. is_new e.observed_up_to row ≡ false) (row ∷ rows))
        (sym same)
        (
          is_new_mono began rest.observed_up_to row old
              (omega (arith, observe_new-le began rows d)),
          observe_new-old began rows d h,
        )
]

observe_new-none :
    (began : ℕ) (rows : List Job) (d : Durations)
    → All (λ row. is_new began row ≡ false) rows
    → observe_new began d rows ≡ d
unfolding observe_new
observe_new-none began [] d h = refl
observe_new-none began (row ∷ rows) d (old, h) = rw old (observe_new-none began rows d h)

-- A scrape adds one observation for each started row of the table that was completed after the
-- mark, and a second scrape of the same table adds none and leaves the mark.
pub collect_once :
    (table : List Job) (d : Durations)
    → (length (collect table d).observed
        ≡ count_if (is_new d.observed_up_to) table + length d.observed)
      × (collect table (collect table d) ≡ collect table d)
unfolding collect
collect_once table d = (
  observe_new-length d.observed_up_to table d,
  observe_new-none (observe_new d.observed_up_to d table).observed_up_to table
      (observe_new d.observed_up_to d table)
      (observe_new-old d.observed_up_to table d (omega arith)),
)
