-- ===== src/Base/Lists.antt =====
-- Lists measured by native numbers, and predicates and counts on lists.
use Prim.Native.Nat.{ℕ, zero, suc, ◌+◌, ◌≤◌}
use mathlib.Core.Path.{◌≡◌, refl, sym, ap, subst}
use mathlib.Core.Bool.{Bool}
use mathlib.Core.List.{List, [], ◌∷◌, ◌++◌, map, Memᴰ}
use native.Mathlib.Omega.{arith}
use bengali_tts_service.Base.Tests.{if◌then◌else◌}

module _ {ℓ} {A : Type ℓ} where
  abbrev pub length : List A → ℕ
  length [] = 0
  length (x ∷ xs) = suc (length xs)

  abbrev pub take : ℕ → List A → List A
  take zero xs = []
  take (suc n) [] = []
  take (suc n) (x ∷ xs) = x ∷ take n xs

  abbrev pub drop : ℕ → List A → List A
  drop zero xs = xs
  drop (suc n) [] = []
  drop (suc n) (x ∷ xs) = drop n xs

  abbrev pub replicate : ℕ → A → List A
  replicate zero a = []
  replicate (suc n) a = a ∷ replicate n a

  pub length-append : (xs ys : List A) → length (xs ++ ys) ≡ length xs + length ys
  length-append [] ys = omega arith
  length-append (x ∷ xs) ys = omega (arith, length-append xs ys)

  -- How many elements pass a test.
  abbrev pub count_if : (A → Bool) → List A → ℕ
  count_if p [] = 0
  count_if p (x ∷ xs) = let rest = count_if p xs in if p x then suc rest else rest

  pub count_if-le-length : (p : A → Bool) (xs : List A) → count_if p xs ≤ length xs
  count_if-le-length p [] = omega arith
  count_if-le-length p (x ∷ xs) = ground (arith, count_if-le-length p xs)

module _ {ℓ κ} {A : Type ℓ} (P : A → Type κ) where
  abbrev pub All : List A → Type κ
  All [] = Unit
  All (x ∷ xs) = P x × All xs

  pub All-of_Mem : (l : List A) → ((a : A) → Memᴰ a l → P a) → All l
  All-of_Mem [] h = tt
  All-of_Mem (x ∷ l) h = (h x (Memᴰ.head refl), All-of_Mem l (λ a m. h a (Memᴰ.tail m)))

  pub Mem-All : (a : A) (l : List A) → All l → Memᴰ a l → P a
  Mem-All a (x ∷ l) h (Memᴰ.head e) = subst P (sym e) h.0
  Mem-All a (x ∷ l) h (Memᴰ.tail m) = Mem-All a l h.1 m
  Mem-All a [] h m = elim m [ ]

pub Mem-append {ℓ} : {A : Type ℓ} (a : A) (newer l : List A) → Memᴰ a l → Memᴰ a (newer ++ l)
Mem-append a [] l m = m
Mem-append a (x ∷ newer) l m = Memᴰ.tail (Mem-append a newer l m)

module _ {ℓ κ} {A : Type ℓ} {B : Type κ} (g : A → B) where
  pub Mem-image : (a : A) (l : List A) → Memᴰ a l → Memᴰ (g a) (map g l)
  Mem-image a (x ∷ l) (Memᴰ.head e) = Memᴰ.head (ap g e)
  Mem-image a (x ∷ l) (Memᴰ.tail m) = Memᴰ.tail (Mem-image a l m)
  Mem-image a [] m = elim m [ ]

  pub Mem-preimage : (b : B) (l : List A) → Memᴰ b (map g l) → (a : A) × Memᴰ a l × (b ≡ g a)
  Mem-preimage b [] m = elim m [ ]
  Mem-preimage b (x ∷ l) (Memᴰ.head e) = (x, Memᴰ.head refl, e)
  Mem-preimage b (x ∷ l) (Memᴰ.tail m) =
      let (a, listed, e) = Mem-preimage b l m in (a, Memᴰ.tail listed, e)
