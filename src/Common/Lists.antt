-- ===== src/Common/Lists.antt =====
-- Lists measured and indexed by native numbers, under the library's names, and the searches that
-- the code makes over its vectors.
use Prim.Native.Nat.{ℕ, zero, suc, ◌+◌, ◌-◌, ◌≤◌}
use mathlib.Core.Path.{◌≡◌, refl, ap, subst}
use mathlib.Core.Bool.{Bool, true, false, ◌&&◌, ◌||◌}
use mathlib.Core.List.{List, [], ◌∷◌, ◌++◌}
use mathlib.Core.Option.{Option, none, some}
use mathlib.Core.Logic.{◌⊎◌, inl, inr}
use native.Mathlib.Omega.{arith}
use patchbay.Common.Tests.{if◌then◌else◌, Bool-cases, ◌==◌}

module _ {ℓ} {A : Type ℓ} where
  abbrev pub length : List A → ℕ
  length [] = 0
  length (x ∷ xs) = suc (length xs)

  abbrev pub get_elem? : List A → ℕ → Option A
  get_elem? [] i = none
  get_elem? (x ∷ xs) zero = some x
  get_elem? (x ∷ xs) (suc i) = get_elem? xs i

  abbrev pub take : ℕ → List A → List A
  take zero xs = []
  take (suc n) [] = []
  take (suc n) (x ∷ xs) = x ∷ take n xs

  abbrev pub drop : ℕ → List A → List A
  drop zero xs = xs
  drop (suc n) [] = []
  drop (suc n) (x ∷ xs) = drop n xs

  abbrev pub is_empty : List A → Bool
  is_empty [] = true
  is_empty (x ∷ xs) = false

  -- `iter().any(p)` and `iter().all(p)`
  abbrev pub any : (A → Bool) → List A → Bool
  any p [] = false
  any p (x ∷ xs) = p x || any p xs

  abbrev pub all : (A → Bool) → List A → Bool
  all p [] = true
  all p (x ∷ xs) = p x && all p xs

  -- `iter().filter(p).collect()`
  abbrev pub filter : (A → Bool) → List A → List A
  filter p [] = []
  filter p (x ∷ xs) = if p x then x ∷ filter p xs else filter p xs

  -- the first element that passes
  abbrev pub find : (A → Bool) → List A → Option A
  find p [] = none
  find p (x ∷ xs) = if p x then some x else find p xs

  pub length-append : (xs ys : List A) → length (xs ++ ys) ≡ length xs + length ys
  length-append [] ys = omega arith
  length-append (x ∷ xs) ys = omega (arith, length-append xs ys)

  pub drop-append : (n : ℕ) (xs ys : List A) → n ≤ length xs → drop n (xs ++ ys) ≡ drop n xs ++ ys
  drop-append zero xs ys h = refl
  drop-append (suc n) [] ys h = elim h [ ]
  drop-append (suc n) (x ∷ xs) ys h = drop-append n xs ys (omega arith)

  pub take-append : (n : ℕ) (xs ys : List A) → n ≤ length xs → take n (xs ++ ys) ≡ take n xs
  take-append zero xs ys h = refl
  take-append (suc n) [] ys h = elim h [ ]
  take-append (suc n) (x ∷ xs) ys h = ap (◌∷◌ x) (take-append n xs ys (omega arith))

  pub length-drop : (n : ℕ) (xs : List A) → length (drop n xs) ≡ length xs - n
  length-drop zero xs = omega arith
  length-drop (suc n) [] = omega arith
  length-drop (suc n) (x ∷ xs) = omega (arith, length-drop n xs)

module _ {A : Type 0} where
  -- membership by recursion: the place of the element
  abbrev pub In : A → List A → Type 0
  In a [] = ⊥
  In a (x ∷ xs) = (x ≡ a) ⊎ In a xs

  abbrev pub All : (A → Type 0) → List A → Type 0
  All P [] = Unit
  All P (x ∷ xs) = P x × All P xs

  abbrev pub Distinct : List A → Type 0
  Distinct [] = Unit
  Distinct (x ∷ xs) = (¬ In x xs) × Distinct xs

  pub In-get_elem? : (xs : List A) (i : ℕ) {a : A} → get_elem? xs i ≡ some a → In a xs
  In-get_elem? [] i h = cc
  In-get_elem? (x ∷ xs) zero h = inl cc
  In-get_elem? (x ∷ xs) (suc i) h = inr (In-get_elem? xs i h)

  kept_In :
      (p : A → Bool) (x : A) (xs : List A) {a : A}
      → p x ≡ true
      → (In a (filter p xs) → In a xs × (p a ≡ true))
      → (x ≡ a) ⊎ In a (filter p xs)
      → In a (x ∷ xs) × (p a ≡ true)
  kept_In p x xs t rest (inl e) = (inl e, rw (← e) t)
  kept_In p x xs t rest (inr m) = let (m', q) = rest m in (inr m', q)

  pub In-filter : (p : A → Bool) (xs : List A) {a : A} → In a (filter p xs) → In a xs × (p a ≡ true)
  In-filter p [] h = absurd h
  In-filter p (x ∷ xs) {a} h = elim (Bool-cases (p x)) [
    | inl t ↦ kept_In p x xs t (In-filter p xs) (rw t at h)
    | inr f ↦ let (m, q) = In-filter p xs (rw f at h) in (inr m, q)
  ]

  pub In-All : (P : A → Type 0) (xs : List A) → ((a : A) → In a xs → P a) → All P xs
  In-All P [] h = tt
  In-All P (x ∷ xs) h = (h x (inl refl), In-All P xs (λ a m. h a (inr m)))

  pub All-In : (P : A → Type 0) (xs : List A) {a : A} → All P xs → In a xs → P a
  All-In P [] h m = absurd m
  All-In P (x ∷ xs) h (inl e) = rw e at h.0
  All-In P (x ∷ xs) h (inr m) = All-In P xs h.1 m

  -- an element that passes is kept
  pub filter-In : (p : A → Bool) (xs : List A) {a : A} → In a xs → p a ≡ true → In a (filter p xs)
  filter-In p [] m t = absurd m
  filter-In p (x ∷ xs) (inl e) t = ground (arith, ap p e)
  filter-In p (x ∷ xs) (inr m) t = elim (Bool-cases (p x)) [
    | inl t' ↦ rw t' (inr (filter-In p xs m t))
    | inr f ↦ rw f (filter-In p xs m t)
  ]

module _ {A : Type 0} where
  -- `xs[i] = a`, and nothing out of range
  abbrev pub set_at : List A → ℕ → A → List A
  set_at [] i a = []
  set_at (x ∷ xs) zero a = a ∷ xs
  set_at (x ∷ xs) (suc i) a = x ∷ set_at xs i a

  pub All-get_elem? :
      (P : A → Type 0) (xs : List A) (i : ℕ) {a : A} → All P xs → get_elem? xs i ≡ some a → P a
  All-get_elem? P [] i h e = cc
  All-get_elem? P (x ∷ xs) zero {a} h e = let same : x ≡ a = cc in subst P same h.0
  All-get_elem? P (x ∷ xs) (suc i) h e = All-get_elem? P xs i h.1 e

  pub All-set_at :
      (P : A → Type 0) (xs : List A) (i : ℕ) (a : A) → All P xs → P a → All P (set_at xs i a)
  All-set_at P [] i a h p = tt
  All-set_at P (x ∷ xs) zero a h p = (p, h.1)
  All-set_at P (x ∷ xs) (suc i) a h p = (h.0, All-set_at P xs i a h.1 p)

  pub All-append : (P : A → Type 0) (xs : List A) (a : A) → All P xs → P a → All P (xs ++ (a ∷ []))
  All-append P [] a h p = (p, tt)
  All-append P (x ∷ xs) a h p = (h.0, All-append P xs a h.1 p)

  pub length-set_at : (xs : List A) (i : ℕ) (a : A) → length (set_at xs i a) ≡ length xs
  length-set_at [] i a = refl
  length-set_at (x ∷ xs) zero a = refl
  length-set_at (x ∷ xs) (suc i) a = ap suc (length-set_at xs i a)

  pub get_elem?-set_at_same :
      (xs : List A) (i : ℕ) (old new : A)
      → get_elem? xs i ≡ some old
      → get_elem? (set_at xs i new) i ≡ some new
  get_elem?-set_at_same [] i old new found = cc
  get_elem?-set_at_same (x ∷ xs) zero old new found = refl
  get_elem?-set_at_same (x ∷ xs) (suc i) old new found = get_elem?-set_at_same xs i old new found

  pub get_elem?-set_at_other :
      (xs : List A) (i j : ℕ) (new : A)
      → (i == j) ≡ false
      → get_elem? (set_at xs i new) j ≡ get_elem? xs j
  get_elem?-set_at_other [] i j new other = refl
  get_elem?-set_at_other (x ∷ xs) zero zero new other = grind arith
  get_elem?-set_at_other (x ∷ xs) zero (suc j) new other = refl
  get_elem?-set_at_other (x ∷ xs) (suc i) zero new other = refl
  get_elem?-set_at_other (x ∷ xs) (suc i) (suc j) new other =
      get_elem?-set_at_other xs i j new (ground arith)
