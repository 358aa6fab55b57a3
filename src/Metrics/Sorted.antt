-- ===== src/Metrics/Sorted.antt =====
-- src/metrics.rs: `snapshot`, and the table that it is taken of.
use patchbay.Common.{
  ℕ, ◌≡◌, ◌≢◌, refl, ap, sym, ◌∙◌, inl, inr, ◌⊎◌, true, false, none, some, List, [], ◌∷◌, arith, In,
  Distinct, Bool-cases, if◌then◌else◌,
}
use patchbay.Common.Texts.{Text, text_eq, text_eq_iff}
use patchbay.Common.Maps.{get, insert, keys}
use patchbay.Metrics.{LabeledCounters, text_leb, insert_sorted, snapshot}

text_leb-total : (a b : Text) → text_leb a b ≡ false → text_leb b a ≡ true
unfolding text_leb
text_leb-total [] b h = cc
text_leb-total (x ∷ a) [] h = refl
text_leb-total (x ∷ a) (y ∷ b) h = ground (arith, text_leb-total a b)

text_leb-antisym : (a b : Text) → text_leb a b ≡ true → text_leb b a ≡ true → a ≡ b
unfolding text_leb
text_leb-antisym [] [] h k = refl
text_leb-antisym [] (y ∷ b) h k = cc
text_leb-antisym (x ∷ a) [] h k = cc
text_leb-antisym (x ∷ a) (y ∷ b) h k = ground (arith, text_leb-antisym a b)

text_leb_trans : (a b c : Text) → text_leb a b ≡ true → text_leb b c ≡ true → text_leb a c ≡ true
unfolding text_leb
text_leb_trans [] b c h k = refl
text_leb_trans (x ∷ a) [] c h k = cc
text_leb_trans (x ∷ a) (y ∷ b) [] h k = cc
text_leb_trans (x ∷ a) (y ∷ b) (z ∷ c) h k = ground (arith, text_leb_trans a b c)

-- Entries with different labels may be inserted in either order.
insert_sorted_comm :
    (p q : Text × ℕ) (ps : List (Text × ℕ))
    → p.0 ≢ q.0
    → insert_sorted p (insert_sorted q ps) ≡ insert_sorted q (insert_sorted p ps)
unfolding insert_sorted
insert_sorted_comm p q [] ne = ground (arith, text_leb-total p.0 q.0, text_leb-antisym p.0 q.0)
insert_sorted_comm p q (r ∷ ps) ne = ground (
  arith,
  text_leb-total p.0 q.0,
  text_leb-total p.0 r.0,
  text_leb-total q.0 r.0,
  text_leb-antisym p.0 q.0,
  text_leb_trans p.0 q.0 r.0,
  text_leb_trans q.0 p.0 r.0,
  insert_sorted_comm p q ps ne,
)

pub get-missing : (m : LabeledCounters) (k : Text) → ¬ In k (keys m) → get m k ≡ none
unfolding get
get-missing [] k h = refl
get-missing ((j, v) ∷ m) k h = elim (Bool-cases (text_eq j k)) [
  | inl same ↦ absurd (h (inl ((text_eq_iff j k).0 same)))
  | inr other ↦ ground (arith, get-missing m k (λ i. h (inr i)))
]

without : LabeledCounters → Text → LabeledCounters
without [] k = []
without ((j, v) ∷ m) k = if text_eq j k then m else (j, v) ∷ without m k

In-without : (m : LabeledCounters) (k j : Text) → In j (keys (without m k)) → In j (keys m)
unfolding without
In-without [] k j h = h
In-without ((i, v) ∷ m) k j h = elim (Bool-cases (text_eq i k)) [
  | inl same ↦ inr (rw same at h)
  | inr other ↦ elim (let h' : In j (i ∷ keys (without m k)) = rw other at h in h') [
    | inl here ↦ inl here
    | inr later ↦ inr (In-without m k j later)
  ]
]

without-Distinct :
    (m : LabeledCounters) (k : Text) → Distinct (keys m) → Distinct (keys (without m k))
unfolding without
without-Distinct [] k d = tt
without-Distinct ((i, v) ∷ m) k d = elim (Bool-cases (text_eq i k)) [
  | inl same ↦ rw same d.1
  | inr other ↦ rw other ((λ h. d.0 (In-without m k i h)), without-Distinct m k d.1)
]

get-without :
    (m : LabeledCounters) (k j : Text)
    → Distinct (keys m)
    → get (without m k) j ≡ (if text_eq k j then none else get m j)
unfolding without get
get-without [] k j d = ground arith
get-without ((i, v) ∷ m) k j d = ground (
  arith,
  text_eq_iff i k,
  text_eq_iff k j,
  text_eq_iff i j,
  get-missing m i d.0,
  get-without m k j d.1,
)

-- An entry may be inserted last.
snapshot-without :
    (m : LabeledCounters) (k : Text) (v : ℕ)
    → get m k ≡ some v
    → snapshot m ≡ insert_sorted (k, v) (snapshot (without m k))
unfolding snapshot without get
snapshot-without [] k v h = cc
snapshot-without ((j, u) ∷ m) k v h = elim (Bool-cases (text_eq j k)) [
  | inl same ↦ ground (arith, text_eq_iff j k)
  | inr other ↦
      let rest : get m k ≡ some v = ground arith in
      let differ : j ≢ k = λ e. cc (other, (text_eq_iff j k).1 e) in
      rw other (
        ap (insert_sorted (j, u)) (snapshot-without m k v rest)
        ∙ insert_sorted_comm (j, u) (k, v) (snapshot (without m k)) differ)
]

-- Tables that hold the same counters, whatever their order.
abbrev pub SameCounters : LabeledCounters → LabeledCounters → Type 0
SameCounters m m' = (k : Text) → get m k ≡ get m' k

pub snapshot-SameCounters :
    (m m' : LabeledCounters)
    → Distinct (keys m)
    → Distinct (keys m')
    → SameCounters m m'
    → snapshot m ≡ snapshot m'
unfolding snapshot get
snapshot-SameCounters [] [] d d' same = refl
snapshot-SameCounters [] ((k, v) ∷ m') d d' same = ground (arith, same k, text_eq_iff k k)
snapshot-SameCounters ((k, v) ∷ m) m' d d' same =
    let here : get m' k ≡ some v = sym (same k) ∙ ground (arith, text_eq_iff k k) in
    let rest : SameCounters m (without m' k) =
      λ j. ground (arith, get-without m' k j d', same j, text_eq_iff k j, get-missing m k d.0) in
    ap (insert_sorted (k, v))
      (snapshot-SameCounters m (without m' k) d.1 (without-Distinct m' k d') rest)
    ∙ sym (snapshot-without m' k v here)

In-insert :
    (m : LabeledCounters) (k j : Text) (n : ℕ)
    → In j (keys (insert m k n))
    → (k ≡ j) ⊎ In j (keys m)
unfolding insert
In-insert [] k j n (inl e) = inl e
In-insert [] k j n (inr none_there) = elim none_there [ ]
In-insert ((i, v) ∷ m) k j n h = elim (Bool-cases (text_eq i k)) [
  | inl same ↦ inr (rw same at h)
  | inr other ↦ elim (let h' : In j (i ∷ keys (insert m k n)) = rw other at h in h') [
    | inl here ↦ inr (inl here)
    | inr later ↦ elim (In-insert m k j n later) [ inl e ↦ inl e | inr old ↦ inr (inr old) ]
  ]
]

pub insert-Distinct :
    (m : LabeledCounters) (k : Text) (n : ℕ) → Distinct (keys m) → Distinct (keys (insert m k n))
unfolding insert
insert-Distinct [] k n d = ((λ h. h), tt)
insert-Distinct ((j, v) ∷ m) k n d = elim (Bool-cases (text_eq j k)) [
  | inl same ↦ rw same d
  | inr other ↦ rw other (
    (λ h. elim (In-insert m k j n h) [
      | inl e ↦ cc (other, (text_eq_iff j k).1 (sym e))
      | inr old ↦ d.0 old
    ]),
    insert-Distinct m k n d.1,
  )
]
