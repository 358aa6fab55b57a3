-- ===== src/Metrics/Atomic/Sound.antt =====
-- src/metrics.rs: what a step of a thread keeps of the table.
use mathlib.Core.Path.{subst}
use patchbay.Common.{
  ℕ, ◌+◌, ◌%◌, ◌≡◌, refl, sym, ◌∙◌, inl, inr, none, some, List, [], ◌∷◌, arith, length,
  length-set_at, All, Bool-cases, Option-cases, Distinct, ◌⊎◌,
}
use patchbay.Common.Texts.{Text, text_eq, text_eq_iff}
use patchbay.Common.Maps.{get, insert, keys, get-insert}
use patchbay.Upstream.{u64_mod}
use patchbay.Metrics.Sorted.{insert-Distinct}
use patchbay.Metrics.Atomic.{Shared, Adding, locating, missing, holding, added, cell_at, advance}
use patchbay.Metrics.Atomic.Steps.{
  Holds, IsSound, created, locating-absent, locating-found, missing-absent, missing-found,
  length-snoc,
}

created-IsSound :
    (m : Shared) (key : Text) → IsSound m → get m.table key ≡ none → IsSound (created m key)
created-IsSound m key sound nobody = record {
  inside = λ k c found.
      let now = get-insert m.table key k (length m.cells) in
      let longer = length-snoc m.cells in
      elim (Bool-cases (text_eq key k)) [
        | inl same ↦
            let here : length m.cells ≡ c = ground (arith, now) in omega (arith, here, longer)
        | inr other ↦
            let before : get m.table k ≡ some c = ground (arith, now) in
            let less = sound.inside k c before in omega (arith, less, longer)
      ];
  apart = λ k l c first second.
      let now = get-insert m.table key k (length m.cells) in
      let then' = get-insert m.table key l (length m.cells) in
      elim (Bool-cases (text_eq key k)) [
        | inl same ↦ elim (Bool-cases (text_eq key l)) [
          | inl same' ↦ sym ((text_eq_iff key k).0 same) ∙ (text_eq_iff key l).0 same'
          | inr other ↦
              let here : length m.cells ≡ c = ground (arith, now) in
              let before : get m.table l ≡ some c = ground (arith, then') in
              let less = sound.inside l c before in absurd (omega (arith, here, less))
        ]
        | inr other ↦
            let before : get m.table k ≡ some c = ground (arith, now) in
            let less = sound.inside k c before in
            elim (Bool-cases (text_eq key l)) [
              | inl same' ↦
                  let here : length m.cells ≡ c = ground (arith, then') in
                  absurd (omega (arith, here, less))
              | inr other' ↦
                  let before' : get m.table l ≡ some c = ground (arith, then') in
                  sound.apart k l c before before'
            ]
      ];
}

pub advance-IsSound : (m : Shared) (a : Adding) → IsSound m → IsSound (advance m a).0
advance-IsSound m (locating key n) sound = elim (Option-cases (get m.table key)) [
  | inl nobody ↦ rw (locating-absent m key n nobody) sound
  | inr (c, found) ↦ rw (locating-found m key n c found) sound
]
advance-IsSound m (missing key n) sound = elim (Option-cases (get m.table key)) [
  | inl nobody ↦ rw (missing-absent m key n nobody) (created-IsSound m key sound nobody)
  | inr (c, found) ↦ rw (missing-found m key n c found) sound
]
advance-IsSound m (holding key c n) sound =
    unfold advance in
    record {
      inside = λ k d found.
          let less = sound.inside k d found in
          let same = length-set_at m.cells c ((cell_at m.cells c + n) % u64_mod) in
          omega (arith, less, same);
      apart = sound.apart;
    }
advance-IsSound m (added key n) sound = unfold advance in sound

-- A label that has a counter keeps it.
advance-kept :
    (m : Shared) (a : Adding) (k : Text) (c : ℕ)
    → get m.table k ≡ some c
    → get (advance m a).0.table k ≡ some c
unfolding advance
advance-kept m (locating key n) k c found = ground arith
advance-kept m (missing key n) k c found =
    ground (arith, get-insert m.table key k (length m.cells), text_eq_iff key k)
advance-kept m (holding key d n) k c found = found
advance-kept m (added key n) k c found = found

pub advance-Holds :
    (m : Shared) (a : Adding) → Holds m.table a → Holds (advance m a).0.table (advance m a).1
advance-Holds m (locating key n) h = elim (Option-cases (get m.table key)) [
  | inl nobody ↦ rw (locating-absent m key n nobody) tt
  | inr (c, found) ↦ rw (locating-found m key n c found) found
]
advance-Holds m (missing key n) h = elim (Option-cases (get m.table key)) [
  | inl nobody ↦
      let same = (text_eq_iff key key).1 refl in
      rw (missing-absent m key n nobody)
        (get-insert m.table key key (length m.cells) ∙ rw same refl)
  | inr (c, found) ↦ rw (missing-found m key n c found) found
]
advance-Holds m (holding key c n) h = unfold advance in (c, h)
advance-Holds m (added key n) h = unfold advance in h

pub Holds-kept :
    (m : Shared) (a : Adding) (calls : List Adding)
    → All (Holds m.table) calls
    → All (Holds (advance m a).0.table) calls
Holds-kept m a [] h = tt
Holds-kept m a (locating key n ∷ calls) h = (tt, Holds-kept m a calls h.1)
Holds-kept m a (missing key n ∷ calls) h = (tt, Holds-kept m a calls h.1)
Holds-kept m a (holding key c n ∷ calls) h = (advance-kept m a key c h.0, Holds-kept m a calls h.1)
Holds-kept m a (added key n ∷ calls) h =
    let (c, found) = h.0 in ((c, advance-kept m a key c found), Holds-kept m a calls h.1)

-- The label of a call.
abbrev pub label : Adding → Text
label (locating key n) = key
label (missing key n) = key
label (holding key c n) = key
label (added key n) = key

pub advance-label : (m : Shared) (a : Adding) → label (advance m a).1 ≡ label a
unfolding advance
advance-label m (locating key n) = ground arith
advance-label m (missing key n) = ground arith
advance-label m (holding key c n) = refl
advance-label m (added key n) = refl

-- A table that a call leaves has new labels from the call alone.
pub advance-named :
    (m : Shared) (a : Adding) (k : Text) (c : ℕ)
    → get (advance m a).0.table k ≡ some c
    → (label a ≡ k) ⊎ ((d : ℕ) × (get m.table k ≡ some d))
advance-named m (locating key n) k c found = unfold advance in inr (c, ground arith)
advance-named m (missing key n) k c found = elim (Option-cases (get m.table key)) [
  | inl nobody ↦
      let now : get (insert m.table key (length m.cells)) k ≡ some c =
        subst (λ (r : Shared × Adding). get r.0.table k ≡ some c) (missing-absent m key n nobody)
          found in
      elim (Bool-cases (text_eq key k)) [
        | inl same ↦ inl ((text_eq_iff key k).0 same)
        | inr other ↦
            let e = get-insert m.table key k (length m.cells) in inr (c, ground (arith, e))
      ]
  | inr (d, there) ↦ inr (
    c,
    subst (λ (r : Shared × Adding). get r.0.table k ≡ some c) (missing-found m key n d there) found,
  )
]
advance-named m (holding key d n) k c found = unfold advance in inr (c, found)
advance-named m (added key n) k c found = unfold advance in inr (c, found)

pub advance-Distinct :
    (m : Shared) (a : Adding) → Distinct (keys m.table) → Distinct (keys (advance m a).0.table)
advance-Distinct m (locating key n) d = elim (Option-cases (get m.table key)) [
  | inl nobody ↦ rw (locating-absent m key n nobody) d
  | inr (c, found) ↦ rw (locating-found m key n c found) d
]
advance-Distinct m (missing key n) d = elim (Option-cases (get m.table key)) [
  | inl nobody ↦ rw (missing-absent m key n nobody) (insert-Distinct m.table key (length m.cells) d)
  | inr (c, found) ↦ rw (missing-found m key n c found) d
]
advance-Distinct m (holding key c n) d = unfold advance in d
advance-Distinct m (added key n) d = unfold advance in d
