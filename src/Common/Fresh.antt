-- ===== src/Common/Fresh.antt =====
-- Lists of texts in a loop that keeps a set of those it has seen.
use patchbay.Common.{◌≡◌, refl, inl, inr, ap, true, false, List, [], ◌∷◌, arith, In, Distinct}
use patchbay.Common.Texts.{Text, text_eq_iff, contains}

pub contains-In : (xs : List Text) (t : Text) → In t xs → contains xs t ≡ true
contains-In [] t h = absurd h
contains-In (x ∷ xs) t (inl e) = ground (arith, text_eq_iff x t)
contains-In (x ∷ xs) t (inr m) = ground (arith, contains-In xs t m)

pub In-contains : (xs : List Text) (t : Text) → contains xs t ≡ true → In t xs
In-contains [] t h = cc
In-contains (x ∷ xs) t h = ground (arith, text_eq_iff x t, In-contains xs t)

-- Each text is new: neither among those seen before the list nor earlier in it.
abbrev pub DistinctFrom : List Text → List Text → Type 0
DistinctFrom seen [] = Unit
DistinctFrom seen (x ∷ xs) = (contains seen x ≡ false) × DistinctFrom (x ∷ seen) xs

DistinctFrom-not-In :
    (seen xs : List Text) (t : Text) → DistinctFrom seen xs → In t seen → ¬ In t xs
DistinctFrom-not-In seen [] t d m h = h
DistinctFrom-not-In seen (x ∷ xs) t d m (inl e) =
    cc (contains-In seen t m, d.0, ap (contains seen) e)
DistinctFrom-not-In seen (x ∷ xs) t d m (inr h) = DistinctFrom-not-In (x ∷ seen) xs t d.1 (inr m) h

pub DistinctFrom-Distinct : (seen xs : List Text) → DistinctFrom seen xs → Distinct xs
DistinctFrom-Distinct seen [] d = tt
DistinctFrom-Distinct seen (x ∷ xs) d =
    (DistinctFrom-not-In (x ∷ seen) xs x d.1 (inl refl), DistinctFrom-Distinct (x ∷ seen) xs d.1)
