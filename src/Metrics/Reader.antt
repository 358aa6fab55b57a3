-- ===== src/Metrics/Reader.antt =====
-- src/metrics.rs: a reader of the Prometheus text, and what it makes of `render`.
use mathlib.Core.List.{append_assoc, append-nil}
use patchbay.Common.{
  ℕ, ◌^◌, ◌<◌, ◌≡◌, refl, ap, sym, ◌∙◌, Bool, true, false, not, ◌&&◌, Option, none, some, List, [],
  ◌∷◌, ◌++◌, map, arith, ◌==◌, all, if◌then◌else◌, All,
}
use patchbay.Common.Texts.{Text, codes}
use patchbay.Metrics.{snapshot, decimal, write_pairs, write_family, MetricsHandle, render}
use patchbay.Metrics.Numbers.{
  is_digit, is_number, number_from, is_number-decimal, number_from-decimal,
}

-- The lines that newlines end, and what stands behind the last.
pub lines : Text → List Text
lines [] = []
lines (c ∷ s) =
    let rest = lines s in
    if c == b'\n' then [] ∷ rest else elim rest [ [] ↦ (c ∷ []) ∷ [] | l ∷ ls ↦ (c ∷ l) ∷ ls ]

abbrev pub Sample : Type 0
Sample = Text × ℕ

abbrev longer : ℕ → Option Sample → Option Sample
longer c none = none
longer c (some (s, n)) = some (c ∷ s, n)

-- A sample is a name with its labels, a space, and a number.
pub read_sample : Text → Option Sample
read_sample [] = none
read_sample (c ∷ s) =
    let rest = longer c (read_sample s) in
    if c == b' ' && is_number s then some ([], number_from 0 s) else rest

-- Lines that begin with `#` are comments.
abbrev sample_line : Text → Option Sample
sample_line [] = none
sample_line (c ∷ s) = if c == b'#' then none else read_sample (c ∷ s)

abbrev pub kept : Option Sample → List Sample → List Sample
kept none later = later
kept (some p) later = p ∷ later

pub samples_in : List Text → List Sample
samples_in [] = []
samples_in (l ∷ ls) = kept (sample_line l) (samples_in ls)

abbrev pub read_text : Text → List Sample
read_text s = samples_in (lines s)

abbrev pub is_plain : Text → Bool
is_plain s = all (λ c. not (c == b'\n')) s

lines-plain : (l s : Text) → is_plain l ≡ true → lines (l ++ (b'\n' ∷ s)) ≡ l ∷ lines s
unfolding lines
lines-plain [] s h = refl
lines-plain (c ∷ l) s h = ground (arith, lines-plain l s)

-- What is no number: it has a space in it.
is_number-space : (l d : Text) → is_number (l ++ (b' ' ∷ d)) ≡ false
is_number-space l d = ground (arith, all-space l d)
  where
    all-space : (l d : Text) → all is_digit (l ++ (b' ' ∷ d)) ≡ false
    all-space [] d = refl
    all-space (c ∷ l) d = ground (arith, all-space l d)

read_sample-line :
    (l d : Text) → is_number d ≡ true → read_sample (l ++ (b' ' ∷ d)) ≡ some (l, number_from 0 d)
unfolding read_sample
read_sample-line [] d h = ground arith
read_sample-line (c ∷ l) d h = ground (arith, is_number-space l d, read_sample-line l d h)

pub is_plain-append : (l m : Text) → is_plain (l ++ m) ≡ (is_plain l && is_plain m)
is_plain-append [] m = refl
is_plain-append (c ∷ l) m = ground (arith, is_plain-append l m)

is_plain-number : (d : Text) → all is_digit d ≡ true → is_plain d ≡ true
is_plain-number [] h = refl
is_plain-number (c ∷ d) h = ground (arith, is_plain-number d)

read_text-line :
    (l s : Text)
    → is_plain l ≡ true
    → read_text (l ++ (b'\n' ∷ s)) ≡ kept (sample_line l) (read_text s)
unfolding samples_in
read_text-line l s h = ap samples_in (lines-plain l s h)

-- The samples of a family: each label behind the name, with its count.
abbrev pub family : Text → List (Text × ℕ) → List Sample
family name pairs = map (λ (p : Text × ℕ). (name ++ p.0, p.1)) pairs

-- A label is on one line, and a count has twenty digits at most.
abbrev pub IsWritable : Text × ℕ → Type 0
IsWritable p = (is_plain p.0 ≡ true) × (p.1 < 10 ^ 20)

-- A name is on one line, and does not begin like a comment.
abbrev IsName : Text → Type 0
IsName [] = ⊥
IsName (c ∷ name) = ((c == b'#') ≡ false) × (is_plain (c ∷ name) ≡ true)

sample_line-written :
    (name labels : Text) (n : ℕ)
    → IsName name
    → n < 10 ^ 20
    → sample_line ((name ++ labels) ++ (b' ' ∷ decimal n)) ≡ some (name ++ labels, n)
sample_line-written [] labels n h small = absurd h
sample_line-written (c ∷ name) labels n h small = rw (h.0) (
    read_sample-line ((c ∷ name) ++ labels) (decimal n) (is_number-decimal n)
    ∙ ap (λ k. some ((c ∷ name) ++ labels, k)) (number_from-decimal n small))

IsName-is_plain : (name : Text) → IsName name → is_plain name ≡ true
IsName-is_plain [] h = absurd h
IsName-is_plain (c ∷ name) h = h.1

read_text-write_pairs :
    (name : Text) (pairs : List (Text × ℕ)) (rest : Text)
    → IsName name
    → All IsWritable pairs
    → read_text (write_pairs name pairs ++ rest) ≡ family name pairs ++ read_text rest
unfolding write_pairs
read_text-write_pairs name [] rest h w = refl
read_text-write_pairs name ((labels, n) ∷ pairs) rest h (w, ws) =
    let l : Text = (name ++ labels) ++ (b' ' ∷ decimal n) in
    let later : Text = write_pairs name pairs ++ rest in
    let shape : (name
            ++ (labels ++ (codes " " ++ (decimal n ++ (codes "\n" ++ write_pairs name pairs)))))
          ++ rest
        ≡ l ++ (b'\n' ∷ later) =
      simp append_assoc in
    let plain : is_plain l ≡ true = ground (
      arith,
      is_plain-append (name ++ labels) (b' ' ∷ decimal n),
      is_plain-append name labels,
      IsName-is_plain name h,
      is_plain-number (decimal n),
      is_number-decimal n,
    ) in
    ap read_text shape
    ∙ read_text-line l later plain
    ∙ ap (λ p. kept p (read_text later)) (sample_line-written name labels n h w.1)
    ∙ ap (λ (r : List Sample). (name ++ labels, n) ∷ r) (read_text-write_pairs name pairs rest h ws)

read_text-write_family :
    (name ty help : Text) (pairs : List (Text × ℕ)) (rest : Text)
    → IsName name
    → is_plain ty ≡ true
    → is_plain help ≡ true
    → All IsWritable pairs
    → read_text (write_family name ty help pairs ++ rest) ≡ family name pairs ++ read_text rest
unfolding write_family
read_text-write_family name ty help [] rest h t u w = refl
read_text-write_family name ty help (p ∷ pairs) rest h t u w =
    let body : Text = write_pairs name (p ∷ pairs) ++ rest in
    let first : Text = codes "# HELP " ++ (name ++ (codes " " ++ help)) in
    let second : Text = codes "# TYPE " ++ (name ++ (codes " " ++ ty)) in
    let shape : write_family name ty help (p ∷ pairs) ++ rest
        ≡ first ++ (b'\n' ∷ (second ++ (b'\n' ∷ body))) =
      simp append_assoc in
    let plain = IsName-is_plain name h in
    let plain_first : is_plain first ≡ true =
      ground (arith, is_plain-append name (codes " " ++ help), plain) in
    let plain_second : is_plain second ≡ true =
      ground (arith, is_plain-append name (codes " " ++ ty), plain) in
    ap read_text shape
    ∙ read_text-line first (second ++ (b'\n' ∷ body)) plain_first
    ∙ read_text-line second body plain_second
    ∙ read_text-write_pairs name (p ∷ pairs) rest h w

-- All the samples of the metrics, family by family.
abbrev pub samples_of : MetricsHandle → List Sample
samples_of m =
    family (codes "patchbay_requests_total") (snapshot m.requests)
    ++ (family (codes "patchbay_tokens_total") (snapshot m.tokens)
        ++ (family (codes "patchbay_upstream_errors_total") (snapshot m.upstream_errors)
            ++ (family (codes "patchbay_rate_limit_rejections_total")
                  (snapshot m.rate_limit_rejections)
                ++ family (codes "patchbay_budget_rejections_total")
                    (snapshot m.budget_rejections))))

pub record AllWritable (m : MetricsHandle) : Type 0 where
  pub requests : All IsWritable (snapshot m.requests)
  pub tokens : All IsWritable (snapshot m.tokens)
  pub upstream_errors : All IsWritable (snapshot m.upstream_errors)
  pub rate_limit_rejections : All IsWritable (snapshot m.rate_limit_rejections)
  pub budget_rejections : All IsWritable (snapshot m.budget_rejections)

-- A family in front of a text whose samples are known.
read_text-front :
    (name help : Text) (pairs : List (Text × ℕ)) (rest : Text) (later : List Sample)
    → IsName name
    → is_plain help ≡ true
    → All IsWritable pairs
    → read_text rest ≡ later
    → read_text (write_family name (codes "counter") help pairs ++ rest)
      ≡ family name pairs ++ later
read_text-front name help pairs rest later h u w e =
    read_text-write_family name (codes "counter") help pairs rest h refl u w
    ∙ ap (λ (r : List Sample). family name pairs ++ r) e

read_text-last :
    (name help : Text) (pairs : List (Text × ℕ))
    → IsName name
    → is_plain help ≡ true
    → All IsWritable pairs
    → read_text (write_family name (codes "counter") help pairs) ≡ family name pairs
read_text-last name help pairs h u w =
    ap read_text (sym (append-nil (write_family name (codes "counter") help pairs)))
    ∙ read_text-front name help pairs [] [] h u w (unfold lines samples_in in refl)
    ∙ append-nil (family name pairs)

pub read_text-render : (m : MetricsHandle) → AllWritable m → read_text (render m) ≡ samples_of m
unfolding render
read_text-render m a =
    read_text-front _ _ (snapshot m.requests) _ _ (refl, refl) refl a.requests
      (read_text-front _ _ (snapshot m.tokens) _ _ (refl, refl) refl a.tokens
        (read_text-front _ _ (snapshot m.upstream_errors) _ _ (refl, refl) refl a.upstream_errors
          (read_text-front _ _ (snapshot m.rate_limit_rejections) _ _ (refl, refl) refl
            a.rate_limit_rejections
            (read_text-last _ _ (snapshot m.budget_rejections) (refl, refl) refl
              a.budget_rejections))))
