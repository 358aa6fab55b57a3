-- ===== src/Metrics/Digits.antt =====
-- src/metrics.rs, src/limits.rs, src/budget.rs: numbers in the middle of a text.
use patchbay.Common.{
  ℕ, ◌+◌, ◌-◌, ◌*◌, ◌^◌, ◌<◌, ◌≡◌, refl, ap, ◌∙◌, true, false, Option, none, some, [], ◌∷◌, ◌++◌,
  arith, all, if◌then◌else◌,
}
use patchbay.Common.Texts.{Text, codes, text_eq, text_eq_iff, strip_prefix}
use patchbay.Metrics.{decimal}
use patchbay.Metrics.Numbers.{is_digit, number_from, is_number-decimal, number_from-decimal}

-- The number at the start of a text, and what follows it.
pub take_number : ℕ → Text → ℕ × Text
take_number acc [] = (acc, [])
take_number acc (c ∷ s) =
    let rest = take_number (acc * 10 + (c - b'0')) s in if is_digit c then rest else (acc, c ∷ s)

abbrev pub Stops : Text → Type 0
Stops [] = Unit
Stops (c ∷ s) = is_digit c ≡ false

take_number-digits :
    (acc : ℕ) (d rest : Text)
    → all is_digit d ≡ true
    → Stops rest
    → take_number acc (d ++ rest) ≡ (number_from acc d, rest)
unfolding take_number number_from
take_number-digits acc [] [] digits stops = refl
take_number-digits acc [] (c ∷ s) digits stops = rw stops refl
take_number-digits acc (c ∷ d) rest digits stops =
    let first : is_digit c ≡ true = ground arith in
    let others : all is_digit d ≡ true = ground arith in
    rw first (take_number-digits (acc * 10 + (c - b'0')) d rest others stops)

pub take_number-decimal :
    (n : ℕ) (rest : Text) → n < 10 ^ 20 → Stops rest → take_number 0 (decimal n ++ rest) ≡ (n, rest)
take_number-decimal n rest small stops =
    let number = is_number-decimal n in
    let digits : all is_digit (decimal n) ≡ true = ground arith in
    take_number-digits 0 (decimal n) rest digits stops
    ∙ ap (λ m. (m, rest)) (number_from-decimal n small)

second_number : Text → ℕ → ℕ × Text → Option (ℕ × ℕ)
second_number close a (b, end) = if text_eq end close then some (a, b) else none

first_number : Text → ℕ × Text → Option (ℕ × ℕ)
first_number close (a, after) = elim (strip_prefix (codes "/") after) [
  | none ↦ none
  | some more ↦ second_number close a (take_number 0 more)
]

-- Two numbers with a slash between them, up to a closing text.
pub read_pair : Text → Text → Option (ℕ × ℕ)
read_pair close t = first_number close (take_number 0 t)

pub read_pair-decimal :
    (a b : ℕ) (close : Text)
    → a < 10 ^ 20
    → b < 10 ^ 20
    → Stops close
    → read_pair close (decimal a ++ (codes "/" ++ (decimal b ++ close))) ≡ some (a, b)
unfolding read_pair first_number second_number strip_prefix
read_pair-decimal a b close small small' stops =
    let same = (text_eq_iff close close).1 refl in
    ap (first_number close) (take_number-decimal a (codes "/" ++ (decimal b ++ close)) small refl)
    ∙ ap (second_number close a) (take_number-decimal b close small' stops)
    ∙ rw same refl
