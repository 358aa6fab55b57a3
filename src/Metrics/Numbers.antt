-- ===== src/Metrics/Numbers.antt =====
-- src/metrics.rs: decimal numbers, written and read.
use patchbay.Common.{
  ℕ, zero, suc, ◌+◌, ◌-◌, ◌*◌, ◌/◌, ◌%◌, ◌^◌, ◌<◌, ◌≡◌, refl, ap, sym, ◌∙◌, Bool, true, false, not,
  ◌&&◌, [], ◌∷◌, arith, leb, ltb, all, is_empty, Bool-cases, inl, inr,
}
use patchbay.Common.Texts.{Text}
use patchbay.Metrics.{digits, decimal}

abbrev pub is_digit : ℕ → Bool
is_digit c = leb b'0' c && leb c b'9'

-- The value of the digits behind those that make `acc`.
unfoldable pub number_from : ℕ → Text → ℕ
number_from acc [] = acc
number_from acc (c ∷ s) = number_from (acc * 10 + (c - b'0')) s

number_from-digits :
    (fuel n : ℕ) (after : Text)
    → n < 10 ^ fuel
    → number_from 0 (digits fuel n after) ≡ number_from n after
unfolding number_from digits
number_from-digits zero n after small =
    let e : n ≡ 0 = omega arith in ap (λ k. number_from k after) (sym e)
number_from-digits (suc fuel) n after small =
    let here = (b'0' + n % 10) ∷ after in
    let value : n / 10 * 10 + (b'0' + n % 10 - b'0') ≡ n = omega arith in
    elim (Bool-cases (ltb n 10)) [
      | inl last ↦
          let only : 0 * 10 + (b'0' + n % 10 - b'0') ≡ n = ground arith in
          rw last (ap (λ k. number_from k after) only)
      | inr more ↦ rw more (
          number_from-digits fuel (n / 10) here (omega arith) ∙ ap (λ k. number_from k after) value)
    ]

all-digits : (fuel n : ℕ) (after : Text) → all is_digit (digits fuel n after) ≡ all is_digit after
unfolding digits
all-digits zero n after = refl
all-digits (suc fuel) n after =
    let here = (b'0' + n % 10) ∷ after in
    let digit : all is_digit here ≡ all is_digit after = ground arith in
    elim (Bool-cases (ltb n 10)) [
      | inl last ↦ rw last digit
      | inr more ↦ rw more (all-digits fuel (n / 10) here ∙ digit)
    ]

is_empty-digits :
    (fuel n : ℕ) (after : Text) → is_empty after ≡ false → is_empty (digits fuel n after) ≡ false
unfolding digits
is_empty-digits zero n after h = h
is_empty-digits (suc fuel) n after h = elim (Bool-cases (ltb n 10)) [
  | inl last ↦ rw last refl
  | inr more ↦ rw more (is_empty-digits fuel (n / 10) ((b'0' + n % 10) ∷ after) refl)
]

-- A number is digits, at least one.
abbrev pub is_number : Text → Bool
is_number s = not (is_empty s) && all is_digit s

is_number-digits : (fuel n : ℕ) → is_number (digits (suc fuel) n []) ≡ true
unfolding digits
is_number-digits fuel n =
    let here : Text = (b'0' + n % 10) ∷ [] in
    let digit : all is_digit here ≡ true = ground arith in
    elim (Bool-cases (ltb n 10)) [
      | inl last ↦ rw last digit
      | inr more ↦
          rw more
            (rw (is_empty-digits fuel (n / 10) here refl) (all-digits fuel (n / 10) here ∙ digit))
    ]

pub is_number-decimal : (n : ℕ) → is_number (decimal n) ≡ true
unfolding decimal
is_number-decimal n = is_number-digits 19 n

-- A number below 10^20, as every `u64` is, is read back from its decimal form.
pub number_from-decimal : (n : ℕ) → n < 10 ^ 20 → number_from 0 (decimal n) ≡ n
unfolding decimal number_from
number_from-decimal n small = number_from-digits 20 n [] small
