-- ===== src/Limits/Display.antt =====
-- src/limits.rs: the text of a rejection, which a client gets in the body of a 429 response.
use patchbay.Common.{ℕ, ◌^◌, ◌<◌, ◌≡◌, refl, Option, none, some, ◌++◌, if◌then◌else◌}
use patchbay.Common.Texts.{Text, codes, text_eq, text_eq_iff, strip_prefix}
use patchbay.Metrics.{decimal}
use patchbay.Metrics.Digits.{take_number, take_number-decimal, read_pair, read_pair-decimal}
use patchbay.Limits.{LimitExceeded}

-- `LimitExceeded::fmt`
unfoldable pub limit_text : LimitExceeded → Text
limit_text (LimitExceeded.rpm limit) =
    codes "rate limit exceeded (" ++ (decimal limit ++ codes " rpm)")
limit_text (LimitExceeded.tpm used limit) =
    codes "token rate limit exceeded ("
    ++ (decimal used ++ (codes "/" ++ (decimal limit ++ codes " tpm)")))

read_rpm : ℕ × Text → Option LimitExceeded
read_rpm (n, after) = if text_eq after (codes " rpm)") then some (LimitExceeded.rpm n) else none

read_tpm : Option (ℕ × ℕ) → Option LimitExceeded
read_tpm none = none
read_tpm (some (used, limit)) = some (LimitExceeded.tpm used limit)

pub read_limit : Text → Option LimitExceeded
read_limit t = elim (strip_prefix (codes "rate limit exceeded (") t) [
  | some r ↦ read_rpm (take_number 0 r)
  | none ↦ elim (strip_prefix (codes "token rate limit exceeded (") t) [
    | some r ↦ read_tpm (read_pair (codes " tpm)") r)
    | none ↦ none
  ]
]

-- The numbers of a rejection have at most 20 digits, as those of a `u64`.
abbrev pub Fits : LimitExceeded → Type 0
Fits (LimitExceeded.rpm limit) = limit < 10 ^ 20
Fits (LimitExceeded.tpm used limit) = (used < 10 ^ 20) × (limit < 10 ^ 20)

-- The text of a rejection tells its kind and its numbers: they are read back from it.
pub read_limit-limit_text : (e : LimitExceeded) → Fits e → read_limit (limit_text e) ≡ some e
unfolding read_limit limit_text read_rpm read_tpm strip_prefix
read_limit-limit_text (LimitExceeded.rpm limit) small =
    let number = take_number-decimal limit (codes " rpm)") small refl in
    let same = (text_eq_iff (codes " rpm)") (codes " rpm)")).1 refl in rw (number, same) refl
read_limit-limit_text (LimitExceeded.tpm used limit) small =
    let pair = read_pair-decimal used limit (codes " tpm)") small.0 small.1 refl in rw pair refl
