-- ===== src/Limits/Windows.antt =====
-- src/limits.rs: the tokens of a window, and the delay of a retry.
use patchbay.Common.{
  ℕ, ◌+◌, ◌*◌, ◌%◌, ◌<◌, ◌≤◌, ◌≡◌, ap, ◌∙◌, List, [], ◌∷◌, arith, leb, if◌then◌else◌,
}
use patchbay.Upstream.{u64_mod}
use patchbay.Limits.{TpmCounter, add, current, retry_after_secs}

-- Times with the tokens that are added at them.
abbrev pub Additions : Type 0
Additions = List (ℕ × ℕ)

pub add_all : TpmCounter → Additions → TpmCounter
add_all c [] = c
add_all c ((now, tokens) ∷ rest) = add_all (add c tokens now).0 rest

abbrev pub sum : Additions → ℕ
sum [] = 0
sum ((now, tokens) ∷ rest) = tokens + sum rest

-- Every time is less than a minute after `start`, or before it.
abbrev pub AllWithin : ℕ → Additions → Type 0
AllWithin start [] = Unit
AllWithin start ((now, tokens) ∷ rest) = (now < start + 60) × AllWithin start rest

add_all-within :
    (c : TpmCounter) (more : Additions)
    → c.tokens < u64_mod
    → AllWithin c.window_start more
    → add_all c more ≡ record c { tokens = (c.tokens + sum more) % u64_mod }
unfolding add_all
add_all-within c [] small within = let e : (c.tokens + 0) % u64_mod ≡ c.tokens = omega arith in rw e
add_all-within c ((now, tokens) ∷ rest) small within =
    let next : TpmCounter = record c { tokens = (c.tokens + tokens) % u64_mod } in
    let e : (add c tokens now).0 ≡ next = (unfold add in ground arith) in
    let later = add_all-within next rest (omega arith) within.1 in
    let total : ((c.tokens + tokens) % u64_mod + sum rest) % u64_mod
        ≡ (c.tokens + (tokens + sum rest)) % u64_mod =
      omega arith in
    ap (λ (d : TpmCounter). add_all d rest) e ∙ later ∙ rw total

-- An addition a minute or more after the window began opens a new window at its time; with the
-- additions of less than a minute after it, the counter reads their sum mod 2^64 for that time, and
-- 0 from a minute after the start.
pub add_all-window :
    (c : TpmCounter) (start tokens now : ℕ) (more : Additions)
    → c.window_start + 60 ≤ start
    → tokens < u64_mod
    → AllWithin start more
    → current (add_all c ((start, tokens) ∷ more)) now
      ≡ (if leb (start + 60) now then 0 else (tokens + sum more) % u64_mod)
unfolding add_all current
add_all-window c start tokens now more later small within =
    let fresh : TpmCounter = record { window_start = start; tokens = tokens } in
    let e : (add c tokens start).0 ≡ fresh = (unfold add in ground arith) in
    ap (λ (d : TpmCounter). current (add_all d more) now) e
    ∙ ap (λ (d : TpmCounter). current d now) (add_all-within fresh more small within)
    ∙ ground arith

-- The delay is the least whole number of seconds in which a rate of `n` a minute grants a request.
pub retry_after_secs-least :
    (n secs : ℕ)
    → 0 < n
    → (60 ≤ retry_after_secs n * n) × (60 ≤ secs * n → retry_after_secs n ≤ secs)
unfolding retry_after_secs
retry_after_secs-least n secs h = (grind arith, λ k. grind arith)
