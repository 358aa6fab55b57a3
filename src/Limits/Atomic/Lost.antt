-- ===== src/Limits/Atomic/Lost.antt =====
-- src/limits.rs: tokens that are lost when a window ends.
use mathlib.Core.Path.{subst}
use patchbay.Common.{
  ℕ, ◌+◌, ◌-◌, ◌%◌, ◌≤◌, ◌<◌, ◌≡◌, refl, ap, sym, ◌∙◌, ◌⊎◌, inl, inr, true, false, some, List, [],
  ◌∷◌, arith, leb, get_elem?, length, All, All-set_at, All-get_elem?,
}
use patchbay.Upstream.{u64_mod}
use patchbay.Limits.{TpmCounter, add}
use patchbay.Common.Threads.{Threads, turns, turn, run, run-keeps, run-Became, length-run}
use patchbay.Limits.Atomic.{
  Adding, entering, resetting, storing, bumping, returned, advance, run_adding,
}

-- How many turns a call needs.
abbrev rank : Adding → ℕ
rank (entering n now) = 3
rank (resetting n now) = 2
rank (storing n) = 1
rank (bumping n) = 1
rank (returned n total) = 0

abbrev asked : Adding → ℕ
asked (entering n now) = n
asked (resetting n now) = n
asked (storing n) = n
asked (bumping n) = n
asked (returned n total) = n

advance-rank : (c : TpmCounter) (a : Adding) → rank (advance c a).1 ≤ rank a - 1
unfolding advance
advance-rank c (entering n now) = ground arith
advance-rank c (resetting n now) = omega arith
advance-rank c (storing n) = omega arith
advance-rank c (bumping n) = omega arith
advance-rank c (returned n total) = omega arith

advance-asked : (c : TpmCounter) (a : Adding) → asked (advance c a).1 ≡ asked a
unfolding advance
advance-asked c (entering n now) = ground arith
advance-asked c (resetting n now) = refl
advance-asked c (storing n) = refl
advance-asked c (bumping n) = refl
advance-asked c (returned n total) = refl

abbrev pub IsOneOf : ℕ → ℕ → ℕ → Type 0
IsOneOf a b n = (n ≡ a) ⊎ (n ≡ b)

-- A call that has found that the window has elapsed; when it has returned, it has returned its own
-- tokens, and the counter has those of one of the two calls.
abbrev IsRacing : ℕ → ℕ → ℕ → Adding → Type 0
IsRacing a b tokens (resetting n now) = IsOneOf a b n
IsRacing a b tokens (storing n) = IsOneOf a b n
IsRacing a b tokens (returned n total) = (total ≡ n) × IsOneOf a b tokens
IsRacing a b tokens _ = ⊥

IsRacing-kept :
    (a b t t' : ℕ) (x : Adding) → (t' ≡ t) ⊎ IsOneOf a b t' → IsRacing a b t x → IsRacing a b t' x
IsRacing-kept a b t t' (entering n now) kept r = absurd r
IsRacing-kept a b t t' (resetting n now) kept r = r
IsRacing-kept a b t t' (storing n) kept r = r
IsRacing-kept a b t t' (bumping n) kept r = absurd r
IsRacing-kept a b t t' (returned n total) (inl same) r = (r.0, subst (IsOneOf a b) (sym same) r.1)
IsRacing-kept a b t t' (returned n total) (inr one) r = (r.0, one)

All-kept :
    (a b t t' : ℕ) (calls : List Adding)
    → (t' ≡ t) ⊎ IsOneOf a b t'
    → All (IsRacing a b t) calls
    → All (IsRacing a b t') calls
All-kept a b t t' [] kept r = tt
All-kept a b t t' (x ∷ calls) kept r =
    (IsRacing-kept a b t t' x kept r.0, All-kept a b t t' calls kept r.1)

advance-kept :
    (a b : ℕ) (c : TpmCounter) (x : Adding)
    → IsRacing a b c.tokens x
    → ((advance c x).0.tokens ≡ c.tokens) ⊎ IsOneOf a b (advance c x).0.tokens
unfolding advance
advance-kept a b c (entering n now) r = absurd r
advance-kept a b c (resetting n now) r = inl refl
advance-kept a b c (storing n) r = inr r
advance-kept a b c (bumping n) r = absurd r
advance-kept a b c (returned n total) r = inl refl

advance-IsRacing :
    (a b : ℕ) (c : TpmCounter) (x : Adding)
    → IsRacing a b c.tokens x
    → IsRacing a b (advance c x).0.tokens (advance c x).1
unfolding advance
advance-IsRacing a b c (entering n now) r = absurd r
advance-IsRacing a b c (resetting n now) r = r
advance-IsRacing a b c (storing n) r = (refl, r)
advance-IsRacing a b c (bumping n) r = absurd r
advance-IsRacing a b c (returned n total) r = r

abbrev AllRacing : ℕ → ℕ → Threads TpmCounter Adding → Type 0
AllRacing a b s = All (IsRacing a b s.shared.tokens) s.calls

run-AllRacing :
    (a b : ℕ) (s : Threads TpmCounter Adding) (schedule : List ℕ)
    → AllRacing a b s
    → AllRacing a b (run_adding s schedule)
run-AllRacing a b = run-keeps advance (AllRacing a b) (λ s i x found r.
    All-set_at (IsRacing a b (advance s.shared x).0.tokens) s.calls i (advance s.shared x).1
      (All-kept a b s.shared.tokens (advance s.shared x).0.tokens s.calls
        (advance-kept a b s.shared x
          (All-get_elem? (IsRacing a b s.shared.tokens) s.calls i r found))
        r)
      (advance-IsRacing a b s.shared x
        (All-get_elem? (IsRacing a b s.shared.tokens) s.calls i r found)))

-- A call that races and has no turn left has returned its own tokens.
IsRacing-returned :
    (a b t n : ℕ) (x : Adding)
    → IsRacing a b t x
    → rank x ≤ 0
    → asked x ≡ n
    → (x ≡ returned n n) × IsOneOf a b t
IsRacing-returned a b t n (entering m now) r done e = absurd r
IsRacing-returned a b t n (resetting m now) r done e = absurd (omega arith)
IsRacing-returned a b t n (storing m) r done e = absurd (omega arith)
IsRacing-returned a b t n (bumping m) r done e = absurd r
IsRacing-returned a b t n (returned m total) r done e =
    (ap (returned m) r.0 ∙ ap (λ k. returned k k) e, r.1)

two_calls :
    (calls : List Adding) (x y : Adding)
    → length calls ≡ 2
    → get_elem? calls 0 ≡ some x
    → get_elem? calls 1 ≡ some y
    → calls ≡ x ∷ y ∷ []
two_calls [] x y two first second = cc
two_calls (u ∷ []) x y two first second = cc
two_calls (u ∷ v ∷ []) x y two first second = cc
two_calls (u ∷ v ∷ w ∷ calls) x y two first second = absurd (omega (arith, two))

-- Both calls have loaded the start of a window that has elapsed.
abbrev both_reset : TpmCounter → ℕ → ℕ → ℕ → ℕ → Threads TpmCounter Adding
both_reset c a b now later = record { shared = c; calls = resetting a now ∷ resetting b later ∷ [] }

both_loaded :
    (c : TpmCounter) (a b now later : ℕ)
    → c.window_start + 60 ≤ now
    → c.window_start + 60 ≤ later
    → (schedule : List ℕ)
    → run_adding
        (record { shared = c; calls = entering a now ∷ entering b later ∷ [] })
        (0 ∷ 1 ∷ schedule)
      ≡ run_adding (both_reset c a b now later) schedule
unfolding run turn advance
both_loaded c a b now later elapsed elapsed' schedule =
    let first : leb 60 (now - c.window_start) ≡ true = ground arith in
    let second : leb 60 (later - c.window_start) ≡ true = ground arith in rw (first, second) refl

one_by_one :
    (c : TpmCounter) (a b now later : ℕ)
    → c.window_start + 60 ≤ now
    → later < now + 60
    → add (add c a now).0 b later
      ≡ (record { window_start = now; tokens = (a + b) % u64_mod }, (a + b) % u64_mod)
unfolding add
one_by_one c a b now later elapsed close =
    let first : leb 60 (now - c.window_start) ≡ true = ground arith in
    let third : leb 60 (later - now) ≡ false = ground arith in rw (first, third) refl

-- What a race leaves: each call has returned its own tokens, and the counter has those of one of them.
pub record IsLost (a b : ℕ) (s : Threads TpmCounter Adding) : Type 0 where
  pub calls : s.calls ≡ returned a a ∷ returned b b ∷ []
  pub tokens : IsOneOf a b s.shared.tokens

race-IsLost :
    (c : TpmCounter) (a b now later : ℕ) (schedule : List ℕ)
    → 2 ≤ turns 0 schedule
    → 2 ≤ turns 1 schedule
    → IsLost a b (run_adding (both_reset c a b now later) schedule)
race-IsLost c a b now later schedule enough enough' =
    let s = both_reset c a b now later in
    let t = run_adding s schedule in
    let racing = run-AllRacing a b s schedule (inl refl, (inr refl, tt)) in
    let (x, at, near, same) =
      run-Became advance rank asked advance-rank advance-asked s schedule 0 (resetting a now)
        refl in
    let (y, at', near', same') =
      run-Became advance rank asked advance-rank advance-asked s schedule 1 (resetting b later)
        refl in
    let (first, one) =
      IsRacing-returned a b t.shared.tokens a x
        (All-get_elem? (IsRacing a b t.shared.tokens) t.calls 0 racing at)
        (omega (arith, near, enough)) same in
    let (second, one') =
      IsRacing-returned a b t.shared.tokens b y
        (All-get_elem? (IsRacing a b t.shared.tokens) t.calls 1 racing at')
        (omega (arith, near', enough')) same' in
    record {
      calls =
          two_calls t.calls (returned a a) (returned b b) (length-run advance s schedule)
            (at ∙ ap some first) (at' ∙ ap some second);
      tokens = one;
    }

-- Two calls, less than a minute apart, after the window has elapsed: when both load its start before
-- either stores, then in whichever order their stores come, two of each, the tokens of one call are
-- lost. Each call returns its own tokens, and the counter ends with those of one of the two alone. One
-- after the other they count both, mod 2^64, and the second returns the sum.
pub run-IsLost :
    (c : TpmCounter) (a b now later : ℕ) (schedule : List ℕ)
    → c.window_start + 60 ≤ now
    → c.window_start + 60 ≤ later
    → later < now + 60
    → 2 ≤ turns 0 schedule
    → 2 ≤ turns 1 schedule
    → IsLost a b (
        run_adding
          (record { shared = c; calls = entering a now ∷ entering b later ∷ [] })
          (0 ∷ 1 ∷ schedule))
      × (add (add c a now).0 b later
          ≡ (record { window_start = now; tokens = (a + b) % u64_mod }, (a + b) % u64_mod))
run-IsLost c a b now later schedule elapsed elapsed' close enough enough' = (
  subst (IsLost a b) (sym (both_loaded c a b now later elapsed elapsed' schedule))
      (race-IsLost c a b now later schedule enough enough'),
  one_by_one c a b now later elapsed close,
)
