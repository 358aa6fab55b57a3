-- ===== src/Limits/Isolated.antt =====
-- src/limits.rs: calls for several keys on one store.
use patchbay.Common.{
  ℕ, ◌≡◌, refl, ap, sym, ◌∙◌, inl, inr, false, Option, none, some, List, [], ◌∷◌, arith, Result, ok,
  err, Bool-cases, Option-cases, if◌then◌else◌, ltb,
}
use patchbay.Common.Texts.{Text, text_eq, text_eq_iff}
use patchbay.Common.Maps.{get, insert, get-insert}
use patchbay.Limits.{
  RateLimit, LimitExceeded, TpmCounter, new_counter, add, current, Governor, RateLimitStore,
  limit_for, tpm_counter, check_rpm, record_tpm, current_tpm,
}

-- A call of the store: the key, and the time in the unit of the call.
pub data Call : Type 0 where
  check : Text → ℕ → Call
  add_tokens : Text → ℕ → ℕ → Call
  read : Text → ℕ → Call

pub data Answer : Type 0 where
  checked : Result LimitExceeded (Unit {0}) → Answer
  added : Result LimitExceeded ℕ → Answer
  tokens : ℕ → Answer

abbrev pub key_of : Call → Text
key_of (check key now) = key
key_of (add_tokens key n now) = key
key_of (read key now) = key

-- The calls for a key.
abbrev pub only : Text → List Call → List Call
only key [] = []
only key (c ∷ cs) = let rest = only key cs in if text_eq (key_of c) key then c ∷ rest else rest

module _ (g : Governor) where
  abbrev pub serve : RateLimitStore g → Call → RateLimitStore g × Answer
  serve s (check key now) = let (s', r) = check_rpm g s key now in (s', checked r)
  serve s (add_tokens key n now) = let (s', r) = record_tpm g s key n now in (s', added r)
  serve s (read key now) = let (s', n) = current_tpm g s key now in (s', tokens n)

  -- What the calls for a key are answered, when the store serves all the calls in their order.
  pub answers_to : Text → RateLimitStore g → List Call → List Answer
  answers_to key s [] = []
  answers_to key s (c ∷ cs) =
      let (s', answer) = serve s c in
      let rest = answers_to key s' cs in if text_eq (key_of c) key then answer ∷ rest else rest

  -- What a store has for a key.
  record Own : Type 0 where
    limit : RateLimit
    limiter : Option g.Limiter
    counter : TpmCounter

  own : RateLimitStore g → Text → Own
  own s key = record {
    limit = limit_for g s key;
    limiter = get s.rpm_limiters key;
    counter = (tpm_counter g s key).1;
  }

  serve-own_other :
      (s : RateLimitStore g) (c : Call) (key : Text)
      → text_eq (key_of c) key ≡ false
      → own (serve s c).0 key ≡ own s key
  unfolding own check_rpm record_tpm current_tpm tpm_counter limit_for
  serve-own_other s (check k now) key other = elim (Option-cases (get s.rpm_limiters k)) [
    | inl unlimited ↦ ground arith
    | inr (l, limited) ↦ ground (arith, get-insert s.rpm_limiters k key (g.check_key l k now).1)
  ]
  serve-own_other s (add_tokens k n now) key other =
      let c = (add (tpm_counter g s k).1 n now).0 in
      elim (Option-cases (get s.tpm_counters k)) [
        | inl fresh ↦ ground (
          arith,
          get-insert (insert s.tpm_counters k new_counter) k key c,
          get-insert s.tpm_counters k key new_counter,
        )
        | inr (old, known) ↦ ground (arith, get-insert s.tpm_counters k key c)
      ]
  serve-own_other s (read k now) key other = elim (Option-cases (get s.tpm_counters k)) [
    | inl fresh ↦ ground (arith, get-insert s.tpm_counters k key new_counter)
    | inr (old, known) ↦ ground arith
  ]

  -- The call of a key on what the store has for it.
  own_checked : Own → Text → ℕ → Option g.Limiter → Option ℕ → Own × Answer
  own_checked o key now limiter none = (o, checked (ok tt))
  own_checked o key now none (some limit) = (o, checked (ok tt))
  own_checked o key now (some l) (some limit) =
      let (conforms, l') = g.check_key l key now in
      (
        record o { limiter = some l' },
        checked (if conforms then ok tt else err (LimitExceeded.rpm limit)),
      )

  own_verdict : Option ℕ → ℕ → Result LimitExceeded ℕ
  own_verdict none n = ok n
  own_verdict (some limit) n = if ltb limit n then err (LimitExceeded.tpm n limit) else ok n

  own_serve : Own → Call → Own × Answer
  own_serve o (check key now) = own_checked o key now o.limiter o.limit.max_rpm
  own_serve o (add_tokens key n now) =
      let (c, total) = add o.counter n now in
      (record o { counter = c }, added (own_verdict o.limit.max_tpm total))
  own_serve o (read key now) = (o, tokens (current o.counter now))

  record Agrees (s : RateLimitStore g) (c : Call) : Type 0 where
    left : own (serve s c).0 (key_of c) ≡ (own_serve (own s (key_of c)) c).0
    answer : (serve s c).1 ≡ (own_serve (own s (key_of c)) c).1

  serve-Agrees : (s : RateLimitStore g) (c : Call) → Agrees s c
  unfolding own own_serve own_checked own_verdict check_rpm record_tpm current_tpm tpm_counter
      limit_for
  serve-Agrees s (check k now) = elim (Option-cases (limit_for g s k).max_rpm) [
    | inl unlimited ↦ record { left = ground arith; answer = ground arith }
    | inr (limit, limited) ↦ elim (Option-cases (get s.rpm_limiters k)) [
      | inl missing ↦ record { left = ground arith; answer = ground arith }
      | inr (l, found) ↦ record {
        left =
            ground (arith, text_eq_iff k k, get-insert s.rpm_limiters k k (g.check_key l k now).1);
        answer = ground arith;
      }
    ]
  ]
  serve-Agrees s (add_tokens k n now) =
      let c = (add (tpm_counter g s k).1 n now).0 in
      elim (Option-cases (get s.tpm_counters k)) [
        | inl fresh ↦ record {
          left =
              ground
                (arith, text_eq_iff k k, get-insert (insert s.tpm_counters k new_counter) k k c);
          answer = ground arith;
        }
        | inr (old, known) ↦ record {
          left = ground (arith, text_eq_iff k k, get-insert s.tpm_counters k k c);
          answer = ground arith;
        }
      ]
  serve-Agrees s (read k now) = elim (Option-cases (get s.tpm_counters k)) [
    | inl fresh ↦ record {
      left = ground (arith, text_eq_iff k k, get-insert s.tpm_counters k k new_counter);
      answer = ground arith;
    }
    | inr (old, known) ↦ record { left = ground arith; answer = ground arith }
  ]

  -- Two stores that have the same for a key answer a call for it in the same way, and go on so.
  serve-own_same :
      (s t : RateLimitStore g) (c : Call)
      → own s (key_of c) ≡ own t (key_of c)
      → ((serve s c).1 ≡ (serve t c).1)
        × (own (serve s c).0 (key_of c) ≡ own (serve t c).0 (key_of c))
  serve-own_same s t c same =
      let a = serve-Agrees s c in
      let b = serve-Agrees t c in
      (
        a.answer ∙ ap (λ o. (own_serve o c).1) same ∙ sym b.answer,
        a.left ∙ ap (λ o. (own_serve o c).0) same ∙ sym b.left,
      )

  answers_to-own :
      (key : Text) (s t : RateLimitStore g) (cs : List Call)
      → own s key ≡ own t key
      → answers_to key s cs ≡ answers_to key t (only key cs)
  unfolding answers_to
  answers_to-own key s t [] same = refl
  answers_to-own key s t (c ∷ cs) same = elim (Bool-cases (text_eq (key_of c) key)) [
    | inr other ↦
        rw other (answers_to-own key (serve s c).0 t cs (serve-own_other s c key other ∙ same))
    | inl mine ↦
        let e = (text_eq_iff (key_of c) key).0 mine in
        let same' : own s (key_of c) ≡ own t (key_of c) = rw e same in
        let (answer, left) = serve-own_same s t c same' in
        let left' : own (serve s c).0 key ≡ own (serve t c).0 key = rw e at left in
        let rest = answers_to-own key (serve s c).0 (serve t c).0 cs left' in
        ground (arith, answer, rest)
  ]

  -- However the calls for several keys come in between each other, a key is answered as if the store
  -- had only its own calls: whether a request is admitted and how many tokens are counted depends on
  -- the calls for no other key.
  pub answers_to-only :
      (key : Text) (s : RateLimitStore g) (cs : List Call)
      → answers_to key s cs ≡ answers_to key s (only key cs)
  answers_to-only key s cs = answers_to-own key s s cs refl
