-- ===== src/Limits/Admission.antt =====
-- src/limits.rs: what a store counts for each key, and which requests it admits.
use patchbay.Common.{
  ℕ, zero, suc, ◌+◌, ◌%◌, ◌<◌, ◌≡◌, ◌≢◌, refl, ap, ◌∙◌, Option, none, some, [], ◌∷◌, arith, Result,
  ok, err, ltb, Option-cases, Bool-cases, inl, inr, In, Distinct, if◌then◌else◌,
}
use patchbay.Common.Texts.{Text, text_eq, text_eq_iff}
use patchbay.Common.Maps.{Map, get, keys, get-insert, get-empty}
use patchbay.Upstream.{u64_mod}
use patchbay.Limits.{
  RateLimit, LimitExceeded, TpmCounter, new_counter, add, current, Governor, RateLimitStore,
  new_store, limiter_of, limiters_of, limit_for, tpm_counter, check_rpm, record_tpm, current_tpm,
}

module _ (g : Governor) where
  -- The limiter of a key, and the tokens that it has used in its window.
  abbrev pub tokens_of : RateLimitStore g → Text → ℕ → ℕ
  tokens_of s key now = (current_tpm g s key now).1

  tokens_of-entry :
      (s : RateLimitStore g) (key : Text) (now : ℕ)
      → tokens_of s key now ≡ (elim (get s.tpm_counters key) [ none ↦ 0 | some c ↦ current c now ])
  unfolding current_tpm tpm_counter current
  tokens_of-entry s key now = ground arith

  add-current :
      (c : TpmCounter) (tokens now : ℕ)
      → tokens < u64_mod
      → ((add c tokens now).1 ≡ (current c now + tokens) % u64_mod)
        × (current (add c tokens now).0 now ≡ (add c tokens now).1)
  unfolding add current
  add-current c tokens now small = ground arith

  -- What recording leaves under a key: the counter of the key with the tokens added.
  record_tpm-entry :
      (s : RateLimitStore g) (key other : Text) (tokens now : ℕ)
      → get (record_tpm g s key tokens now).0.tpm_counters other ≡ (
          if text_eq key other
          then some (add (tpm_counter g s key).1 tokens now).0
          else get s.tpm_counters other)
  unfolding record_tpm tpm_counter
  record_tpm-entry s key other tokens now =
      let c = (tpm_counter g s key).1 in
      ground (
        arith,
        get-insert (tpm_counter g s key).0.tpm_counters key other (add c tokens now).0,
        get-insert s.tpm_counters key other new_counter,
      )

  abbrev pub verdict : Option ℕ → ℕ → Result LimitExceeded ℕ
  verdict none used = ok used
  verdict (some limit) used = if ltb limit used then err (LimitExceeded.tpm used limit) else ok used

  -- Recording tokens for a key adds them, mod 2^64, to what the key has used in the minute, and to no
  -- other key's use; the caller gets the new use, as an error exactly when the key has a limit and
  -- the use is over it.
  pub record_tpm-tokens :
      (s : RateLimitStore g) (key other : Text) (tokens now : ℕ)
      → tokens < u64_mod
      → (tokens_of (record_tpm g s key tokens now).0 other now ≡ (
          if text_eq key other
          then (tokens_of s key now + tokens) % u64_mod
          else tokens_of s other now))
        × ((record_tpm g s key tokens now).1
            ≡ verdict (limit_for g s key).max_tpm ((tokens_of s key now + tokens) % u64_mod))
  record_tpm-tokens s key other tokens now small =
      let c = (tpm_counter g s key).1 in
      let total = add-current c tokens now small in
      let here : tokens_of s key now ≡ current c now = (unfold current_tpm in refl) in
      (
        ground (
          arith,
          tokens_of-entry (record_tpm g s key tokens now).0 other now,
          tokens_of-entry s other now,
          record_tpm-entry s key other tokens now,
          total.0,
          total.1,
          here,
        ),
        unfold record_tpm in ground (arith, total.0, here),
      )

  abbrev fresh_limiter : Option ℕ → Option g.Limiter
  fresh_limiter none = none
  fresh_limiter (some zero) = none
  fresh_limiter (some (suc n)) = some (g.keyed (suc n))

  limiter_of-fresh : (r : Option ℕ) → limiter_of g r ≡ fresh_limiter r
  unfolding limiter_of
  limiter_of-fresh none = refl
  limiter_of-fresh (some zero) = refl
  limiter_of-fresh (some (suc n)) = refl

  -- a key that is not in the table has no limiter
  limiters_of-missing :
      (limits : Map RateLimit) (key : Text)
      → ¬ In key (keys limits)
      → get (limiters_of g limits) key ≡ none
  unfolding limiters_of get
  limiters_of-missing [] key h = refl
  limiters_of-missing ((name, l) ∷ rest) key h =
      let later = limiters_of-missing rest key (λ m. h (inr m)) in
      elim (Bool-cases (text_eq name key)) [
        | inl same ↦ absurd (h (inl ((text_eq_iff name key).0 same)))
        | inr differs ↦ ground (arith, later)
      ]

  -- Each key of the table has a limiter of its own quota, if that is not 0.
  limiters_of-get :
      (limits : Map RateLimit) (key : Text) (l : RateLimit)
      → Distinct (keys limits)
      → get limits key ≡ some l
      → get (limiters_of g limits) key ≡ fresh_limiter l.max_rpm
  unfolding limiters_of get
  limiters_of-get [] key l d h = cc
  limiters_of-get ((name, k) ∷ rest) key l d h = elim (Bool-cases (text_eq name key)) [
    | inl same ↦
        let e = (text_eq_iff name key).0 same in
        let gone = limiters_of-missing rest key (rw e at d.0) in
        ground (arith, gone, limiter_of-fresh k.max_rpm)
    | inr differs ↦
        let later = limiters_of-get rest key l d.1 (ground arith) in ground (arith, later)
  ]

  abbrev pub first_verdict : Option ℕ → Text → ℕ → Result LimitExceeded (Unit {0})
  first_verdict none key now = ok tt
  first_verdict (some zero) key now = ok tt
  first_verdict (some (suc n)) key now =
      if (g.check_key (g.keyed (suc n)) key now).0 then ok tt else err (LimitExceeded.rpm (suc n))

  -- The first request of a key is decided by a limiter that has just been made with exactly the
  -- quota of that key. A key of the table that has no limit is admitted, and so is one with limit 0.
  pub check_rpm-new_store :
      (limits : Map RateLimit) (key : Text) (l : RateLimit) (now : ℕ)
      → Distinct (keys limits)
      → get limits key ≡ some l
      → (check_rpm g (new_store g limits) key now).1 ≡ first_verdict l.max_rpm key now
  unfolding check_rpm new_store limit_for
  check_rpm-new_store limits key l now d h =
      let own = limiters_of-get limits key l d h in quota l.max_rpm refl own
    where
      quota :
          (r : Option ℕ)
          → l.max_rpm ≡ r
          → get (limiters_of g limits) key ≡ fresh_limiter l.max_rpm
          → (check_rpm g (new_store g limits) key now).1 ≡ first_verdict l.max_rpm key now
      quota none e own = ground arith
      quota (some zero) e own = ground arith
      quota (some (suc n)) e own = ground arith

  -- A request of one key does not change what another key is told.
  pub check_rpm-other :
      (s : RateLimitStore g) (key other : Text) (now later : ℕ)
      → key ≢ other
      → (check_rpm g (check_rpm g s key now).0 other later).1 ≡ (check_rpm g s other later).1
  unfolding check_rpm limit_for
  check_rpm-other s key other now later ne = elim (Option-cases (get s.rpm_limiters key)) [
    | inl none_yet ↦ ground arith
    | inr (l, own) ↦
        let kept = get-insert s.rpm_limiters key other (g.check_key l key now).1 in
        ground (arith, kept, text_eq_iff key other)
  ]

  -- A store with an empty table admits every request.
  pub check_rpm-unlimited :
      (s : RateLimitStore g) (key : Text) (now : ℕ)
      → s.limits ≡ []
      → check_rpm g s key now ≡ (s, ok tt)
  unfolding check_rpm limit_for
  check_rpm-unlimited s key now e =
      let missing : get s.limits key ≡ none = ap (λ m. get m key) e ∙ get-empty key in ground arith
