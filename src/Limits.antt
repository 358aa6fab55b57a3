-- ===== src/Limits.antt =====
-- src/limits.rs: requests and tokens per minute for each key. The governor crate is a parameter.
pub mod Windows
pub mod Admission
pub mod Isolated
pub mod Atomic
pub mod Display
use patchbay.Common.{
  ℕ, zero, suc, ◌+◌, ◌-◌, ◌/◌, ◌%◌, Bool, true, false, Option, none, some, List, [], ◌∷◌, Result,
  ok, err, ltb, leb, ◌==◌, if◌then◌else◌,
}
use patchbay.Common.Texts.{Text}
use patchbay.Common.Maps.{Map, get, insert}
use patchbay.Upstream.{u64_mod}

pub record RateLimit : Type 0 where
  pub max_rpm : Option ℕ
  pub max_tpm : Option ℕ

-- `RateLimit::unlimited`
abbrev pub unlimited : RateLimit
unlimited = record { max_rpm = none; max_tpm = none }

pub data LimitExceeded : Type 0 where
  rpm : ℕ → LimitExceeded
  tpm : ℕ → ℕ → LimitExceeded

pub record TpmCounter : Type 0 where
  pub window_start : ℕ
  pub tokens : ℕ

-- `TpmCounter::default`
abbrev pub new_counter : TpmCounter
new_counter = record { window_start = 0; tokens = 0 }

-- `TpmCounter::add`: the counter, and the new total of the window. `-` stops at 0 here as in
-- `saturating_sub`; `fetch_add` wraps.
unfoldable pub add : TpmCounter → ℕ → ℕ → TpmCounter × ℕ
add c tokens now_secs =
    if leb 60 (now_secs - c.window_start)
    then (record { window_start = now_secs; tokens = tokens }, tokens)
    else (record c { tokens = (c.tokens + tokens) % u64_mod }, (c.tokens + tokens) % u64_mod)

unfoldable pub current : TpmCounter → ℕ → ℕ
current c now_secs = if leb 60 (now_secs - c.window_start) then 0 else c.tokens

-- The limiter of the governor crate: `keyed` makes one from a quota per minute, which is not 0, and
-- `check_key` says at a time whether one more request of a key conforms.
pub record Governor : Type 1 where
  pub Limiter : Type 0
  pub keyed : ℕ → Limiter
  pub check_key : Limiter → Text → ℕ → Bool × Limiter

module _ (g : Governor) where
  pub record RateLimitStore : Type 0 where
    pub limits : Map RateLimit
    pub rpm_limiters : Map g.Limiter
    pub tpm_counters : Map TpmCounter

  -- the closure of the `filter_map` in `RateLimitStore::new`
  limiter_of : Option ℕ → Option g.Limiter
  limiter_of none = none
  limiter_of (some zero) = none
  limiter_of (some (suc n)) = some (g.keyed (suc n))

  limiters_of : Map RateLimit → Map g.Limiter
  limiters_of [] = []
  limiters_of ((name, limit) ∷ rest) = elim (limiter_of limit.max_rpm) [
    | none ↦ limiters_of rest
    | some l ↦ (name, l) ∷ limiters_of rest
  ]

  -- `RateLimitStore::new`
  unfoldable pub new_store : Map RateLimit → RateLimitStore
  unfolding limiters_of limiter_of
  new_store limits = record {
    limits = limits;
    rpm_limiters = limiters_of limits;
    tpm_counters = [];
  }

  limit_of : Option RateLimit → RateLimit
  limit_of none = unlimited
  limit_of (some l) = l

  unfoldable pub limit_for : RateLimitStore → Text → RateLimit
  unfolding limit_of
  limit_for s key = limit_of (get s.limits key)

  entry : RateLimitStore → Text → Option TpmCounter → RateLimitStore × TpmCounter
  entry s key (some c) = (s, c)
  entry s key none =
      (record s { tpm_counters = insert s.tpm_counters key new_counter }, new_counter)

  -- `tpm_counter`: the counter of the key, which is made when there is none. The counter is shared,
  -- so whoever changes it puts it back under its key.
  unfoldable pub tpm_counter : RateLimitStore → Text → RateLimitStore × TpmCounter
  unfolding entry
  tpm_counter s key = entry s key (get s.tpm_counters key)

  -- `check_key` of the key's own limiter changes that limiter.
  checked :
      RateLimitStore
      → Text
      → ℕ
      → Option g.Limiter
      → ℕ
      → RateLimitStore × Result LimitExceeded (Unit {0})
  checked s key now none limit = (s, ok tt)
  checked s key now (some l) limit =
      let (conforms, l') = g.check_key l key now in
      let s' = record s { rpm_limiters = insert s.rpm_limiters key l' } in
      (s', if conforms then ok tt else err (LimitExceeded.rpm limit))

  unfoldable pub check_rpm :
      RateLimitStore → Text → ℕ → RateLimitStore × Result LimitExceeded (Unit {0})
  unfolding checked
  check_rpm s key now = elim ((limit_for s key).max_rpm) [
    | none ↦ (s, ok tt)
    | some limit ↦ checked s key now (get s.rpm_limiters key) limit
  ]

  over : Option ℕ → ℕ → Result LimitExceeded ℕ
  over none new_total = ok new_total
  over (some max_tpm) new_total =
      if ltb max_tpm new_total then err (LimitExceeded.tpm new_total max_tpm) else ok new_total

  unfoldable pub record_tpm :
      RateLimitStore → Text → ℕ → ℕ → RateLimitStore × Result LimitExceeded ℕ
  unfolding over
  record_tpm s key tokens now =
      let (s', c) = tpm_counter s key in
      let (c', new_total) = add c tokens now in
      (
        record s' { tpm_counters = insert s'.tpm_counters key c' },
        over (limit_for s key).max_tpm new_total,
      )

  unfoldable pub current_tpm : RateLimitStore → Text → ℕ → RateLimitStore × ℕ
  current_tpm s key now = let (s', c) = tpm_counter s key in (s', current c now)

-- `60u64.div_ceil(rpm)`
unfoldable pub retry_after_secs : ℕ → ℕ
retry_after_secs n = if n == 0 then 60 else (60 + (n - 1)) / n
