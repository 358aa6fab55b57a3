-- ===== src/Tests/Secrets.antt =====
-- Other secrets, other keys and other orders on the small gateway.
use mathlib.Core.List.Perm
use patchbay.Common.{ℕ, zero, suc, ◌≡◌, refl, some, none, err, List, [], ◌∷◌, map, arith, is_empty}
use patchbay.Common.Texts.{Text, codes, text_eq}
use patchbay.Config.Load.{from_toml_str}
use patchbay.Config.Secrets.{Renaming, map_ok, renamed_config, renamed_env, from_toml_str-renamed}
use patchbay.Upstream.Client.{HttpRequest}
use patchbay.Common.Maps.{get}
use patchbay.Limits.{LimitExceeded, limit_for, check_rpm}
use patchbay.Limits.Isolated.{Call, only, answers_to, answers_to-only}
use patchbay.Metrics.{new_metrics, render}
use patchbay.Metrics.Recorded.{Recording, recorded}
use patchbay.Metrics.Interleaved.{render-Perm}
use patchbay.Server.{AppState}
use patchbay.Server.Messages.{error_of, Tells, chat_completions-Tells}
use patchbay.Server.Handler.{chat_completions}
use patchbay.Router.Opaque.{IsBlind, router_from_config-IsBlind}
use patchbay.Router.Ewma.{router_from_config}
use patchbay.Server.Opaque.{
  rekeyed_request, rekeyed_state, rekeyed_result, chat_completions-rekeyed,
}
use patchbay.Tests.{thousandths, env}
use patchbay.Tests.Routing.{raw, parsers}
use patchbay.Tests.Accounting.{countdown, store}
use patchbay.Tests.Serving.{world, always, state, ann_identity, send, config}

-- Each character of a secret is replaced by the next one.
abbrev shifted : Text → Text
shifted = map suc

shifted-same : (a b : Text) → text_eq (shifted a) (shifted b) ≡ text_eq a b
unfolding text_eq
shifted-same [] [] = refl
shifted-same [] (d ∷ b) = refl
shifted-same (c ∷ a) [] = refl
shifted-same (c ∷ a) (d ∷ b) = ground (arith, shifted-same a b)

shifted-empty : (a : Text) → is_empty (shifted a) ≡ is_empty a
shifted-empty [] = refl
shifted-empty (c ∷ a) = refl

abbrev shift : Renaming
shift = record { to = shifted; same = shifted-same; empty = shifted-empty }

from_toml_str-renamed_example :
    from_toml_str thousandths parsers [] (renamed_env shift (text_eq (codes "A")) env)
    ≡ map_ok (renamed_config shift) (from_toml_str thousandths parsers [] env)
unfolding text_eq
from_toml_str-renamed_example =
    from_toml_str-renamed shift thousandths parsers (text_eq (codes "A")) [] env raw refl
      (record { url = refl; key = λ var e. ground arith }, tt) (refl, tt)

abbrev calls : List Call
calls =
    Call.check (codes "bob") 0
    ∷ Call.check (codes "ann") 1
    ∷ Call.add_tokens (codes "ann") 5 60
    ∷ Call.check (codes "bob") 2
    ∷ []

answers_to-only_example :
    answers_to countdown (codes "bob") store calls
    ≡ answers_to countdown (codes "bob") store (only (codes "bob") calls)
answers_to-only_example = answers_to-only countdown (codes "bob") store calls

abbrev first : Recording
first = Recording.upstream_error (codes "desk")

abbrev second : Recording
second = Recording.rate_limit_rejection (codes "ann")

render-Perm_example :
    render (recorded new_metrics (first ∷ second ∷ first ∷ []))
    ≡ render (recorded new_metrics (second ∷ first ∷ first ∷ []))
render-Perm_example =
    render-Perm (first ∷ second ∷ first ∷ []) (second ∷ first ∷ first ∷ [])
      (Perm.swap second first (first ∷ []))

answered_alike : (n : ℕ) (r : HttpRequest) → send n (rekeyed_request shifted r) ≡ send n r
answered_alike zero r = refl
answered_alike (suc n) r = refl

router_made : router_from_config thousandths config ≡ some state.router
unfolding router_from_config
router_made = refl

first-IsBlind : IsBlind shifted state.router
first-IsBlind = router_from_config-IsBlind shifted thousandths config state.router router_made

chat_completions-rekeyed_example :
    chat_completions always
      (record world { send = send })
      0
      ann_identity
      (codes "{}")
      (rekeyed_state shifted always state)
    ≡ rekeyed_result shifted always
        (chat_completions always world 0 ann_identity (codes "{}") state)
chat_completions-rekeyed_example =
    chat_completions-rekeyed shifted always world send answered_alike 0 ann_identity (codes "{}")
      state first-IsBlind

-- The limiter of ann has counted down.
abbrev spent_state : AppState countdown
spent_state = record {
  router = state.router;
  keys = state.keys;
  budget = state.budget;
  limits = record {
    limits = (codes "ann", record { max_rpm = some 1; max_tpm = none }) ∷ [];
    rpm_limiters = (codes "ann", 0) ∷ [];
    tpm_counters = [];
  };
  metrics = new_metrics;
}

rejected : (check_rpm countdown spent_state.limits (codes "ann") 0).1 ≡ err (LimitExceeded.rpm 1)
unfolding check_rpm limit_for get text_eq
rejected = refl

chat_completions-Tells_example :
    Tells
      (λ tags. codes "[]")
      (error_of
        (λ tags. codes "[]")
        (chat_completions countdown world 0 ann_identity (codes "{}") spent_state).1)
      (LimitExceeded.rpm 1)
chat_completions-Tells_example =
    chat_completions-Tells (λ tags. codes "[]") countdown world 0 ann_identity (codes "{}")
      spent_state (LimitExceeded.rpm 1) rejected (omega arith)
