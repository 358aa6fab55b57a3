-- ===== src/Server.antt =====
-- src/server.rs: the handler of chat completions, with its retries and its accounting. A handler
-- takes the state and returns it; the message of an error response is given by its cause.
pub mod Handler
pub mod Routes
pub mod Tasks
pub mod Keeps
pub mod Boot
pub mod Retries
pub mod Outcomes
pub mod Handled
pub mod Opaque
pub mod Messages
pub mod Accounts
pub mod Models
use Prim.Native.Nat.{min}
use patchbay.Common.{
  ℕ, zero, suc, ◌+◌, ◌-◌, ◌*◌, ◌/◌, ◌%◌, ◌^◌, Bool, true, false, not, ◌&&◌, Option, none, some,
  List, [], ◌∷◌, ◌++◌, Result, ok, err, ltb, leb, if◌then◌else◌, is_empty,
}
use patchbay.Common.Texts.{Text, codes, contains}
use patchbay.Common.Order.{Float64}
use patchbay.Config.{Backend, GatewayConfig}
use patchbay.Router.{RouteError, Router, query_for, route}
use patchbay.Router.Ewma.{router_from_config}
use patchbay.Auth.{KeyIdentity, KeyStore, from_virtual_keys}
use patchbay.Upstream.{
  Bytes, Usage, RelayOutcome, completed, stalled, client_disconnected, upstream_error, RelaySummary,
}
use patchbay.Upstream.Relay.{UpstreamPoll, RelayPoll, SseRelay, new_relay, drop_relay, run}
use patchbay.Upstream.Client.{
  UpstreamError, is_retryable, upstream_status, HttpRequest, HttpResponse, upstream_request,
  open_sse,
}
use patchbay.Limits.{LimitExceeded, Governor, RateLimitStore, new_store, check_rpm, record_tpm}
use patchbay.Budget.{BudgetLedger, Codec, Files, new_ledger, record_usage}
use patchbay.Metrics.{
  MetricsHandle, new_metrics, record_request, record_tokens, record_upstream_error,
  record_rate_limit_rejection,
}

abbrev pub max_retries : ℕ
max_retries = 5

abbrev base_backoff_ms : ℕ
base_backoff_ms = 100

abbrev max_backoff_ms : ℕ
max_backoff_ms = 2000

abbrev pub stall_timeout_ms : ℕ
stall_timeout_ms = 30000

unfoldable pub backoff_ms : ℕ → ℕ
backoff_ms attempt = min (base_backoff_ms * 2 ^ min attempt 10) max_backoff_ms

-- `noise` is the hash of the time.
unfoldable pub jitter : ℕ → ℕ → ℕ
jitter ms noise = ms + noise % (ms / 4 + 1)

pub record CompletionRequest : Type 0 where
  pub model : Text
  pub stream : Bool

-- Why an error response is sent.
pub data Cause : Type 0 where
  limited : LimitExceeded → Cause
  model_required unreachable : Cause
  unroutable : RouteError → Cause
  failed : UpstreamError → Cause
  unread : Text → Cause

-- A response: an error with its status, type and cause; a stream, which a relay feeds; or a body.
pub data Response : Type 0 where
  error : ℕ → Text → Cause → Response
  streaming : Text → SseRelay → Response
  buffered : ℕ → Text → Bytes → Response

-- A request that is sent to a backend, with the wait before it.
pub record Attempt : Type 0 where
  pub wait_ms : ℕ
  pub backend : Backend
  pub request : HttpRequest

abbrev pub completions_path : Text
completions_path = codes "/v1/chat/completions"

-- What the handler asks of others: `serde_json` on a request and on the usage of a body, sending a
-- request at an attempt, and the noise of a wait.
pub record World : Type 0 where
  pub parse_request : Bytes → Option CompletionRequest
  pub usage_of_body : Bytes → Option Usage
  pub send : ℕ → HttpRequest → Result Text HttpResponse
  pub noise : ℕ → ℕ

module _ (g : Governor) where
  pub record AppState : Type 0 where
    pub router : Router
    pub keys : KeyStore
    pub budget : BudgetLedger
    pub limits : RateLimitStore g
    pub metrics : MetricsHandle

  -- `AppState::from_config`, at the time `now` in seconds
  unfoldable pub from_config :
      (x : Float64) {Addr : Type 0} → Codec → Files → ℕ → GatewayConfig Addr x.F → Option AppState
  from_config x codec files now cfg = elim (router_from_config x cfg) [
    | none ↦ none
    | some router ↦ some (record {
      router = router;
      keys = from_virtual_keys cfg.virtual_keys;
      budget = new_ledger codec files now [] 3600 none;
      limits = new_store g [];
      metrics = new_metrics;
    })
  ]

  -- `if let Some(usage)`: the ledger, the token counters and the window of the key.
  -- `now` is in milliseconds.
  unfoldable pub account_usage : ℕ → Text → Option Usage → AppState → AppState
  account_usage now key none s = s
  account_usage now key (some u) s = record s {
    budget = record_usage s.budget key u;
    metrics = record_tokens s.metrics key u;
    limits = (record_tpm g s.limits key u.total_tokens (now / 1000)).0;
  }

  unfoldable pub account_outcome : Text → RelayOutcome → AppState → AppState
  account_outcome backend completed s = s
  account_outcome backend stalled s = record s { metrics = record_upstream_error s.metrics backend }
  account_outcome backend (upstream_error e) s = record s {
    metrics = record_upstream_error s.metrics backend;
  }
  account_outcome backend client_disconnected s = s

  -- The task that `stream_response` spawns, once the channel has a summary; the channel of a relay
  -- that is dropped without one is an error, and the task ends.
  unfoldable pub account_stream : ℕ → Text → Text → List RelaySummary → AppState → AppState
  account_stream now key backend [] s = s
  account_stream now key backend (summary ∷ later) s =
      account_outcome backend summary.outcome (account_usage now key summary.usage s)

abbrev all_models : List Backend → List Text
all_models [] = []
all_models (b ∷ bs) = b.models ++ all_models bs

-- `collect` into a `HashSet`, whose order is not specified.
distinct_from : List Text → List Text → List Text
distinct_from seen [] = []
distinct_from seen (t ∷ ts) =
    let later = distinct_from seen ts in
    let rest = distinct_from (t ∷ seen) ts in if contains seen t then later else t ∷ rest

-- `list_models`: the identifiers of the response.
unfoldable pub list_models : Router → List Text
unfolding distinct_from
list_models r = distinct_from [] (all_models r.backends)
