-- ===== src/Tests/System.antt =====
-- The whole program on the two backends: the start, requests side by side, and the metrics.
use patchbay.Common.{
  ℕ, ◌+◌, ◌≤◌, ◌≡◌, refl, inl, true, false, none, some, List, [], ◌∷◌, ok, In, arith, get_elem?,
  is_empty,
}
use patchbay.Common.Texts.{Text, codes, text_eq, starts_with, strip_prefix, trim_end_matches}
use patchbay.Common.Maps.{get, insert}
use patchbay.Config.{GatewayConfig, serves_model, has_capability_tags}
use patchbay.Config.Load.{
  load, from_toml_str, resolve_backends, resolve_backend, resolve_api_key, resolve_virtual_keys,
  resolve_virtual_key, resolve_policy, is_valid_env_name,
}
use patchbay.Router.{admits, eligible, gather, select, resolve, classify, route, static_priority}
use patchbay.Router.Ewma.{ewma, ewma_policy, ewma_choose, min_from, router_from_config}
use patchbay.Auth.{is_open, collect, authenticate, from_virtual_keys, from_request_parts}
use patchbay.Upstream.Relay.{UpstreamPoll, new_relay, poll_next, report}
use patchbay.Upstream.Client.{new_client, upstream_request, is_retryable, open_sse}
use patchbay.Limits.{new_store, limit_for, check_rpm, record_tpm, tpm_counter}
use patchbay.Budget.{counters_for, new_ledger}
use patchbay.Budget.Accounting.{used_by, InRange}
use patchbay.Metrics.{new_metrics, render}
use patchbay.Metrics.Reader.{read_text}
use patchbay.Metrics.Scraped.{scraped, shown, times, scraped-render}
use patchbay.Metrics.Recorded.{Recording, recorded}
use patchbay.Server.{
  CompletionRequest, World, Attempt, completions_path, account_usage, account_stream,
  stall_timeout_ms, from_config,
}
use patchbay.Server.Handler.{
  wait_before, relay_response, buffered_response, forward, chat_completions,
}
use patchbay.Server.Routes.{App, Endpoint, Request, build_router, serve}
use patchbay.Server.Tasks.{
  Stream, forwarding, streaming, begin, on_answer, on_poll, Gateway, moved, arrive, answer, poll,
  summarised, Reach, start, later,
}
use patchbay.Server.Tasks.Routed.{AllRouted, Reach-AllRouted}
use patchbay.Server.Tasks.Ledger.{IsBilled}
use patchbay.Server.Tasks.Counted.{resumed, rank_at, Reach-resumed}
use patchbay.Server.Tasks.Relayed.{chunks_until}
use patchbay.Server.Tasks.Faithful.{opened, heard, Reach-got}
use patchbay.Server.Tasks.Billed.{Reach-IsBilled}
use patchbay.Main.{Host}
use patchbay.Main
use patchbay.Main.Safety.{IsAllowed, Visit, after, start-IsAllowed}
use patchbay.Tests.{thousandths, desk, ann, env}
use patchbay.Tests.Routing.{parsers}
use patchbay.Tests.Serving.{
  world, always, start_state, ann_identity, envelope, fired, codec, response,
}

abbrev host : Host thousandths parsers always
host = record {
  exists = λ p. true;
  read = λ p. ok [];
  env = env;
  codec = codec;
  files = λ p. none;
  now = 0;
  build_client = λ seconds. ok tt;
  bind_listener = λ a. ok tt;
}

abbrev app : App always
app = build_router always (record {
  router = record {
    backends = desk ∷ [];
    policy = ewma_policy thousandths (record { alpha = 500; stats = [] });
  };
  keys = from_virtual_keys (ann ∷ []);
  budget = new_ledger codec (λ p. none) 0 [] 3600 none;
  limits = new_store always [];
  metrics = new_metrics;
})

host_starts : Main.start thousandths parsers always host ≡ ok app
unfolding Main.start load from_toml_str resolve_backends resolve_backend resolve_api_key
    resolve_virtual_keys resolve_virtual_key resolve_policy is_valid_env_name text_eq starts_with
    trim_end_matches get insert from_config router_from_config ewma new_client
host_starts = refl

abbrev completion : Request
completion = record { authorization = some (codes "Bearer s1"); body = codes "{}" }

abbrev earlier : List (Visit thousandths parsers always)
earlier =
    record { world = world; now = 0; endpoint = Endpoint.scrape; request = completion }
    ∷ record { world = world; now = 1; endpoint = Endpoint.chat; request = completion }
    ∷ []

abbrev attempt : Attempt
attempt = record {
  wait_ms = 0;
  backend = desk;
  request = upstream_request desk completions_path (codes "{}");
}

attempt_sent :
    In attempt
      (serve always world 2 Endpoint.chat completion
        (after thousandths parsers always earlier app)).2
unfolding serve after from_request_parts strip_prefix chat_completions check_rpm forward open_sse
    is_retryable wait_before upstream_request route resolve classify select gather eligible admits
    serves_model has_capability_tags text_eq get limit_for is_open build_router from_virtual_keys
    collect insert authenticate new_store ewma_policy ewma_choose min_from relay_response
    buffered_response account_usage record_tpm tpm_counter
attempt_sent = inl refl

start-IsAllowed_example :
    (cfg : GatewayConfig Text ℕ) × (load thousandths parsers host.exists host.read host.env
      ≡ ok cfg)
    × IsAllowed thousandths parsers always cfg completion attempt
start-IsAllowed_example =
    start-IsAllowed thousandths parsers always host app earlier world 2 Endpoint.chat completion
      attempt host_starts attempt_sent

-- A client asks for a stream, polls it twice, and the stream is accounted for.
abbrev stream_world : World
stream_world = record world {
  parse_request = λ body. some (record { model = codes "m"; stream = true });
}

abbrev asked : CompletionRequest
asked = record { model = codes "m"; stream = true }

abbrev arrived : Gateway always stream_world
arrived = record {
  state = (begin always stream_world 0 ann_identity (codes "{}") start_state).0;
  tasks = (begin always stream_world 0 ann_identity (codes "{}") start_state).1 ∷ [];
}

desk_waits : get_elem? arrived.tasks 0 ≡ some (forwarding ann_identity asked desk (codes "{}") 0)
unfolding begin check_rpm limit_for get route resolve select static_priority gather eligible admits
    serves_model text_eq has_capability_tags new_store
desk_waits = refl

abbrev streams : Gateway always stream_world
streams = moved always stream_world envelope fired arrived 0 (
    on_answer always stream_world 1 (ok response) ann_identity asked desk (codes "{}") 0
      arrived.state)

arrived_reached : Reach always stream_world envelope fired start_state arrived
arrived_reached = later start (arrive 0 ann_identity (codes "{}"))

streams_reached : Reach always stream_world envelope fired start_state streams
streams_reached =
    later arrived_reached
      (answer 1 0 (ok response) ann_identity asked desk (codes "{}") 0 desk_waits)

abbrev stream : Stream
stream = record {
  key = codes "ann";
  backend = codes "desk";
  content_type = codes "text/event-stream";
  relay = new_relay 1 stall_timeout_ms;
  got = [];
  waiting = true;
  dropped = false;
}

stream_opened : get_elem? streams.tasks 0 ≡ some (streaming stream)
unfolding on_answer
stream_opened = refl

abbrev next : ℕ → UpstreamPoll → Stream → Stream
next = on_poll always stream_world envelope fired

abbrev usage_seen : Stream
usage_seen = next 2 (UpstreamPoll.chunk (codes "data: \"usage\"\n\n")) stream

abbrev ended : Stream
ended = next 3 UpstreamPoll.ended usage_seen

abbrev with_stream : Gateway always stream_world → Stream → Gateway always stream_world
with_stream t st = moved always stream_world envelope fired t 0 (t.state, streaming st)

abbrev all_read : Gateway always stream_world
all_read = with_stream (with_stream streams usage_seen) ended

stays_open : usage_seen.dropped ≡ false
unfolding on_poll
stays_open = refl

waits : ended.waiting ≡ true
unfolding on_poll
waits = refl

summary_sent : is_empty ended.relay.sent ≡ false
unfolding on_poll poll_next new_relay report
summary_sent = refl

abbrev accounted : Gateway always stream_world
accounted = moved always stream_world envelope fired all_read 0 (
  account_stream always 4 ended.key ended.backend ended.relay.sent all_read.state,
  streaming (record ended { waiting = false }),
)

accounted_reached : Reach always stream_world envelope fired start_state accounted
accounted_reached =
    later
      (later
        (later streams_reached
          (poll 2 0 (UpstreamPoll.chunk (codes "data: \"usage\"\n\n")) stream stream_opened refl))
        (poll 3 0 UpstreamPoll.ended usage_seen refl stays_open))
      (summarised 4 0 ended refl waits summary_sent)

Reach-AllRouted_example : AllRouted always stream_world start_state envelope fired arrived
Reach-AllRouted_example =
    Reach-AllRouted always stream_world start_state envelope fired arrived_reached

accounted_stream : get_elem? accounted.tasks 0 ≡ some (streaming (record ended { waiting = false }))
accounted_stream = refl

Reach-got_example :
    (record ended { waiting = false }).got
    ≡ chunks_until fired
        (opened always stream_world envelope fired start_state 0 accounted_reached
          + stall_timeout_ms)
        (heard always stream_world envelope fired start_state 0 accounted_reached)
Reach-got_example =
    Reach-got always stream_world envelope fired start_state 0 accounted accounted_reached
      (record ended { waiting = false }) accounted_stream

no_usage : InRange (used_by start_state.budget (codes "ann"))
unfolding counters_for get new_ledger
no_usage = omega arith

Reach-IsBilled_example :
    IsBilled always stream_world envelope fired start_state (codes "ann") accounted
Reach-IsBilled_example =
    Reach-IsBilled always stream_world envelope fired start_state (codes "ann") no_usage
      accounted_reached

Reach-resumed_example :
    resumed always stream_world start_state envelope fired 0 accounted_reached
      + rank_at accounted.tasks 0
    ≤ 7
Reach-resumed_example =
    Reach-resumed always stream_world start_state envelope fired 0 accounted accounted_reached

abbrev recordings : List Recording
recordings =
    Recording.request (codes "desk") (codes "m\n") (codes "2xx")
    ∷ Recording.upstream_error (codes "desk")
    ∷ []

scraped-render_example :
    scraped
      (record { backend = codes "desk"; model = codes "m\n"; status_class = codes "2xx" })
      (read_text (render (recorded new_metrics recordings)))
    ≡ shown (
        times
          (record { backend = codes "desk"; model = codes "m\n"; status_class = codes "2xx" })
          recordings)
scraped-render_example =
    scraped-render
      (record { backend = codes "desk"; model = codes "m\n"; status_class = codes "2xx" })
      recordings
